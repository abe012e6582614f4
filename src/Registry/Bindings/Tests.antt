-- ===== src/Registry/Bindings/Tests.antt =====
-- Runs of the bindings of lib/BdbStoreProvider.cpp in memory.
use bdbmsgstore.Prelude.{
  ℕ, ◌≡◌, ◌&&◌, refl, true, false, some, List, [], ◌∷◌, ◌==◌, if◌then◌else◌, arith,
}
use bdbmsgstore.OrdMap.{OrdMap, find}
use bdbmsgstore.Journal.{returned, raised}
use bdbmsgstore.Journal.Scan.{Row}
use bdbmsgstore.TxnCtxt.{Answers, begin, commit, abort, with_txn}
use bdbmsgstore.Provider.Recovery.Rows.{eq_bytes}
use bdbmsgstore.Registry.Bindings.{
  binding_dbt, get_queue_id, is_of_queue, is_binding, read_binding, bind, delete_rows,
  delete_bindings_for_queue, delete_binding, bind_rows, recover_bindings,
}
use bdbmsgstore.Registry.Bindings.Memory.{memory, framing, memory-IsBindingDb, framing-IsFraming}
use bdbmsgstore.Registry.Bindings.Unbound.{Unbound, delete_binding-Unbound}
use bdbmsgstore.Registry.Bindings.Bound.{Recovered, recover_bindings-Recovered}

abbrev fine : Answers
fine = record { txn_begin = some 0; commits = true; aborts = true }

-- The queue 4, "q", by the key "k"; and the queue 5 by the key "kk".
abbrev value : List ℕ
value = 4 ∷ (0 ∷ (0 ∷ (0 ∷ (0 ∷ (0 ∷ (0 ∷ (0 ∷ (1 ∷ (113 ∷ (1 ∷ (107 ∷ [])))))))))))

abbrev other : List ℕ
other = 5 ∷ (0 ∷ (0 ∷ (0 ∷ (0 ∷ (0 ∷ (0 ∷ (0 ∷ (1 ∷ (114 ∷ (2 ∷ (107 ∷ (107 ∷ []))))))))))))

abbrev rows : List Row
rows = (2, value) ∷ ((2, other) ∷ ((3, value) ∷ []))

value-binding_dbt : binding_dbt framing 4 (113 ∷ []) (107 ∷ []) [] ≡ returned value
unfolding binding_dbt
value-binding_dbt = refl

bind_run :
    bind memory framing fine 2 5 (114 ∷ []) (107 ∷ (107 ∷ [])) [] ((3, value) ∷ [])
    ≡ (returned tt, (2, other) ∷ ((3, value) ∷ []))
unfolding bind binding_dbt with_txn begin commit abort
bind_run = refl

bind_twice : bind memory framing fine 3 4 (113 ∷ []) (107 ∷ []) [] rows ≡ (raised, rows)
unfolding bind binding_dbt with_txn begin commit abort
bind_twice = refl

queue_destroyed :
    delete_bindings_for_queue memory framing fine 4 rows ≡ (returned tt, (2, other) ∷ [])
unfolding delete_bindings_for_queue delete_rows is_of_queue get_queue_id with_txn begin commit abort
queue_destroyed = refl

unbound :
    delete_binding memory framing fine 2 4 (107 ∷ []) rows
    ≡ (returned tt, (2, other) ∷ ((3, value) ∷ []))
unfolding delete_binding delete_rows is_binding get_queue_id with_txn begin commit abort
unbound = refl

-- The exchange 3 is gone.
abbrev exchanges : OrdMap ℕ
exchanges = (2, 20) ∷ []

abbrev queues : OrdMap ℕ
queues = (4, 40) ∷ ((5, 50) ∷ [])

recovery :
    recover_bindings memory framing exchanges queues rows
    ≡ returned (
      record { exchange = 2; queue_name = 113 ∷ []; routing_key = 107 ∷ []; args = [] }
          ∷ (record {
            exchange = 2;
            queue_name = 114 ∷ [];
            routing_key = 107 ∷ (107 ∷ []);
            args = [];
          }
              ∷ []),
      (2, value) ∷ ((2, other) ∷ []),
    )
unfolding recover_bindings bind_rows read_binding get_queue_id find
recovery = refl

delete_binding-Unbound_example :
    Unbound memory fine
      (2 == 2 && (if 4 == 4 then eq_bytes (107 ∷ []) (107 ∷ []) else false))
      (2, value)
      rows
      (delete_binding memory framing fine 2 4 (107 ∷ []) rows)
delete_binding-Unbound_example =
    delete_binding-Unbound memory framing memory-IsBindingDb framing-IsFraming fine 2 4 (107 ∷ [])
      rows 2 4 (113 ∷ []) (107 ∷ []) [] value (omega arith) value-binding_dbt

recover_bindings-Recovered_example :
    Recovered memory framing memory-IsBindingDb exchanges queues 4
      (record { exchange = 2; queue_name = 113 ∷ []; routing_key = 107 ∷ []; args = [] })
      (2, value)
      rows
      (recover_bindings memory framing exchanges queues rows)
recover_bindings-Recovered_example =
    recover_bindings-Recovered memory framing memory-IsBindingDb exchanges queues framing-IsFraming
      rows 2 4 (113 ∷ []) (107 ∷ []) [] value (omega arith) value-binding_dbt
