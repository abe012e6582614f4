-- ===== src/Registry/Queues/Tests.antt =====
-- Runs of the queues of lib/BdbStoreProvider.cpp in memory.
use bdbmsgstore.Prelude.{
  ℕ, ◌<◌, ◌≡◌, ◌==◌, refl, true, false, Bool, none, some, List, [], ◌∷◌, arith, is_some,
}
use bdbmsgstore.IdSequence.{init, next, reset}
use bdbmsgstore.Journal.{Outcome, returned, raised, open_journal, open_dbs, init_message_db}
use bdbmsgstore.Journal.Cells.{Cells, cells}
use bdbmsgstore.TxnCtxt.{Answers, begin, commit, abort, with_txn}
use bdbmsgstore.Registry.{Table, create, destroy, restarted}
use bdbmsgstore.Registry.Tables.{IsAhead, contents}
use bdbmsgstore.Registry.Memory.{Rows, memory, memory-IsObjectDb}
use bdbmsgstore.Registry.Bindings.{
  binding_dbt, delete_rows, is_of_queue, get_queue_id, delete_bindings_for_queue,
}
use bdbmsgstore.Registry.Bindings.Memory.{framing, memory-IsBindingDb, framing-IsFraming}
use bdbmsgstore.Registry.Bindings.Memory
use bdbmsgstore.Registry.Queues.{
  Queues, create_queue, destroy_queue, recover_queue_rows, recover_queues,
}
use bdbmsgstore.Registry.Queues.Made.{Made}
use bdbmsgstore.Registry.Queues.Dropped.{Dropped, destroy_queue-Dropped}
use bdbmsgstore.Registry.Queues.Listed.{Listed, recover_queues-Listed}

abbrev fine : Answers
fine = record { txn_begin = some 0; commits = true; aborts = true }

-- The encoding of a queue is its name.
abbrev read_queue : List ℕ → Outcome (List ℕ)
read_queue v = returned v

abbrev no_table : Table Rows
no_table = record { db = ([], tt); ids = init }

abbrev no_queue : Queues Rows Cells
no_queue = record { table = no_table; journal_list = λ i. none }

abbrev one_queue : Queues Rows Cells
one_queue = (create_queue memory cells 2 fine true 0 (113 ∷ []) (113 ∷ []) no_queue).1

created_run :
    (create_queue memory cells 2 fine true 0 (113 ∷ []) (113 ∷ []) no_queue).0 ≡ returned (some 1)
unfolding create_queue create next with_txn begin commit abort init_message_db open_journal open_dbs
created_run = refl

no_directory :
    let (o, s) = create_queue memory cells 2 fine false 0 (113 ∷ []) (113 ∷ []) no_queue in
    (o ≡ raised) × (s.table.db.0 ≡ (1, 113 ∷ []) ∷ [])
unfolding create_queue create next with_txn begin commit abort
no_directory = (refl, refl)

abbrev two_rows : Table Rows
two_rows = record {
  db = ((4, 0 ∷ (113 ∷ [])) ∷ ((9, 114 ∷ []) ∷ []), (refl, (refl, tt)));
  ids = init;
}

abbrev ids_after : Queues Rows Cells → ℕ
ids_after s = s.table.ids.id

-- The name of the first queue is empty as a C string: the second one is not recovered, and the next id is 2.
broken_off : let (p, s) = recover_queues {J = Cells} 2 memory read_queue two_rows in ids_after s ≡ 2
unfolding recover_queues recover_queue_rows reset
broken_off = refl

abbrev good_table : Table Rows
good_table = record {
  db = ((4, 113 ∷ []) ∷ ((3, 114 ∷ []) ∷ []), (refl, (refl, tt)));
  ids = record { id = 5 };
}

good_ahead : (k : ℕ) → is_some (contents memory good_table k) ≡ true → k < 5
good_ahead k h = ground (arith, h)

good_table-IsAhead : IsAhead memory 1 good_table
good_table-IsAhead = record { positive = omega arith; room = omega arith; above = good_ahead }

recovered_ids :
    let (p, s) = recover_queues {J = Cells} 2 memory read_queue good_table in ids_after s ≡ 5
unfolding recover_queues recover_queue_rows reset
recovered_ids = refl

recover_queues-Listed_example :
    let (p, s) = recover_queues {J = Cells} 2 memory read_queue (restarted good_table) in
    Listed Cells memory 2 read_queue 0 (contents memory good_table) p s
recover_queues-Listed_example =
    recover_queues-Listed Cells memory 2 read_queue memory-IsObjectDb 0 good_table
      good_table-IsAhead (refl, (refl, tt))

-- The binding of the queue 4, "q", by the key "k".
abbrev value : List ℕ
value = 4 ∷ (0 ∷ (0 ∷ (0 ∷ (0 ∷ (0 ∷ (0 ∷ (0 ∷ (1 ∷ (113 ∷ (1 ∷ (107 ∷ [])))))))))))

value-binding_dbt : binding_dbt framing 4 (113 ∷ []) (107 ∷ []) [] ≡ returned value
unfolding binding_dbt
value-binding_dbt = refl

abbrev good_queues : Queues Rows Cells
good_queues = record { table = good_table; journal_list = λ i. none }

abbrev all_removed : ℕ → Bool
all_removed k = true

destroyed_run :
    let (o, (s, b)) =
      destroy_queue memory Memory.memory framing all_removed true fine 4 good_queues
        ((2, value) ∷ []) in
    (s.table.db.0 ≡ (3, 114 ∷ []) ∷ []) × (b ≡ [])
unfolding destroy_queue destroy delete_bindings_for_queue delete_rows is_of_queue get_queue_id
    with_txn begin commit abort
destroyed_run = (refl, refl)

destroy_queue-Dropped_example :
    let (o, (s, b)) =
      destroy_queue memory Memory.memory framing all_removed true fine 4 good_queues
        ((2, value) ∷ []) in
    Dropped memory Memory.memory framing 0 fine 4
      (4 == 4)
      (2, value)
      good_queues
      ((2, value) ∷ [])
      o
      s
      b
destroy_queue-Dropped_example =
    destroy_queue-Dropped memory Memory.memory framing memory-IsObjectDb memory-IsBindingDb
      framing-IsFraming 0 all_removed true fine 4 good_queues ((2, value) ∷ []) 2 4 (113 ∷ [])
      (107 ∷ []) [] value good_table-IsAhead (omega arith) value-binding_dbt
