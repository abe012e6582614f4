-- ===== src/Registry/Tests.antt =====
-- Runs of lib/BdbStoreProvider.cpp on tables in memory.
use bdbmsgstore.Prelude.{ℕ, ◌≡◌, refl, true, Option, none, some, List, [], ◌∷◌}
use bdbmsgstore.IdSequence.{init, next, reset}
use bdbmsgstore.OrdMap.{insert, assign}
use bdbmsgstore.Journal.{Outcome, returned, raised}
use bdbmsgstore.TxnCtxt.{Answers, begin, commit, abort, with_txn}
use bdbmsgstore.Registry.{
  Table, create, create_config, create_exchange, destroy, recover_each, recover_configs,
  recover_exchanges,
}
use bdbmsgstore.Registry.Memory.{Rows, memory}
use bdbmsgstore.Registry.Run.{
  Objects, Command, new_config, new_exchange, drop_exchange, restart, created, destroyed, recovered,
  run,
}

abbrev fine : Answers
fine = record { txn_begin = some 0; commits = true; aborts = true }

abbrev busy : Answers
busy = record { txn_begin = none; commits = true; aborts = true }

abbrev empty_table : Table Rows
empty_table = record { db = ([], tt); ids = init }

abbrev nothing : Objects Rows
nothing = record { general = empty_table; exchanges = empty_table }

-- The broker keeps the encoding; it makes no exchange of the empty one.
abbrev read_config : List ℕ → Outcome (List ℕ)
read_config v = returned v

abbrev read_exchange : List ℕ → Outcome (Option (List ℕ))
read_exchange [] = returned none
read_exchange (x ∷ v) = returned (some (x ∷ v))

abbrev some_calls : List Command
some_calls =
    new_exchange fine (7 ∷ [])
    ∷ (new_exchange busy (8 ∷ [])
        ∷ (new_exchange fine (9 ∷ [])
            ∷ (drop_exchange 1
                ∷ (new_config fine (5 ∷ [])
                    ∷ (restart ∷ (new_exchange fine [] ∷ (restart ∷ [])))))))

-- An id is used up where the transaction cannot begin, and after a start the ids go on from the largest.
some_calls-run : run memory read_config read_exchange some_calls nothing ≡ (
    (new_exchange fine (7 ∷ []), created (returned 1))
    ∷ ((new_exchange busy (8 ∷ []), created raised)
        ∷ ((new_exchange fine (9 ∷ []), created (returned 3))
            ∷ ((drop_exchange 1, destroyed (returned tt))
                ∷ ((new_config fine (5 ∷ []), created (returned 1))
                    ∷ ((restart, recovered (returned ((1, 5 ∷ []) ∷ [], (3, 9 ∷ []) ∷ [])))
                        ∷ ((new_exchange fine [], created (returned 4))
                            ∷ ((restart, recovered (returned ((1, 5 ∷ []) ∷ [], (3, 9 ∷ []) ∷ [])))
                                ∷ []))))))))
unfolding run create_config create_exchange create destroy recover_configs recover_exchanges
    recover_each next reset with_txn begin commit abort insert assign
some_calls-run = refl
