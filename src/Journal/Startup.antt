-- ===== src/Journal/Startup.antt =====
-- The lists of messages that lib/JournalImpl.cpp discards at start-up, and its flush timer. `sync` makes no change that the model sees.
pub mod Discard
use bdbmsgstore.Prelude.{
  ℕ, Bool, true, false, Option, none, some, List, [], ◌∷◌, ◌++◌, if◌then◌else◌,
}
use bdbmsgstore.Journal.{
  JournalImpl, Outcome, returned, raised, undefined, partition, set_partition,
}
use bdbmsgstore.Journal.Berkeley.{Status, Database}

unfoldable pub register_as_transient : {D : Type 0} → List ℕ → JournalImpl D → JournalImpl D
register_as_transient tr_list j = record j {
  transient_list = tr_list ++ j.transient_list;
  write_activity_flag = true;
}

unfoldable pub register_as_accepted : {D : Type 0} → List ℕ → JournalImpl D → JournalImpl D
register_as_accepted ac_list j = record j {
  accepted_list = ac_list ++ j.accepted_list;
  write_activity_flag = true;
}

module _ {D : Type 0} (db : Database D) where
  abbrev pub delete_at :
      ℕ
      → JournalImpl D
      → (JournalImpl D → Outcome (Unit {0}) × JournalImpl D)
      → Option (Status × D)
      → Outcome (Unit {0}) × JournalImpl D
  delete_at id j go_on none = (raised, j)
  delete_at id j go_on (some (s, d)) = go_on (set_partition id d j)

  abbrev pub delete_in :
      ℕ
      → JournalImpl D
      → (JournalImpl D → Outcome (Unit {0}) × JournalImpl D)
      → Option D
      → Outcome (Unit {0}) × JournalImpl D
  delete_in id j go_on none = (undefined, j)
  delete_in id j go_on (some d) = delete_at id j go_on (db.del id d)

  -- The loops over the list: a status that is not 0 is counted for the log only.
  unfoldable pub delete_each : List ℕ → JournalImpl D → Outcome (Unit {0}) × JournalImpl D
  delete_each [] j = (returned tt, j)
  delete_each (id ∷ ids) j = delete_in id j (delete_each ids) (partition id j)

  abbrev pub clear_accepted :
      Outcome (Unit {0}) × JournalImpl D → Outcome (Unit {0}) × JournalImpl D
  clear_accepted (returned u, j) = (returned tt, record j { accepted_list = [] })
  clear_accepted (raised, j) = (raised, j)
  clear_accepted (undefined, j) = (undefined, j)

  abbrev pub clear_transient :
      Outcome (Unit {0}) × JournalImpl D → Outcome (Unit {0}) × JournalImpl D
  clear_transient (returned u, j) = (returned tt, record j { transient_list = [] })
  clear_transient (raised, j) = (raised, j)
  clear_transient (undefined, j) = (undefined, j)

  -- With an empty list there is nothing to do, and nothing to clear.
  unfoldable pub discard_accepted_message : JournalImpl D → Outcome (Unit {0}) × JournalImpl D
  unfolding delete_each
  discard_accepted_message j =
      clear_accepted (if j.create_bdb then delete_each j.accepted_list j else (returned tt, j))

  unfoldable pub discard_transient_message : JournalImpl D → Outcome (Unit {0}) × JournalImpl D
  unfolding delete_each
  discard_transient_message j =
      clear_transient (if j.create_bdb then delete_each j.transient_list j else (returned tt, j))

  abbrev pub then_accepted : Outcome (Unit {0}) × JournalImpl D → Outcome (Unit {0}) × JournalImpl D
  then_accepted (returned u, j) = discard_accepted_message j
  then_accepted (raised, j) = (raised, j)
  then_accepted (undefined, j) = (undefined, j)

  unfoldable pub recover_complete : JournalImpl D → Outcome (Unit {0}) × JournalImpl D
  unfolding discard_transient_message discard_accepted_message
  recover_complete j = then_accepted (discard_transient_message j)

-- The timer: a quiet period after a write triggers one flush.
unfoldable pub flush_fire : {D : Type 0} → JournalImpl D → JournalImpl D
flush_fire j =
    if j.write_activity_flag
    then record j { write_activity_flag = false; flush_triggered_flag = false }
    else if j.flush_triggered_flag
    then j
    else record j { flush_triggered_flag = true }
