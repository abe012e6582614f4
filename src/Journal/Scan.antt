-- ===== src/Journal/Scan.antt =====
-- `recoverMessages` of lib/JournalImpl.cpp: reading a journal at start-up, one message from each
-- database in turn, through the cursors of lib/Cursor.h.
pub mod Lap
pub mod Once
pub mod Whole
use bdbmsgstore.Prelude.{
  ℕ, zero, suc, ◌+◌, ◌*◌, ◌%◌, Bool, true, false, Option, none, some, List, [], ◌∷◌, ◌++◌, ltb,
  if◌then◌else◌, length, get_elem?, map,
}
use bdbmsgstore.Journal.{
  JournalImpl, Outcome, returned, raised, undefined, set_elem, init_message_db,
}
use bdbmsgstore.Journal.Berkeley.{Database}

-- The id and the bytes of a message.
abbrev pub Row : Type 0
Row = ℕ × List ℕ

-- A cursor's messages that `next` has not given yet, and the flag of `cursorsDone`.
abbrev pub Slot : Type 0
Slot = List Row × Bool

pub record Scan : Type 0 where
  pub slots : List Slot
  pub sindex : ℕ
  pub done_cnt : ℕ
  pub recovered : List Row

abbrev pub visit : Option Slot → Scan → Scan
visit none s = s
visit (some (rows, true)) s = s
visit (some ([], false)) s = record s {
  slots = set_elem s.sindex ([], true) s.slots;
  done_cnt = s.done_cnt + 1;
}
visit (some (row ∷ rows, false)) s = record s {
  slots = set_elem s.sindex (rows, false) s.slots;
  recovered = s.recovered ++ (row ∷ []);
}

-- sindex = (sindex+1)%num_jfiles
abbrev pub advance : ℕ → Scan → Scan
advance num_jfiles s = record s { sindex = (s.sindex + 1) % num_jfiles }

-- The loop, with fuel.
unfoldable pub scan_loop : ℕ → ℕ → Scan → Option (List Row)
scan_loop num_jfiles zero s = none
scan_loop num_jfiles (suc fuel) s =
    let rest =
      scan_loop num_jfiles fuel (advance num_jfiles (visit (get_elem? s.slots s.sindex) s)) in
    if ltb s.done_cnt num_jfiles then rest else some s.recovered

-- The turns that the unfinished cursors take: one for each message and one for the end.
abbrev pub work : List Slot → ℕ
work [] = 0
work ((rows, true) ∷ slots) = work slots
work ((rows, false) ∷ slots) = suc (length rows) + work slots

abbrev pub fresh : List Row → Slot
fresh rows = (rows, false)

abbrev pub start : List (List Row) → Scan
start cursors = record { slots = map fresh cursors; sindex = 0; done_cnt = 0; recovered = [] }

module _ {D : Type 0} (db : Database D) (rows : D → List Row) where
  -- The cursors are opened on all databases; `rows` is what `next` of one gives until it is false.
  abbrev pub open_cursors : List (Option D) → Option (List (List Row))
  open_cursors [] = some []
  open_cursors (none ∷ dbs) = none
  open_cursors (some d ∷ dbs) = elim (open_cursors dbs) [
    | none ↦ none
    | some cursors ↦ some (rows d ∷ cursors)
  ]

  abbrev pub answer :
      JournalImpl D → Option (List Row) → Option (Outcome (List Row) × JournalImpl D)
  answer j none = none
  answer j (some recovered) = some (returned recovered, j)

  abbrev pub scan_cursors :
      ℕ → JournalImpl D → Option (List (List Row)) → Option (Outcome (List Row) × JournalImpl D)
  scan_cursors fuel j none = some (undefined, j)
  scan_cursors fuel j (some cursors) = answer j (scan_loop j.num_jfiles fuel (start cursors))

  abbrev pub after_init :
      ℕ → Outcome (Unit {0}) × JournalImpl D → Option (Outcome (List Row) × JournalImpl D)
  after_init fuel (returned u, j) =
      if j.create_bdb
      then scan_cursors fuel j (open_cursors j.message_dbs)
      else some (returned [], j)
  after_init fuel (raised, j) = some (raised, j)
  after_init fuel (undefined, j) = some (undefined, j)

  -- `none` where the fuel does not suffice. The vector of recovered messages is returned.
  unfoldable pub recover_messages : ℕ → JournalImpl D → Option (Outcome (List Row) × JournalImpl D)
  recover_messages fuel j = after_init fuel (init_message_db db j)
