-- ===== src/Journal/Tests.antt =====
-- Concrete runs of lib/JournalImpl.cpp.
use mathlib.Core.List.{Perm}
use bdbmsgstore.Prelude.{
  ℕ, suc, List, some, ◌*◌, ◌≡◌, ◌+◌, ◌^◌, ◌<◌, refl, true, false, ◌||◌, none, some, [], ◌∷◌, arith,
  if◌then◌else◌, All,
}
use bdbmsgstore.Journal.{
  JournalImpl, returned, undefined, partition, open_journal, init_message_db, enqueue_data,
  dequeue_data, is_enqueued, store_msg,
}
use bdbmsgstore.TxnCtxt.{begin, commit, abort, with_txn}
use bdbmsgstore.TxnCtxt.Ending.{ending}
use bdbmsgstore.Journal.Contents.{IsReady, contents}
use bdbmsgstore.Journal.Outcomes.{Kept, Enqueued}
use bdbmsgstore.Journal.Calls.{enqueue_data-Enqueued}
use bdbmsgstore.Journal.Refine.{enqueue, dequeue, apply_all, map_ops, apply_all-map}
use bdbmsgstore.Journal.Collide.{open_journal-undefined, second_is_lost}
use bdbmsgstore.Journal.Scan.{Row, recover_messages}
use bdbmsgstore.Journal.Scan.Whole.{all_rows, recover_messages-Perm}
use bdbmsgstore.Journal.Startup.{recover_complete, register_as_accepted}
use bdbmsgstore.Journal.Startup.Discard.{listed, recover_complete-Discards}
use bdbmsgstore.Journal.Cells.{
  Cells, cells, stored, cells-IsDatabase, cells-IsReliable, cells-HasTxns,
}

-- A journal with two databases, opened.
abbrev opened : JournalImpl Cells
opened = (init_message_db cells (open_journal 2 true)).1

opened-IsReady : IsReady opened
unfolding init_message_db open_journal
opened-IsReady = record { creates = refl; some_files = omega arith; as_many = refl; all_open = tt }

enqueue_data-Enqueued_example :
    let r = enqueue_data cells 7 (65 ∷ []) opened in
    IsReady r.1
    × ((d : Cells) × (partition 7 opened ≡ some d)
        × Enqueued stored 7
            (65 ∷ [])
            opened
            (ending (cells.put_txn 7 d) (cells.put 7 (65 ∷ []) d))
            r.0
            r.1)
enqueue_data-Enqueued_example =
    enqueue_data-Enqueued cells stored cells-IsDatabase 7 (65 ∷ []) opened opened-IsReady

apply_all-map_example :
    let ops = enqueue 7 (65 ∷ []) ∷ enqueue 8 [] ∷ dequeue 7 ∷ [] in
    let r = apply_all cells stored ops opened in
    IsReady r.1
    × All (λ o. o ≡ returned tt) r.0
    × ((p : ℕ) → p < 2 ^ 32 → contents stored r.1 p ≡ map_ops ops (contents stored opened) p)
apply_all-map_example =
    apply_all-map cells stored cells-IsDatabase cells-IsReliable cells-HasTxns
      (enqueue 7 (65 ∷ []) ∷ enqueue 8 [] ∷ dequeue 7 ∷ []) opened opened-IsReady
      (omega arith, (omega arith, (omega arith, tt)))

-- A journal that holds a message with id 7.
abbrev holds_7 : JournalImpl Cells
holds_7 = (enqueue_data cells 7 (65 ∷ []) opened).1

second_is_lost_example :
    let r = enqueue_data cells (7 + 2 ^ 32) (66 ∷ []) holds_7 in
    (r.0 ≡ returned tt)
    × Kept stored holds_7 r.1
    × (contents stored holds_7 (7 + 2 ^ 32) ≡ some (65 ∷ []))
unfolding enqueue_data store_msg init_message_db open_journal with_txn begin commit abort
second_is_lost_example =
    second_is_lost cells stored cells-IsDatabase 7 (7 + 2 ^ 32) (65 ∷ []) (66 ∷ []) holds_7
      (enqueue_data-Enqueued cells stored cells-IsDatabase 7 (65 ∷ []) opened opened-IsReady).0 refl
      refl refl cells-IsReliable cells-HasTxns

open_journal-undefined_example :
    let j = (init_message_db cells (open_journal 2 false)).1 in
    ((init_message_db cells (open_journal 2 false)).0 ≡ returned tt)
    × ((enqueue_data cells 7 [] j).0 ≡ undefined)
    × ((dequeue_data cells 7 j).0 ≡ undefined)
    × (is_enqueued cells 7 j ≡ undefined)
open_journal-undefined_example = open_journal-undefined cells 2 7 []

abbrev to_discard : JournalImpl Cells
to_discard = register_as_accepted (7 ∷ []) opened

recover_complete-Discards_example :
    (j' : JournalImpl Cells) × (recover_complete cells to_discard ≡ (returned tt, j'))
    × (j'.transient_list ≡ [])
    × (j'.accepted_list ≡ [])
    × ((p : ℕ)
        → p < 2 ^ 32
        → contents stored j' p ≡ (
            if listed p to_discard.transient_list || listed p to_discard.accepted_list
            then none
            else contents stored to_discard p))
unfolding register_as_accepted init_message_db open_journal
recover_complete-Discards_example =
    recover_complete-Discards cells stored cells-IsDatabase cells-IsReliable to_discard
      (record { creates = refl; some_files = omega arith; as_many = refl; all_open = tt }) tt
      (omega arith, tt)

-- Two databases, each with the same two messages.
abbrev two_rows : Cells → List Row
two_rows d = (7, 65 ∷ []) ∷ (9, []) ∷ []

recover_messages-Perm_example :
    (recovered : List Row) × (recover_messages cells two_rows (suc (2 * 6)) (open_journal 2 true)
      ≡ some (returned recovered, opened))
    × Perm (all_rows cells two_rows opened.message_dbs) recovered
unfolding init_message_db open_journal
recover_messages-Perm_example =
    recover_messages-Perm cells two_rows 6 (open_journal 2 true) opened refl refl tt refl
      (omega arith)
