-- ===== src/AsyncLog/Recover/Dequeues.antt =====
-- What the start-up pass over the dequeue log gives back and leaves behind.
use mathlib.Core.List.{foldl}
use bdbmsgstore.Prelude.{
  All, ℕ, ◌<◌, ◌≡◌, refl, ap, ◌∙◌, Option, none, some, List, [], ◌∷◌, ◌++◌, map, map-append,
  append_assoc, append-nil, take,
}
use bdbmsgstore.TwoLevel.{values}
use bdbmsgstore.PendingOperation.{PendingAsyncDequeue}
use bdbmsgstore.AsyncLog.Format.{
  DeqRecord, dequeue_start, deq_bytes, deq_log, deq_record, IsDeqRecord,
}
use bdbmsgstore.AsyncLog.Replay.{Record, PendingSets, no_sets, replay, record_seen}
use bdbmsgstore.AsyncLog.Extract.{ended, extract_pending_dequeue}
use bdbmsgstore.AsyncLog.Extract.DequeueLog.{extract-deq_log}
use bdbmsgstore.AsyncLog.Logger.{LogFiles, open_append, remove_file, write}
use bdbmsgstore.AsyncLog.Logger.Mass.{write-write}
use bdbmsgstore.AsyncLog.Recover.{relog_dequeue, recover_async_dequeue}

-- A dequeue log file that is not there, or holds these records and perhaps the beginning of one more.
abbrev pub HoldsDequeues : Option (List ℕ) → List DeqRecord → Type 0
HoldsDequeues none rs = rs ≡ []
HoldsDequeues (some bytes) rs =
    (torn : DeqRecord) × (n : ℕ) × (n < 17) × (bytes ≡ deq_log rs ++ take n (deq_bytes torn))

pub extract-HoldsDequeues :
    (file : Option (List ℕ)) (rs : List DeqRecord) (s : PendingSets PendingAsyncDequeue)
    → HoldsDequeues file rs
    → All IsDeqRecord rs
    → extract_pending_dequeue file s ≡ ended (replay (map deq_record rs) s)
extract-HoldsDequeues none rs s h ok = unfold extract_pending_dequeue replay in rw h
extract-HoldsDequeues (some bytes) rs s (torn, n, lt, e) ok =
    rw e (extract-deq_log rs torn n s ok lt)

pub replay-append :
    {V : Type 0} (xs ys : List (Record V)) (s : PendingSets V)
    → replay ys (replay xs s) ≡ replay (xs ++ ys) s
unfolding replay
replay-append [] ys s = refl
replay-append (x ∷ xs) ys s = replay-append xs ys (record_seen s x)

-- The start that a pending dequeue is logged as.
abbrev pub restart : PendingAsyncDequeue → DeqRecord
restart pad = dequeue_start pad.msg_id pad.queue_id

foldl-relog :
    (a : List ℕ) (l : LogFiles) (vs : List PendingAsyncDequeue)
    → foldl relog_dequeue (write a l) vs ≡ write (a ++ deq_log (map restart vs)) l
unfolding deq_log deq_bytes
foldl-relog a l [] = rw append-nil
foldl-relog a l (v ∷ vs) = rw (write-write a (deq_bytes (restart v)) l) (
    foldl-relog (a ++ deq_bytes (restart v)) l vs
    ∙ ap (λ x. write x l) (append_assoc a (deq_bytes (restart v)) (deq_log (map restart vs))))

pub open-write : (k : ℕ) (l : LogFiles) → open_append k l ≡ write [] (record l { index = k })
open-write k l = rw append-nil

-- Both files are gone; file 0 is written anew.
abbrev pub recovered_log : List PendingAsyncDequeue → LogFiles → LogFiles
recovered_log vs l =
    write (deq_log (map restart vs)) (record (remove_file 1 (remove_file 0 l)) { index = 0 })

-- The start-up pass over a dequeue log returns the replay of the records of file 0 and then of file
-- 1, each perhaps cut off at its end. It removes file 1, and leaves in file 0, the current one, one
-- start for each operation that is still pending.
pub recover_async_dequeue_lem :
    (l : LogFiles) (rs0 rs1 : List DeqRecord)
    → HoldsDequeues (l.files 0) rs0
    → HoldsDequeues (l.files 1) rs1
    → All IsDeqRecord rs0
    → All IsDeqRecord rs1
    → recover_async_dequeue [] l ≡ (
      ended (replay (map deq_record (rs0 ++ rs1)) no_sets),
      recovered_log (values (replay (map deq_record (rs0 ++ rs1)) no_sets).pending) l,
    )
unfolding recover_async_dequeue
recover_async_dequeue_lem l rs0 rs1 h0 h1 ok0 ok1 =
    rw
      (
        extract-HoldsDequeues (l.files 0) rs0 no_sets h0 ok0,
        extract-HoldsDequeues (l.files 1) rs1 (replay (map deq_record rs0) no_sets) h1 ok1,
        replay-append (map deq_record rs0) (map deq_record rs1) no_sets,
        map-append,
      )
      (ap (λ x. (ended (replay (map deq_record rs0 ++ map deq_record rs1) no_sets), x))
        (ap (λ x. foldl relog_dequeue x vs) (open-write 0 removed)
          ∙ foldl-relog [] (record removed { index = 0 }) vs))
  where
    removed : LogFiles
    removed = remove_file 1 (remove_file 0 l)

    vs : List PendingAsyncDequeue
    vs = values (replay (map deq_record rs0 ++ map deq_record rs1) no_sets).pending
