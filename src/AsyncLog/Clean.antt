-- ===== src/AsyncLog/Clean.antt =====
-- `cleanEnqueueLog` and `cleanDequeueLog` of lib/AsyncOperationLogger.cpp: one round of the cleaner
-- threads' endless loops. A round does not hold the mutex throughout: other threads append to the new
-- current file between `rotate`, `compact` and each lost completion, so these are separate steps.
pub mod Counts
pub mod Dequeues
pub mod Keeps
use mathlib.Core.List.{foldl}
use bdbmsgstore.Prelude.{
  ℕ, ◌+◌, ◌%◌, Bool, true, false, Option, none, some, List, [], ◌∷◌, ◌++◌, ◌==◌, ltb, if◌then◌else◌,
  get_or,
}
use bdbmsgstore.TwoLevel.{values}
use bdbmsgstore.PendingOperation.{PendingAsyncOperation, PendingAsyncDequeue, PendingAsyncEnqueue}
use bdbmsgstore.AsyncLog.Format.{
  dequeue_start_buff, dequeue_complete_buff, enqueue_start_buff, enqueue_complete_buff,
}
use bdbmsgstore.AsyncLog.Replay.{PendingSets, no_sets}
use bdbmsgstore.AsyncLog.Extract.{
  Reading, ended, threw, out_of_fuel, extract_pending_dequeue, extract_pending_enqueue,
}
use bdbmsgstore.AsyncLog.Logger.{LogFiles, set_file, open_append, write}

-- A round is put off while the interval has not passed and the file is small.
unfoldable pub not_now : ℕ → ℕ → ℕ → ℕ → Bool
not_now total_seconds interval_in_seconds tellp warning_size =
    if ltb total_seconds interval_in_seconds
    then if ltb tellp warning_size then true else false
    else false

-- The handled index, and the files after the writers have been sent to the other one.
unfoldable pub rotate : LogFiles → ℕ × LogFiles
rotate l = (l.index, open_append ((l.index + 1) % 2) l)

-- The temporary log is opened to append; each start that is left is written to it.
unfoldable pub relogged : {V : Type 0} → (V → List ℕ) → List V → List ℕ
relogged start_bytes [] = []
relogged start_bytes (v ∷ vs) = start_bytes v ++ relogged start_bytes vs

-- The temporary log takes the place of the handled one; the temporary name is free again.
abbrev pub rewrite_file : ℕ → List ℕ → LogFiles → LogFiles
rewrite_file k starts l = record l {
  files = set_file k (some (get_or l.tmp [] ++ starts)) l.files;
  tmp = none;
}

module _ {V : Type 0} (start_bytes : V → List ℕ) where
  -- `tmp_opens` says whether the temporary log can be opened; if not, the handled file stays.
  abbrev pub after_extract :
      Bool → ℕ → LogFiles → Reading (PendingSets V) → Reading (PendingSets V) × LogFiles
  after_extract tmp_opens k l (ended s) = (
    ended s,
    (if tmp_opens then rewrite_file k (relogged start_bytes (values s.pending)) l else l),
  )
  after_extract tmp_opens k l (threw s) = (threw s, l)
  after_extract tmp_opens k l out_of_fuel = (out_of_fuel, l)

-- The handled file is read by itself, and rewritten with the starts that it leaves pending.
unfoldable pub compact_dequeue :
    Bool → ℕ → LogFiles → Reading (PendingSets PendingAsyncDequeue) × LogFiles
unfolding relogged
compact_dequeue tmp_opens k l =
    after_extract (λ pad. dequeue_start_buff pad.msg_id pad.queue_id) tmp_opens k l
      (extract_pending_dequeue (l.files k) no_sets)

unfoldable pub compact_enqueue :
    (ℕ → Bool) → Bool → ℕ → LogFiles → Reading (PendingSets PendingAsyncEnqueue) × LogFiles
unfolding relogged
compact_enqueue can_hold tmp_opens k l =
    after_extract
      (λ pae. enqueue_start_buff pae.msg_id pae.queue_id pae.buff pae.size pae.transient) tmp_opens
      k l (extract_pending_enqueue can_hold (l.files k) no_sets)

-- log_dequeue_complete(pao.msgId, pao.queueId) for each lost completion
unfoldable pub log_lost_dequeues : List PendingAsyncOperation → LogFiles → LogFiles
log_lost_dequeues ops l =
    foldl (λ l' pao. write (dequeue_complete_buff pao.msg_id pao.queue_id) l') l ops

unfoldable pub log_lost_enqueues : List PendingAsyncOperation → LogFiles → LogFiles
log_lost_enqueues ops l =
    foldl (λ l' pao. write (enqueue_complete_buff pao.msg_id pao.queue_id) l') l ops

-- One round of `cleanDequeueLog`, while other threads append `meanwhile` before the handled file is
-- read, and `later` before the lost completions are logged.
abbrev pub finish_dequeue_round :
    List ℕ → Reading (PendingSets PendingAsyncDequeue) × LogFiles → LogFiles
finish_dequeue_round later (ended s, l) = log_lost_dequeues (values s.lost) (write later l)
finish_dequeue_round later (threw s, l) = write later l
finish_dequeue_round later (out_of_fuel, l) = write later l

unfoldable pub clean_dequeue_round : Bool → List ℕ → List ℕ → LogFiles → LogFiles
unfolding rotate compact_dequeue log_lost_dequeues
clean_dequeue_round tmp_opens meanwhile later l =
    let (k, l') = rotate l in
    finish_dequeue_round later (compact_dequeue tmp_opens k (write meanwhile l'))

abbrev pub finish_enqueue_round :
    List ℕ → Reading (PendingSets PendingAsyncEnqueue) × LogFiles → LogFiles
finish_enqueue_round later (ended s, l) = log_lost_enqueues (values s.lost) (write later l)
finish_enqueue_round later (threw s, l) = write later l
finish_enqueue_round later (out_of_fuel, l) = write later l

unfoldable pub clean_enqueue_round : (ℕ → Bool) → Bool → List ℕ → List ℕ → LogFiles → LogFiles
unfolding rotate compact_enqueue log_lost_enqueues
clean_enqueue_round can_hold tmp_opens meanwhile later l =
    let (k, l') = rotate l in
    finish_enqueue_round later (compact_enqueue can_hold tmp_opens k (write meanwhile l'))
