-- ===== src/AsyncLog/Recover.antt =====
-- `recoverAsyncDequeue` and `recoverAsyncEnqueue` of lib/AsyncOperationLogger.cpp: both files are
-- read, the older index first, and removed; then the pending starts are logged anew to file 0.
pub mod Relog
pub mod Dequeues
pub mod Again
pub mod Enqueues
pub mod EnqueuesAgain
use mathlib.Core.List.{foldl}
use bdbmsgstore.Prelude.{ℕ, Bool, Option, List, [], ◌∷◌, ◌++◌}
use bdbmsgstore.TwoLevel.{TwoLevel, values}
use bdbmsgstore.PendingOperation.{PendingAsyncDequeue, PendingAsyncEnqueue}
use bdbmsgstore.AsyncLog.Format.{dequeue_start_buff, enqueue_start_buff}
use bdbmsgstore.AsyncLog.Replay.{PendingSets}
use bdbmsgstore.AsyncLog.Extract.{
  Reading, ended, threw, out_of_fuel, extract_pending_dequeue, extract_pending_enqueue,
}
use bdbmsgstore.AsyncLog.Logger.{LogFiles, open_append, remove_file, write}

module _ {S : Type 0} (extract : Option (List ℕ) → S → Reading S) where
  -- An exception leaves the loop before the file is removed.
  abbrev pub after_read : ℕ → LogFiles → Reading S → Reading S × LogFiles
  after_read k l (ended s) = (ended s, remove_file k l)
  after_read k l (threw s) = (threw s, l)
  after_read k l out_of_fuel = (out_of_fuel, l)

  abbrev pub recover_file : ℕ → Reading S × LogFiles → Reading S × LogFiles
  recover_file k (ended s, l) = after_read k l (extract (l.files k) s)
  recover_file k (threw s, l) = (threw s, l)
  recover_file k (out_of_fuel, l) = (out_of_fuel, l)

  -- for (int k=0;k<2;k++)
  unfoldable pub recover_files : S → LogFiles → Reading S × LogFiles
  recover_files s l = recover_file 1 (recover_file 0 (ended s, l))

-- log_dequeue_start(pad.msgId, pad.queueId)
abbrev pub relog_dequeue : LogFiles → PendingAsyncDequeue → LogFiles
relog_dequeue l pad = write (dequeue_start_buff pad.msg_id pad.queue_id) l

-- log_enqueue_start(pae.msgId, pae.queueId, pae.buff, pae.size, pae.transient)
abbrev pub relog_enqueue : LogFiles → PendingAsyncEnqueue → LogFiles
relog_enqueue l pae =
    write (enqueue_start_buff pae.msg_id pae.queue_id pae.buff pae.size pae.transient) l

abbrev pub finish_recovery :
    {V : Type 0}
    → (LogFiles → V → LogFiles)
    → Reading (PendingSets V) × LogFiles
    → Reading (PendingSets V) × LogFiles
finish_recovery relog (ended s, l) = (ended s, foldl relog (open_append 0 l) (values s.pending))
finish_recovery relog (threw s, l) = (threw s, l)
finish_recovery relog (out_of_fuel, l) = (out_of_fuel, l)

-- `adset` comes back as the pending set; the lost completions are dropped.
unfoldable pub recover_async_dequeue :
    TwoLevel PendingAsyncDequeue → LogFiles → Reading (PendingSets PendingAsyncDequeue) × LogFiles
unfolding recover_files
recover_async_dequeue adset l =
    finish_recovery relog_dequeue
      (recover_files extract_pending_dequeue (record { pending = adset; lost = [] }) l)

unfoldable pub recover_async_enqueue :
    (ℕ → Bool)
    → TwoLevel PendingAsyncEnqueue
    → LogFiles
    → Reading (PendingSets PendingAsyncEnqueue) × LogFiles
unfolding recover_files
recover_async_enqueue can_hold aeset l =
    finish_recovery relog_enqueue
      (recover_files (extract_pending_enqueue can_hold) (record { pending = aeset; lost = [] }) l)
