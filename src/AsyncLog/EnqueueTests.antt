-- ===== src/AsyncLog/EnqueueTests.antt =====
-- Concrete runs on the enqueue log of lib/AsyncOperationLogger.cpp.
use bdbmsgstore.Prelude.{
  All, ℕ, zero, suc, Bool, true, ◌≡◌, refl, Option, none, some, List, [], ◌∷◌, ◌++◌, map, arith,
}
use bdbmsgstore.Bytes.{put_u64}
use bdbmsgstore.TwoLevel.{lookup, values}
use bdbmsgstore.PendingOperation.{PendingAsyncEnqueue}
use bdbmsgstore.AsyncLog.Format.{
  EnqRecord, enqueue_start, enqueue_complete, enq_bytes, enq_log, enq_record,
}
use bdbmsgstore.AsyncLog.Replay.{PendingSets, no_sets, replay}
use bdbmsgstore.AsyncLog.Replay.View.{status}
use bdbmsgstore.AsyncLog.Extract.{ended}
use bdbmsgstore.AsyncLog.Extract.EnqueueLog.{IsReadable}
use bdbmsgstore.AsyncLog.Logger.{LogFiles}
use bdbmsgstore.AsyncLog.Recover.{recover_async_enqueue}
use bdbmsgstore.AsyncLog.Recover.Relog.{from_entry}
use bdbmsgstore.AsyncLog.Recover.Enqueues.{recovered_enqueues, recover_async_enqueue_lem}
use bdbmsgstore.AsyncLog.Recover.EnqueuesAgain.{recover_async_enqueue_again}

abbrev any_size : ℕ → Bool
any_size n = true

-- Message 7, of two bytes, is enqueued on queue 2, and message 9 there has been.
abbrev enqs : List EnqRecord
enqs = enqueue_start 7 2 (65 ∷ 66 ∷ []) 2 true ∷ enqueue_complete 9 2 ∷ []

enqs-ok : All (IsReadable any_size) enqs
enqs-ok =
    (((omega arith, omega arith, omega arith, omega arith), refl), ((omega arith, omega arith), tt))

-- File 0 holds these records, and file 1 is missing.
abbrev enq_files : ℕ → Option (List ℕ)
enq_files zero = some (enq_log enqs)
enq_files (suc k) = none

abbrev enq_before : LogFiles
enq_before = record { index = 0; files = enq_files; tmp = none }

recover_async_enqueue_lem_example : recover_async_enqueue any_size [] enq_before ≡ (
  ended (replay (map enq_record (enqs ++ [])) no_sets),
  recovered_enqueues (values (replay (map enq_record (enqs ++ [])) no_sets).pending) enq_before,
)
unfolding enq_log enq_bytes put_u64
recover_async_enqueue_lem_example =
    recover_async_enqueue_lem any_size enq_before enqs []
      (enqueue_complete 0 0, 0, (omega arith, omega arith), omega arith, refl) refl enqs-ok tt

recover_async_enqueue_again_example :
    (s s' : PendingSets PendingAsyncEnqueue) × ((recover_async_enqueue any_size [] enq_before).0
      ≡ ended s)
    × ((recover_async_enqueue any_size [] (recover_async_enqueue any_size [] enq_before).1).0
        ≡ ended s')
    × ((q p : ℕ) → status q p s' ≡ from_entry (lookup q p s.pending))
unfolding enq_log enq_bytes put_u64
recover_async_enqueue_again_example =
    recover_async_enqueue_again any_size enq_before enqs []
      (enqueue_complete 0 0, 0, (omega arith, omega arith), omega arith, refl) refl enqs-ok tt
