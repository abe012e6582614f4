-- ===== src/AsyncLog/Tests.antt =====
-- Concrete runs of lib/AsyncOperationLogger.cpp.
use bdbmsgstore.Prelude.{
  false, ℕ, zero, suc, ◌≡◌, refl, Bool, true, Option, none, some, List, [], ◌∷◌, ◌++◌, map, take,
  arith, ltb, is_some, All,
}
use bdbmsgstore.Bytes.{put_u64}
use bdbmsgstore.TwoLevel.{lookup, values}
use bdbmsgstore.PendingOperation.{PendingAsyncDequeue}
use bdbmsgstore.AsyncLog.Format.{
  DeqRecord, dequeue_start, dequeue_complete, EnqRecord, enqueue_start, enqueue_complete, deq_bytes,
  enq_bytes, deq_log, enq_log, deq_record, enq_record, IsDeqRecord,
}
use bdbmsgstore.AsyncLog.Replay.{Record, start, complete, PendingSets, no_sets, replay}
use bdbmsgstore.AsyncLog.Replay.View.{
  status, key_run, IsConsistent, no_sets-IsConsistent, replay-IsConsistent, status-replay,
}
use bdbmsgstore.AsyncLog.Replay.Counts.{starts, completions, Stands, status-Stands}
use bdbmsgstore.AsyncLog.Extract.{ended, extract_pending_dequeue, extract_pending_enqueue}
use bdbmsgstore.AsyncLog.Extract.DequeueLog.{extract-deq_log}
use bdbmsgstore.AsyncLog.Extract.EnqueueLog.{extract-enq_log}
use bdbmsgstore.AsyncLog.Logger.{LogFiles, AsyncOperationLogger, open_logger}
use bdbmsgstore.AsyncLog.Recover.{recover_async_dequeue}
use bdbmsgstore.AsyncLog.Recover.Relog.{from_entry}
use bdbmsgstore.AsyncLog.Recover.Dequeues.{recovered_log, recover_async_dequeue_lem}
use bdbmsgstore.AsyncLog.Recover.Again.{recover_async_dequeue_again}
use bdbmsgstore.AsyncLog.Clean.{clean_dequeue_round}
use bdbmsgstore.AsyncLog.Clean.Counts.{deq_starts, deq_ends}
use bdbmsgstore.AsyncLog.Clean.Dequeues.{log_at}
use bdbmsgstore.AsyncLog.Clean.Keeps.{all_records, clean_dequeue_round-recover}

-- The dequeue of message 7 on queue 2, its start after its completion, and that of message 9.
abbrev deqs : List DeqRecord
deqs = dequeue_complete 7 2 ∷ dequeue_start 9 2 ∷ []

abbrev later_deqs : List DeqRecord
later_deqs = dequeue_start 7 2 ∷ []

deqs-ok : All IsDeqRecord deqs
deqs-ok = ((omega arith, omega arith), ((omega arith, omega arith), tt))

later_deqs-ok : All IsDeqRecord later_deqs
later_deqs-ok = ((omega arith, omega arith), tt)

abbrev deq_files : ℕ → Option (List ℕ)
deq_files zero = some (deq_log deqs)
deq_files (suc zero) = some (deq_log later_deqs)
deq_files (suc (suc k)) = none

abbrev deq_before : LogFiles
deq_before = log_at 0 deq_files

extract-deq_log_example :
    extract_pending_dequeue (some (deq_log deqs ++ take 5 (deq_bytes (dequeue_start 1 1)))) no_sets
    ≡ ended (replay (map deq_record deqs) no_sets)
extract-deq_log_example = extract-deq_log deqs (dequeue_start 1 1) 5 no_sets deqs-ok (omega arith)

abbrev enqs : List EnqRecord
enqs = enqueue_start 7 2 (65 ∷ 66 ∷ []) 2 true ∷ enqueue_complete 7 2 ∷ []

abbrev any_size : ℕ → Bool
any_size n = true

extract-enq_log_example :
    extract_pending_enqueue any_size
      (some (enq_log enqs ++ take 5 (enq_bytes (enqueue_complete 1 1))))
      no_sets
    ≡ ended (replay (map enq_record enqs) no_sets)
unfolding enq_bytes put_u64
extract-enq_log_example =
    extract-enq_log any_size enqs (enqueue_complete 1 1) 5 no_sets
      (
        ((omega arith, omega arith, omega arith, omega arith), refl),
        ((omega arith, omega arith), tt),
      )
      (omega arith, omega arith) (omega arith)

recover_async_dequeue_lem_example : recover_async_dequeue [] deq_before ≡ (
  ended (replay (map deq_record (deqs ++ later_deqs)) no_sets),
  recovered_log (values (replay (map deq_record (deqs ++ later_deqs)) no_sets).pending) deq_before,
)
unfolding deq_log deq_bytes put_u64
recover_async_dequeue_lem_example =
    recover_async_dequeue_lem deq_before deqs later_deqs (dequeue_start 0 0, 0, omega arith, refl)
      (dequeue_start 0 0, 0, omega arith, refl) deqs-ok later_deqs-ok

recover_async_dequeue_again_example :
    (s s' : PendingSets PendingAsyncDequeue) × ((recover_async_dequeue [] deq_before).0 ≡ ended s)
    × ((recover_async_dequeue [] (recover_async_dequeue [] deq_before).1).0 ≡ ended s')
    × ((q p : ℕ) → status q p s' ≡ from_entry (lookup q p s.pending))
unfolding deq_log deq_bytes put_u64
recover_async_dequeue_again_example =
    recover_async_dequeue_again deq_before deqs later_deqs (dequeue_start 0 0, 0, omega arith, refl)
      (dequeue_start 0 0, 0, omega arith, refl) deqs-ok later_deqs-ok

clean_dequeue_round-recover_example :
    let l =
      clean_dequeue_round true
        (deq_log (dequeue_complete 9 2 ∷ []))
        (deq_log [])
        (log_at 0 deq_files) in
    (s : PendingSets PendingAsyncDequeue) × ((recover_async_dequeue [] l).0 ≡ ended s)
    × (is_some (lookup 2 9 s.pending)
        ≡ ltb
            (deq_ends 2 9 (all_records deqs later_deqs (dequeue_complete 9 2 ∷ []) []))
            (deq_starts 2 9 (all_records deqs later_deqs (dequeue_complete 9 2 ∷ []) [])))
clean_dequeue_round-recover_example =
    clean_dequeue_round-recover 2 9 0 deq_files deqs later_deqs (dequeue_complete 9 2 ∷ []) []
      (omega arith) refl refl deqs-ok later_deqs-ok ((omega arith, omega arith), tt) tt
      (omega arith) (omega arith)

abbrev recs : List (Record ℕ)
recs = complete 7 2 ∷ start 9 2 5 ∷ start 7 2 6 ∷ []

replay-IsConsistent_example : IsConsistent (replay recs no_sets)
replay-IsConsistent_example = replay-IsConsistent recs no_sets no_sets-IsConsistent

status-replay_example : status 2 7 (replay recs no_sets) ≡ key_run 2 7 recs (status 2 7 no_sets)
status-replay_example = status-replay 2 7 recs no_sets no_sets-IsConsistent

status-Stands_example :
    Stands (status 2 7 (replay recs no_sets)) (starts 2 7 recs) (completions 2 7 recs)
status-Stands_example = status-Stands 2 7 recs (omega arith) (omega arith)

abbrev logger : AsyncOperationLogger
logger = open_logger deq_before deq_before

-- No memory for the buffer, and one byte of another thread before each record.
abbrev small : ℕ → Bool
small n = false

abbrev one_byte : ℕ → List ℕ
one_byte k = k ∷ []
