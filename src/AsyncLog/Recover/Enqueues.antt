-- ===== src/AsyncLog/Recover/Enqueues.antt =====
-- What `recoverAsyncEnqueue` of lib/AsyncOperationLogger.cpp gives back and leaves behind.
use mathlib.Core.List.{foldl}
use bdbmsgstore.Prelude.{
  All, ℕ, Bool, ◌<◌, ◌≡◌, ap, ◌∙◌, Option, none, some, List, [], ◌∷◌, ◌++◌, map, map-append,
  append_assoc, append-nil, take, length,
}
use bdbmsgstore.TwoLevel.{values}
use bdbmsgstore.PendingOperation.{PendingAsyncEnqueue}
use bdbmsgstore.AsyncLog.Format.{EnqRecord, enqueue_start, enq_bytes, enq_log, enq_record}
use bdbmsgstore.AsyncLog.Replay.{PendingSets, no_sets, replay}
use bdbmsgstore.AsyncLog.Extract.{ended, extract_pending_enqueue}
use bdbmsgstore.AsyncLog.Extract.EnqueueLog.{IsReadable, extract-enq_log}
use bdbmsgstore.AsyncLog.Logger.{LogFiles, remove_file, write}
use bdbmsgstore.AsyncLog.Logger.Mass.{write-write}
use bdbmsgstore.AsyncLog.Recover.{relog_enqueue, recover_async_enqueue}
use bdbmsgstore.AsyncLog.Recover.Dequeues.{replay-append, open-write}

-- The start that a pending enqueue is logged as.
abbrev pub restart_enqueue : PendingAsyncEnqueue → EnqRecord
restart_enqueue pae = enqueue_start pae.msg_id pae.queue_id pae.buff pae.size pae.transient

foldl-relog :
    (a : List ℕ) (l : LogFiles) (vs : List PendingAsyncEnqueue)
    → foldl relog_enqueue (write a l) vs ≡ write (a ++ enq_log (map restart_enqueue vs)) l
unfolding enq_log enq_bytes
foldl-relog a l [] = rw append-nil
foldl-relog a l (v ∷ vs) = rw (write-write a (enq_bytes (restart_enqueue v)) l) (
    foldl-relog (a ++ enq_bytes (restart_enqueue v)) l vs
    ∙ ap (λ x. write x l)
        (append_assoc a (enq_bytes (restart_enqueue v)) (enq_log (map restart_enqueue vs))))

-- Both files are gone; file 0 is written anew.
abbrev pub recovered_enqueues : List PendingAsyncEnqueue → LogFiles → LogFiles
recovered_enqueues vs l =
    write (enq_log (map restart_enqueue vs))
      (record (remove_file 1 (remove_file 0 l)) { index = 0 })

module _ (can_hold : ℕ → Bool) where
  -- An enqueue log file that is not there, or holds these records and perhaps the beginning of one more.
  abbrev pub HoldsEnqueues : Option (List ℕ) → List EnqRecord → Type 0
  HoldsEnqueues none rs = rs ≡ []
  HoldsEnqueues (some bytes) rs =
      (torn : EnqRecord) × (n : ℕ) × IsReadable can_hold torn
      × (n < length (enq_bytes torn))
      × (bytes ≡ enq_log rs ++ take n (enq_bytes torn))

  extract-HoldsEnqueues :
      (file : Option (List ℕ)) (rs : List EnqRecord) (s : PendingSets PendingAsyncEnqueue)
      → HoldsEnqueues file rs
      → All (IsReadable can_hold) rs
      → extract_pending_enqueue can_hold file s ≡ ended (replay (map enq_record rs) s)
  extract-HoldsEnqueues none rs s h ok = unfold extract_pending_enqueue replay in rw h
  extract-HoldsEnqueues (some bytes) rs s (torn, n, tok, lt, e) ok =
      rw e (extract-enq_log can_hold rs torn n s ok tok lt)

  -- The start-up pass over an enqueue log returns the replay of the records of file 0 and then of file 1,
  -- each perhaps cut off at its end, with the messages that the starts carry. It removes file 1, and
  -- leaves in file 0, the current one, one start with its message for each enqueue still pending.
  pub recover_async_enqueue_lem :
      (l : LogFiles) (rs0 rs1 : List EnqRecord)
      → HoldsEnqueues (l.files 0) rs0
      → HoldsEnqueues (l.files 1) rs1
      → All (IsReadable can_hold) rs0
      → All (IsReadable can_hold) rs1
      → recover_async_enqueue can_hold [] l ≡ (
        ended (replay (map enq_record (rs0 ++ rs1)) no_sets),
        recovered_enqueues (values (replay (map enq_record (rs0 ++ rs1)) no_sets).pending) l,
      )
  unfolding recover_async_enqueue
  recover_async_enqueue_lem l rs0 rs1 h0 h1 ok0 ok1 =
      rw
        (
          extract-HoldsEnqueues (l.files 0) rs0 no_sets h0 ok0,
          extract-HoldsEnqueues (l.files 1) rs1 (replay (map enq_record rs0) no_sets) h1 ok1,
          replay-append (map enq_record rs0) (map enq_record rs1) no_sets,
          map-append,
        )
        (ap (λ x. (ended (replay (map enq_record rs0 ++ map enq_record rs1) no_sets), x))
          (ap (λ x. foldl relog_enqueue x vs) (open-write 0 removed)
            ∙ foldl-relog [] (record removed { index = 0 }) vs))
    where
      removed : LogFiles
      removed = remove_file 1 (remove_file 0 l)

      vs : List PendingAsyncEnqueue
      vs = values (replay (map enq_record rs0 ++ map enq_record rs1) no_sets).pending
