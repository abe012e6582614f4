-- ===== src/AsyncLog/Recover/EnqueuesAgain.antt =====
-- A start-up pass over the enqueue log that another one has left (`recoverAsyncEnqueue` of
-- lib/AsyncOperationLogger.cpp).
use bdbmsgstore.Prelude.{
  All, All-append, ℕ, Bool, true, ◌<◌, ◌≡◌, refl, sym, ap, ◌∙◌, List, [], ◌∷◌, ◌++◌, map,
  append-nil, arith, length, take_all, length-take,
}
use bdbmsgstore.Bytes.{u64_mod}
use bdbmsgstore.OrdMap.{find}
use bdbmsgstore.TwoLevel.{lookup, values}
use bdbmsgstore.PendingOperation.{PendingAsyncEnqueue}
use bdbmsgstore.AsyncLog.Format.{
  EnqRecord, enqueue_start, enqueue_complete, enq_bytes, enq_log, enq_record,
}
use bdbmsgstore.AsyncLog.Replay.{start, PendingSets, no_sets, replay}
use bdbmsgstore.AsyncLog.Replay.View.{
  status, status-replay, replay-IsConsistent, no_sets-IsConsistent,
}
use bdbmsgstore.AsyncLog.Replay.Entries.{StartsHold, replay-MapHolds, All-values}
use bdbmsgstore.AsyncLog.Extract.{ended}
use bdbmsgstore.AsyncLog.Extract.EnqueueLog.{IsReadable}
use bdbmsgstore.AsyncLog.Logger.{LogFiles}
use bdbmsgstore.AsyncLog.Recover.{recover_async_enqueue}
use bdbmsgstore.AsyncLog.Recover.Relog.{from_entry, key_run-values}
use bdbmsgstore.AsyncLog.Recover.Enqueues.{
  restart_enqueue, recovered_enqueues, HoldsEnqueues, recover_async_enqueue_lem,
}

map-map-restart :
    (vs : List PendingAsyncEnqueue)
    → map enq_record (map restart_enqueue vs) ≡ map (λ v. enq_record (restart_enqueue v)) vs
map-map-restart [] = refl
map-map-restart (v ∷ vs) = ap (◌∷◌ (enq_record (restart_enqueue v))) (map-map-restart vs)

module _ (can_hold : ℕ → Bool) where
  -- An entry that a readable start leaves under its ids.
  abbrev pub IsEntry : ℕ → ℕ → PendingAsyncEnqueue → Type 0
  IsEntry pid qid v =
      (v.msg_id ≡ pid)
      × (v.queue_id ≡ qid)
      × (length v.buff ≡ v.size)
      × (pid < u64_mod)
      × (qid < u64_mod)
      × (v.size < u64_mod)
      × (can_hold v.size ≡ true)

  starts-IsEntry :
      (rs : List EnqRecord) → All (IsReadable can_hold) rs → StartsHold IsEntry (map enq_record rs)
  starts-IsEntry [] ok = tt
  starts-IsEntry (enqueue_start pid qid buff size t ∷ rs) ok = (
    (refl, refl, length-take size buff ok.0.0.3, ok.0.0.0, ok.0.0.1, ok.0.0.2, ok.0.1),
    starts-IsEntry rs ok.1,
  )
  starts-IsEntry (enqueue_complete pid qid ∷ rs) ok = starts-IsEntry rs ok.1

  restart-IsReadable :
      (pid qid : ℕ) (v : PendingAsyncEnqueue)
      → IsEntry pid qid v
      → IsReadable can_hold (restart_enqueue v)
  restart-IsReadable pid qid v h =
      ((omega (arith, h.0, h.3), omega (arith, h.1, h.4), h.5, omega (arith, h.2)), h.6)

  restart-start :
      (pid qid : ℕ) (v : PendingAsyncEnqueue)
      → IsEntry pid qid v
      → enq_record (restart_enqueue v) ≡ start pid qid v
  restart-start pid qid v h =
      ap (λ bs. start v.msg_id v.queue_id (record v { buff = bs })) (take_all v.size v.buff h.2)
      ∙ (ap (λ p. start p v.queue_id v) h.0 ∙ ap (λ q. start pid q v) h.1)

  status-restarts :
      (q p : ℕ) (rs : List EnqRecord)
      → All (IsReadable can_hold) rs
      → let s = replay (map enq_record rs) no_sets in
        status q p (replay (map enq_record (map restart_enqueue (values s.pending))) no_sets)
        ≡ from_entry (lookup q p s.pending)
  unfolding lookup find
  status-restarts q p rs ok =
      rw
        (
          status-replay q p (map enq_record (map restart_enqueue (values s.pending))) no_sets
              no_sets-IsConsistent,
          map-map-restart (values s.pending),
        )
        (key_run-values (λ v. enq_record (restart_enqueue v)) IsEntry restart-start q p s.pending
          (replay-MapHolds IsEntry (map enq_record rs) (starts-IsEntry rs ok))
          (replay-IsConsistent (map enq_record rs) no_sets no_sets-IsConsistent).pending_kept)
    where
      s : PendingSets PendingAsyncEnqueue
      s = replay (map enq_record rs) no_sets

  -- Recovering the enqueue log again, from what a first recovery left, ends and gives each enqueue the
  -- entry that the first recovery gave it, with its message, and no completion lost. The two files
  -- hold readable records, each perhaps cut off at its end, and a file may be missing.
  pub recover_async_enqueue_again :
      (l : LogFiles) (rs0 rs1 : List EnqRecord)
      → HoldsEnqueues can_hold (l.files 0) rs0
      → HoldsEnqueues can_hold (l.files 1) rs1
      → All (IsReadable can_hold) rs0
      → All (IsReadable can_hold) rs1
      → (s s' : PendingSets PendingAsyncEnqueue) × ((recover_async_enqueue can_hold [] l).0
          ≡ ended s)
        × ((recover_async_enqueue can_hold [] (recover_async_enqueue can_hold [] l).1).0 ≡ ended s')
        × ((q p : ℕ) → status q p s' ≡ from_entry (lookup q p s.pending))
  unfolding enq_bytes
  recover_async_enqueue_again l rs0 rs1 h0 h1 ok0 ok1 =
      (s, s', ap (λ r. r.0) first, rw first (ap (λ r. r.0) second), λ q p. again q p)
    where
      rs : List EnqRecord
      rs = rs0 ++ rs1

      ok : All (IsReadable can_hold) rs
      ok = All-append (IsReadable can_hold) rs0 rs1 ok0 ok1

      s : PendingSets PendingAsyncEnqueue
      s = replay (map enq_record rs) no_sets

      restarts : List EnqRecord
      restarts = map restart_enqueue (values s.pending)

      s' : PendingSets PendingAsyncEnqueue
      s' = replay (map enq_record (restarts ++ [])) no_sets

      first :
          recover_async_enqueue can_hold [] l ≡ (ended s, recovered_enqueues (values s.pending) l)
      first = recover_async_enqueue_lem can_hold l rs0 rs1 h0 h1 ok0 ok1

      ok' : All (IsReadable can_hold) restarts
      ok' =
          All-values IsEntry (IsReadable can_hold) restart_enqueue restart-IsReadable s.pending
            (replay-MapHolds IsEntry (map enq_record rs) (starts-IsEntry rs ok))

      second : recover_async_enqueue can_hold [] (recovered_enqueues (values s.pending) l) ≡ (
        ended s',
        recovered_enqueues (values s'.pending) (recovered_enqueues (values s.pending) l),
      )
      second =
          recover_async_enqueue_lem can_hold (recovered_enqueues (values s.pending) l) restarts []
            (
              enqueue_complete 0 0,
              0,
              (omega arith, omega arith),
              omega arith,
              sym (append-nil (enq_log restarts)),
            )
            refl ok' tt

      again : (q p : ℕ) → status q p s' ≡ from_entry (lookup q p s.pending)
      again q p = rw append-nil (status-restarts q p rs ok)
