-- ===== src/AsyncLog/Recover/Again.antt =====
-- A start-up pass over the log that another one has left.
use bdbmsgstore.Prelude.{
  All, All-append, ℕ, ◌<◌, ◌≡◌, refl, sym, ap, List, [], ◌∷◌, ◌++◌, map, append-nil, arith,
}
use bdbmsgstore.Bytes.{u64_mod}
use bdbmsgstore.OrdMap.{find}
use bdbmsgstore.TwoLevel.{lookup, values}
use bdbmsgstore.PendingOperation.{PendingAsyncDequeue, pending_dequeue}
use bdbmsgstore.AsyncLog.Format.{
  DeqRecord, dequeue_start, dequeue_complete, deq_log, deq_record, IsDeqRecord,
}
use bdbmsgstore.AsyncLog.Replay.{start, PendingSets, no_sets, replay}
use bdbmsgstore.AsyncLog.Replay.View.{
  status, status-replay, replay-IsConsistent, no_sets-IsConsistent,
}
use bdbmsgstore.AsyncLog.Replay.Entries.{StartsHold, replay-MapHolds, All-values}
use bdbmsgstore.AsyncLog.Extract.{ended}
use bdbmsgstore.AsyncLog.Logger.{LogFiles}
use bdbmsgstore.AsyncLog.Recover.{recover_async_dequeue}
use bdbmsgstore.AsyncLog.Recover.Relog.{from_entry, key_run-values}
use bdbmsgstore.AsyncLog.Recover.Dequeues.{
  HoldsDequeues, restart, recovered_log, recover_async_dequeue_lem,
}

abbrev pub IsEntry : ℕ → ℕ → PendingAsyncDequeue → Type 0
IsEntry pid qid v = (v ≡ pending_dequeue pid qid) × (pid < u64_mod) × (qid < u64_mod)

pub starts-IsEntry :
    (rs : List DeqRecord) → All IsDeqRecord rs → StartsHold IsEntry (map deq_record rs)
starts-IsEntry [] ok = tt
starts-IsEntry (dequeue_start pid qid ∷ rs) ok = ((refl, ok.0.0, ok.0.1), starts-IsEntry rs ok.1)
starts-IsEntry (dequeue_complete pid qid ∷ rs) ok = starts-IsEntry rs ok.1

pub restart-IsDeqRecord :
    (pid qid : ℕ) (v : PendingAsyncDequeue) → IsEntry pid qid v → IsDeqRecord (restart v)
restart-IsDeqRecord pid qid v h = rw h.0 (h.1, h.2)

restart-start :
    (pid qid : ℕ) (v : PendingAsyncDequeue)
    → IsEntry pid qid v
    → deq_record (restart v) ≡ start pid qid v
restart-start pid qid v h = rw h.0

map-map-restart :
    (vs : List PendingAsyncDequeue)
    → map deq_record (map restart vs) ≡ map (λ v. deq_record (restart v)) vs
map-map-restart [] = refl
map-map-restart (v ∷ vs) = ap (◌∷◌ (deq_record (restart v))) (map-map-restart vs)

-- What is pending in the recovered log is what was pending before, and nothing in it is lost.
pub status-restarts :
    (q p : ℕ) (rs : List DeqRecord)
    → All IsDeqRecord rs
    → let s = replay (map deq_record rs) no_sets in
      status q p (replay (map deq_record (map restart (values s.pending))) no_sets)
      ≡ from_entry (lookup q p s.pending)
unfolding lookup find
status-restarts q p rs ok =
    rw
      (
        status-replay q p (map deq_record (map restart (values s.pending))) no_sets
            no_sets-IsConsistent,
        map-map-restart (values s.pending),
      )
      (key_run-values (λ v. deq_record (restart v)) IsEntry restart-start q p s.pending
        (replay-MapHolds IsEntry (map deq_record rs) (starts-IsEntry rs ok))
        (replay-IsConsistent (map deq_record rs) no_sets no_sets-IsConsistent).pending_kept)
  where
    s : PendingSets PendingAsyncDequeue
    s = replay (map deq_record rs) no_sets

-- Recovering again, from what a first recovery left, ends and gives each operation the entry that the
-- first recovery gave it, with no completion lost. The two files hold well-formed records, each perhaps cut off at its end.
pub recover_async_dequeue_again :
    (l : LogFiles) (rs0 rs1 : List DeqRecord)
    → HoldsDequeues (l.files 0) rs0
    → HoldsDequeues (l.files 1) rs1
    → All IsDeqRecord rs0
    → All IsDeqRecord rs1
    → (s s' : PendingSets PendingAsyncDequeue) × ((recover_async_dequeue [] l).0 ≡ ended s)
      × ((recover_async_dequeue [] (recover_async_dequeue [] l).1).0 ≡ ended s')
      × ((q p : ℕ) → status q p s' ≡ from_entry (lookup q p s.pending))
recover_async_dequeue_again l rs0 rs1 h0 h1 ok0 ok1 =
    (s, s', ap (λ r. r.0) first, rw first (ap (λ r. r.0) second), λ q p. again q p)
  where
    rs : List DeqRecord
    rs = rs0 ++ rs1

    ok : All IsDeqRecord rs
    ok = All-append IsDeqRecord rs0 rs1 ok0 ok1

    s : PendingSets PendingAsyncDequeue
    s = replay (map deq_record rs) no_sets

    restarts : List DeqRecord
    restarts = map restart (values s.pending)

    s' : PendingSets PendingAsyncDequeue
    s' = replay (map deq_record (restarts ++ [])) no_sets

    first : recover_async_dequeue [] l ≡ (ended s, recovered_log (values s.pending) l)
    first = recover_async_dequeue_lem l rs0 rs1 h0 h1 ok0 ok1

    ok' : All IsDeqRecord restarts
    ok' =
        All-values IsEntry IsDeqRecord restart restart-IsDeqRecord s.pending
          (replay-MapHolds IsEntry (map deq_record rs) (starts-IsEntry rs ok))

    second :
        recover_async_dequeue [] (recovered_log (values s.pending) l)
        ≡ (ended s', recovered_log (values s'.pending) (recovered_log (values s.pending) l))
    second =
        recover_async_dequeue_lem (recovered_log (values s.pending) l) restarts []
          (dequeue_start 0 0, 0, omega arith, sym (append-nil (deq_log restarts))) refl ok' tt

    again : (q p : ℕ) → status q p s' ≡ from_entry (lookup q p s.pending)
    again q p = rw append-nil (status-restarts q p rs ok)
