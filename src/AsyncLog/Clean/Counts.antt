-- ===== src/AsyncLog/Clean/Counts.antt =====
-- The starts and completions of one operation in the dequeue log, before and after a cleaner's round
-- (`cleanDequeueLog` of lib/AsyncOperationLogger.cpp).
use bdbmsgstore.Prelude.{
  All, ℕ, ◌+◌, ◌≤◌, ◌<◌, ◌≡◌, refl, ◌⊎◌, inl, inr, Bool, ◌&&◌, Option, none, some, List, [], ◌∷◌,
  ◌++◌, map, ◌∙◌, arith, ◌==◌, if◌then◌else◌, is_some,
}
use bdbmsgstore.TwoLevel.{lookup, values}
use bdbmsgstore.PendingOperation.{PendingAsyncOperation, PendingAsyncDequeue}
use bdbmsgstore.AsyncLog.Format.{
  DeqRecord, dequeue_start, dequeue_complete, deq_record, IsDeqRecord,
}
use bdbmsgstore.AsyncLog.Replay.{PendingSets, no_sets, replay}
use bdbmsgstore.AsyncLog.Replay.View.{
  state_of, IsConsistent, replay-IsConsistent, no_sets-IsConsistent,
}
use bdbmsgstore.AsyncLog.Replay.Counts.{starts, completions, Stands, status-Stands}
use bdbmsgstore.AsyncLog.Replay.Entries.{replay-MapHolds}
use bdbmsgstore.AsyncLog.Replay.Lost.{IsLost, CompletionsHold, lost-MapHolds}
use bdbmsgstore.AsyncLog.Replay.Tally.{tally, tally-values}
use bdbmsgstore.AsyncLog.Recover.Dequeues.{restart}
use bdbmsgstore.AsyncLog.Recover.Again.{IsEntry, starts-IsEntry}
use bdbmsgstore.Bytes.{u64_mod}

-- The record that a lost completion is logged as.
abbrev pub end_of : PendingAsyncOperation → DeqRecord
end_of pao = dequeue_complete pao.msg_id pao.queue_id

abbrev pub IsWord : ℕ → ℕ → Type 0
IsWord pid qid = (pid < u64_mod) × (qid < u64_mod)

pub completions-IsWord :
    (rs : List DeqRecord) → All IsDeqRecord rs → CompletionsHold IsWord (map deq_record rs)
completions-IsWord [] ok = tt
completions-IsWord (dequeue_start pid qid ∷ rs) ok = completions-IsWord rs ok.1
completions-IsWord (dequeue_complete pid qid ∷ rs) ok = (ok.0, completions-IsWord rs ok.1)

module _ (q p : ℕ) where
  abbrev pub deq_starts : List DeqRecord → ℕ
  deq_starts rs = starts q p (map deq_record rs)

  abbrev pub deq_ends : List DeqRecord → ℕ
  deq_ends rs = completions q p (map deq_record rs)

  pub starts-append :
      (xs ys : List DeqRecord) → deq_starts (xs ++ ys) ≡ deq_starts xs + deq_starts ys
  starts-append [] ys = omega arith
  starts-append (dequeue_start pid qid ∷ xs) ys = omega (arith, starts-append xs ys)
  starts-append (dequeue_complete pid qid ∷ xs) ys = starts-append xs ys

  pub ends-append : (xs ys : List DeqRecord) → deq_ends (xs ++ ys) ≡ deq_ends xs + deq_ends ys
  ends-append [] ys = omega arith
  ends-append (dequeue_start pid qid ∷ xs) ys = ends-append xs ys
  ends-append (dequeue_complete pid qid ∷ xs) ys = omega (arith, ends-append xs ys)

  abbrev at_deq : PendingAsyncDequeue → Bool
  at_deq v = v.queue_id == q && v.msg_id == p

  abbrev at_op : PendingAsyncOperation → Bool
  at_op v = v.queue_id == q && v.msg_id == p

  starts-restarts : (vs : List PendingAsyncDequeue) → deq_starts (map restart vs) ≡ tally at_deq vs
  starts-restarts [] = refl
  starts-restarts (v ∷ vs) = omega (arith, starts-restarts vs)

  ends-restarts : (vs : List PendingAsyncDequeue) → deq_ends (map restart vs) ≡ 0
  ends-restarts [] = refl
  ends-restarts (v ∷ vs) = ends-restarts vs

  starts-ends : (vs : List PendingAsyncOperation) → deq_starts (map end_of vs) ≡ 0
  starts-ends [] = refl
  starts-ends (v ∷ vs) = starts-ends vs

  ends-ends : (vs : List PendingAsyncOperation) → deq_ends (map end_of vs) ≡ tally at_op vs
  ends-ends [] = refl
  ends-ends (v ∷ vs) = omega (arith, ends-ends vs)

  -- With both sets disjoint, the difference of starts and completions is what the sets hold.
  abbrev Balances : ℕ → ℕ → ℕ → ℕ → Type 0
  Balances x y s c = (x + c ≡ y + s) × (x ≤ s) × (y ≤ c)

  sets_balance :
      (o : Option PendingAsyncDequeue) (l : Option PendingAsyncOperation) (s c : ℕ)
      → (o ≡ none) ⊎ (l ≡ none)
      → Stands (state_of o l) s c
      → Balances (if is_some o then 1 else 0) (if is_some l then 1 else 0) s c
  sets_balance none none s c d h = omega arith
  sets_balance none (some w) s c d h = omega arith
  sets_balance (some v) none s c d h = omega arith
  sets_balance (some v) (some w) s c (inl e) h = cc
  sets_balance (some v) (some w) s c (inr e) h = cc

  -- The starts and completions that stand for the sets of a log: as many more starts than
  -- completions as the log itself has, and no more of either than the log has.
  pub compacted_counts :
      (rs : List DeqRecord)
      → All IsDeqRecord rs
      → deq_starts rs ≤ 1
      → deq_ends rs ≤ 1
      → let s = replay (map deq_record rs) no_sets in
        (deq_starts (map restart (values s.pending)) + deq_ends rs
          ≡ deq_ends (map end_of (values s.lost)) + deq_starts rs)
        × (deq_starts (map restart (values s.pending)) ≤ deq_starts rs)
        × (deq_ends (map end_of (values s.lost)) ≤ deq_ends rs)
        × (deq_ends (map restart (values s.pending)) ≡ 0)
        × (deq_starts (map end_of (values s.lost)) ≡ 0)
  compacted_counts rs ok hs hc = (
    omega (arith, in_pending, in_lost, balance),
    omega (arith, in_pending, balance),
    omega (arith, in_lost, balance),
    ends-restarts (values s.pending),
    starts-ends (values s.lost),
  )
    where
      s : PendingSets PendingAsyncDequeue
      s = replay (map deq_record rs) no_sets

      ok' : IsConsistent s
      ok' = replay-IsConsistent (map deq_record rs) no_sets no_sets-IsConsistent

      in_pending :
          deq_starts (map restart (values s.pending))
          ≡ (if is_some (lookup q p s.pending) then 1 else 0)
      in_pending =
          starts-restarts (values s.pending)
          ∙ tally-values at_deq q p IsEntry (λ pid qid v h. rw h.0) s.pending
              (replay-MapHolds IsEntry (map deq_record rs) (starts-IsEntry rs ok)) ok'.pending_kept

      in_lost :
          deq_ends (map end_of (values s.lost)) ≡ (if is_some (lookup q p s.lost) then 1 else 0)
      in_lost =
          ends-ends (values s.lost)
          ∙ tally-values at_op q p (IsLost IsWord) (λ pid qid v h. rw h.0) s.lost
              (lost-MapHolds IsWord (map deq_record rs) (completions-IsWord rs ok)) ok'.lost_kept

      balance :
          Balances
            (if is_some (lookup q p s.pending) then 1 else 0)
            (if is_some (lookup q p s.lost) then 1 else 0)
            (deq_starts rs)
            (deq_ends rs)
      balance =
          sets_balance (lookup q p s.pending) (lookup q p s.lost) (deq_starts rs) (deq_ends rs)
            (ok'.exclusive q p) (status-Stands q p (map deq_record rs) hs hc)
