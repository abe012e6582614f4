-- ===== src/AsyncLog/Replay/View.antt =====
-- What a replay means for one operation: a small state machine for each pair of ids, whatever else
-- the log holds.
use bdbmsgstore.Prelude.{
  ℕ, ◌≡◌, refl, ◌⊎◌, inl, inr, ap, ◌∙◌, ◌&&◌, Option, none, some, List, [], ◌∷◌, arith, ◌==◌,
  if◌then◌else◌, Option-cases,
}
use bdbmsgstore.OrdMap.{find}
use bdbmsgstore.TwoLevel.{lookup, IsKept}
use bdbmsgstore.TwoLevel.Laws.{lookup-add, lookup-remove, remove-found}
use bdbmsgstore.TwoLevel.Order.{add-IsKept, remove-IsKept}
use bdbmsgstore.PendingOperation.{PendingAsyncOperation, pending_operation}
use bdbmsgstore.AsyncLog.Replay.{
  Record, start, complete, PendingSets, no_sets, start_seen, complete_seen, record_seen, replay,
}

-- Nothing is known of the operation; it has started; or it has ended and its start is to come.
pub data KeyState (V : Type 0) : Type 0 where
  idle : KeyState V
  started : V → KeyState V
  ended_first : KeyState V

module _ {V : Type 0} where
  abbrev pub state_of : Option V → Option PendingAsyncOperation → KeyState V
  state_of none none = idle
  state_of none (some w) = ended_first
  state_of (some v) l = started v

  -- What the sets say of message `p` on queue `q`.
  abbrev pub status : ℕ → ℕ → PendingSets V → KeyState V
  status q p s = state_of (lookup q p s.pending) (lookup q p s.lost)

  abbrev pub on_start : V → KeyState V → KeyState V
  on_start v idle = started v
  on_start v (started w) = started w
  on_start v ended_first = idle

  abbrev pub on_complete : KeyState V → KeyState V
  on_complete idle = ended_first
  on_complete (started w) = idle
  on_complete ended_first = ended_first

  -- One record, as message `p` on queue `q` sees it.
  abbrev pub key_step : ℕ → ℕ → Record V → KeyState V → KeyState V
  key_step q p (start pid qid v) k = if qid == q && pid == p then on_start v k else k
  key_step q p (complete pid qid) k = if qid == q && pid == p then on_complete k else k

  unfoldable pub key_run : ℕ → ℕ → List (Record V) → KeyState V → KeyState V
  key_run q p [] k = k
  key_run q p (r ∷ rs) k = key_run q p rs (key_step q p r k)

  -- The maps are in order with no empty submap, and no operation is pending and lost at once.
  pub record IsConsistent (s : PendingSets V) : Type 0 where
    pub pending_kept : IsKept s.pending
    pub lost_kept : IsKept s.lost
    pub exclusive : (q p : ℕ) → (lookup q p s.pending ≡ none) ⊎ (lookup q p s.lost ≡ none)

  module _ (s : PendingSets V) (h : IsConsistent s) where
    status-start_seen :
        (q p pid qid : ℕ) (v : V)
        → status q p (start_seen pid qid v s)
          ≡ (if qid == q && pid == p then on_start v (status q p s) else status q p s)
    unfolding start_seen
    status-start_seen q p pid qid v = elim (Option-cases (lookup qid pid s.lost)) [
      | inl e ↦
          rw (remove-found qid pid s.lost, e, lookup-add q p qid pid v s.pending)
            (ground (arith, e))
      | inr (w, e) ↦
          rw (remove-found qid pid s.lost, e, lookup-remove q p qid pid s.lost h.lost_kept)
            (ground (arith, e, h.exclusive qid pid))
    ]

    status-complete_seen :
        (q p pid qid : ℕ)
        → status q p (complete_seen pid qid s)
          ≡ (if qid == q && pid == p then on_complete (status q p s) else status q p s)
    unfolding complete_seen
    status-complete_seen q p pid qid = elim (Option-cases (lookup qid pid s.pending)) [
      | inl e ↦
          rw
            (
              remove-found qid pid s.pending,
              e,
              lookup-add q p qid pid (pending_operation pid qid) s.lost,
            )
            (ground (arith, e))
      | inr (w, e) ↦
          rw (remove-found qid pid s.pending, e, lookup-remove q p qid pid s.pending h.pending_kept)
            (ground (arith, e, h.exclusive qid pid))
    ]

    start_seen-IsConsistent : (pid qid : ℕ) (v : V) → IsConsistent (start_seen pid qid v s)
    unfolding start_seen
    start_seen-IsConsistent pid qid v = elim (Option-cases (lookup qid pid s.lost)) [
      | inl e ↦
          rw (remove-found qid pid s.lost, e)
            (record {
              pending_kept = add-IsKept qid pid v s.pending h.pending_kept;
              lost_kept = h.lost_kept;
              exclusive = λ q p.
                  rw (lookup-add q p qid pid v s.pending) (ground (arith, e, h.exclusive q p));
            })
      | inr (w, e) ↦
          rw (remove-found qid pid s.lost, e)
            (record {
              pending_kept = h.pending_kept;
              lost_kept = remove-IsKept qid pid s.lost h.lost_kept;
              exclusive = λ q p.
                  rw (lookup-remove q p qid pid s.lost h.lost_kept)
                    (ground (arith, h.exclusive q p));
            })
    ]

    complete_seen-IsConsistent : (pid qid : ℕ) → IsConsistent (complete_seen pid qid s)
    unfolding complete_seen
    complete_seen-IsConsistent pid qid = elim (Option-cases (lookup qid pid s.pending)) [
      | inl e ↦
          rw (remove-found qid pid s.pending, e)
            (record {
              pending_kept = h.pending_kept;
              lost_kept = add-IsKept qid pid (pending_operation pid qid) s.lost h.lost_kept;
              exclusive = λ q p.
                  rw (lookup-add q p qid pid (pending_operation pid qid) s.lost)
                    (ground (arith, e, h.exclusive q p));
            })
      | inr (w, e) ↦
          rw (remove-found qid pid s.pending, e)
            (record {
              pending_kept = remove-IsKept qid pid s.pending h.pending_kept;
              lost_kept = h.lost_kept;
              exclusive = λ q p.
                  rw (lookup-remove q p qid pid s.pending h.pending_kept)
                    (ground (arith, h.exclusive q p));
            })
    ]

  pub record_seen-IsConsistent :
      (r : Record V) (s : PendingSets V) → IsConsistent s → IsConsistent (record_seen s r)
  unfolding record_seen
  record_seen-IsConsistent (start pid qid v) s h = start_seen-IsConsistent s h pid qid v
  record_seen-IsConsistent (complete pid qid) s h = complete_seen-IsConsistent s h pid qid

  status-record_seen :
      (q p : ℕ) (r : Record V) (s : PendingSets V)
      → IsConsistent s
      → status q p (record_seen s r) ≡ key_step q p r (status q p s)
  unfolding record_seen
  status-record_seen q p (start pid qid v) s h = status-start_seen s h q p pid qid v
  status-record_seen q p (complete pid qid) s h = status-complete_seen s h q p pid qid

  pub no_sets-IsConsistent : IsConsistent no_sets
  unfolding lookup find
  no_sets-IsConsistent = record { pending_kept = tt; lost_kept = tt; exclusive = λ q p. inl refl }

  -- Any replay keeps both sets in order, leaves no empty submap, and never has an operation in both.
  pub replay-IsConsistent :
      (rs : List (Record V)) (s : PendingSets V) → IsConsistent s → IsConsistent (replay rs s)
  unfolding replay
  replay-IsConsistent [] s h = h
  replay-IsConsistent (r ∷ rs) s h =
      replay-IsConsistent rs (record_seen s r) (record_seen-IsConsistent r s h)

  -- From consistent sets, what a replay says of one operation is what the state machine of that
  -- operation says: the records of all others have no influence.
  pub status-replay :
      (q p : ℕ) (rs : List (Record V)) (s : PendingSets V)
      → IsConsistent s
      → status q p (replay rs s) ≡ key_run q p rs (status q p s)
  unfolding replay key_run
  status-replay q p [] s h = refl
  status-replay q p (r ∷ rs) s h =
      status-replay q p rs (record_seen s r) (record_seen-IsConsistent r s h)
      ∙ ap (key_run q p rs) (status-record_seen q p r s h)
