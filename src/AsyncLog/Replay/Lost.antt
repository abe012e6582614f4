-- ===== src/AsyncLog/Replay/Lost.antt =====
-- The entries of the lost set and the ids that they stand under.
use bdbmsgstore.Prelude.{
  ℕ, ◌≡◌, inl, inr, some, List, [], ◌∷◌, arith, ◌==◌, get_or, Bool-cases, Option-cases, ==→eq,
  subst,
}
use bdbmsgstore.OrdMap.{find}
use bdbmsgstore.TwoLevel.{lookup, add}
use bdbmsgstore.TwoLevel.Laws.{lookup-add, lookup-remove, remove-found}
use bdbmsgstore.PendingOperation.{PendingAsyncOperation, pending_operation}
use bdbmsgstore.AsyncLog.Replay.{
  Record, start, complete, PendingSets, no_sets, start_seen, complete_seen, record_seen, replay,
}
use bdbmsgstore.AsyncLog.Replay.View.{
  IsConsistent, record_seen-IsConsistent, no_sets-IsConsistent, replay-IsConsistent,
}
use bdbmsgstore.AsyncLog.Replay.Entries.{MapHolds, MapHolds-intro}

abbrev pub IsLost : (ℕ → ℕ → Type 0) → ℕ → ℕ → PendingAsyncOperation → Type 0
IsLost Q pid qid o = (o ≡ pending_operation pid qid) × Q pid qid

module _ {V : Type 0} (Q : ℕ → ℕ → Type 0) where
  -- All completions of a log have the property `Q pid qid`.
  abbrev pub CompletionsHold : List (Record V) → Type 0
  CompletionsHold [] = Unit {0}
  CompletionsHold (start pid qid v ∷ rs) = CompletionsHold rs
  CompletionsHold (complete pid qid ∷ rs) = Q pid qid × CompletionsHold rs

  abbrev LostHolds : PendingSets V → Type 0
  LostHolds s = (q p : ℕ) (o : PendingAsyncOperation) → lookup q p s.lost ≡ some o → IsLost Q p q o

  -- An entry of the map after `add` was there before, or is the one that was added.
  add-LostHolds :
      (q p pid qid : ℕ) (o : PendingAsyncOperation) (s : PendingSets V)
      → LostHolds s
      → Q pid qid
      → lookup q p (add qid pid (pending_operation pid qid) s.lost) ≡ some o
      → IsLost Q p q o
  add-LostHolds q p pid qid o s h k e =
      let e' = rw (lookup-add q p qid pid (pending_operation pid qid) s.lost) at e in
      elim (Bool-cases (qid == q)) [
        | inl eq ↦ elim (Bool-cases (pid == p)) [
          | inl ep ↦
              subst (λ x. IsLost Q p x o) (==→eq qid q eq)
                (subst (λ x. IsLost Q x qid o) (==→eq pid p ep)
                  (from qid pid (ground (arith, e', eq, ep))))
          | inr ep ↦ h q p o (ground (arith, e', eq, ep))
        ]
        | inr eq ↦ h q p o (ground (arith, e', eq))
      ]
    where
      from :
          (q' p' : ℕ)
          → some (get_or (lookup qid pid s.lost) (pending_operation pid qid)) ≡ some o
          → IsLost Q pid qid o
      from q' p' e'' = elim (Option-cases (lookup qid pid s.lost)) [
        | inl absent ↦ (ground (arith, e'', absent), k)
        | inr (w, there) ↦ h qid pid o (ground (arith, e'', there))
      ]

  record_seen-LostHolds :
      (r : Record V) (s : PendingSets V)
      → IsConsistent s
      → CompletionsHold (r ∷ [])
      → LostHolds s
      → LostHolds (record_seen s r)
  unfolding record_seen start_seen complete_seen
  record_seen-LostHolds (start pid qid v) s c k h = elim (Option-cases (lookup qid pid s.lost)) [
    | inl e ↦ rw (remove-found qid pid s.lost, e) h
    | inr (w, e) ↦
        rw (remove-found qid pid s.lost, e)
          λ q p o e'. h q p o (ground (arith, e', lookup-remove q p qid pid s.lost c.lost_kept))
  ]
  record_seen-LostHolds (complete pid qid) s c k h =
      elim (Option-cases (lookup qid pid s.pending)) [
        | inl e ↦
            rw (remove-found qid pid s.pending, e)
              λ q p o e'. add-LostHolds q p pid qid o s h k.0 e'
        | inr (w, e) ↦ rw (remove-found qid pid s.pending, e) h
      ]

  replay-LostHolds :
      (rs : List (Record V)) (s : PendingSets V)
      → IsConsistent s
      → CompletionsHold rs
      → LostHolds s
      → LostHolds (replay rs s)
  unfolding replay
  replay-LostHolds [] s c k h = h
  replay-LostHolds (start pid qid v ∷ rs) s c k h =
      replay-LostHolds rs (record_seen s (start pid qid v))
        (record_seen-IsConsistent (start pid qid v) s c) k
        (record_seen-LostHolds (start pid qid v) s c tt h)
  replay-LostHolds (complete pid qid ∷ rs) s c k h =
      replay-LostHolds rs (record_seen s (complete pid qid))
        (record_seen-IsConsistent (complete pid qid) s c) k.1
        (record_seen-LostHolds (complete pid qid) s c (k.0, tt) h)

  -- What holds of the ids of every completion of a log holds of every entry that its replay leaves
  -- lost, and each such entry stands under its own ids.
  pub lost-MapHolds :
      (rs : List (Record V)) → CompletionsHold rs → MapHolds (IsLost Q) (replay rs no_sets).lost
  unfolding lookup find
  lost-MapHolds rs k =
      MapHolds-intro (IsLost Q) 0 (replay rs no_sets).lost
        (replay-IsConsistent rs no_sets no_sets-IsConsistent).lost_kept
        (replay-LostHolds rs no_sets no_sets-IsConsistent k (λ q p o e. cc))
