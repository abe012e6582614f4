-- ===== src/AsyncLog/Replay/Entries.antt =====
-- Properties of the starts of a log, and of the entries that it leaves pending.
use bdbmsgstore.Prelude.{
  All, All-append, ℕ, suc, ◌≡◌, sym, subst, ap, ◌∙◌, inl, inr, ◌&&◌, some, List, [], ◌∷◌, map,
  map-append, arith, ◌==◌, Bool-cases, ==-refl, ==→eq,
}
use bdbmsgstore.OrdMap.{OrdMap, find, Above}
use bdbmsgstore.OrdMap.Laws.{find_below}
use bdbmsgstore.TwoLevel.{TwoLevel, lookup, values, values_sub, Kept}
use bdbmsgstore.TwoLevel.Order.{Kept-Above}
use bdbmsgstore.AsyncLog.Replay.{Record, start, complete, replay, no_sets}
use bdbmsgstore.AsyncLog.Replay.View.{
  KeyState, on_complete, idle, started, ended_first, state_of, on_start, key_step, key_run,
  status-replay, replay-IsConsistent, no_sets-IsConsistent,
}

module _ {V : Type 0} (P : ℕ → ℕ → V → Type 0) where
  -- `P pid qid v` holds of each value `v`, at the ids at which it stands.
  abbrev pub SubHolds : ℕ → OrdMap V → Type 0
  SubHolds i [] = Unit {0}
  SubHolds i ((p, v) ∷ sub) = P p i v × SubHolds i sub

  abbrev pub MapHolds : TwoLevel V → Type 0
  MapHolds [] = Unit {0}
  MapHolds ((i, sub) ∷ m) = SubHolds i sub × MapHolds m

  SubHolds-intro :
      (i lo : ℕ) (sub : OrdMap V)
      → Above lo sub
      → ((p : ℕ) (v : V) → find p sub ≡ some v → P p i v)
      → SubHolds i sub
  unfolding find
  SubHolds-intro i lo [] a h = tt
  SubHolds-intro i lo ((j, w) ∷ sub) a h = (
    h j w (rw (==-refl j)),
    SubHolds-intro i (suc j) sub a.1
        λ p v e. h p v (ground (arith, e, find_below (suc j) p sub a.1)),
  )

  -- What holds of every entry that `lookup` finds holds throughout the map.
  pub MapHolds-intro :
      (lo : ℕ) (m : TwoLevel V)
      → Kept lo m
      → ((q p : ℕ) (v : V) → lookup q p m ≡ some v → P p q v)
      → MapHolds m
  unfolding find lookup
  MapHolds-intro lo [] kept h = tt
  MapHolds-intro lo ((i, sub) ∷ m) kept h = (
    SubHolds-intro i 0 sub kept.1 (λ p v e. h i p v (rw (==-refl i) e)),
    MapHolds-intro (suc i) m kept.3 λ q p v e.
        h q p v (ground (arith, e, find_below (suc i) q m (Kept-Above (suc i) m kept.3))),
  )

  -- All starts of a log have the property.
  abbrev pub StartsHold : List (Record V) → Type 0
  StartsHold [] = Unit {0}
  StartsHold (start pid qid v ∷ rs) = P pid qid v × StartsHold rs
  StartsHold (complete pid qid ∷ rs) = StartsHold rs

  abbrev StateHolds : ℕ → ℕ → KeyState V → Type 0
  StateHolds q p idle = Unit {0}
  StateHolds q p (started v) = P p q v
  StateHolds q p ended_first = Unit {0}

  on_start-StateHolds :
      (q p : ℕ) (v : V) (k : KeyState V)
      → P p q v
      → StateHolds q p k
      → StateHolds q p (on_start v k)
  on_start-StateHolds q p v idle h hk = h
  on_start-StateHolds q p v (started w) h hk = hk
  on_start-StateHolds q p v ended_first h hk = tt

  on_complete-StateHolds : (q p : ℕ) (k : KeyState V) → StateHolds q p (on_complete k)
  on_complete-StateHolds q p idle = tt
  on_complete-StateHolds q p (started w) = tt
  on_complete-StateHolds q p ended_first = tt

  key_step-StateHolds :
      (q p : ℕ) (r : Record V) (k : KeyState V)
      → StartsHold (r ∷ [])
      → StateHolds q p k
      → StateHolds q p (key_step q p r k)
  key_step-StateHolds q p (start pid qid v) k h hk = elim (Bool-cases (qid == q)) [
    | inl e ↦ elim (Bool-cases (pid == p)) [
      | inl e' ↦
          rw (e, e')
            (on_start-StateHolds q p v k
              (subst (λ x. P p x v) (==→eq qid q e) (subst (λ x. P x qid v) (==→eq pid p e') h.0))
              hk)
      | inr e' ↦ rw (e, e') hk
    ]
    | inr e ↦ rw e hk
  ]
  key_step-StateHolds q p (complete pid qid) k h hk = elim (Bool-cases (qid == q && pid == p)) [
    | inl e ↦ rw e (on_complete-StateHolds q p k)
    | inr e ↦ rw e hk
  ]

  key_run-StateHolds :
      (q p : ℕ) (rs : List (Record V)) (k : KeyState V)
      → StartsHold rs
      → StateHolds q p k
      → StateHolds q p (key_run q p rs k)
  unfolding key_run
  key_run-StateHolds q p [] k h hk = hk
  key_run-StateHolds q p (start pid qid v ∷ rs) k h hk =
      key_run-StateHolds q p rs (key_step q p (start pid qid v) k) h.1
        (key_step-StateHolds q p (start pid qid v) k (h.0, tt) hk)
  key_run-StateHolds q p (complete pid qid ∷ rs) k h hk =
      key_run-StateHolds q p rs (key_step q p (complete pid qid) k) h
        (key_step-StateHolds q p (complete pid qid) k tt hk)

  -- What holds of every start of a log holds of every entry that its replay leaves pending.
  pub replay-MapHolds :
      (rs : List (Record V)) → StartsHold rs → MapHolds (replay rs no_sets).pending
  unfolding lookup find
  replay-MapHolds rs h =
      let s = replay rs no_sets in
      let ok = replay-IsConsistent rs no_sets no_sets-IsConsistent in
      MapHolds-intro 0 s.pending ok.pending_kept λ q p v e.
        subst (StateHolds q p)
          (sym (status-replay q p rs no_sets no_sets-IsConsistent)
            ∙ ap (λ o. state_of o (lookup q p s.lost)) e)
          (key_run-StateHolds q p rs idle h tt)

-- What follows from the property, of something made from each value, holds along the values.
module _ {V A : Type 0} (P : ℕ → ℕ → V → Type 0) (Q : A → Type 0) (f : V → A)
    (follows : (pid qid : ℕ) (v : V) → P pid qid v → Q (f v)) where
  All-values_sub : (i : ℕ) (sub : OrdMap V) → SubHolds P i sub → All Q (map f (values_sub sub))
  All-values_sub i [] h = tt
  All-values_sub i ((p, v) ∷ sub) h = (follows p i v h.0, All-values_sub i sub h.1)

  pub All-values : (m : TwoLevel V) → MapHolds P m → All Q (map f (values m))
  All-values [] h = tt
  All-values ((i, sub) ∷ m) h = rw map-append (
      All-append Q (map f (values_sub sub)) (map f (values m)) (All-values_sub i sub h.0)
        (All-values m h.1))
