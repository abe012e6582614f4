-- ===== src/AsyncLog/Replay/Tally.antt =====
-- How often the values of a two-level map meet a test that one pair of ids meets.
use bdbmsgstore.Prelude.{
  ℕ, suc, ◌+◌, ◌<◌, ◌≡◌, refl, inl, inr, Bool, false, ◌&&◌, List, [], ◌∷◌, ◌++◌, arith, ◌==◌,
  if◌then◌else◌, is_some, Bool-cases, ==→eq, ne→==, ==-refl, subst,
}
use bdbmsgstore.OrdMap.{OrdMap, find, Above}
use bdbmsgstore.OrdMap.Laws.{find_below}
use bdbmsgstore.TwoLevel.{TwoLevel, lookup, values, values_sub, Kept, IsKept}
use bdbmsgstore.TwoLevel.Order.{Kept-Above}
use bdbmsgstore.AsyncLog.Replay.Entries.{SubHolds, MapHolds}

module _ {V : Type 0} where
  abbrev pub tally : (V → Bool) → List V → ℕ
  tally hit [] = 0
  tally hit (v ∷ vs) = (if hit v then 1 else 0) + tally hit vs

  tally-append :
      (hit : V → Bool) (xs ys : List V) → tally hit (xs ++ ys) ≡ tally hit xs + tally hit ys
  tally-append hit [] ys = omega arith
  tally-append hit (x ∷ xs) ys = omega (arith, tally-append hit xs ys)

module _ {V : Type 0} (hit : V → Bool) (q p : ℕ) (P : ℕ → ℕ → V → Type 0)
    (test : (pid qid : ℕ) (v : V) → P pid qid v → hit v ≡ (qid == q && pid == p)) where
  tally-other :
      (i : ℕ) (sub : OrdMap V)
      → SubHolds P i sub
      → (i == q) ≡ false
      → tally hit (values_sub sub) ≡ 0
  tally-other i [] h ne = refl
  tally-other i ((j, v) ∷ sub) h ne =
      rw (test j i v h.0, ne) (omega (arith, tally-other i sub h.1 ne))

  tally-sub-Above :
      (lo : ℕ) (sub : OrdMap V)
      → SubHolds P q sub
      → Above lo sub
      → p < lo
      → tally hit (values_sub sub) ≡ 0
  tally-sub-Above lo [] h a lt = refl
  tally-sub-Above lo ((j, v) ∷ sub) h a lt =
      rw (test j q v h.0, ne→== j p (λ (e : j ≡ p). omega arith), ==-refl q)
        (omega (arith, tally-sub-Above (suc j) sub h.1 a.1 (omega arith)))

  tally-own :
      (lo : ℕ) (sub : OrdMap V)
      → SubHolds P q sub
      → Above lo sub
      → tally hit (values_sub sub) ≡ (if is_some (find p sub) then 1 else 0)
  unfolding find
  tally-own lo [] h a = refl
  tally-own lo ((j, v) ∷ sub) h a =
      rw (test j q v h.0, ==-refl q)
        (elim (Bool-cases (j == p)) [
          | inl e ↦
              rw e (omega (arith, tally-sub-Above (suc j) sub h.1 a.1 (omega (arith, ==→eq j p e))))
          | inr e ↦
              rw e (ground (arith, tally-own (suc j) sub h.1 a.1, find_below (suc j) p sub a.1))
        ])

  tally-above :
      (lo : ℕ) (m : TwoLevel V) → MapHolds P m → Kept lo m → q < lo → tally hit (values m) ≡ 0
  tally-above lo [] h kept lt = refl
  tally-above lo ((i, sub) ∷ m) h kept lt = omega (
    arith,
    tally-append hit (values_sub sub) (values m),
    tally-other i sub h.0 (ne→== i q (λ (e : i ≡ q). omega arith)),
    tally-above (suc i) m h.1 kept.3 (omega arith),
  )

  tally-Kept :
      (lo : ℕ) (m : TwoLevel V)
      → MapHolds P m
      → Kept lo m
      → tally hit (values m) ≡ (if is_some (lookup q p m) then 1 else 0)
  unfolding lookup find
  tally-Kept lo [] h kept = refl
  tally-Kept lo ((i, sub) ∷ m) h kept =
      rw (tally-append hit (values_sub sub) (values m)) (elim (Bool-cases (i == q)) [
        | inl e ↦
            let own = subst (λ x. SubHolds P x sub) (==→eq i q e) h.0 in
            rw (e, tally-own 0 sub own kept.1)
              (omega
                (arith, ==→eq i q e, tally-above (suc i) m h.1 kept.3 (omega (arith, ==→eq i q e))))
        | inr e ↦
            rw (e, tally-other i sub h.0 e)
              (ground (
                arith,
                tally-Kept (suc i) m h.1 kept.3,
                find_below (suc i) q m (Kept-Above (suc i) m kept.3),
              ))
      ])

  -- In a map that is in order, exactly the value under the ids `q` and `p` meets the test.
  pub tally-values :
      (m : TwoLevel V)
      → MapHolds P m
      → IsKept m
      → tally hit (values m) ≡ (if is_some (lookup q p m) then 1 else 0)
  tally-values m h kept = tally-Kept 0 m h kept
