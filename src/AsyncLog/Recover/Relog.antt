-- ===== src/AsyncLog/Recover/Relog.antt =====
-- Reading back the log that a recovery or a cleaner writes, one start for each pending entry.
use bdbmsgstore.Prelude.{
  ℕ, suc, ◌<◌, ◌≡◌, refl, subst, inl, inr, false, ◌&&◌, Option, none, some, List, [], ◌∷◌, ◌++◌,
  map, map-append, arith, ◌==◌, Bool-cases, ==-refl, ==→eq, ne→==,
}
use bdbmsgstore.OrdMap.{OrdMap, find, Above}
use bdbmsgstore.OrdMap.Laws.{find_below}
use bdbmsgstore.TwoLevel.{TwoLevel, lookup, values, values_sub, Kept, IsKept}
use bdbmsgstore.TwoLevel.Order.{Kept-Above}
use bdbmsgstore.AsyncLog.Replay.{Record, start}
use bdbmsgstore.AsyncLog.Replay.Entries.{SubHolds, MapHolds}
use bdbmsgstore.AsyncLog.Replay.View.{KeyState, idle, started, key_step, key_run}

module _ {V : Type 0} where
  -- The state that an entry starts from idle.
  abbrev pub from_entry : Option V → KeyState V
  from_entry none = idle
  from_entry (some v) = started v

  key_run-append :
      (q p : ℕ) (xs ys : List (Record V)) (k : KeyState V)
      → key_run q p (xs ++ ys) k ≡ key_run q p ys (key_run q p xs k)
  unfolding key_run
  key_run-append q p [] ys k = refl
  key_run-append q p (x ∷ xs) ys k = key_run-append q p xs ys (key_step q p x k)

module _ {V : Type 0} (relog : V → Record V) (P : ℕ → ℕ → V → Type 0)
    (own : (pid qid : ℕ) (v : V) → P pid qid v → relog v ≡ start pid qid v) where
  -- Another queue's starts change nothing.
  run-other :
      (q p i : ℕ) (sub : OrdMap V) (k : KeyState V)
      → SubHolds P i sub
      → (i == q) ≡ false
      → key_run q p (map relog (values_sub sub)) k ≡ k
  unfolding key_run
  run-other q p i [] k h ne = refl
  run-other q p i ((j, v) ∷ sub) k h ne = rw (own j i v h.0, ne) (run-other q p i sub k h.1 ne)

  -- Further starts of a started message change nothing.
  run-started :
      (q p i : ℕ) (sub : OrdMap V) (w : V)
      → SubHolds P i sub
      → key_run q p (map relog (values_sub sub)) (started w) ≡ started w
  unfolding key_run
  run-started q p i [] w h = refl
  run-started q p i ((j, v) ∷ sub) w h = rw (own j i v h.0) (elim (Bool-cases (i == q && j == p)) [
    | inl e ↦ rw e (run-started q p i sub w h.1)
    | inr e ↦ rw e (run-started q p i sub w h.1)
  ])

  -- Its own queue's starts leave the entry of a message that was idle.
  run-own :
      (q p lo : ℕ) (sub : OrdMap V)
      → SubHolds P q sub
      → Above lo sub
      → key_run q p (map relog (values_sub sub)) idle ≡ from_entry (find p sub)
  unfolding key_run find
  run-own q p lo [] h a = refl
  run-own q p lo ((j, v) ∷ sub) h a =
      rw (own j q v h.0, ==-refl q)
        (elim (Bool-cases (j == p)) [
          | inl e ↦ rw e (run-started q p q sub v h.1)
          | inr e ↦
              rw e (ground (arith, run-own q p (suc j) sub h.1 a.1, find_below (suc j) p sub a.1))
        ])

  -- Nor do the starts of later queues.
  run-above :
      (q p lo : ℕ) (m : TwoLevel V) (k : KeyState V)
      → MapHolds P m
      → Kept lo m
      → q < lo
      → key_run q p (map relog (values m)) k ≡ k
  unfolding key_run
  run-above q p lo [] k h kept lt = refl
  run-above q p lo ((i, sub) ∷ m) k h kept lt =
      rw
        (
          map-append,
          key_run-append,
          run-other q p i sub k h.0 (ne→== i q (λ (e : i ≡ q). omega arith)),
        )
        (run-above q p (suc i) m k h.1 kept.3 (omega arith))

  run-values :
      (q p lo : ℕ) (m : TwoLevel V)
      → MapHolds P m
      → Kept lo m
      → key_run q p (map relog (values m)) idle ≡ from_entry (lookup q p m)
  unfolding lookup find key_run
  run-values q p lo [] h kept = refl
  run-values q p lo ((i, sub) ∷ m) h kept =
      rw (map-append, key_run-append)
        (elim (Bool-cases (i == q)) [
          | inl e ↦
              let own = subst (λ x. SubHolds P x sub) (==→eq i q e) h.0 in
              rw (e, run-own q p 0 sub own kept.1)
                (run-above q p (suc i) m (from_entry (find p sub)) h.1 kept.3
                  (omega (arith, ==→eq i q e)))
          | inr e ↦
              rw (e, run-other q p i sub idle h.0 e)
                (ground (
                  arith,
                  run-values q p (suc i) m h.1 kept.3,
                  find_below (suc i) q m (Kept-Above (suc i) m kept.3),
                ))
        ])

  -- Logging the values of a map that is in order, each under the ids at which it stands, leaves each
  -- operation started with its value, and idle where the map has no entry.
  pub key_run-values :
      (q p : ℕ) (m : TwoLevel V)
      → MapHolds P m
      → IsKept m
      → key_run q p (map relog (values m)) idle ≡ from_entry (lookup q p m)
  key_run-values q p m h kept = run-values q p 0 m h kept
