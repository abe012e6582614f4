-- ===== src/OrdMap/Laws.antt =====
-- What the map operations do to `find`, and that they keep the order of the keys.
use bdbmsgstore.Prelude.{
  ℕ, suc, ◌≤◌, ◌<◌, ◌≡◌, refl, none, some, [], ◌∷◌, arith, ◌==◌, if◌then◌else◌, is_some, get_or,
}
use bdbmsgstore.OrdMap.{OrdMap, find, insert, erase, assign, Above}

module _ {V : Type 0} where
  pub find-insert :
      (j k : ℕ) (v : V) (m : OrdMap V)
      → find j (insert k v m) ≡ (if k == j then some (get_or (find k m) v) else find j m)
  unfolding find insert
  find-insert j k v [] = ground arith
  find-insert j k v ((i, w) ∷ m) = ground (arith, find-insert j k v m)

  pub find-assign :
      (j k : ℕ) (v : V) (m : OrdMap V)
      → find j (assign k v m)
        ≡ (if k == j then (if is_some (find k m) then some v else none) else find j m)
  unfolding find assign
  find-assign j k v [] = ground arith
  find-assign j k v ((i, w) ∷ m) = ground (arith, find-assign j k v m)

  pub find_below : (lo k : ℕ) (m : OrdMap V) → Above lo m → k < lo → find k m ≡ none
  unfolding find
  find_below lo k [] a h = refl
  find_below lo k ((i, w) ∷ m) a h = ground arith

  pub find-erase :
      (lo j k : ℕ) (m : OrdMap V)
      → Above lo m
      → find j (erase k m) ≡ (if k == j then none else find j m)
  unfolding find erase
  find-erase lo j k [] a = ground arith
  find-erase lo j k ((i, w) ∷ m) a =
      ground (
        arith,
        find-erase (suc i) j k m a.1,
        find_below (suc i) k m a.1,
        find_below (suc i) j m a.1,
      )

  pub Above-le : (lo hi : ℕ) (m : OrdMap V) → lo ≤ hi → Above hi m → Above lo m
  Above-le lo hi [] h a = tt
  Above-le lo hi ((i, w) ∷ m) h a = (omega arith, a.1)

  pub insert-Above :
      (lo k : ℕ) (v : V) (m : OrdMap V) → lo ≤ k → Above lo m → Above lo (insert k v m)
  unfolding insert
  insert-Above lo k v [] h a = (h, tt)
  insert-Above lo k v ((i, w) ∷ m) h a = ground (arith, insert-Above (suc i) k v m)

  pub erase-Above : (lo k : ℕ) (m : OrdMap V) → Above lo m → Above lo (erase k m)
  unfolding erase
  erase-Above lo k [] a = tt
  erase-Above lo k ((i, w) ∷ m) a =
      ground (arith, erase-Above (suc i) k m a.1, Above-le lo (suc i) m)

  pub assign-Above : (lo k : ℕ) (v : V) (m : OrdMap V) → Above lo m → Above lo (assign k v m)
  unfolding assign
  assign-Above lo k v [] a = tt
  assign-Above lo k v ((i, w) ∷ m) a = ground (arith, assign-Above (suc i) k v m a.1)
