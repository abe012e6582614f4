-- ===== src/TwoLevel/Order.antt =====
-- The operations keep both levels in order and leave no empty submap behind.
use bdbmsgstore.Prelude.{
  ℕ, suc, ◌≤◌, ◌≡◌, refl, inl, inr, false, Option, none, some, [], ◌∷◌, arith, Bool-cases,
  Option-cases,
}
use bdbmsgstore.OrdMap.{OrdMap, find, insert, erase, assign, empty, Above, IsOrdered}
use bdbmsgstore.OrdMap.Laws.{insert-Above, erase-Above}
use bdbmsgstore.TwoLevel.{TwoLevel, add, put_back, remove, remove_entry, Kept, IsKept}

module _ {V : Type 0} where
  pub Kept-Above : (lo : ℕ) (m : TwoLevel V) → Kept lo m → Above lo m
  Kept-Above lo [] h = tt
  Kept-Above lo ((q, sub) ∷ m) h = (h.0, Kept-Above (suc q) m h.3)

  Kept-le : (lo hi : ℕ) (m : TwoLevel V) → lo ≤ hi → Kept hi m → Kept lo m
  Kept-le lo hi [] l h = tt
  Kept-le lo hi ((q, sub) ∷ m) l h = (omega arith, h.1, h.2, h.3)

  -- A submap that is found is in order.
  pub find-IsOrdered :
      (lo q : ℕ) (m : TwoLevel V) (sub : OrdMap V) → Kept lo m → find q m ≡ some sub → IsOrdered sub
  unfolding find
  find-IsOrdered lo q [] sub h e = cc
  find-IsOrdered lo q ((i, s) ∷ m) sub h e = ground (arith, find-IsOrdered (suc i) q m sub h.3)

  insert-not_empty : (p : ℕ) (v : V) (sub : OrdMap V) → empty (insert p v sub) ≡ false
  unfolding insert
  insert-not_empty p v [] = refl
  insert-not_empty p v ((i, w) ∷ sub) = ground arith

  insert-Kept :
      (lo q : ℕ) (sub : OrdMap V) (m : TwoLevel V)
      → lo ≤ q
      → IsOrdered sub
      → empty sub ≡ false
      → Kept lo m
      → Kept lo (insert q sub m)
  unfolding insert
  insert-Kept lo q sub [] l o e h = (l, o, e, tt)
  insert-Kept lo q sub ((i, s) ∷ m) l o e h = ground (arith, insert-Kept (suc i) q sub m)

  assign-Kept :
      (lo q : ℕ) (sub : OrdMap V) (m : TwoLevel V)
      → IsOrdered sub
      → empty sub ≡ false
      → Kept lo m
      → Kept lo (assign q sub m)
  unfolding assign
  assign-Kept lo q sub [] o e h = tt
  assign-Kept lo q sub ((i, s) ∷ m) o e h = ground (arith, assign-Kept (suc i) q sub m)

  erase-Kept : (lo q : ℕ) (m : TwoLevel V) → Kept lo m → Kept lo (erase q m)
  unfolding erase
  erase-Kept lo q [] h = tt
  erase-Kept lo q ((i, s) ∷ m) h = ground (arith, erase-Kept (suc i) q m h.3, Kept-le lo (suc i) m)

  pub add-IsKept : (q p : ℕ) (v : V) (m : TwoLevel V) → IsKept m → IsKept (add q p v m)
  unfolding add
  add-IsKept q p v m h = elim (Option-cases (find q m)) [
    | inl e ↦ rw e (
        insert-Kept 0 q (insert p v []) m (omega arith) (insert-Above 0 p v [] (omega arith) tt)
          (insert-not_empty p v []) h)
    | inr (sub, e) ↦ rw e (
        assign-Kept 0 q (insert p v sub) m
          (insert-Above 0 p v sub (omega arith) (find-IsOrdered 0 q m sub h e))
          (insert-not_empty p v sub) h)
  ]

  put_back-IsKept :
      (q : ℕ) (sub : OrdMap V) (m : TwoLevel V)
      → IsOrdered sub
      → IsKept m
      → IsKept (put_back q sub m)
  unfolding put_back
  put_back-IsKept q sub m o h = elim (Bool-cases (empty sub)) [
    | inl e ↦ rw e (erase-Kept 0 q m h)
    | inr e ↦ rw e (assign-Kept 0 q sub m o e h)
  ]

  remove_entry-IsKept :
      (q p : ℕ) (m : TwoLevel V) (sub : OrdMap V) (o : Option V)
      → IsOrdered sub
      → IsKept m
      → IsKept (remove_entry q p m sub o).1
  remove_entry-IsKept q p m sub none s h = h
  remove_entry-IsKept q p m sub (some v) s h =
      put_back-IsKept q (erase p sub) m (erase-Above 0 p sub s) h

  pub remove-IsKept : (q p : ℕ) (m : TwoLevel V) → IsKept m → IsKept (remove q p m).1
  unfolding remove
  remove-IsKept q p m h = elim (Option-cases (find q m)) [
    | inl e ↦ rw e h
    | inr (sub, e) ↦
        rw e (remove_entry-IsKept q p m sub (find p sub) (find-IsOrdered 0 q m sub h e) h)
  ]
