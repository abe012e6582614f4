-- ===== src/TwoLevel/Laws.antt =====
-- What `add` and `remove` do to `lookup`.
use bdbmsgstore.Prelude.{
  ℕ, ◌≡◌, refl, inl, inr, true, ◌&&◌, none, some, [], ◌∷◌, arith, ◌==◌, if◌then◌else◌, is_some,
  get_or, Bool-cases, Option-cases,
}
use bdbmsgstore.OrdMap.{OrdMap, find, insert, erase, empty}
use bdbmsgstore.OrdMap.Laws.{find-insert, find-assign, find-erase}
use bdbmsgstore.TwoLevel.{TwoLevel, lookup, add, put_back, remove, IsKept}
use bdbmsgstore.TwoLevel.Order.{Kept-Above, find-IsOrdered}

module _ {V : Type 0} where
  find-single : (j k : ℕ) (v : V) → find j (insert k v []) ≡ (if k == j then some v else none)
  unfolding find insert
  find-single j k v = ground arith

  -- An entry that is there is kept, and any other entry stays as it was.
  pub lookup-add :
      (q' p' q p : ℕ) (v : V) (m : TwoLevel V)
      → lookup q' p' (add q p v m)
        ≡ (if q == q' && p == p' then some (get_or (lookup q p m) v) else lookup q' p' m)
  unfolding lookup add
  lookup-add q' p' q p v m = elim (Option-cases (find q m)) [
    | inl e ↦ rw (e, find-insert q' q (insert p v []) m) (ground (arith, e, find-single p' p v))
    | inr (sub, e) ↦
        rw (e, find-assign q' q (insert p v sub) m) (ground (arith, e, find-insert p' p v sub))
  ]

  find-empty : (j : ℕ) (sub : OrdMap V) → empty sub ≡ true → find j sub ≡ none
  unfolding find
  find-empty j [] e = refl
  find-empty j ((i, w) ∷ sub) e = cc

  lookup-put_back :
      (q' p' q p : ℕ) (m : TwoLevel V) (sub : OrdMap V)
      → IsKept m
      → find q m ≡ some sub
      → lookup q' p' (put_back q (erase p sub) m)
        ≡ (if q == q' && p == p' then none else lookup q' p' m)
  unfolding lookup put_back
  lookup-put_back q' p' q p m sub h e = elim (Bool-cases (empty (erase p sub))) [
    | inl gone ↦
        rw (gone, find-erase 0 q' q m (Kept-Above 0 m h))
          (ground (
            arith,
            e,
            find-empty p' (erase p sub) gone,
            find-erase 0 p' p sub (find-IsOrdered 0 q m sub h e),
          ))
    | inr left ↦
        rw (left, find-assign q' q (erase p sub) m)
          (ground (arith, e, find-erase 0 p' p sub (find-IsOrdered 0 q m sub h e)))
  ]

  pub lookup-remove :
      (q' p' q p : ℕ) (m : TwoLevel V)
      → IsKept m
      → lookup q' p' (remove q p m).1 ≡ (if q == q' && p == p' then none else lookup q' p' m)
  unfolding lookup remove
  lookup-remove q' p' q p m h = elim (Option-cases (find q m)) [
    | inl e ↦ rw e (ground (arith, e))
    | inr (sub, e) ↦ elim (Option-cases (find p sub)) [
      | inl e' ↦ rw (e, e') (ground (arith, e, e'))
      | inr (v, e') ↦ rw (e, e') (unfold lookup in lookup-put_back q' p' q p m sub h e)
    ]
  ]

  -- `remove` reports exactly whether the entry was there.
  pub remove-found : (q p : ℕ) (m : TwoLevel V) → (remove q p m).0 ≡ is_some (lookup q p m)
  unfolding lookup remove
  remove-found q p m = ground arith
