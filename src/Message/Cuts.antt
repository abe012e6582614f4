-- ===== src/Message/Cuts.antt =====
-- Cutting a list that is put together of two, twice, or beyond its end.
use bdbmsgstore.Prelude.{
  ℕ, zero, suc, ◌+◌, ◌-◌, ◌≤◌, ◌≡◌, refl, List, [], ◌∷◌, ◌++◌, arith, length, take, drop, ap,
}

module _ {A : Type 0} where
  pub drop_past : (j k : ℕ) (xs ys : List A) → j ≡ length xs + k → drop j (xs ++ ys) ≡ drop k ys
  drop_past j k [] ys h = ap (λ i. drop i ys) (omega arith)
  drop_past zero k (x ∷ xs) ys h = absurd (omega arith)
  drop_past (suc j) k (x ∷ xs) ys h = drop_past j k xs ys (omega arith)

  pub drop-drop : (j n k : ℕ) (xs : List A) → j ≡ n + k → drop j xs ≡ drop k (drop n xs)
  drop-drop j zero k xs h = ap (λ i. drop i xs) (omega arith)
  drop-drop zero (suc n) k [] h = absurd (omega arith)
  drop-drop (suc j) (suc n) zero [] h = refl
  drop-drop (suc j) (suc n) (suc k) [] h = refl
  drop-drop zero (suc n) k (x ∷ xs) h = absurd (omega arith)
  drop-drop (suc j) (suc n) k (x ∷ xs) h = drop-drop j n k xs (omega arith)

  pub take_more : (n : ℕ) (xs : List A) → length xs ≤ n → take n xs ≡ xs
  take_more zero [] h = refl
  take_more zero (x ∷ xs) h = absurd (omega arith)
  take_more (suc n) [] h = refl
  take_more (suc n) (x ∷ xs) h = ap (◌∷◌ x) (take_more n xs (omega arith))

  pub length-drop : (n : ℕ) (xs : List A) → length (drop n xs) ≡ length xs - n
  length-drop zero xs = omega arith
  length-drop (suc n) [] = omega arith
  length-drop (suc n) (x ∷ xs) = omega (arith, length-drop n xs)
