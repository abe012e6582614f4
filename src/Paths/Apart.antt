-- ===== src/Paths/Apart.antt =====
-- Different databases have different paths, as strings (lib/BdbStoreProvider.cpp, lib/JournalImpl.cpp).
use bdbmsgstore.Prelude.{
  ℕ, suc, ◌+◌, ◌-◌, ◌/◌, ◌%◌, ◌<◌, ◌≤◌, ◌≡◌, ◌↔◌, inl, inr, refl, false, List, [], ◌∷◌, ◌++◌, ◌==◌,
  ltb, length, take, drop, get_elem?, get_or, All, All-append, ap, ap₂, sym, ◌∙◌, arith,
  take-append, drop-append, length-append, append_assoc, Bool-cases, lt→ltb, le→ltb, ltb→lt, ltb→le,
}
use bdbmsgstore.Registry.Queues.{c_str}
use bdbmsgstore.Paths.{
  reversed, zeros, hex_digit, hex4, jrnl_base_dir, b_hash, get_jrnl_hash_dir, digits, pad3,
  get_sub_db_name, get_sub_db_path, created_path, recovered_path,
}

-- No byte of the string is NUL.
abbrev pub NoNul : List ℕ → Type 0
NoNul xs = All (λ c. (c == 0) ≡ false) xs

c_str-NoNul : (xs : List ℕ) → NoNul xs → c_str xs ≡ xs
c_str-NoNul [] h = refl
c_str-NoNul (x ∷ xs) (h, hs) = rw h (ap (◌∷◌ x) (c_str-NoNul xs hs))

abbrev three : ℕ → List ℕ
three s = (48 + s / 100) ∷ ((48 + s / 10 % 10) ∷ ((48 + s % 10) ∷ []))

digits_one : (f n : ℕ) → n < 10 → digits (suc f) n ≡ (48 + n % 10) ∷ []
digits_one f n h = rw (lt→ltb n 10 h) refl

digits_two :
    (f n : ℕ)
    → 10 ≤ n
    → n < 100
    → digits (suc (suc f)) n ≡ (48 + n % 10) ∷ ((48 + n / 10 % 10) ∷ [])
digits_two f n h l =
    rw (le→ltb n 10 h) (ap (◌∷◌ (48 + n % 10)) (digits_one f (n / 10) (omega arith)))

digits_three :
    (f n : ℕ)
    → 100 ≤ n
    → n < 1000
    → digits (suc (suc (suc f))) n
      ≡ (48 + n % 10) ∷ ((48 + n / 10 % 10) ∷ ((48 + n / 10 / 10 % 10) ∷ []))
digits_three f n h l =
    let ten : 10 ≤ n = omega arith in
    rw (le→ltb n 10 ten)
      (ap (◌∷◌ (48 + n % 10)) (digits_two f (n / 10) (omega arith) (omega arith)))

abbrev padded : List ℕ → List ℕ
padded ds = zeros (3 - length ds) ++ reversed ds []

abbrev three_of : ℕ → ℕ → ℕ → List ℕ
three_of a b c = a ∷ (b ∷ (c ∷ []))

same_three : (a b c a' b' c' : ℕ) → a ≡ a' → b ≡ b' → c ≡ c' → three_of a b c ≡ three_of a' b' c'
same_three a b c a' b' c' p q r =
    ap (λ x. three_of x b c) p ∙ ap (λ x. three_of a' x c) q ∙ ap (λ x. three_of a' b' x) r

pad3-three : (s : ℕ) → s < 1000 → pad3 s ≡ three s
pad3-three s h = elim (Bool-cases (ltb s 10)) [
  | inl q ↦
      let l : s < 10 = ltb→lt s 10 q in
      ap padded (digits_one s s l)
      ∙ same_three 48 48 (48 + s % 10) (48 + s / 100) (48 + s / 10 % 10) (48 + s % 10) (omega arith)
          (omega arith) refl
  | inr q ↦
      let g : 10 ≤ s = ltb→le s 10 q in
      elim (Bool-cases (ltb s 100)) [
        | inl r ↦
            let l : s < 100 = ltb→lt s 100 r in
            let e : suc s ≡ suc (suc (s - 1)) = omega arith in
            ap (λ f. padded (digits f s)) e
            ∙ ap padded (digits_two (s - 1) s g l)
            ∙ same_three 48 (48 + s / 10 % 10) (48 + s % 10) (48 + s / 100) (48 + s / 10 % 10)
                (48 + s % 10) (omega arith) refl refl
        | inr r ↦
            let k : 100 ≤ s = ltb→le s 100 r in
            let e : suc s ≡ suc (suc (suc (s - 2))) = omega arith in
            ap (λ f. padded (digits f s)) e
            ∙ ap padded (digits_three (s - 2) s k h)
            ∙ same_three (48 + s / 10 / 10 % 10) (48 + s / 10 % 10) (48 + s % 10) (48 + s / 100)
                (48 + s / 10 % 10) (48 + s % 10) (omega arith) refl refl
      ]
]

-- The end of the path, and its start.
abbrev ending : ℕ → List ℕ
ending s = 95 ∷ (115 ∷ (three s ++ (46 ∷ (100 ∷ (98 ∷ [])))))

abbrev beginning : List ℕ → List ℕ
beginning name = jrnl_base_dir ++ (hex4 (b_hash name % 29) ++ (47 ∷ []))

abbrev whole : List ℕ → ℕ → List ℕ
whole name s = beginning name ++ (name ++ (47 ∷ (name ++ ending s)))

nonzero : (k d : ℕ) → ((suc k + d) == 0) ≡ false
nonzero k d = ground arith

hex_nonzero : (d : ℕ) → (hex_digit d == 0) ≡ false
hex_nonzero d = ground arith

whole-NoNul : (name : List ℕ) (s : ℕ) → NoNul name → NoNul (whole name s)
whole-NoNul name s h =
    let P = λ (c : ℕ). (c == 0) ≡ false in
    let n = b_hash name % 29 in
    let ends : NoNul (ending s) = (
      refl,
      (
        refl,
        (
          nonzero 47 (s / 100),
          (nonzero 47 (s / 10 % 10), (nonzero 47 (s % 10), (refl, (refl, (refl, tt))))),
        ),
      ),
    ) in
    let starts : NoNul (beginning name) = (
      refl,
      (
        refl,
        (
          refl,
          (
            refl,
            (
              refl,
              (
                hex_nonzero (n / 4096 % 16),
                (
                  hex_nonzero (n / 256 % 16),
                  (hex_nonzero (n / 16 % 16), (hex_nonzero (n % 16), (refl, tt))),
                ),
              ),
            ),
          ),
        ),
      ),
    ) in
    All-append P (beginning name) (name ++ (47 ∷ (name ++ ending s))) starts
      (All-append P name (47 ∷ (name ++ ending s)) h (refl, All-append P name (ending s) h ends))

abbrev tail_of : List ℕ → List ℕ
tail_of ds = 95 ∷ (115 ∷ (ds ++ (46 ∷ (100 ∷ (98 ∷ [])))))

get_sub_db_path-whole :
    (name : List ℕ) (s : ℕ)
    → NoNul name
    → s < 1000
    → get_sub_db_path (get_jrnl_hash_dir name) name s ≡ whole name s
unfolding get_sub_db_path get_jrnl_hash_dir get_sub_db_name
get_sub_db_path-whole name s h l =
    ap
      (λ x.
        (jrnl_base_dir ++ (hex4 (b_hash x % 29) ++ (47 ∷ (name ++ (47 ∷ [])))))
        ++ (name ++ tail_of (pad3 s)))
      (c_str-NoNul name h)
    ∙ ap
        (λ ds.
          (jrnl_base_dir ++ (hex4 (b_hash name % 29) ++ (47 ∷ (name ++ (47 ∷ [])))))
          ++ (name ++ tail_of ds))
        (pad3-three s l)
    ∙ ap (λ xs. beginning name ++ xs) (append_assoc name (47 ∷ []) (name ++ ending s))

module _ (name : List ℕ) (s : ℕ) (h : NoNul name) (l : s < 1000) where
  created_path-whole : created_path name s ≡ whole name s
  unfolding created_path
  created_path-whole =
      ap (λ x. c_str (get_sub_db_path (get_jrnl_hash_dir x) name s)) (c_str-NoNul name h)
      ∙ ap c_str (get_sub_db_path-whole name s h l)
      ∙ c_str-NoNul (whole name s) (whole-NoNul name s h)

  recovered_path-whole : recovered_path name s ≡ whole name s
  unfolding recovered_path
  recovered_path-whole =
      ap (λ x. c_str (get_sub_db_path (get_jrnl_hash_dir x) x s)) (c_str-NoNul name h)
      ∙ ap c_str (get_sub_db_path-whole name s h l)
      ∙ c_str-NoNul (whole name s) (whole-NoNul name s h)

length-whole : (name : List ℕ) (s : ℕ) → length (whole name s) ≡ 19 + (length name + length name)
length-whole name s =
    let p = length-append name (47 ∷ (name ++ ending s)) in
    let q = length-append name (ending s) in omega (arith, p, q)

same_sid : (s r : ℕ) → s < 1000 → r < 1000 → ending s ≡ ending r → s ≡ r
same_sid s r hs hr e =
    let a : 48 + s / 100 ≡ 48 + r / 100 = ap (λ xs. get_or (get_elem? xs 2) 0) e in
    let b : 48 + s / 10 % 10 ≡ 48 + r / 10 % 10 = ap (λ xs. get_or (get_elem? xs 3) 0) e in
    let c : 48 + s % 10 ≡ 48 + r % 10 = ap (λ xs. get_or (get_elem? xs 4) 0) e in omega arith

whole_apart :
    (name other : List ℕ) (s r : ℕ)
    → s < 1000
    → r < 1000
    → whole name s ≡ whole other r
    → (name ≡ other) × (s ≡ r)
whole_apart name other s r hs hr e =
    let n : length name ≡ length other =
      omega (arith, length-whole name s, length-whole other r, ap length e) in
    let rest : name ++ (47 ∷ (name ++ ending s)) ≡ other ++ (47 ∷ (other ++ ending r)) =
      ap (drop 10) e in
    let same : name ≡ other =
      sym (take-append name (47 ∷ (name ++ ending s)))
      ∙ ap (take (length name)) rest
      ∙ ap (λ k. take k (other ++ (47 ∷ (other ++ ending r)))) n
      ∙ take-append other (47 ∷ (other ++ ending r)) in
    let last : 47 ∷ (name ++ ending s) ≡ 47 ∷ (other ++ ending r) =
      sym (drop-append name (47 ∷ (name ++ ending s)))
      ∙ ap (drop (length name)) rest
      ∙ ap (λ k. drop k (other ++ (47 ∷ (other ++ ending r)))) n
      ∙ drop-append other (47 ∷ (other ++ ending r)) in
    let end : ending s ≡ ending r =
      sym (drop-append name (ending s))
      ∙ ap (λ xs. drop (length name) (drop 1 xs)) last
      ∙ ap (λ k. drop k (other ++ ending r)) n
      ∙ drop-append other (ending r) in
    (same, same_sid s r hs hr end)

-- Let the names of two queues have no NUL, and the numbers of two databases be below 1000. Then the
-- path that is passed to Berkeley DB when a queue is recovered is the string that is passed when it
-- is created; and the strings for the two databases are the same exactly if the names are and the
-- numbers are. That different strings lead to different files is not stated.
pub created_path-apart :
    (name other : List ℕ) (s r : ℕ)
    → NoNul name
    → NoNul other
    → s < 1000
    → r < 1000
    → (recovered_path name s ≡ created_path name s)
      × ((created_path name s ≡ created_path other r) ↔ ((name ≡ other) × (s ≡ r)))
created_path-apart name other s r h k hs hr = (
  recovered_path-whole name s h hs ∙ sym (created_path-whole name s h hs),
  (
    λ e.
        whole_apart name other s r hs hr
          (sym (created_path-whole name s h hs) ∙ e ∙ created_path-whole other r k hr),
    λ p. ap₂ created_path p.0 p.1,
  ),
)
