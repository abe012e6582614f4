-- ===== src/Registry/Bindings/Memory.antt =====
-- A database of bindings and a `Buffer` that do what is documented, for the runs of
-- lib/BdbStoreProvider.cpp.
use bdbmsgstore.Prelude.{
  ℕ, ◌≡◌, ◌⊎◌, inl, inr, refl, Bool, true, false, ◌||◌, Option, none, some, List, [], ◌∷◌, ◌++◌,
  ◌==◌, leb, if◌then◌else◌, length, take, drop, map, ap, sym, subst, ◌∙◌, Bool-cases, ==→eq,
  take-append, drop-append, length-append, arith, get_or,
}
use bdbmsgstore.Journal.Berkeley.{Status, ok, key_exist, failed}
use bdbmsgstore.Journal.Scan.{Row}
use bdbmsgstore.Registry.Bindings.{BindingDb, Framing}
use bdbmsgstore.Registry.Bindings.Laws.{eq_row, has_row, eq_row-eq, IsBindingDb, IsFraming}

abbrev pub without : (Row → Bool) → List Row → List Row
without p [] = []
without p (s ∷ rows) = if p s then without p rows else s ∷ without p rows

abbrev pub values_in : ℕ → List Row → List (List ℕ)
values_in k [] = []
values_in k ((j, v) ∷ rows) = if j == k then v ∷ values_in k rows else values_in k rows

abbrev pub put_new : ℕ → List ℕ → List Row → Bool → Option (Status × List Row)
put_new k v rows true = some (key_exist, rows)
put_new k v rows false = some (ok, (k, v) ∷ rows)

abbrev pub memory : BindingDb (List Row)
memory = record {
  put_value = λ k v rows. put_new k v rows (has_row (k, v) rows);
  del_values = λ k rows. some (ok, without (λ r. r.0 == k) rows);
  rows = λ rows. rows;
  values = values_in;
  del_row = λ row rows. some (without (λ r. eq_row r row) rows);
}

has_row-without :
    (p : Row → Bool) (r : Row) (rows : List Row)
    → has_row r (without p rows) ≡ (if p r then false else has_row r rows)
has_row-without p r [] = elim (Bool-cases (p r)) [ inl q ↦ rw q refl | inr q ↦ rw q refl ]
has_row-without p r (s ∷ rows) = elim (Bool-cases (p s)) [
  | inl q ↦ rw q (has_row-without p r rows ∙ gone (Bool-cases (eq_row r s)) q)
  | inr q ↦ rw (q, has_row-without p r rows) (kept (Bool-cases (eq_row r s)) q)
]
  where
    gone :
        (eq_row r s ≡ true) ⊎ (eq_row r s ≡ false)
        → p s ≡ true
        → (if p r then false else has_row r rows)
          ≡ (if p r then false else eq_row r s || has_row r rows)
    gone (inl e) q =
        let h : p r ≡ true = subst (λ x. p x ≡ true) (sym (eq_row-eq r s e)) q in rw h refl
    gone (inr e) q = rw e refl

    kept :
        (eq_row r s ≡ true) ⊎ (eq_row r s ≡ false)
        → p s ≡ false
        → (eq_row r s || (if p r then false else has_row r rows))
          ≡ (if p r then false else eq_row r s || has_row r rows)
    kept (inl e) q =
        let h : p r ≡ false = subst (λ x. p x ≡ false) (sym (eq_row-eq r s e)) q in rw (e, h) refl
    kept (inr e) q = rw e refl

values_in-held :
    (k : ℕ) (rows : List Row) (r : Row)
    → has_row r (map (λ v. (k, v)) (values_in k rows))
      ≡ (if r.0 == k then has_row r rows else false)
values_in-held k [] r = elim (Bool-cases (r.0 == k)) [ inl q ↦ rw q refl | inr q ↦ rw q refl ]
values_in-held k ((j, v) ∷ rows) (i, u) = elim (Bool-cases (j == k)) [
  | inl q ↦
      let e : j ≡ k = ==→eq j k q in
      rw (q, values_in-held k rows (i, u), e)
        (elim (Bool-cases (i == k)) [ inl p ↦ rw p refl | inr p ↦ rw p refl ])
  | inr q ↦ rw (q, values_in-held k rows (i, u)) (other (Bool-cases (i == k)) q)
]
  where
    other :
        ((i == k) ≡ true) ⊎ ((i == k) ≡ false)
        → (j == k) ≡ false
        → (if i == k then has_row (i, u) rows else false)
          ≡ (if i == k then has_row (i, u) ((j, v) ∷ rows) else false)
    other (inl p) q = let e : (i == j) ≡ false = ground arith in rw (p, e) refl
    other (inr p) q = rw p refl

abbrev state_of : List Row → Option (Status × List Row) → List Row
state_of d none = d
state_of d (some (s, d')) = d'

abbrev status_of : Option (Status × List Row) → Status
status_of none = failed
status_of (some (s, d)) = s

put_entered :
    (k : ℕ) (v : List ℕ) (b b' : List Row) (x : Bool)
    → put_new k v b x ≡ some (ok, b')
    → (r : Row) → has_row r b' ≡ (eq_row r (k, v) || has_row r b)
put_entered k v b b' true h r = absurd (let q : key_exist ≡ ok = ap status_of h in cc)
put_entered k v b b' false h r = ap (λ o. has_row r (state_of b o)) (sym h)

pub memory-IsBindingDb : IsBindingDb memory
memory-IsBindingDb = record {
  put_ok = λ k v b b' h r. put_entered k v b b' (has_row (k, v) b) h r;
  del_values_done = λ k b b' s h r.
      ap (λ o. has_row r (state_of b o)) (sym h) ∙ has_row-without (λ x. x.0 == k) r b;
  del_row_done = λ row b b' h r.
      ap (λ o. has_row r (get_or o b)) (sym h) ∙ has_row-without (λ x. eq_row x row) r b;
  values_held = λ k b r. values_in-held k b r;
}

-- A long long in the first of eight numbers; a string after its length; a table is its bytes.
abbrev pub read_long : List ℕ → Option (ℕ × List ℕ)
read_long [] = none
read_long (n ∷ rest) = some (n, drop 7 rest)

abbrev pub read_string : List ℕ → Option (List ℕ × List ℕ)
read_string [] = none
read_string (n ∷ rest) = if leb n (length rest) then some (take n rest, drop n rest) else none

abbrev pub framing : Framing (List ℕ)
framing = record {
  put_long_long = λ n. n ∷ (0 ∷ (0 ∷ (0 ∷ (0 ∷ (0 ∷ (0 ∷ (0 ∷ [])))))));
  get_long_long = read_long;
  put_short_string = λ s. some (length s ∷ s);
  get_short_string = read_string;
  put_table = λ a. some a;
  get_table = λ b. some (b, []);
}

read_string-back : (s rest : List ℕ) → read_string (length s ∷ (s ++ rest)) ≡ some (s, rest)
read_string-back s rest =
    let l : leb (length s) (length (s ++ rest)) ≡ true = rw (length-append s rest) (ground arith) in
    rw (l, take-append s rest, drop-append s rest) refl

pub framing-IsFraming : IsFraming framing
framing-IsFraming = record {
  eight = λ n. refl;
  long_long = λ n rest h. refl;
  short_string = λ s b rest h.
      subst (λ x. read_string (x ++ rest) ≡ some (s, rest)) (ap (λ o. get_or o b) h)
        (read_string-back s rest);
  table = λ a b h. ap (λ o. some (get_or o b, [])) (sym h);
}
