-- ===== src/Registry/Memory.antt =====
-- A database that does what it is asked to, for the runs of lib/BdbStoreProvider.cpp.
use bdbmsgstore.Prelude.{
  ℕ, ◌≡◌, ◌⊎◌, inl, inr, refl, true, false, Option, none, some, List, [], ◌∷◌, ◌++◌, ◌==◌,
  if◌then◌else◌, is_some, ap, sym, ◌∙◌, Bool-cases, subst, ==→eq, arith,
}
use bdbmsgstore.Journal.Berkeley.{Status, ok, key_exist, not_found, failed}
use bdbmsgstore.Journal.Scan.{Row}
use bdbmsgstore.Registry.{ObjectDb}
use bdbmsgstore.Registry.Tables.{entry, Distinct, IsObjectDb}
use bdbmsgstore.Registry.Loop.{or_else, or_else-none, entry-append}
use bdbmsgstore.Registry.Fill.{Distinct-append}

-- The rows, no id twice.
abbrev pub Rows : Type 0
Rows = (rows : List Row) × Distinct rows

abbrev pub without : ℕ → List Row → List Row
without k [] = []
without k ((j, v) ∷ rows) = if j == k then without k rows else (j, v) ∷ without k rows

pub entry-without :
    (k j : ℕ) (rows : List Row) → entry j (without k rows) ≡ (if j == k then none else entry j rows)
entry-without k j [] = ground arith
entry-without k j ((i, v) ∷ rows) = ground (arith, entry-without k j rows)

pub without-Distinct : (k : ℕ) (rows : List Row) → Distinct rows → Distinct (without k rows)
without-Distinct k [] d = tt
without-Distinct k ((i, v) ∷ rows) (fresh, d) = elim (Bool-cases (i == k)) [
  | inl q ↦ rw q (without-Distinct k rows d)
  | inr q ↦ rw q (entry-without k i rows ∙ rw q fresh, without-Distinct k rows d)
]

==-turn : (a b : ℕ) → (a == b) ≡ true → (b == a) ≡ true
==-turn a b h = ground arith

==-turn_false : (a b : ℕ) → (a == b) ≡ false → (b == a) ≡ false
==-turn_false a b h = ground arith

abbrev pub put_row :
    (k : ℕ) → List ℕ → (d : Rows) → (o : Option (List ℕ)) → entry k d.0 ≡ o → Option (Status × Rows)
put_row k v d none e = some (ok, (d.0 ++ ((k, v) ∷ []), Distinct-append k v d.0 e d.1))
put_row k v d (some w) e = some (key_exist, d)

abbrev pub del_row : ℕ → Rows → Option (List ℕ) → Option (Status × Rows)
del_row k d none = some (not_found, d)
del_row k d (some w) = some (ok, (without k d.0, without-Distinct k d.0 d.1))

abbrev pub memory : ObjectDb Rows
memory = record {
  put_object = λ k v d. put_row k v d (entry k d.0) refl;
  del_object = λ k d. del_row k d (entry k d.0);
  rows = λ d. d.0;
}

abbrev state_of : Rows → Option (Status × Rows) → List Row
state_of d none = d.0
state_of d (some (s, d')) = d'.0

abbrev status_of : Option (Status × Rows) → Status
status_of none = failed
status_of (some (s, d)) = s

module _ (k : ℕ) (v : List ℕ) (d d' : Rows) where
  put_status :
      (s : Status) (o : Option (List ℕ)) (e : entry k d.0 ≡ o)
      → put_row k v d o e ≡ some (s, d')
      → (s ≡ ok) ⊎ (s ≡ key_exist)
  put_status s none e h = inl (sym (ap status_of h))
  put_status s (some w) e h = inr (sym (ap status_of h))

  put_entry :
      (o : Option (List ℕ)) (e : entry k d.0 ≡ o)
      → put_row k v d o e ≡ some (ok, d')
      → (entry k d.0 ≡ none) × ((j : ℕ) → entry j d'.0 ≡ (if j == k then some v else entry j d.0))
  put_entry none e h = (
    e,
    λ j.
        ap (λ r. entry j (state_of d r)) (sym h)
        ∙ entry-append j k v d.0
        ∙ last j (Bool-cases (j == k)),
  )
    where
      last :
          (j : ℕ)
          → ((j == k) ≡ true) ⊎ ((j == k) ≡ false)
          → or_else (entry j d.0) (if k == j then some v else none)
            ≡ (if j == k then some v else entry j d.0)
      last j (inl q) =
          let (p, r) : ((k == j) ≡ true) × (entry j d.0 ≡ none) =
            (==-turn j k q, subst (λ x. entry x d.0 ≡ none) (sym (==→eq j k q)) e) in
          rw (p, q, r) refl
      last j (inr q) = rw (q, ==-turn_false j k q) (or_else-none (entry j d.0))
  put_entry (some w) e h = absurd (let r : key_exist ≡ ok = ap status_of h in cc)

  put_there :
      (o : Option (List ℕ)) (e : entry k d.0 ≡ o)
      → put_row k v d o e ≡ some (key_exist, d')
      → is_some (entry k d.0) ≡ true
  put_there none e h = absurd (let r : ok ≡ key_exist = ap status_of h in cc)
  put_there (some w) e h = ap is_some e

absent :
    (k j : ℕ) (rows : List Row)
    → entry k rows ≡ none
    → entry j rows ≡ (if j == k then none else entry j rows)
absent k j rows e = elim (Bool-cases (j == k)) [
  | inl q ↦ rw q (subst (λ x. entry x rows ≡ none) (sym (==→eq j k q)) e)
  | inr q ↦ rw q refl
]

del_entry :
    (k : ℕ) (d d' : Rows) (s : Status) (o : Option (List ℕ))
    → entry k d.0 ≡ o
    → del_row k d o ≡ some (s, d')
    → (j : ℕ) → entry j d'.0 ≡ (if j == k then none else entry j d.0)
del_entry k d d' s none e h j = ap (λ r. entry j (state_of d r)) (sym h) ∙ absent k j d.0 e
del_entry k d d' s (some w) e h j = ap (λ r. entry j (state_of d r)) (sym h) ∙ entry-without k j d.0

pub memory-IsObjectDb : IsObjectDb memory
memory-IsObjectDb = record {
  distinct = λ d. d.1;
  put_status = λ k v d d' s h. put_status k v d d' s (entry k d.0) refl h;
  put_ok = λ k v d d' h. put_entry k v d d' (entry k d.0) refl h;
  put_exist = λ k v d d' h. put_there k v d d' (entry k d.0) refl h;
  del_done = λ k d d' s h j. del_entry k d d' s (entry k d.0) refl h j;
}
