-- ===== src/Registry/Loop.antt =====
-- The loop of `recoverConfigs` and `recoverExchanges` of lib/BdbStoreProvider.cpp over a table, by the
-- table read as a map.
use bdbmsgstore.Prelude.{
  ℕ, ◌≤◌, ◌<◌, ◌≡◌, refl, inl, inr, true, false, Option, none, some, List, [], ◌∷◌, ◌++◌, ◌==◌,
  if◌then◌else◌, is_some, arith, ap, sym, ◌∙◌, subst, Bool-cases, ==→eq, ==-refl,
}
use bdbmsgstore.Journal.{Outcome, returned, raised, undefined}
use bdbmsgstore.Journal.Scan.{Row}
use bdbmsgstore.Provider.Recovery.{◌>>=◌}
use bdbmsgstore.Registry.{found_config, max, add_found, recover_each}
use bdbmsgstore.Registry.Tables.{entry, Distinct}

max-le : (a b : ℕ) → (a ≤ max a b) × (b ≤ max a b)
max-le a b = ground arith

max-lt : (a b c : ℕ) → a < c → b < c → max a b < c
max-lt a b c p q = ground arith

module _ (id : ℕ) where
  entry_here : (v : List ℕ) (rest : List Row) → entry id ((id, v) ∷ rest) ≡ some v
  entry_here v rest = rw (==-refl id) refl

  entry_other :
      (k : ℕ) (v : List ℕ) (rest : List Row)
      → (id == k) ≡ false
      → entry k ((id, v) ∷ rest) ≡ entry k rest
  entry_other k v rest q = rw q refl

  entry_further :
      (k : ℕ) (v : List ℕ) (rest : List Row)
      → is_some (entry k rest) ≡ true
      → is_some (entry k ((id, v) ∷ rest)) ≡ true
  entry_further k v rest h = ground (arith, h)

  entry_later :
      (k : ℕ) (v w : List ℕ) (rest : List Row)
      → entry id rest ≡ none
      → entry k rest ≡ some w
      → entry k ((id, v) ∷ rest) ≡ some w
  entry_later k v w rest fresh p = elim (Bool-cases (id == k)) [
    | inl q ↦
        let r : entry id rest ≡ some w =
          subst (λ x. entry x rest ≡ some w) (sym (==→eq id k q)) p in
        absurd (let c : false ≡ true = sym (ap is_some fresh) ∙ ap is_some r in cc)
    | inr q ↦ rw q p
  ]

module _ {A : Type 0} where
  abbrev pub or_else : Option A → Option A → Option A
  or_else none o = o
  or_else (some a) o = some a

  abbrev pub outcome_object : Outcome (Option A) → Option A
  outcome_object (returned a) = a
  outcome_object raised = none
  outcome_object undefined = none

  -- The object that the broker makes of a stored value.
  abbrev pub object_of : (List ℕ → Outcome (Option A)) → Option (List ℕ) → Option A
  object_of decode none = none
  object_of decode (some v) = outcome_object (decode v)

  -- A stored value of which the broker makes no object, the outcome being `bad`.
  abbrev pub Unreadable :
      (List ℕ → Outcome (Option A)) → (ℕ → Option (List ℕ)) → Outcome (Option A) → Type 0
  Unreadable decode m bad = (k : ℕ) × ((v : List ℕ) × ((m k ≡ some v) × (decode v ≡ bad)))

  abbrev pub decode_config : (List ℕ → Outcome A) → List ℕ → Outcome (Option A)
  decode_config decode v = decode v >>= found_config

  pub entry-append :
      (k j : ℕ) (a : A) (found : List (ℕ × A))
      → entry k (found ++ ((j, a) ∷ [])) ≡ or_else (entry k found) (if j == k then some a else none)
  entry-append k j a [] = refl
  entry-append k j a ((i, b) ∷ found) = elim (Bool-cases (i == k)) [
    | inl e ↦ rw e refl
    | inr e ↦ rw e (entry-append k j a found)
  ]

  or_else-some :
      (o : Option A) (a : A) (o' : Option A) → or_else (or_else o (some a)) o' ≡ or_else o (some a)
  or_else-some none a o' = refl
  or_else-some (some b) a o' = refl

  pub or_else-none : (o : Option A) → or_else o none ≡ o
  or_else-none none = refl
  or_else-none (some b) = refl

  module _ (decode : List ℕ → Outcome (Option A)) where
    later_entry :
        (id : ℕ) (v : List ℕ) (rest : List Row) (found : List (ℕ × A)) (a : Option A)
        → decode v ≡ returned a
        → entry id rest ≡ none
        → (k : ℕ)
        → or_else (entry k (add_found id a found)) (object_of decode (entry k rest))
          ≡ or_else (entry k found) (object_of decode (entry k ((id, v) ∷ rest)))
    later_entry id v rest found none e fresh k = elim (Bool-cases (id == k)) [
      | inl q ↦
          let r : entry k rest ≡ none = subst (λ x. entry x rest ≡ none) (==→eq id k q) fresh in
          rw (q, e, r) refl
      | inr q ↦ rw q refl
    ]
    later_entry id v rest found (some a) e fresh k = elim (Bool-cases (id == k)) [
      | inl q ↦
          rw (entry-append k id a found, q, e)
            (or_else-some (entry k found) a (object_of decode (entry k rest)))
      | inr q ↦ rw (entry-append k id a found, q, or_else-none (entry k found)) refl
    ]

    -- The loop over `rows` from the largest id `max_id` and the objects `found` on, by its outcome.
    abbrev pub Found : List Row → ℕ → List (ℕ × A) → Outcome (ℕ × List (ℕ × A)) → Type 0
    Found rows max_id found (returned (max_id', found')) =
        ((k : ℕ) → entry k found' ≡ or_else (entry k found) (object_of decode (entry k rows)))
        × ((max_id ≤ max_id')
            × (((k : ℕ) → is_some (entry k rows) ≡ true → k ≤ max_id')
                × ((b : ℕ)
                    → max_id < b
                    → ((k : ℕ) → is_some (entry k rows) ≡ true → k < b)
                    → max_id' < b)))
    Found rows max_id found raised =
        (k : ℕ) × ((v : List ℕ) × ((entry k rows ≡ some v) × (decode v ≡ raised)))
    Found rows max_id found undefined =
        (k : ℕ) × ((v : List ℕ) × ((entry k rows ≡ some v) × (decode v ≡ undefined)))

    Found-later :
        (id : ℕ) (v : List ℕ) (rest : List Row) (max_id : ℕ) (found : List (ℕ × A)) (a : Option A)
        (o : Outcome (ℕ × List (ℕ × A)))
        → decode v ≡ returned a
        → entry id rest ≡ none
        → Found rest (max id max_id) (add_found id a found) o
        → Found ((id, v) ∷ rest) max_id found o
    Found-later id v rest max_id found a (returned (max_id', found')) e fresh
          (same, (le, (keys, least))) =
        (
          λ k. same k ∙ later_entry id v rest found a e fresh k,
          (
            omega (arith, max-le id max_id),
            (
              λ k h. elim (Bool-cases (id == k)) [
                | inl q ↦ let l : id ≡ k = ==→eq id k q in omega (arith, max-le id max_id)
                | inr q ↦ keys k (sym (ap is_some (entry_other id k v rest q)) ∙ h)
              ],
              λ b lt below.
                  least b (max-lt id max_id b (below id (ap is_some (entry_here id v rest))) lt)
                    (λ k h. below k (entry_further id k v rest h)),
            ),
          ),
        )
    Found-later id v rest max_id found a raised e fresh (k, (w, (p, q))) =
        (k, (w, (entry_later id k v w rest fresh p, q)))
    Found-later id v rest max_id found a undefined e fresh (k, (w, (p, q))) =
        (k, (w, (entry_later id k v w rest fresh p, q)))

    Found-next :
        (id : ℕ) (v : List ℕ) (rest : List Row) (max_id : ℕ) (found : List (ℕ × A))
        (o : Outcome (Option A))
        → decode v ≡ o
        → entry id rest ≡ none
        → ((a : Option A)
            → Found rest
                (max id max_id)
                (add_found id a found)
                (recover_each decode rest (max id max_id) (add_found id a found)))
        → Found ((id, v) ∷ rest) max_id found (
            o >>= λ (a : Option A). recover_each decode rest (max id max_id) (add_found id a found))
    Found-next id v rest max_id found (returned a) e fresh later =
        Found-later id v rest max_id found a
          (recover_each decode rest (max id max_id) (add_found id a found)) e fresh (later a)
    Found-next id v rest max_id found raised e fresh later = (id, (v, (entry_here id v rest, e)))
    Found-next id v rest max_id found undefined e fresh later = (id, (v, (entry_here id v rest, e)))

    pub recover_each-Found :
        (rows : List Row) (max_id : ℕ) (found : List (ℕ × A))
        → Distinct rows
        → Found rows max_id found (recover_each decode rows max_id found)
    unfolding recover_each
    recover_each-Found [] max_id found d = (
      λ k. sym (or_else-none (entry k found)),
      (omega arith, (λ k h. absurd (let r : false ≡ true = h in cc), λ b lt below. lt)),
    )
    recover_each-Found ((id, v) ∷ rest) max_id found (fresh, d) =
        Found-next id v rest max_id found (decode v) refl fresh
          (λ a. recover_each-Found rest (max id max_id) (add_found id a found) d)
