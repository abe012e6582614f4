-- ===== src/Registry/Fill.antt =====
-- No object is found twice by the loop of `recoverExchanges` (lib/BdbStoreProvider.cpp), so that the map
-- that it fills has each.
use bdbmsgstore.Prelude.{
  ℕ, ◌≡◌, refl, inl, inr, false, Option, none, some, List, [], ◌∷◌, ◌++◌, ◌==◌, arith, ◌∙◌, subst,
  Bool-cases, ==→eq,
}
use bdbmsgstore.OrdMap.{OrdMap, find}
use bdbmsgstore.Journal.{Outcome, returned, raised, undefined}
use bdbmsgstore.Journal.Scan.{Row}
use bdbmsgstore.Provider.Recovery.{◌>>=◌}
use bdbmsgstore.Provider.Recovery.Given.{find-put}
use bdbmsgstore.Provider.Recovery.Rows.{put}
use bdbmsgstore.Registry.{max, fill, add_found, recover_each}
use bdbmsgstore.Registry.Tables.{entry, Distinct}
use bdbmsgstore.Registry.Loop.{or_else, entry-append}

ne_sym : (a b : ℕ) → (a == b) ≡ false → (b == a) ≡ false
ne_sym a b h = ground arith

module _ {B : Type 0} where
  pub entry_absent :
      (id j : ℕ) (b : B) (found : List (ℕ × B))
      → entry id ((j, b) ∷ found) ≡ none
      → ((j == id) ≡ false) × (entry id found ≡ none)
  entry_absent id j b found h = ground (arith, h)

module _ {A : Type 0} where
  pub Distinct-append :
      (id : ℕ) (a : A) (found : List (ℕ × A))
      → entry id found ≡ none
      → Distinct found
      → Distinct (found ++ ((id, a) ∷ []))
  Distinct-append id a [] fresh d = (refl, tt)
  Distinct-append id a ((j, b) ∷ found) fresh (e, d) =
      let (q, r) = entry_absent id j b found fresh in
      (entry-append j id a found ∙ rw (e, ne_sym j id q) refl, Distinct-append id a found r d)

  -- The ids of `found` are not among those of `rows`.
  abbrev pub Apart : List Row → List (ℕ × A) → Type 0
  Apart [] found = Unit {0}
  Apart ((id, v) ∷ rows) found = (entry id found ≡ none) × Apart rows found

  abbrev pub DistinctFound : Outcome (ℕ × List (ℕ × A)) → Type 0
  DistinctFound (returned (max_id, found)) = Distinct found
  DistinctFound raised = Unit {0}
  DistinctFound undefined = Unit {0}

  abbrev pub nothing : List (ℕ × A)
  nothing = []

  Apart-added :
      (id : ℕ) (a : Option A) (rows : List Row) (found : List (ℕ × A))
      → entry id rows ≡ none
      → Apart rows found
      → Apart rows (add_found id a found)
  Apart-added id none rows found fresh apart = apart
  Apart-added id (some a) [] found fresh apart = tt
  Apart-added id (some a) ((j, v) ∷ rows) found fresh (e, apart) =
      let (q, r) = entry_absent id j v rows fresh in
      (
        entry-append j id a found ∙ rw (e, ne_sym j id q) refl,
        Apart-added id (some a) rows found r apart,
      )

  Distinct-added :
      (id : ℕ) (a : Option A) (found : List (ℕ × A))
      → entry id found ≡ none
      → Distinct found
      → Distinct (add_found id a found)
  Distinct-added id none found fresh d = d
  Distinct-added id (some a) found fresh d = Distinct-append id a found fresh d

  module _ (decode : List ℕ → Outcome (Option A)) where
    pub recover_each-Distinct :
        (rows : List Row) (max_id : ℕ) (found : List (ℕ × A))
        → Distinct rows
        → Apart rows found
        → Distinct found
        → DistinctFound (recover_each decode rows max_id found)
    unfolding recover_each
    recover_each-Distinct [] max_id found d apart e = e
    recover_each-Distinct ((id, v) ∷ rows) max_id found (fresh, d) (p, apart) e =
        next (decode v) (λ a.
          recover_each-Distinct rows (max id max_id) (add_found id a found) d
            (Apart-added id a rows found fresh apart) (Distinct-added id a found p e))
      where
        next :
            (o : Outcome (Option A))
            → ((a : Option A)
                → DistinctFound (recover_each decode rows (max id max_id) (add_found id a found)))
            → DistinctFound (
                o >>= λ (a : Option A).
                recover_each decode rows (max id max_id) (add_found id a found))
        next (returned a) later = later a
        next raised later = tt
        next undefined later = tt

  pub find-fill :
      (k : ℕ) (found : List (ℕ × A)) (m : OrdMap A)
      → Distinct found
      → find k (fill found m) ≡ or_else (entry k found) (find k m)
  find-fill k [] m d = refl
  find-fill k ((id, a) ∷ found) m (fresh, d) =
      find-fill k found (put id a m) d ∙ elim (Bool-cases (id == k)) [
        | inl q ↦
            let r : entry k found ≡ none = subst (λ x. entry x found ≡ none) (==→eq id k q) fresh in
            rw (find-put k id a m, q, r) refl
        | inr q ↦ rw (find-put k id a m, q) refl
      ]

pub Apart-nothing : (A : Type 0) (rows : List Row) → Apart rows (nothing {A = A})
Apart-nothing A [] = tt
Apart-nothing A ((id, v) ∷ rows) = (refl, Apart-nothing A rows)
