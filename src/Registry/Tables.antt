-- ===== src/Registry/Tables.antt =====
-- What Berkeley DB's manual says of a database with one object for each id (lib/BdbStoreProvider.cpp),
-- and a table read as a map.
use bdbmsgstore.Prelude.{
  ℕ, ◌+◌, ◌≤◌, ◌<◌, ◌≡◌, ◌⊎◌, true, Option, none, some, List, [], ◌∷◌, ◌==◌, if◌then◌else◌, is_some,
}
use bdbmsgstore.Bytes.{u64_mod}
use bdbmsgstore.Journal.Berkeley.{Status, ok, key_exist}
use bdbmsgstore.Registry.{ObjectDb, Table}

abbrev pub entry : {A : Type 0} → ℕ → List (ℕ × A) → Option A
entry k [] = none
entry k ((j, a) ∷ rows) = if j == k then some a else entry k rows

-- No id comes twice.
abbrev pub Distinct : {A : Type 0} → List (ℕ × A) → Type 0
Distinct [] = Unit {0}
Distinct ((j, a) ∷ rows) = (entry j rows ≡ none) × Distinct rows

-- `put` enters an object where there is none, and has the status DB_KEYEXIST, with no change, only
-- where there is one; after `del` there is none; other errors are thrown. A cursor gives each object
-- once.
pub record IsObjectDb {D : Type 0} (odb : ObjectDb D) : Type 0 where
  pub distinct : (d : D) → Distinct (odb.rows d)
  pub put_status :
      (k : ℕ) (v : List ℕ) (d d' : D) (s : Status)
      → odb.put_object k v d ≡ some (s, d')
      → (s ≡ ok) ⊎ (s ≡ key_exist)
  pub put_ok :
      (k : ℕ) (v : List ℕ) (d d' : D)
      → odb.put_object k v d ≡ some (ok, d')
      → (entry k (odb.rows d) ≡ none)
        × ((j : ℕ) → entry j (odb.rows d') ≡ (if j == k then some v else entry j (odb.rows d)))
  pub put_exist :
      (k : ℕ) (v : List ℕ) (d d' : D)
      → odb.put_object k v d ≡ some (key_exist, d')
      → is_some (entry k (odb.rows d)) ≡ true
  pub del_done :
      (k : ℕ) (d d' : D) (s : Status)
      → odb.del_object k d ≡ some (s, d')
      → (j : ℕ) → entry j (odb.rows d') ≡ (if j == k then none else entry j (odb.rows d))

module _ {D : Type 0} (odb : ObjectDb D) where
  abbrev pub contents : Table D → ℕ → Option (List ℕ)
  contents t k = entry k (odb.rows t.db)

  -- The sequence is ahead of all ids of the table, and `n` more ids do not wrap it around.
  pub record IsAhead (n : ℕ) (t : Table D) : Type 0 where
    pub positive : 1 ≤ t.ids.id
    pub room : t.ids.id + n < u64_mod
    pub above : (k : ℕ) → is_some (contents t k) ≡ true → k < t.ids.id
