-- ===== src/Registry/Bindings/Laws.antt =====
-- What Berkeley DB's manual says of the database of the bindings (lib/BdbStoreProvider.cpp), and what
-- a `Buffer` promises.
use bdbmsgstore.Prelude.{
  ℕ, ◌≡◌, ◌<◌, refl, Bool, true, false, ◌&&◌, ◌||◌, some, List, [], ◌∷◌, ◌++◌, ◌==◌, if◌then◌else◌,
  length, ap₂, ==→eq, ==-refl, inl, inr, Bool-cases, map,
}
use bdbmsgstore.Bytes.{u64_mod}
use bdbmsgstore.Journal.Berkeley.{Status, ok}
use bdbmsgstore.Journal.Scan.{Row}
use bdbmsgstore.Provider.Recovery.Rows.{eq_bytes}
use bdbmsgstore.Registry.Bindings.{BindingDb, Framing}

abbrev pub eq_row : Row → Row → Bool
eq_row r s = r.0 == s.0 && eq_bytes r.1 s.1

abbrev pub has_row : Row → List Row → Bool
has_row r [] = false
has_row r (s ∷ rows) = eq_row r s || has_row r rows

eq_bytes-eq : (u v : List ℕ) → eq_bytes u v ≡ true → u ≡ v
eq_bytes-eq [] [] h = refl
eq_bytes-eq [] (y ∷ v) h = absurd cc
eq_bytes-eq (x ∷ u) [] h = absurd cc
eq_bytes-eq (x ∷ u) (y ∷ v) h = elim (Bool-cases (x == y)) [
  | inl q ↦ let r : eq_bytes u v ≡ true = (rw q at h) in ap₂ ◌∷◌ (==→eq x y q) (eq_bytes-eq u v r)
  | inr q ↦ absurd (let r : false ≡ true = (rw q at h) in cc)
]

pub eq_bytes_refl : (u : List ℕ) → eq_bytes u u ≡ true
eq_bytes_refl [] = refl
eq_bytes_refl (x ∷ u) = rw (==-refl x) (eq_bytes_refl u)

pub eq_row-eq : (r s : Row) → eq_row r s ≡ true → r ≡ s
eq_row-eq (j, u) (k, v) h = elim (Bool-cases (j == k)) [
  | inl q ↦
      let p : eq_bytes u v ≡ true = (rw q at h) in
      ap₂ (λ x y. (x, y)) (==→eq j k q) (eq_bytes-eq u v p)
  | inr q ↦ absurd (let p : false ≡ true = (rw q at h) in cc)
]

pub eq_row_refl : (r : Row) → eq_row r r ≡ true
eq_row_refl (j, u) = rw (==-refl j) (eq_bytes_refl u)

module _ {B : Type 0} (bdb : BindingDb B) where
  abbrev pub holds : B → Row → Bool
  holds b r = has_row r (bdb.rows b)

  -- `put` enters a row, or has the status DB_KEYEXIST where it is there; what is deleted is gone, and no
  -- other row is; the values of a key are those that its rows have.
  pub record IsBindingDb : Type 0 where
    pub put_ok :
        (k : ℕ) (v : List ℕ) (b b' : B)
        → bdb.put_value k v b ≡ some (ok, b')
        → (r : Row) → holds b' r ≡ (eq_row r (k, v) || holds b r)
    pub del_values_done :
        (k : ℕ) (b b' : B) (s : Status)
        → bdb.del_values k b ≡ some (s, b')
        → (r : Row) → holds b' r ≡ (if r.0 == k then false else holds b r)
    pub del_row_done :
        (row : Row) (b b' : B)
        → bdb.del_row row b ≡ some b'
        → (r : Row) → holds b' r ≡ (if eq_row r row then false else holds b r)
    pub values_held :
        (k : ℕ) (b : B) (r : Row)
        → has_row r (map (λ v. (k, v)) (bdb.values k b)) ≡ (if r.0 == k then holds b r else false)

-- What was written is read back: a long long takes eight bytes.
pub record IsFraming {F : Type 0} (fr : Framing F) : Type 0 where
  pub eight : (n : ℕ) → length (fr.put_long_long n) ≡ 8
  pub long_long :
      (n : ℕ) (rest : List ℕ)
      → n < u64_mod
      → fr.get_long_long (fr.put_long_long n ++ rest) ≡ some (n, rest)
  pub short_string :
      (s b rest : List ℕ)
      → fr.put_short_string s ≡ some b
      → fr.get_short_string (b ++ rest) ≡ some (s, rest)
  pub table : (a : F) (b : List ℕ) → fr.put_table a ≡ some b → fr.get_table b ≡ some (a, [])
