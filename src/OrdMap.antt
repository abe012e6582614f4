-- ===== src/OrdMap.antt =====
-- `std::map<uint64_t, V>` and `std::set<uint64_t>`, as association lists in the order of their keys:
-- the typedefs of lib/PendingOperationSet.h and lib/PidTracker.h stand on them. The operations are
-- those that the source calls: `find`, `insert` (which keeps an entry that is there), `erase`, an
-- assignment through an iterator, and `empty`.
pub mod Laws
use bdbmsgstore.Prelude.{
  ℕ, suc, ◌≤◌, Bool, true, false, Option, none, some, List, [], ◌∷◌, ltb, ◌==◌, if◌then◌else◌,
}

abbrev pub OrdMap : Type 0 → Type 0
OrdMap V = List (ℕ × V)

-- `std::set<uint64_t>`
abbrev pub IdSet : Type 0
IdSet = OrdMap (Unit {0})

module _ {V : Type 0} where
  unfoldable pub find : ℕ → OrdMap V → Option V
  find k [] = none
  find k ((j, w) ∷ m) = if j == k then some w else if ltb k j then none else find k m

  -- m.insert(value_type(k, v))
  unfoldable pub insert : ℕ → V → OrdMap V → OrdMap V
  insert k v [] = (k, v) ∷ []
  insert k v ((j, w) ∷ m) =
      if j == k then (j, w) ∷ m else if ltb k j then (k, v) ∷ (j, w) ∷ m else (j, w) ∷ insert k v m

  -- m.erase(m.find(k))
  unfoldable pub erase : ℕ → OrdMap V → OrdMap V
  erase k [] = []
  erase k ((j, w) ∷ m) = if j == k then m else if ltb k j then (j, w) ∷ m else (j, w) ∷ erase k m

  -- m.find(k)->second = v
  unfoldable pub assign : ℕ → V → OrdMap V → OrdMap V
  assign k v [] = []
  assign k v ((j, w) ∷ m) =
      if j == k then (j, v) ∷ m else if ltb k j then (j, w) ∷ m else (j, w) ∷ assign k v m

  abbrev pub empty : OrdMap V → Bool
  empty [] = true
  empty (e ∷ m) = false

-- The keys rise along the list, from `lo` on.
abbrev pub Above : {V : Type 0} → ℕ → OrdMap V → Type 0
Above lo [] = Unit {0}
Above lo ((k, v) ∷ m) = (lo ≤ k) × Above (suc k) m

abbrev pub IsOrdered : {V : Type 0} → OrdMap V → Type 0
IsOrdered m = Above 0 m
