-- ===== src/TwoLevel.antt =====
-- The two-level sets of lib/PendingOperationSet.h and the `QMMap` of lib/PidTracker.h: a map from a
-- queue's id to a map from a message's id. `add` and `remove` are the find-insert and the
-- find-erase sequences that lib/AsyncOperationLogger.cpp, lib/PidTracker.cpp and
-- lib/BdbStoreProvider.cpp repeat inline.
pub mod Laws
pub mod Order
use bdbmsgstore.Prelude.{
  ℕ, suc, ◌≤◌, ◌≡◌, Bool, true, false, Option, none, some, List, [], ◌∷◌, ◌++◌, map, if◌then◌else◌,
}
use bdbmsgstore.OrdMap.{OrdMap, find, insert, erase, assign, empty, IsOrdered}

abbrev pub TwoLevel : Type 0 → Type 0
TwoLevel V = OrdMap (OrdMap V)

module _ {V : Type 0} where
  abbrev pub find_sub : ℕ → Option (OrdMap V) → Option V
  find_sub p none = none
  find_sub p (some sub) = find p sub

  -- The entry of message `p` on queue `q`.
  unfoldable pub lookup : ℕ → ℕ → TwoLevel V → Option V
  lookup q p m = find_sub p (find q m)

  abbrev add_sub : ℕ → ℕ → V → TwoLevel V → Option (OrdMap V) → TwoLevel V
  add_sub q p v m none = insert q (insert p v []) m
  add_sub q p v m (some sub) = assign q (insert p v sub) m

  unfoldable pub add : ℕ → ℕ → V → TwoLevel V → TwoLevel V
  add q p v m = add_sub q p v m (find q m)

  -- A submap that has run empty is erased with its queue.
  unfoldable pub put_back : ℕ → OrdMap V → TwoLevel V → TwoLevel V
  put_back q sub m = if empty sub then erase q m else assign q sub m

  abbrev pub remove_entry : ℕ → ℕ → TwoLevel V → OrdMap V → Option V → Bool × TwoLevel V
  remove_entry q p m sub none = (false, m)
  remove_entry q p m sub (some v) = (true, put_back q (erase p sub) m)

  abbrev pub remove_sub : ℕ → ℕ → TwoLevel V → Option (OrdMap V) → Bool × TwoLevel V
  remove_sub q p m none = (false, m)
  remove_sub q p m (some sub) = remove_entry q p m sub (find p sub)

  -- Whether the entry was found, and the map without it.
  unfoldable pub remove : ℕ → ℕ → TwoLevel V → Bool × TwoLevel V
  remove q p m = remove_sub q p m (find q m)

  abbrev pub values_sub : OrdMap V → List V
  values_sub [] = []
  values_sub ((p, v) ∷ sub) = v ∷ values_sub sub

  -- What the doubly nested iterator loops visit, in their order.
  abbrev pub values : TwoLevel V → List V
  values [] = []
  values ((q, sub) ∷ m) = values_sub sub ++ values m

-- The queues rise along the list from `lo` on, and no submap is empty or out of order.
abbrev pub Kept : {V : Type 0} → ℕ → TwoLevel V → Type 0
Kept lo [] = Unit {0}
Kept lo ((q, sub) ∷ m) = (lo ≤ q) × IsOrdered sub × (empty sub ≡ false) × Kept (suc q) m

abbrev pub IsKept : {V : Type 0} → TwoLevel V → Type 0
IsKept m = Kept 0 m
