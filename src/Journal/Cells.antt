-- ===== src/Journal/Cells.antt =====
-- A database that does what it is asked to, for the runs of lib/JournalImpl.cpp.
use bdbmsgstore.Prelude.{
  ℕ, ◌%◌, ◌^◌, ◌≡◌, ◌≢◌, refl, true, Option, none, some, List, ◌==◌, if◌then◌else◌, is_some, ap,
  ◌∙◌, ==→eq, sym, get_or,
}
use bdbmsgstore.Journal.Key.{same_key, same_key-low}
use bdbmsgstore.Journal.Berkeley.{Status, ok, key_exist, not_found, failed, Database, IsDatabase}
use bdbmsgstore.TxnCtxt.{Answers}
use bdbmsgstore.TxnCtxt.Ending.{answers}
use bdbmsgstore.Journal.Reliable.{IsReliable, HasTxns, Puts, Dels}

-- The state has the message for each value of the low 32 bits.
abbrev pub Cells : Type 0
Cells = ℕ → Option (List ℕ)

abbrev cell : ℕ → Option (List ℕ) → Cells → Cells
cell k v d i = if i == k % 2 ^ 32 then v else d i

abbrev put_cell : ℕ → List ℕ → Cells → Option (List ℕ) → Option (Status × Cells)
put_cell k v d none = some (ok, cell k (some v) d)
put_cell k v d (some w) = some (key_exist, d)

abbrev del_cell : ℕ → Cells → Option (List ℕ) → Option (Status × Cells)
del_cell k d none = some (not_found, d)
del_cell k d (some w) = some (ok, cell k none d)

abbrev exists_cell : Option (List ℕ) → Option Status
exists_cell none = some not_found
exists_cell (some w) = some ok

abbrev fine : Answers
fine = answers (some 0) true true

abbrev pub cells : Database Cells
cells = record {
  put = λ k v d. put_cell k v d (d (k % 2 ^ 32));
  put_txn = λ k d. fine;
  del = λ k d. del_cell k d (d (k % 2 ^ 32));
  del_txn = λ k d. fine;
  exists = λ k d. exists_cell (d (k % 2 ^ 32));
  open_db = λ k. some (λ i. none);
}

abbrev pub stored : Cells → ℕ → Option (List ℕ)
stored d k = d (k % 2 ^ 32)

abbrev state_of : Cells → Option (Status × Cells) → Cells
state_of d none = d
state_of d (some (s, d')) = d'

abbrev status_of : Option (Status × Cells) → Status
status_of none = failed
status_of (some (s, d)) = s

cell-same_key :
    (k j : ℕ) (v : Option (List ℕ)) (d : Cells)
    → cell k v d (j % 2 ^ 32) ≡ (if same_key j k then v else stored d j)
cell-same_key k j v d = rw (same_key-low j k) refl

module _ (k : ℕ) (v : List ℕ) (d d' : Cells) where
  cell_put_ok :
      (o : Option (List ℕ))
      → stored d k ≡ o
      → put_cell k v d o ≡ some (ok, d')
      → (stored d k ≡ none)
        × ((j : ℕ) → stored d' j ≡ (if same_key j k then some v else stored d j))
  cell_put_ok none e h =
      (e, λ j. sym (ap (λ a. state_of d a (j % 2 ^ 32)) h) ∙ cell-same_key k j (some v) d)
  cell_put_ok (some w) e h = absurd (let r : key_exist ≡ ok = ap status_of h in cc)

  cell_put_not_ok :
      (s : Status) (o : Option (List ℕ))
      → put_cell k v d o ≡ some (s, d')
      → s ≢ ok
      → (j : ℕ) → stored d' j ≡ stored d j
  cell_put_not_ok s none h n j = absurd (n (sym (ap status_of h)))
  cell_put_not_ok s (some w) h n j = sym (ap (λ a. state_of d a (j % 2 ^ 32)) h)

  cell_put_exist :
      (o : Option (List ℕ))
      → stored d k ≡ o
      → put_cell k v d o ≡ some (key_exist, d')
      → is_some (stored d k) ≡ true
  cell_put_exist none e h = absurd (let r : ok ≡ key_exist = ap status_of h in cc)
  cell_put_exist (some w) e h = ap is_some e

module _ (k : ℕ) (d d' : Cells) where
  cell_del_ok :
      (o : Option (List ℕ))
      → del_cell k d o ≡ some (ok, d')
      → (j : ℕ) → stored d' j ≡ (if same_key j k then none else stored d j)
  cell_del_ok none h j = absurd (let r : not_found ≡ ok = ap status_of h in cc)
  cell_del_ok (some w) h j = sym (ap (λ a. state_of d a (j % 2 ^ 32)) h) ∙ cell-same_key k j none d

  cell_del_not_ok :
      (s : Status) (o : Option (List ℕ))
      → del_cell k d o ≡ some (s, d')
      → s ≢ ok
      → (j : ℕ) → stored d' j ≡ stored d j
  cell_del_not_ok s none h n j = sym (ap (λ a. state_of d a (j % 2 ^ 32)) h)
  cell_del_not_ok s (some w) h n j = absurd (n (sym (ap status_of h)))

  cell_del_not_found :
      (o : Option (List ℕ))
      → stored d k ≡ o
      → del_cell k d o ≡ some (not_found, d')
      → stored d k ≡ none
  cell_del_not_found none e h = e
  cell_del_not_found (some w) e h = absurd (let r : ok ≡ not_found = ap status_of h in cc)

module _ (k : ℕ) (d : Cells) where
  cell_not_found :
      (o : Option (List ℕ)) → stored d k ≡ o → exists_cell o ≡ some not_found → stored d k ≡ none
  cell_not_found none e h = e
  cell_not_found (some w) e h = absurd (let r : ok ≡ not_found = ap (λ o. get_or o failed) h in cc)

  cell_found :
      (s : Status) (o : Option (List ℕ))
      → stored d k ≡ o
      → exists_cell o ≡ some s
      → s ≢ not_found
      → is_some (stored d k) ≡ true
  cell_found s none e h n = absurd (n (sym (ap (λ o. get_or o failed) h)))
  cell_found s (some w) e h n = ap is_some e

pub cells-IsDatabase : IsDatabase cells stored
cells-IsDatabase = record {
  same = λ j k d h. ap d (==→eq (j % 2 ^ 32) (k % 2 ^ 32) (sym (same_key-low j k) ∙ h));
  put_ok = λ k v d d' h. cell_put_ok k v d d' (stored d k) refl h;
  put_not_ok = λ k v d d' s h n j. cell_put_not_ok k v d d' s (stored d k) h n j;
  put_exist = λ k v d d' h. cell_put_exist k v d d' (stored d k) refl h;
  del_ok = λ k d d' h j. cell_del_ok k d d' (stored d k) h j;
  del_not_ok = λ k d d' s h n j. cell_del_not_ok k d d' s (stored d k) h n j;
  del_not_found = λ k d d' h. cell_del_not_found k d d' (stored d k) refl h;
  exists_not_found = λ k d h. cell_not_found k d (stored d k) refl h;
  exists_found = λ k d s h n. cell_found k d s (stored d k) refl h n;
}

pub cells-IsReliable : IsReliable cells
cells-IsReliable = record {
  puts = λ k v d. sure_put k v d (d (k % 2 ^ 32));
  dels = λ k d. sure_del k d (d (k % 2 ^ 32));
}
  where
    sure_put : (k : ℕ) (v : List ℕ) (d : Cells) (o : Option (List ℕ)) → Puts (put_cell k v d o)
    sure_put k v d none = tt
    sure_put k v d (some w) = tt

    sure_del : (k : ℕ) (d : Cells) (o : Option (List ℕ)) → Dels (del_cell k d o)
    sure_del k d none = tt
    sure_del k d (some w) = tt

pub cells-HasTxns : HasTxns cells
cells-HasTxns = record { put_txns = λ k d. (refl, refl); del_txns = λ k d. (refl, refl) }
