-- ===== src/Journal/Outcomes.antt =====
-- What the calls of the journal may come to, said of its contents.
use bdbmsgstore.Prelude.{
  ℕ, ◌%◌, ◌≡◌, refl, inl, inr, Bool, true, ◌&&◌, Option, none, some, List, ◌==◌, if◌then◌else◌,
  is_some, Bool-cases,
}
use bdbmsgstore.TxnCtxt.Ending.{Ending, unchanged, committed, lost}
use bdbmsgstore.Journal.{
  JournalImpl, Outcome, returned, raised, undefined, partition, set_partition,
}
use bdbmsgstore.Journal.Key.{same_key}
use bdbmsgstore.Journal.Berkeley.{Status, ok, key_exist, not_found, failed}
use bdbmsgstore.Journal.Contents.{IsReady, contents, contents-set_partition, contents_here}

-- Two ids share a partition and a key.
abbrev pub together : ℕ → ℕ → ℕ → Bool
together n p pid = (p % n == pid % n) && same_key p pid

module _ {D : Type 0} (stored : D → ℕ → Option (List ℕ)) where
  -- The call kept the contents as they were.
  abbrev pub Kept : JournalImpl D → JournalImpl D → Type 0
  Kept j j' = (p : ℕ) → contents stored j' p ≡ contents stored j p

  abbrev pub Enters : ℕ → List ℕ → JournalImpl D → JournalImpl D → Type 0
  Enters pid v j j' =
      (contents stored j pid ≡ none)
      × ((p : ℕ)
          → contents stored j' p
            ≡ (if together j.num_jfiles p pid then some v else contents stored j p))

  abbrev pub Leaves : ℕ → JournalImpl D → JournalImpl D → Type 0
  Leaves pid j j' =
      (p : ℕ)
      → contents stored j' p ≡ (if together j.num_jfiles p pid then none else contents stored j p)

  -- The outcome of `enqueue_data`, by how the transaction around its put ends.
  abbrev pub Enqueued :
      ℕ → List ℕ → JournalImpl D → Ending Status → Outcome (Unit {0}) → JournalImpl D → Type 0
  Enqueued pid v j unchanged o j' = (o ≡ raised) × Kept j j'
  Enqueued pid v j (committed ok) o j' = (o ≡ returned tt) × Enters pid v j j'
  Enqueued pid v j (committed key_exist) o j' =
      (o ≡ returned tt) × Kept j j' × (is_some (contents stored j pid) ≡ true)
  Enqueued pid v j (committed not_found) o j' = (o ≡ returned tt) × Kept j j'
  Enqueued pid v j (committed failed) o j' = (o ≡ returned tt) × Kept j j'
  Enqueued pid v j lost o j' = o ≡ undefined

  -- The outcome of `dequeue_data`, by how the transaction around its delete ends.
  abbrev pub Dequeued :
      ℕ → JournalImpl D → Ending Status → Outcome (Unit {0}) → JournalImpl D → Type 0
  Dequeued pid j unchanged o j' = (o ≡ raised) × Kept j j'
  Dequeued pid j (committed ok) o j' = (o ≡ returned tt) × Leaves pid j j'
  Dequeued pid j (committed not_found) o j' =
      (o ≡ returned tt) × Kept j j' × (contents stored j pid ≡ none)
  Dequeued pid j (committed key_exist) o j' = (o ≡ returned tt) × Kept j j'
  Dequeued pid j (committed failed) o j' = (o ≡ returned tt) × Kept j j'
  Dequeued pid j lost o j' = o ≡ undefined

  pub Enqueued-lost :
      (pid : ℕ) (v : List ℕ) (j j' : JournalImpl D) (g : Ending Status)
      → Enqueued pid v j g undefined j'
      → g ≡ lost
  Enqueued-lost pid v j j' unchanged e = absurd (let r : undefined ≡ raised = e.0 in cc)
  Enqueued-lost pid v j j' (committed ok) e = absurd (let r : undefined ≡ returned tt = e.0 in cc)
  Enqueued-lost pid v j j' (committed key_exist) e =
      absurd (let r : undefined ≡ returned tt = e.0 in cc)
  Enqueued-lost pid v j j' (committed not_found) e =
      absurd (let r : undefined ≡ returned tt = e.0 in cc)
  Enqueued-lost pid v j j' (committed failed) e =
      absurd (let r : undefined ≡ returned tt = e.0 in cc)
  Enqueued-lost pid v j j' lost e = refl

  pub Dequeued-lost :
      (pid : ℕ) (j j' : JournalImpl D) (g : Ending Status)
      → Dequeued pid j g undefined j'
      → g ≡ lost
  Dequeued-lost pid j j' unchanged e = absurd (let r : undefined ≡ raised = e.0 in cc)
  Dequeued-lost pid j j' (committed ok) e = absurd (let r : undefined ≡ returned tt = e.0 in cc)
  Dequeued-lost pid j j' (committed key_exist) e =
      absurd (let r : undefined ≡ returned tt = e.0 in cc)
  Dequeued-lost pid j j' (committed not_found) e =
      absurd (let r : undefined ≡ returned tt = e.0 in cc)
  Dequeued-lost pid j j' (committed failed) e = absurd (let r : undefined ≡ returned tt = e.0 in cc)
  Dequeued-lost pid j j' lost e = refl

  -- The outcome of `is_enqueued`.
  abbrev pub Asked : ℕ → JournalImpl D → Option Status → Outcome Bool → Type 0
  Asked pid j none o = o ≡ raised
  Asked pid j (some s) o = o ≡ returned (is_some (contents stored j pid))

  -- A partition's database is changed at the keys that the comparison calls the same.
  pub set_changed :
      (pid : ℕ) (d d' : D) (j : JournalImpl D)
      → IsReady j
      → partition pid j ≡ some d
      → (w : Option (List ℕ)) → ((k : ℕ) → stored d' k ≡ (if same_key k pid then w else stored d k))
      → (p : ℕ)
      → contents stored (set_partition pid d' j) p
        ≡ (if together j.num_jfiles p pid then w else contents stored j p)
  set_changed pid d d' j h e w same p =
      rw (contents-set_partition stored p pid d' j h)
        (elim (Bool-cases (p % j.num_jfiles == pid % j.num_jfiles)) [
          | inl q ↦ rw (q, contents_here stored p pid d j q e) (same p)
          | inr q ↦ rw q refl
        ])

  pub set_same :
      (pid : ℕ) (d d' : D) (j : JournalImpl D)
      → IsReady j
      → partition pid j ≡ some d
      → ((k : ℕ) → stored d' k ≡ stored d k)
      → Kept j (set_partition pid d' j)
  set_same pid d d' j h e same p =
      rw (contents-set_partition stored p pid d' j h)
        (elim (Bool-cases (p % j.num_jfiles == pid % j.num_jfiles)) [
          | inl q ↦ rw (q, contents_here stored p pid d j q e) (same p)
          | inr q ↦ rw q refl
        ])
