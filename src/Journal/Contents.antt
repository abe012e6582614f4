-- ===== src/Journal/Contents.antt =====
-- A journal with its databases open (lib/JournalImpl.cpp), read as a map from message ids.
use native.Mathlib.Nat.{mod-lt}
use bdbmsgstore.Prelude.{
  ℕ, zero, suc, ◌%◌, ◌≡◌, ◌<◌, refl, inl, inr, true, Option, none, some, List, [], ◌∷◌, arith, ◌==◌,
  if◌then◌else◌, get_elem?, length, Bool-cases, ne→==, ◌∙◌, ap, ==→eq,
}
use bdbmsgstore.Journal.{JournalImpl, set_elem, here, partition, set_partition, touched}

abbrev pub Open : {D : Type 0} → List (Option D) → Type 0
Open [] = Unit {0}
Open (none ∷ dbs) = ⊥
Open (some d ∷ dbs) = Open dbs

-- The journal has databases, and all of them are open.
pub record IsReady {D : Type 0} (j : JournalImpl D) : Type 0 where
  pub creates : j.create_bdb ≡ true
  pub some_files : 0 < j.num_jfiles
  pub as_many : length j.message_dbs ≡ j.num_jfiles
  pub all_open : Open j.message_dbs

suc_same : (i k : ℕ) → (suc i == suc k) ≡ (i == k)
suc_same i k = ground arith

module _ {D : Type 0} where
  Open-elem :
      (dbs : List (Option D)) (i : ℕ)
      → Open dbs
      → i < length dbs
      → (d : D) × (here (get_elem? dbs i) ≡ some d)
  Open-elem [] i o h = absurd (omega arith)
  Open-elem (none ∷ dbs) i o h = absurd o
  Open-elem (some d ∷ dbs) zero o h = (d, refl)
  Open-elem (some d ∷ dbs) (suc i) o h = Open-elem dbs i o (omega arith)

  set_elem-Open :
      (dbs : List (Option D)) (i : ℕ) (d : D) → Open dbs → Open (set_elem i (some d) dbs)
  set_elem-Open [] i d o = tt
  set_elem-Open (none ∷ dbs) i d o = absurd o
  set_elem-Open (some e ∷ dbs) zero d o = o
  set_elem-Open (some e ∷ dbs) (suc i) d o = set_elem-Open dbs i d o

  length-set_elem :
      (dbs : List (Option D)) (i : ℕ) (d : Option D) → length (set_elem i d dbs) ≡ length dbs
  length-set_elem [] i d = refl
  length-set_elem (e ∷ dbs) zero d = refl
  length-set_elem (e ∷ dbs) (suc i) d = omega (arith, length-set_elem dbs i d)

  get_elem?-set_elem :
      (dbs : List (Option D)) (i k : ℕ) (d : D)
      → k < length dbs
      → here (get_elem? (set_elem k (some d) dbs) i)
        ≡ (if i == k then some d else here (get_elem? dbs i))
  get_elem?-set_elem [] i k d h = absurd (omega arith)
  get_elem?-set_elem (e ∷ dbs) zero zero d h = refl
  get_elem?-set_elem (e ∷ dbs) zero (suc k) d h = rw (ne→== 0 (suc k) (λ q. omega arith)) refl
  get_elem?-set_elem (e ∷ dbs) (suc i) zero d h = rw (ne→== (suc i) 0 (λ q. omega arith)) refl
  get_elem?-set_elem (e ∷ dbs) (suc i) (suc k) d h =
      rw (suc_same i k) (get_elem?-set_elem dbs i k d (omega arith))

  pub partition-IsReady :
      (pid : ℕ) (j : JournalImpl D) → IsReady j → (d : D) × (partition pid j ≡ some d)
  partition-IsReady pid j h =
      let opened =
        Open-elem j.message_dbs (pid % j.num_jfiles) h.all_open
          (omega (arith, h.as_many, h.some_files, mod-lt pid h.some_files)) in
      (opened.0, rw (ne→== j.num_jfiles 0 (λ q. omega (arith, h.some_files))) opened.1)

  pub set_partition-IsReady :
      (pid : ℕ) (d : D) (j : JournalImpl D) → IsReady j → IsReady (set_partition pid d j)
  set_partition-IsReady pid d j h = record {
    creates = h.creates;
    some_files = h.some_files;
    as_many = length-set_elem j.message_dbs (pid % j.num_jfiles) (some d) ∙ h.as_many;
    all_open = set_elem-Open j.message_dbs (pid % j.num_jfiles) d h.all_open;
  }

  pub touched-IsReady : (j : JournalImpl D) → IsReady j → IsReady (touched j)
  touched-IsReady j h = record {
    creates = h.creates;
    some_files = h.some_files;
    as_many = h.as_many;
    all_open = h.all_open;
  }

  partition-set_partition :
      (p pid : ℕ) (d : D) (j : JournalImpl D)
      → IsReady j
      → partition p (set_partition pid d j)
        ≡ (if p % j.num_jfiles == pid % j.num_jfiles then some d else partition p j)
  partition-set_partition p pid d j h =
      rw (ne→== j.num_jfiles 0 (λ q. omega (arith, h.some_files))) (
        get_elem?-set_elem j.message_dbs (p % j.num_jfiles) (pid % j.num_jfiles) d
          (omega (arith, h.as_many, h.some_files, mod-lt pid h.some_files)))

  module _ (stored : D → ℕ → Option (List ℕ)) where
    abbrev pub content_of : ℕ → Option D → Option (List ℕ)
    content_of p none = none
    content_of p (some d) = stored d p

    -- The message that the journal holds under an id.
    abbrev pub contents : JournalImpl D → ℕ → Option (List ℕ)
    contents j p = content_of p (partition p j)

    pub contents-set_partition :
        (p pid : ℕ) (d : D) (j : JournalImpl D)
        → IsReady j
        → contents (set_partition pid d j) p
          ≡ (if p % j.num_jfiles == pid % j.num_jfiles then stored d p else contents j p)
    contents-set_partition p pid d j h =
        rw (partition-set_partition p pid d j h)
          (elim (Bool-cases (p % j.num_jfiles == pid % j.num_jfiles)) [
            | inl e ↦ rw e refl
            | inr e ↦ rw e refl
          ])

    -- What the partition of an id holds under another id of it.
    pub contents_here :
        (p pid : ℕ) (d : D) (j : JournalImpl D)
        → (p % j.num_jfiles == pid % j.num_jfiles) ≡ true
        → partition pid j ≡ some d
        → contents j p ≡ stored d p
    contents_here p pid d j same e = ap (content_of p) (
        ap (λ i. if j.num_jfiles == 0 then none else here (get_elem? j.message_dbs i))
          (==→eq (p % j.num_jfiles) (pid % j.num_jfiles) same)
        ∙ e)
