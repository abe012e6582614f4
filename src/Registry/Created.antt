-- ===== src/Registry/Created.antt =====
-- Creating an object (lib/BdbStoreProvider.cpp), by the table read as a map.
use bdbmsgstore.Prelude.{
  ℕ, suc, ◌+◌, ◌≤◌, ◌<◌, ◌≡◌, ◌≢◌, ◌⊎◌, refl, inl, inr, Bool, true, false, Option, none, some, List,
  ◌==◌, if◌then◌else◌, is_some, arith, ap, sym, ◌∙◌, subst, Bool-cases, ne→==, ==→eq,
}
use bdbmsgstore.Word.{suc_u64}
use bdbmsgstore.Bytes.{u64_mod}
use bdbmsgstore.IdSequence.{IdSequence, next}
use bdbmsgstore.Journal.{Outcome, returned, raised, undefined}
use bdbmsgstore.Journal.Berkeley.{Status, ok, key_exist, not_found, failed}
use bdbmsgstore.TxnCtxt.{Answers, TxnCtxt, with_txn}
use bdbmsgstore.TxnCtxt.Atomic.{Atomic, with_txn-Atomic}
use bdbmsgstore.Registry.{
  ObjectDb, Table, answer_object, answer_create, create, create_with, refuse_false, create_exchange,
  create_config,
}
use bdbmsgstore.Registry.Tables.{entry, IsObjectDb, contents, IsAhead}

abbrev pub set_at : ℕ → Option (List ℕ) → (ℕ → Option (List ℕ)) → ℕ → Option (List ℕ)
set_at k o m j = if j == k then o else m j

pub set_none :
    (id k : ℕ) (m : ℕ → Option (List ℕ))
    → is_some (set_at id none m k) ≡ true
    → is_some (m k) ≡ true
set_none id k m h = ground (arith, h)

next-suc :
    (s : IdSequence) → 1 ≤ s.id → suc s.id < u64_mod → next s ≡ (s.id, record { id = suc s.id })
unfolding next
next-suc s p r =
    let up : suc_u64 s.id ≡ suc s.id = omega arith in rw (ne→== s.id 0 (λ e. omega arith), up) refl

module _ {D : Type 0} (odb : ObjectDb D) where
  -- What a call that creates an object does to the map `m`, by its outcome; the sequence stays ahead,
  -- with room for `n` more ids.
  abbrev pub Created :
      ℕ → Answers → List ℕ → (ℕ → Option (List ℕ)) → Outcome (Option ℕ) → Table D → Type 0
  Created n w value m (returned (some id)) t =
      ((m id ≡ none) × (1 ≤ id))
      × (((j : ℕ) → contents odb t j ≡ set_at id (some value) m j) × IsAhead odb n t)
  Created n w value m (returned none) t = ⊥
  Created n w value m raised t = ((j : ℕ) → contents odb t j ≡ m j) × IsAhead odb n t
  Created n w value m undefined t = (w.commits ≡ false) ⊎ (w.aborts ≡ false)

  abbrev status_db : (Status × D) → Outcome (Status × D) → Status × D
  status_db sd (returned x) = x
  status_db sd raised = sd
  status_db sd undefined = sd

  abbrev is_returned : Outcome (Status × D) → Bool
  is_returned (returned x) = true
  is_returned raised = false
  is_returned undefined = false

  answer_object_inv :
      (a : Option (Status × D)) (s : Status) (d : D)
      → answer_object odb a ≡ returned (s, d)
      → a ≡ some (s, d)
  answer_object_inv none s d h = absurd (let r : false ≡ true = ap is_returned h in cc)
  answer_object_inv (some sd) s d h = ap (λ o. some (status_db sd o)) h

  abbrev is_undefined : Outcome (Status × D) → Bool
  is_undefined (returned x) = false
  is_undefined raised = false
  is_undefined undefined = true

  answer_object_defined : (a : Option (Status × D)) → answer_object odb a ≢ undefined
  answer_object_defined none h = let r : false ≡ true = ap is_undefined h in cc
  answer_object_defined (some sd) h = let r : false ≡ true = ap is_undefined h in cc

  pub less-IsAhead : (n : ℕ) (t : Table D) → IsAhead odb (suc n) t → IsAhead odb n t
  less-IsAhead n t ahead = record {
    positive = ahead.positive;
    room = omega (arith, ahead.room);
    above = ahead.above;
  }

  module _ (laws : IsObjectDb odb) where
    module _ (n id : ℕ) (ahead : (1 ≤ id) × (suc id + n < u64_mod)) (value : List ℕ) (d : D) where
      abbrev after : D → Table D
      after d' = record { db = d'; ids = record { id = suc id } }

      abbrev Below : Type 0
      Below = (k : ℕ) → is_some (entry k (odb.rows d)) ≡ true → k < id

      kept : (d' : D) → Below → d' ≡ d → IsAhead odb n (after d')
      kept d' below e = record {
        positive = omega arith;
        room = ahead.1;
        above = λ k h.
            let l : k < id = below k (subst (λ x. is_some (entry k (odb.rows x)) ≡ true) e h) in
            omega arith;
      }

      grown :
          (d' : D)
          → Below
          → ((j : ℕ) → entry j (odb.rows d') ≡ set_at id (some value) (λ k. entry k (odb.rows d)) j)
          → IsAhead odb n (after d')
      grown d' below same = record {
        positive = omega arith;
        room = ahead.1;
        above = λ k h. elim (Bool-cases (k == id)) [
          | inl e ↦ let l : k ≡ id = ==→eq k id e in omega arith
          | inr e ↦
              let l : k < id = below k (sym (ap is_some (same k ∙ rw e refl)) ∙ h) in omega arith
        ];
      }

      stored_as :
          (w : Answers) (s : Status) (d' : D)
          → Below
          → odb.put_object id value d ≡ some (s, d')
          → Created n w value
              (λ k. entry k (odb.rows d))
              (answer_create odb id (returned s))
              (after d')
      stored_as w ok d' below e =
          let (free, same) = laws.put_ok id value d d' e in
          ((free, ahead.0), (same, grown d' below same))
      stored_as w key_exist d' below e =
          let l : id < id = below id (laws.put_exist id value d d' e) in absurd (omega arith)
      stored_as w not_found d' below e = elim (laws.put_status id value d d' not_found e) [
        | inl q ↦ absurd cc
        | inr q ↦ absurd cc
      ]
      stored_as w failed d' below e = elim (laws.put_status id value d d' failed e) [
        | inl q ↦ absurd cc
        | inr q ↦ absurd cc
      ]

      ended_as :
          (w : Answers) (o : Outcome Status) (c : TxnCtxt D)
          → Below
          → Atomic w (answer_object odb (odb.put_object id value d)) d o c
          → Created n w value (λ k. entry k (odb.rows d)) (answer_create odb id o) (after c.db)
      ended_as w (returned s) c below (e, free) =
          stored_as w s c.db below (answer_object_inv (odb.put_object id value d) s c.db e)
      ended_as w raised c below (e, free) =
          (λ j. ap (λ x. entry j (odb.rows x)) e, kept c.db below e)
      ended_as w undefined c below (inl e) =
          absurd (answer_object_defined (odb.put_object id value d) e)
      ended_as w undefined c below (inr e) = e

    pub create-Created :
        (n : ℕ) (w : Answers) (value : List ℕ) (t : Table D)
        → IsAhead odb (suc n) t
        → let (o, t') = create odb w value t in Created n w value (contents odb t) o t'
    unfolding create
    create-Created n w value t ahead =
        let id : ℕ = t.ids.id in
        let (p, r) : (1 ≤ id) × (suc id + n < u64_mod) =
          (ahead.positive, omega (arith, ahead.room)) in
        let (o, c) = with_txn w (λ e. answer_object odb (odb.put_object id value e)) t.db in
        subst
          (λ x.
            let (o', t') = create_with odb w value t.db x in
            Created n w value (contents odb t) o' t')
          (sym (next-suc t.ids p (omega arith)))
          (ended_as n id (p, r) value t.db w o c ahead.above
            (with_txn-Atomic w (λ e. answer_object odb (odb.put_object id value e)) t.db))

    -- What a call that creates a configuration item or an exchange does to the map `m`, by its outcome.
    abbrev pub Entered : ℕ → Answers → List ℕ → (ℕ → Option (List ℕ)) → Outcome ℕ → Table D → Type 0
    Entered n w value m (returned id) t = Created n w value m (returned (some id)) t
    Entered n w value m raised t = Created n w value m raised t
    Entered n w value m undefined t = Created n w value m undefined t

    Entered-refused :
        (n : ℕ) (w : Answers) (value : List ℕ) (m : ℕ → Option (List ℕ)) (o : Outcome (Option ℕ))
        (t : Table D)
        → Created n w value m o t
        → Entered n w value m (refuse_false odb o) t
    Entered-refused n w value m (returned none) t h = absurd h
    Entered-refused n w value m (returned (some id)) t h = h
    Entered-refused n w value m raised t h = h
    Entered-refused n w value m undefined t h = h

    pub create_exchange-Entered :
        (n : ℕ) (w : Answers) (value : List ℕ) (t : Table D)
        → IsAhead odb (suc n) t
        → let (o, t') = create_exchange odb w 0 value t in Entered n w value (contents odb t) o t'
    unfolding create_exchange
    create_exchange-Entered n w value t ahead =
        let (o, t') = create odb w value t in
        Entered-refused n w value (contents odb t) o t' (create-Created n w value t ahead)

    pub create_config-Entered :
        (n : ℕ) (w : Answers) (value : List ℕ) (t : Table D)
        → IsAhead odb (suc n) t
        → let (o, t') = create_config odb w 0 value t in Entered n w value (contents odb t) o t'
    unfolding create_config
    create_config-Entered n w value t ahead =
        let (o, t') = create odb w value t in
        Entered-refused n w value (contents odb t) o t' (create-Created n w value t ahead)
