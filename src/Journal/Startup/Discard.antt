-- ===== src/Journal/Startup/Discard.antt =====
-- What the end of the journal's recovery discards.
use bdbmsgstore.Prelude.{
  ℕ, ◌^◌, ◌≡◌, ◌<◌, refl, inl, inr, Bool, false, ◌||◌, Option, none, some, List, [], ◌∷◌, ◌==◌,
  if◌then◌else◌, ap, ◌∙◌, sym, subst, All, Bool-cases,
}
use bdbmsgstore.Journal.{JournalImpl, Outcome, returned, partition, set_partition, touched}
use bdbmsgstore.Journal.Berkeley.{Database, IsDatabase}
use bdbmsgstore.Journal.Contents.{IsReady, partition-IsReady, set_partition-IsReady, contents}
use bdbmsgstore.Journal.Calls.{dequeue-answer}
use bdbmsgstore.TxnCtxt.{open_ctxt}
use bdbmsgstore.TxnCtxt.Ending.{committed}
use bdbmsgstore.Journal.Reliable.{IsReliable, Dels-status}
use bdbmsgstore.Journal.Refine.{dequeue-map}
use bdbmsgstore.Journal.Startup.{
  delete_at, delete_in, delete_each, clear_accepted, clear_transient, discard_accepted_message,
  discard_transient_message, then_accepted, recover_complete,
}

abbrev pub listed : ℕ → List ℕ → Bool
listed p [] = false
listed p (id ∷ ids) = p == id || listed p ids

module _ {D : Type 0} (db : Database D) (stored : D → ℕ → Option (List ℕ)) where
  -- The messages with the listed ids are gone, and the others stay.
  abbrev pub Discards : List ℕ → JournalImpl D → JournalImpl D → Type 0
  Discards ids j j' =
      (p : ℕ)
      → p < 2 ^ 32
      → contents stored j' p ≡ (if listed p ids then none else contents stored j p)

  module _ (laws : IsDatabase db stored) (sure : IsReliable db) where
    delete_one :
        (id : ℕ) (d : D) (j : JournalImpl D)
        → IsReady j
        → partition id j ≡ some d
        → id < 2 ^ 32
        → (d' : D) × ((go_on : JournalImpl D → Outcome (Unit {0}) × JournalImpl D)
            → delete_at db id j go_on (db.del id d) ≡ go_on (set_partition id d' j))
          × ((p : ℕ)
              → p < 2 ^ 32
              → contents stored (set_partition id d' j) p
                ≡ (if p == id then none else contents stored j p))
    delete_one id d j h e lt =
        let (s, d', q, sure_s) = Dels-status (db.del id d) (sure.dels id d) in
        let outcome =
          dequeue-answer db stored laws id d j h e (committed s) (returned s)
            (record (open_ctxt d) { db = d' }) (refl, q) in
        (
          d',
          λ go_on. ap (delete_at db id j go_on) q,
          λ p l.
              (dequeue-map db stored id p j (set_partition id d' (touched j)) (committed s) _ sure_s
                lt l outcome).1,
        )

    listed_step :
        (p id : ℕ) (ids : List ℕ) (c : Option (List ℕ))
        → (if listed p ids then none else (if p == id then none else c))
          ≡ (if listed p (id ∷ ids) then none else c)
    listed_step p id ids c = elim (Bool-cases (p == id)) [
      | inl e ↦ elim (Bool-cases (listed p ids)) [ inl l ↦ rw (e, l) refl | inr l ↦ rw (e, l) refl ]
      | inr e ↦ rw e refl
    ]

    delete_each-Discards :
        (ids : List ℕ) (j : JournalImpl D)
        → IsReady j
        → All (λ id. id < 2 ^ 32) ids
        → (j' : JournalImpl D) × (delete_each db ids j ≡ (returned tt, j'))
          × IsReady j'
          × (j'.accepted_list ≡ j.accepted_list)
          × (j'.transient_list ≡ j.transient_list)
          × Discards ids j j'
    unfolding delete_each
    delete_each-Discards [] j h lt = (j, refl, h, refl, refl, λ p l. refl)
    delete_each-Discards (id ∷ ids) j h lt =
        let (d, e) = partition-IsReady id j h in
        let (d', step, change) = delete_one id d j h e lt.0 in
        let j1 = set_partition id d' j in
        let (j', run, now, kept, kept', rest) =
          delete_each-Discards ids j1 (set_partition-IsReady id d' j h) lt.1 in
        (
          j',
          ap (delete_in db id j (delete_each db ids)) e ∙ (step (delete_each db ids) ∙ run),
          now,
          kept,
          kept',
          λ p l.
              rest p l
              ∙ (ap (λ c. if listed p ids then none else c) (change p l)
                  ∙ listed_step p id ids (contents stored j p)),
        )

    discard_transient-run :
        (j j' : JournalImpl D)
        → IsReady j
        → delete_each db j.transient_list j ≡ (returned tt, j')
        → discard_transient_message db j ≡ (returned tt, record j' { transient_list = [] })
    unfolding discard_transient_message
    discard_transient-run j j' h run =
        ap
          (λ b.
            clear_transient db (if b then delete_each db j.transient_list j else (returned tt, j)))
          h.creates
        ∙ ap (clear_transient db) run

    discard_accepted-run :
        (j j' : JournalImpl D)
        → IsReady j
        → delete_each db j.accepted_list j ≡ (returned tt, j')
        → discard_accepted_message db j ≡ (returned tt, record j' { accepted_list = [] })
    unfolding discard_accepted_message
    discard_accepted-run j j' h run =
        ap
          (λ b.
            clear_accepted db (if b then delete_each db j.accepted_list j else (returned tt, j)))
          h.creates
        ∙ ap (clear_accepted db) run

    either :
        (p : ℕ) (xs ys : List ℕ) (c : Option (List ℕ))
        → (if listed p ys then none else (if listed p xs then none else c))
          ≡ (if listed p xs || listed p ys then none else c)
    either p xs ys c = elim (Bool-cases (listed p xs)) [
      | inl e ↦ elim (Bool-cases (listed p ys)) [ inl l ↦ rw (e, l) refl | inr l ↦ rw (e, l) refl ]
      | inr e ↦ rw e refl
    ]

    -- With its databases open and working, the end of recovery returns, empties the lists of transient
    -- and of accepted messages, and takes out of the journal just the messages that were in either,
    -- all ids being below 2 ^ 32.
    pub recover_complete-Discards :
        (j : JournalImpl D)
        → IsReady j
        → All (λ id. id < 2 ^ 32) j.transient_list
        → All (λ id. id < 2 ^ 32) j.accepted_list
        → (j' : JournalImpl D) × (recover_complete db j ≡ (returned tt, j'))
          × (j'.transient_list ≡ [])
          × (j'.accepted_list ≡ [])
          × ((p : ℕ)
              → p < 2 ^ 32
              → contents stored j' p ≡ (
                  if listed p j.transient_list || listed p j.accepted_list
                  then none
                  else contents stored j p))
    unfolding recover_complete
    recover_complete-Discards j h ht ha =
        let (j1, run1, now1, kept1, none1, gone1) = delete_each-Discards j.transient_list j h ht in
        let t1 : JournalImpl D = record j1 { transient_list = [] } in
        let ready : IsReady t1 = record {
          creates = now1.creates;
          some_files = now1.some_files;
          as_many = now1.as_many;
          all_open = now1.all_open;
        } in
        let (j2, run2, now2, kept2, none2, gone2) =
          delete_each-Discards j1.accepted_list t1 ready
            (subst (All (λ id. id < 2 ^ 32)) (sym kept1) ha) in
        (
          record j2 { accepted_list = [] },
          ap (then_accepted db) (discard_transient-run j j1 h run1)
              ∙ discard_accepted-run t1 j2 ready run2,
          none2,
          refl,
          λ p l.
              gone2 p l
              ∙ (ap (λ ids. if listed p ids then none else contents stored j1 p) kept1
                  ∙ (ap (λ c. if listed p j.accepted_list then none else c) (gone1 p l)
                      ∙ either p j.transient_list j.accepted_list (contents stored j p))),
        )
