-- ===== src/Registry/Queues/Dropped.antt =====
-- Destroying a queue with its bindings and its journal (lib/BdbStoreProvider.cpp).
use bdbmsgstore.Prelude.{
  ℕ, suc, ◌≡◌, ◌<◌, ◌⊎◌, inl, inr, refl, Bool, true, false, not, ◌&&◌, Option, none, some, List,
  ◌==◌, if◌then◌else◌, sym, subst, Bool-cases, ==→eq,
}
use bdbmsgstore.Bytes.{u64_mod}
use bdbmsgstore.Journal.{JournalImpl, Outcome, returned, raised, undefined}
use bdbmsgstore.Journal.Scan.{Row}
use bdbmsgstore.TxnCtxt.{Answers}
use bdbmsgstore.Registry.{ObjectDb, Table, destroy}
use bdbmsgstore.Registry.Tables.{IsObjectDb, contents, IsAhead}
use bdbmsgstore.Registry.Created.{set_at}
use bdbmsgstore.Registry.Destroyed.{Gone, destroy-Gone}
use bdbmsgstore.Registry.Bindings.{BindingDb, Framing, binding_dbt, delete_bindings_for_queue}
use bdbmsgstore.Registry.Bindings.Laws.{holds, IsBindingDb, IsFraming}
use bdbmsgstore.Registry.Bindings.Unbound.{Unbound, delete_bindings_for_queue-Unbound}
use bdbmsgstore.Registry.Queues.{
  Queues, erase_journal, delete_dbs, delete_jrnl_files, after_files, drop_journal, then_journal,
  then_unbind, destroy_queue,
}

-- What is left of a row of the bindings, `gone` being whether it is one of the queue.
abbrev pub RowLeft : {B : Type 0} → BindingDb B → Bool → Row → B → B → Type 0
RowLeft bdb gone row b b' = holds bdb b' row ≡ (holds bdb b row && not gone)

module _ {D J B F : Type 0} (odb : ObjectDb D) (bdb : BindingDb B) (fr : Framing F) where
  -- The queue is not in the table any more, and nothing else of it has changed.
  abbrev pub TableLeft : ℕ → ℕ → Queues D J → Queues D J → Type 0
  TableLeft n id s s' =
      ((k : ℕ) → contents odb s'.table k ≡ set_at id none (contents odb s.table) k)
      × IsAhead odb n s'.table

  abbrev pub Dropped :
      ℕ → Answers → ℕ → Bool → Row → Queues D J → B → Outcome (Unit {0}) → Queues D J → B → Type 0
  Dropped n w id gone row s b (returned u) s' b' =
      TableLeft n id s s'
      × (RowLeft bdb gone row b b'
          × ((k : ℕ) → s'.journal_list k ≡ erase_journal id s.journal_list k))
  Dropped n w id gone row s b raised s' b' =
      (((k : ℕ) → contents odb s'.table k ≡ contents odb s.table k) × (b' ≡ b))
      ⊎ (TableLeft n id s s' × ((b' ≡ b) ⊎ RowLeft bdb gone row b b'))
  Dropped n w id gone row s b undefined s' b' = (w.commits ≡ false) ⊎ (w.aborts ≡ false)

  module _ (n : ℕ) (w : Answers) (id : ℕ) (gone : Bool) (row : Row) (s : Queues D J) (b : B)
      (dbremove : ℕ → Bool) (dir_deleted : Bool) where
    none_listed :
        (js : ℕ → Option (JournalImpl J)) (k : ℕ) → js id ≡ none → js k ≡ erase_journal id js k
    none_listed js k e = elim (Bool-cases (k == id)) [
      | inl q ↦ rw q (subst (λ x. js x ≡ none) (sym (==→eq k id q)) e)
      | inr q ↦ rw q refl
    ]

    abbrev Throws : Outcome (Unit {0}) → Type 0
    Throws (returned u) = Unit {0}
    Throws raised = Unit {0}
    Throws undefined = ⊥

    files_gone : (x y : Bool) → Throws (if x then (if y then returned tt else raised) else raised)
    files_gone true true = tt
    files_gone true false = tt
    files_gone false y = tt

    delete_jrnl_files-Throws :
        (j : JournalImpl J) → Throws (delete_jrnl_files dbremove dir_deleted j).0
    unfolding delete_jrnl_files
    delete_jrnl_files-Throws j =
        files_gone (delete_dbs dbremove j.num_jfiles 0 j.message_dbs).0 dir_deleted

    files-Dropped :
        (t : Table D) (b' : B) (o : Outcome (Unit {0})) (j : JournalImpl J)
        → Throws o
        → TableLeft n id s (record s { table = t })
        → RowLeft bdb gone row b b'
        → let (r, s') = after_files dbremove id (record s { table = t }) (o, j) in
          Dropped n w id gone row s b r s' b'
    files-Dropped t b' (returned u) j h left rows = (left, (rows, λ k. refl))
    files-Dropped t b' raised j h left rows = inr (left, inr rows)
    files-Dropped t b' undefined j h left rows = absurd h

    journal-Dropped :
        (t : Table D) (b' : B) (j : Option (JournalImpl J))
        → s.journal_list id ≡ j
        → TableLeft n id s (record s { table = t })
        → RowLeft bdb gone row b b'
        → let (o, s') = drop_journal dbremove dir_deleted id j (record s { table = t }) in
          Dropped n w id gone row s b o s' b'
    journal-Dropped t b' none e left rows = (left, (rows, λ k. none_listed s.journal_list k e))
    journal-Dropped t b' (some j) e left rows =
        files-Dropped t b' (delete_jrnl_files dbremove dir_deleted j).0
          (delete_jrnl_files dbremove dir_deleted j).1 (delete_jrnl_files-Throws j) left rows

    unbound :
        (t : Table D) (r : Outcome (Unit {0}) × B)
        → TableLeft n id s (record s { table = t })
        → Unbound bdb w gone row b r
        → let (o, (s', b')) =
            then_journal odb bdb fr dbremove dir_deleted id (record s { table = t }) r in
          Dropped n w id gone row s b o s' b'
    unbound t (returned u, b') left h = journal-Dropped t b' (s.journal_list id) refl left h
    unbound t (raised, b') left h = inr (left, inl h)
    unbound t (undefined, b') left h = h

    Dropped-from :
        (laws : IsObjectDb odb) (o : Outcome (Unit {0})) (t : Table D)
        → Gone odb laws n id (contents odb s.table) o t
        → Unbound bdb w gone row b (delete_bindings_for_queue bdb fr w id b)
        → let (r, (s', b')) = then_unbind odb bdb fr dbremove dir_deleted w id s b (o, t) in
          Dropped n w id gone row s b r s' b'
    Dropped-from laws (returned u) t left h =
        unbound t (delete_bindings_for_queue bdb fr w id b) left h
    Dropped-from laws raised t (same, a) h = inl (same, refl)
    Dropped-from laws undefined t left h = absurd left

  -- Destroying a queue, on every branch: when it returns, the queue is not in the table any more, no
  -- other is changed, its journal is not listed and the others are, and of the row that `bind` wrote for a queue with a
  -- 64-bit id the database has it as it was if its queue is another one, and not otherwise. When it throws,
  -- either the table and the bindings are as before, or the queue is gone from the table and the
  -- bindings are as before or without those of the queue. The behaviour is undefined only if commit or
  -- abort throws. The sequence is ahead at first; the databases and the Buffer do what is documented.
  pub destroy_queue-Dropped :
      (laws : IsObjectDb odb) (blaws : IsBindingDb bdb) (framing : IsFraming fr) (n : ℕ)
      (dbremove : ℕ → Bool) (dir_deleted : Bool) (w : Answers) (id : ℕ) (s : Queues D J) (b : B)
      (exchange_id queue_id : ℕ) (name key : List ℕ) (args : F) (value : List ℕ)
      → IsAhead odb (suc n) s.table
      → queue_id < u64_mod
      → binding_dbt fr queue_id name key args ≡ returned value
      → let (o, (s', b')) = destroy_queue odb bdb fr dbremove dir_deleted w id s b in
        Dropped n w id (id == queue_id) (exchange_id, value) s b o s' b'
  unfolding destroy_queue
  destroy_queue-Dropped laws blaws framing n dbremove dir_deleted w id s b exchange_id queue_id name
        key args value ahead small enc =
      let (o, t) = destroy odb id s.table in
      Dropped-from n w id (id == queue_id) (exchange_id, value) s b dbremove dir_deleted laws o t
        (destroy-Gone odb laws n id s.table ahead)
        (delete_bindings_for_queue-Unbound bdb fr blaws framing w id b exchange_id queue_id name key
          args value small enc)
