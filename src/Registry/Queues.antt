-- ===== src/Registry/Queues.antt =====
-- Queues in lib/BdbStoreProvider.cpp: created with the journal of their messages, destroyed with it
-- and with their bindings, and recovered; `delete_jrnl_files` of lib/JournalImpl.cpp.
pub mod Made
pub mod Dropped
pub mod Names
pub mod Listed
mod Tests
use bdbmsgstore.Prelude.{
  ℕ, zero, suc, ◌+◌, Bool, true, false, Option, none, some, List, [], ◌∷◌, ◌++◌, ◌==◌,
  if◌then◌else◌, get_elem?,
}
use bdbmsgstore.Word.{suc_u64}
use bdbmsgstore.OrdMap.{OrdMap}
use bdbmsgstore.IdSequence.{reset}
use bdbmsgstore.Journal.{
  JournalImpl, Outcome, returned, raised, undefined, open_journal, init_message_db, set_elem, here,
}
use bdbmsgstore.Journal.Berkeley.{Database}
use bdbmsgstore.Journal.Scan.{Row}
use bdbmsgstore.TxnCtxt.{Answers}
use bdbmsgstore.Provider.Pools.{set_journal}
use bdbmsgstore.Provider.Recovery.{◌>>=◌}
use bdbmsgstore.Provider.Recovery.Rows.{put}
use bdbmsgstore.Registry.{ObjectDb, Table, max, create, destroy}
use bdbmsgstore.Registry.Bindings.{BindingDb, Framing, delete_bindings_for_queue}

-- The table of the queues, and `journalList`.
pub record Queues (D J : Type 0) : Type 0 where
  pub table : Table D
  pub journal_list : ℕ → Option (JournalImpl J)

abbrev pub erase_journal :
    {J : Type 0} → ℕ → (ℕ → Option (JournalImpl J)) → ℕ → Option (JournalImpl J)
erase_journal id journals i = if i == id then none else journals i

-- A C string ends at the first NUL.
abbrev pub c_str : List ℕ → List ℕ
c_str [] = []
c_str (x ∷ name) = if x == 0 then [] else x ∷ c_str name

module _ {D J : Type 0} (odb : ObjectDb D) (jdb : Database J) (num_jfiles : ℕ) where
  abbrev pub add_journal :
      ℕ → Queues D J → Outcome (Unit {0}) × JournalImpl J → Outcome (Option ℕ) × Queues D J
  add_journal id s (returned u, j) =
      (returned (some id), record s { journal_list = set_journal id j s.journal_list })
  add_journal id s (raised, j) = (raised, s)
  add_journal id s (undefined, j) = (undefined, s)

  -- `dir_made` says whether the directory of the journal can be made.
  abbrev pub after_create :
      Bool → Queues D J → Outcome (Option ℕ) × Table D → Outcome (Option ℕ) × Queues D J
  after_create dir_made s (returned none, t) = (raised, record s { table = t })
  after_create false s (returned (some id), t) = (raised, record s { table = t })
  after_create true s (returned (some id), t) =
      add_journal id (record s { table = t }) (init_message_db jdb (open_journal num_jfiles true))
  after_create dir_made s (raised, t) = (raised, record s { table = t })
  after_create dir_made s (undefined, t) = (undefined, record s { table = t })

  abbrev pub create_named :
      Answers → Bool → List ℕ → List ℕ → Queues D J → Outcome (Option ℕ) × Queues D J
  create_named w dir_made [] value s = (returned none, s)
  create_named w dir_made (x ∷ name) value s = after_create dir_made s (create odb w value s.table)

  -- `create` of a queue that has the persistence id `pid`: its new id, or none where the name is empty
  -- and nothing is done.
  unfoldable pub create_queue :
      Answers → Bool → ℕ → List ℕ → List ℕ → Queues D J → Outcome (Option ℕ) × Queues D J
  create_queue w dir_made pid name value s =
      let created = create_named w dir_made name value s in
      if pid == 0 then created else (raised, s)

module _ {J : Type 0} (dbremove : ℕ → Bool) where
  -- The loop over the `n` databases from the index `k` on: one that is open is closed, removed, and
  -- reset; closing it succeeds, and `dbremove` says where removing it does.
  unfoldable pub delete_dbs : ℕ → ℕ → List (Option J) → Bool × List (Option J)
  delete_dbs zero k dbs = (true, dbs)
  delete_dbs (suc n) k dbs =
      let rest = delete_dbs n (k + 1) dbs in
      let gone = delete_dbs n (k + 1) (set_elem k none dbs) in
      elim (here (get_elem? dbs k)) [
        | none ↦ rest
        | some d ↦ (if dbremove k then gone else (false, dbs))
      ]

  unfoldable pub delete_jrnl_files : Bool → JournalImpl J → Outcome (Unit {0}) × JournalImpl J
  delete_jrnl_files dir_deleted j =
      let (all_gone, dbs) = delete_dbs j.num_jfiles 0 j.message_dbs in
      (
        (if all_gone then (if dir_deleted then returned tt else raised) else raised),
        record j { message_dbs = dbs },
      )

  -- The journal, if the queue has one, is deleted with its files, and leaves the list.
  abbrev pub after_files :
      {D : Type 0}
      → ℕ
      → Queues D J
      → Outcome (Unit {0}) × JournalImpl J
      → Outcome (Unit {0}) × Queues D J
  after_files id s (returned u, j) =
      (returned tt, record s { journal_list = erase_journal id s.journal_list })
  after_files id s (raised, j) =
      (raised, record s { journal_list = set_journal id j s.journal_list })
  after_files id s (undefined, j) =
      (undefined, record s { journal_list = set_journal id j s.journal_list })

  abbrev pub drop_journal :
      {D : Type 0}
      → Bool
      → ℕ
      → Option (JournalImpl J)
      → Queues D J
      → Outcome (Unit {0}) × Queues D J
  drop_journal dir_deleted id none s = (returned tt, s)
  drop_journal dir_deleted id (some j) s = after_files id s (delete_jrnl_files dir_deleted j)

module _ {D J B F : Type 0} (odb : ObjectDb D) (bdb : BindingDb B) (fr : Framing F) where
  abbrev pub then_journal :
      (ℕ → Bool)
      → Bool
      → ℕ
      → Queues D J
      → Outcome (Unit {0}) × B
      → Outcome (Unit {0}) × (Queues D J × B)
  then_journal dbremove dir_deleted id s (returned u, b) =
      let (o, s') = drop_journal dbremove dir_deleted id (s.journal_list id) s in (o, (s', b))
  then_journal dbremove dir_deleted id s (raised, b) = (raised, (s, b))
  then_journal dbremove dir_deleted id s (undefined, b) = (undefined, (s, b))

  abbrev pub then_unbind :
      (ℕ → Bool)
      → Bool
      → Answers
      → ℕ
      → Queues D J
      → B
      → Outcome (Unit {0}) × Table D
      → Outcome (Unit {0}) × (Queues D J × B)
  then_unbind dbremove dir_deleted w id s b (returned u, t) =
      then_journal dbremove dir_deleted id (record s { table = t })
        (delete_bindings_for_queue bdb fr w id b)
  then_unbind dbremove dir_deleted w id s b (raised, t) = (raised, (record s { table = t }, b))
  then_unbind dbremove dir_deleted w id s b (undefined, t) =
      (undefined, (record s { table = t }, b))

  -- `destroy` of a queue; the store that the broker keeps for it is its journal.
  unfoldable pub destroy_queue :
      (ℕ → Bool) → Bool → Answers → ℕ → Queues D J → B → Outcome (Unit {0}) × (Queues D J × B)
  destroy_queue dbremove dir_deleted w id s b =
      then_unbind dbremove dir_deleted w id s b (destroy odb id s.table)

-- What the loop over the queues fills: `queueMap`, with the name of each queue, `journalList`, and the
-- ids of `recoveredJournal`.
pub record QueuePass (J : Type 0) : Type 0 where
  pub queue_map : OrdMap (List ℕ)
  pub journal_list : ℕ → Option (JournalImpl J)
  pub recovered_journal : List ℕ

abbrev pub no_queues : {J : Type 0} → QueuePass J
no_queues = record { queue_map = []; journal_list = λ i. none; recovered_journal = [] }

module _ {J : Type 0} (num_jfiles : ℕ) where
  abbrev pub add_queue : ℕ → List ℕ → QueuePass J → QueuePass J
  add_queue id name p = record {
    queue_map = put id name p.queue_map;
    journal_list = set_journal id (open_journal num_jfiles true) p.journal_list;
    recovered_journal = p.recovered_journal ++ (id ∷ []);
  }

  -- A queue whose name is empty ends the loop.
  abbrev pub named_queue :
      (ℕ → QueuePass J → Outcome (ℕ × QueuePass J))
      → ℕ
      → ℕ
      → QueuePass J
      → List ℕ
      → Outcome (ℕ × QueuePass J)
  named_queue go_on id max_id p [] = returned (max_id, p)
  named_queue go_on id max_id p (x ∷ name) = go_on (max id max_id) (add_queue id (x ∷ name) p)

  -- The broker makes a queue of each value: its name.
  unfoldable pub recover_queue_rows :
      (List ℕ → Outcome (List ℕ)) → List Row → ℕ → QueuePass J → Outcome (ℕ × QueuePass J)
  recover_queue_rows decode [] max_id p = returned (max_id, p)
  recover_queue_rows decode ((id, value) ∷ rest) max_id p = decode value >>= λ (name : List ℕ).
      named_queue (recover_queue_rows decode rest) id max_id p (c_str name)

  abbrev pub queues_recovered :
      {D : Type 0} → Table D → Outcome (ℕ × QueuePass J) → Outcome (QueuePass J) × Queues D J
  queues_recovered t (returned (max_id, p)) = (
    returned p,
    record {
      table = record t { ids = reset (suc_u64 max_id) t.ids };
      journal_list = p.journal_list;
    },
  )
  queues_recovered t raised = (raised, record { table = t; journal_list = λ i. none })
  queues_recovered t undefined = (undefined, record { table = t; journal_list = λ i. none })

  -- `recoverQueues`, in a process that has no journal yet.
  unfoldable pub recover_queues :
      {D : Type 0}
      → ObjectDb D
      → (List ℕ → Outcome (List ℕ))
      → Table D
      → Outcome (QueuePass J) × Queues D J
  recover_queues odb decode t =
      queues_recovered t (recover_queue_rows decode (odb.rows t.db) 1 no_queues)
