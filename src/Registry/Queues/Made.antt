-- ===== src/Registry/Queues/Made.antt =====
-- Creating a queue with its journal (lib/BdbStoreProvider.cpp).
use bdbmsgstore.Prelude.{
  ℕ, ◌≡◌, ◌⊎◌, Bool, true, false, Option, none, some, List, [], if◌then◌else◌,
}
use bdbmsgstore.Journal.{
  JournalImpl, Outcome, returned, raised, undefined, open_journal, init_message_db,
}
use bdbmsgstore.Journal.Berkeley.{Database}
use bdbmsgstore.TxnCtxt.{Answers}
use bdbmsgstore.Provider.Pools.{set_journal}
use bdbmsgstore.Registry.{ObjectDb}
use bdbmsgstore.Registry.Tables.{contents}
use bdbmsgstore.Registry.Created.{Created}
use bdbmsgstore.Registry.Queues.{Queues}

module _ {D J : Type 0} (odb : ObjectDb D) (jdb : Database J) (num_jfiles : ℕ) where
  -- The new journal, with all its databases open or not.
  abbrev pub opened : Outcome (Unit {0}) × JournalImpl J
  opened = init_message_db jdb (open_journal num_jfiles true)

  -- The queue is in the table, and nothing was listed for it, as its directory or a database of its
  -- journal could not be made.
  abbrev pub HalfMade : ℕ → Answers → Bool → List ℕ → Queues D J → Queues D J → Type 0
  HalfMade n w dir_made value s s' =
      ((dir_made ≡ false) ⊎ (opened.0 ≡ raised))
      × ((id : ℕ) × (Created odb n w value (contents odb s.table) (returned (some id)) s'.table
            × (s'.journal_list ≡ s.journal_list)))

  abbrev pub Made :
      ℕ → Answers → Bool → List ℕ → List ℕ → Queues D J → Outcome (Option ℕ) → Queues D J → Type 0
  Made n w dir_made name value s (returned (some id)) s' =
      Created odb n w value (contents odb s.table) (returned (some id)) s'.table
      × ((opened.0 ≡ returned tt) × (s'.journal_list ≡ set_journal id opened.1 s.journal_list))
  Made n w dir_made name value s (returned none) s' = (name ≡ []) × (s' ≡ s)
  Made n w dir_made name value s raised s' =
      (Created odb n w value (contents odb s.table) raised s'.table
        × (s'.journal_list ≡ s.journal_list))
      ⊎ HalfMade n w dir_made value s s'
  Made n w dir_made name value s undefined s' = (w.commits ≡ false) ⊎ (w.aborts ≡ false)

  abbrev open_or_throw :
      Bool
      → Bool
      → JournalImpl J
      → JournalImpl J
      → JournalImpl J
      → Outcome (Unit {0}) × JournalImpl J
  open_or_throw x y a b c =
      if x then (returned tt, a) else if y then (returned tt, b) else (raised, c)

  abbrev Fails : Outcome (Unit {0}) → Type 0
  Fails (returned u) = Unit {0}
  Fails raised = Unit {0}
  Fails undefined = ⊥
