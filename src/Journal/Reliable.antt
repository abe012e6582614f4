-- ===== src/Journal/Reliable.antt =====
-- Databases and transactions that do what lib/JournalImpl.cpp asks of them.
use bdbmsgstore.Prelude.{ℕ, zero, Bool, ◌≡◌, refl, true, Option, none, some, List}
use bdbmsgstore.Journal.Berkeley.{Status, ok, key_exist, not_found, failed, Database}
use bdbmsgstore.TxnCtxt.Ending.{Ending, unchanged, committed, lost, ending_of, ending}
use bdbmsgstore.TxnCtxt.{Answers}

abbrev pub Puts : {D : Type 0} → Option (Status × D) → Type 0
Puts none = ⊥
Puts (some (ok, d)) = Unit {0}
Puts (some (key_exist, d)) = Unit {0}
Puts (some (not_found, d)) = ⊥
Puts (some (failed, d)) = ⊥

abbrev pub Dels : {D : Type 0} → Option (Status × D) → Type 0
Dels none = ⊥
Dels (some (ok, d)) = Unit {0}
Dels (some (key_exist, d)) = ⊥
Dels (some (not_found, d)) = Unit {0}
Dels (some (failed, d)) = ⊥

-- No put and no delete throws or fails.
pub record IsReliable {D : Type 0} (db : Database D) : Type 0 where
  pub puts : (k : ℕ) (v : List ℕ) (d : D) → Puts (db.put k v d)
  pub dels : (k : ℕ) (d : D) → Dels (db.del k d)

abbrev pub Commits : Answers → Type 0
Commits w = (w.txn_begin ≡ some zero) × (w.commits ≡ true)

-- Every transaction begins and is committed.
pub record HasTxns {D : Type 0} (db : Database D) : Type 0 where
  pub put_txns : (k : ℕ) (d : D) → Commits (db.put_txn k d)
  pub del_txns : (k : ℕ) (d : D) → Commits (db.del_txn k d)

-- The put has entered the message or found one there, and is committed.
abbrev pub EndsPut : Ending Status → Type 0
EndsPut unchanged = ⊥
EndsPut (committed ok) = Unit {0}
EndsPut (committed key_exist) = Unit {0}
EndsPut (committed not_found) = ⊥
EndsPut (committed failed) = ⊥
EndsPut lost = ⊥

abbrev pub EndsDel : Ending Status → Type 0
EndsDel unchanged = ⊥
EndsDel (committed ok) = Unit {0}
EndsDel (committed key_exist) = ⊥
EndsDel (committed not_found) = Unit {0}
EndsDel (committed failed) = ⊥
EndsDel lost = ⊥

module _ {D : Type 0} where
  Puts-commit :
      (aborts : Bool) (a : Option (Status × D))
      → Puts a
      → EndsPut (ending_of (some zero) true aborts a)
  Puts-commit aborts none p = absurd p
  Puts-commit aborts (some (ok, d)) p = tt
  Puts-commit aborts (some (key_exist, d)) p = tt
  Puts-commit aborts (some (not_found, d)) p = absurd p
  Puts-commit aborts (some (failed, d)) p = absurd p

  Dels-commit :
      (aborts : Bool) (a : Option (Status × D))
      → Dels a
      → EndsDel (ending_of (some zero) true aborts a)
  Dels-commit aborts none p = absurd p
  Dels-commit aborts (some (ok, d)) p = tt
  Dels-commit aborts (some (key_exist, d)) p = absurd p
  Dels-commit aborts (some (not_found, d)) p = tt
  Dels-commit aborts (some (failed, d)) p = absurd p

  pub Puts-EndsPut :
      (w : Answers) (a : Option (Status × D)) → Commits w → Puts a → EndsPut (ending w a)
  Puts-EndsPut w a c p = rw (c.0, c.1) (Puts-commit w.aborts a p)

  pub Dels-EndsDel :
      (w : Answers) (a : Option (Status × D)) → Commits w → Dels a → EndsDel (ending w a)
  Dels-EndsDel w a c p = rw (c.0, c.1) (Dels-commit w.aborts a p)

  pub Dels-status :
      (a : Option (Status × D))
      → Dels a
      → (s : Status) × (d : D) × (a ≡ some (s, d)) × EndsDel (committed s)
  Dels-status none p = absurd p
  Dels-status (some (s, d)) p = (s, d, refl, Dels-commit true (some (s, d)) p)
