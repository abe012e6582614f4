-- ===== src/TxnCtxt.antt =====
-- lib/TxnCtxt.{h,cpp}: a transaction of Berkeley DB with the lock that serialises the writers, and the
-- way that lib/BdbStoreProvider.cpp uses one: begin, then in a try block some calls and commit, with
-- abort and a new throw in the handler, and abort in the destructor. The parts for the journals of
-- a transaction have no caller.
pub mod Atomic
pub mod Ending
mod Tests
use bdbmsgstore.Prelude.{ℕ, zero, suc, Bool, true, false, ◌||◌, Option, none, some, if◌then◌else◌}
use bdbmsgstore.Outcome.{Outcome, returned, raised, undefined}

-- A handle may not be used after commit or abort was called on it, whatever they answered; before
-- that it has the database as the transaction sees it.
pub data Handle (D : Type 0) : Type 0 where
  active : D → Handle D
  ended : Handle D

-- The context, with the committed database and whether `globalSerialiser` is held.
pub record TxnCtxt (D : Type 0) : Type 0 where
  pub txn : Option (Handle D)
  pub global_holder : Bool
  pub db : D
  pub serialised : Bool

abbrev pub open_ctxt : {D : Type 0} → D → TxnCtxt D
open_ctxt d = record { txn = none; global_holder = false; db = d; serialised = false }

-- What the calls of Berkeley DB answer: `txn_begin` throws (none) or has an error code, and commit and
-- abort return or throw.
pub record Answers : Type 0 where
  pub txn_begin : Option ℕ
  pub commits : Bool
  pub aborts : Bool

module _ {D : Type 0} where
  -- globalHolder.reset()
  abbrev pub release : TxnCtxt D → TxnCtxt D
  release c = record c {
    global_holder = false;
    serialised = if c.global_holder then false else c.serialised;
  }

  unfoldable pub begin : Option ℕ → Bool → TxnCtxt D → Outcome (Unit {0}) × TxnCtxt D
  begin none sync c = (raised, record c { txn = none })
  begin (some (suc err)) sync c = (raised, c)
  begin (some zero) sync c = (
    returned tt,
    record c {
      txn = some (active c.db);
      global_holder = sync || c.global_holder;
      serialised = sync || c.serialised;
    },
  )

  abbrev pub commit_handle : Bool → Option (Handle D) → TxnCtxt D → Outcome (Unit {0}) × TxnCtxt D
  commit_handle commits none c = (returned tt, c)
  commit_handle commits (some ended) c = (undefined, c)
  commit_handle true (some (active d)) c = (returned tt, release (record c { txn = none; db = d }))
  commit_handle false (some (active d)) c = (raised, record c { txn = some ended })

  unfoldable pub commit : Bool → TxnCtxt D → Outcome (Unit {0}) × TxnCtxt D
  commit commits c = commit_handle commits c.txn c

  abbrev pub abort_handle : Bool → Option (Handle D) → TxnCtxt D → Outcome (Unit {0}) × TxnCtxt D
  abort_handle aborts none c = (returned tt, c)
  abort_handle aborts (some ended) c = (undefined, c)
  abort_handle true (some (active d)) c = (returned tt, release (record c { txn = none }))
  abort_handle false (some (active d)) c = (raised, record c { txn = some ended })

  unfoldable pub abort : Bool → TxnCtxt D → Outcome (Unit {0}) × TxnCtxt D
  abort aborts c = abort_handle aborts c.txn c

-- The view of the calls in the try block.
abbrev pub view : {D : Type 0} → TxnCtxt D → Option (Handle D) → D
view c none = c.db
view c (some ended) = c.db
view c (some (active d)) = d

-- A call of the library in the try block.
abbrev pub called : {A D : Type 0} → Option (A × D) → Outcome (A × D)
called none = raised
called (some r) = returned r

module _ {A D : Type 0} where
  -- catch (...) { txn.abort(); throw; }
  abbrev pub rethrow : Outcome (Unit {0}) × TxnCtxt D → Outcome A × TxnCtxt D
  rethrow (returned u, c) = (raised, c)
  rethrow (raised, c) = (raised, c)
  rethrow (undefined, c) = (undefined, c)

  abbrev pub handle_commit : Bool → A → Outcome (Unit {0}) × TxnCtxt D → Outcome A × TxnCtxt D
  handle_commit aborts a (returned u, c) = (returned a, c)
  handle_commit aborts a (raised, c) = rethrow (abort aborts c)
  handle_commit aborts a (undefined, c) = (undefined, c)

  -- The calls in the try block throw, or return and leave the database as the transaction sees it.
  abbrev pub try_block : Answers → Outcome (A × D) → TxnCtxt D → Outcome A × TxnCtxt D
  try_block w (returned (a, d)) c =
      handle_commit w.aborts a (commit w.commits (record c { txn = some (active d) }))
  try_block w raised c = rethrow (abort w.aborts c)
  try_block w undefined c = (undefined, c)

  -- The destructor, ~TxnCtxt; an exception out of it ends the program.
  abbrev pub close : Outcome A → Outcome (Unit {0}) × TxnCtxt D → Outcome A × TxnCtxt D
  close o (returned u, c) = (o, c)
  close o (raised, c) = (undefined, c)
  close o (undefined, c) = (undefined, c)

  abbrev pub destruct : Bool → Outcome A × TxnCtxt D → Outcome A × TxnCtxt D
  destruct aborts (o, c) = close o (abort aborts c)

  abbrev pub after_begin :
      Answers → (D → Outcome (A × D)) → Outcome (Unit {0}) × TxnCtxt D → Outcome A × TxnCtxt D
  after_begin w body (returned u, c) = destruct w.aborts (try_block w (body (view c c.txn)) c)
  after_begin w body (raised, c) = destruct w.aborts (raised, c)
  after_begin w body (undefined, c) = (undefined, c)

  -- The whole block, on a context of its own; the lock is free.
  unfoldable pub with_txn : Answers → (D → Outcome (A × D)) → D → Outcome A × TxnCtxt D
  with_txn w body d = after_begin w body (begin w.txn_begin true (open_ctxt d))
