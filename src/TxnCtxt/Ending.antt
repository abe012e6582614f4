-- ===== src/TxnCtxt/Ending.antt =====
-- Exactly how a transaction (lib/TxnCtxt.cpp) around one call with a status ends.
use bdbmsgstore.Prelude.{ℕ, zero, suc, ◌≡◌, refl, Bool, true, false, Option, none, some}
use bdbmsgstore.Outcome.{Outcome, returned, raised, undefined}
use bdbmsgstore.TxnCtxt.{Answers, TxnCtxt, begin, commit, abort, called, with_txn}

-- The block throws and has changed nothing, returns the call's status, or uses the handle after its
-- end, which is not defined.
pub data Ending (S : Type 0) : Type 0 where
  unchanged : Ending S
  committed : S → Ending S
  lost : Ending S

abbrev pub answers : Option ℕ → Bool → Bool → Answers
answers b commits aborts = record { txn_begin = b; commits = commits; aborts = aborts }

module _ {S D : Type 0} where
  abbrev pub ending_of : Option ℕ → Bool → Bool → Option (S × D) → Ending S
  ending_of none commits aborts a = unchanged
  ending_of (some (suc err)) commits aborts a = unchanged
  ending_of (some zero) commits true none = unchanged
  ending_of (some zero) commits false none = lost
  ending_of (some zero) true aborts (some (s, d)) = committed s
  ending_of (some zero) false aborts (some (s, d)) = lost

  -- By what begin, commit and abort answer, and what the call does.
  abbrev pub ending : Answers → Option (S × D) → Ending S
  ending w a = ending_of w.txn_begin w.commits w.aborts a

  abbrev pub EndsAs : Option (S × D) → D → Ending S → Outcome S → TxnCtxt D → Type 0
  EndsAs a d unchanged o c = (o ≡ raised) × (c.db ≡ d)
  EndsAs a d (committed s) o c = (o ≡ returned s) × (a ≡ some (s, c.db))
  EndsAs a d lost o c = o ≡ undefined

  ending_of-EndsAs :
      (b : Option ℕ) (commits aborts : Bool) (a : Option (S × D)) (d : D)
      → let (o, c) = with_txn (answers b commits aborts) (λ e. called a) d in
        EndsAs a d (ending_of b commits aborts a) o c
  unfolding with_txn begin commit abort
  ending_of-EndsAs none commits aborts a d = (refl, refl)
  ending_of-EndsAs (some (suc err)) commits aborts a d = (refl, refl)
  ending_of-EndsAs (some zero) commits true none d = (refl, refl)
  ending_of-EndsAs (some zero) commits false none d = refl
  ending_of-EndsAs (some zero) true aborts (some (s, d')) d = (refl, refl)
  ending_of-EndsAs (some zero) false true (some (s, d')) d = refl
  ending_of-EndsAs (some zero) false false (some (s, d')) d = refl

  -- The block around one call with a status: whether it throws with nothing changed, returns the
  -- status with the call's change committed, or is not defined, as begin, commit and abort decide.
  pub with_txn-EndsAs :
      (w : Answers) (call : D → Option (S × D)) (d : D)
      → let (o, c) = with_txn w (λ e. called (call e)) d in
        EndsAs (call d) d (ending w (call d)) o c
  unfolding with_txn begin commit abort
  with_txn-EndsAs w call d = by w.txn_begin w.commits w.aborts
    where
      by :
          (b : Option ℕ) (commits aborts : Bool)
          → let (o, c) = with_txn (answers b commits aborts) (λ e. called (call e)) d in
            EndsAs (call d) d (ending_of b commits aborts (call d)) o c
      by none commits aborts = (refl, refl)
      by (some (suc err)) commits aborts = (refl, refl)
      by (some zero) commits aborts = ending_of-EndsAs (some zero) commits aborts (call d) d
