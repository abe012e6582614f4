-- ===== src/TxnCtxt/Atomic.antt =====
-- What a block in a transaction leaves behind (lib/TxnCtxt.cpp).
use bdbmsgstore.Prelude.{
  ℕ, zero, suc, ◌≡◌, refl, ◌⊎◌, inl, inr, Bool, true, false, Option, none, some,
}
use bdbmsgstore.Outcome.{Outcome, returned, raised, undefined}
use bdbmsgstore.TxnCtxt.{Answers, TxnCtxt, begin, commit, abort, with_txn}

abbrev answers : Option ℕ → Bool → Bool → Answers
answers b commits aborts = record { txn_begin = b; commits = commits; aborts = aborts }

module _ {A D : Type 0} where
  -- The database after the block, by its outcome: what the calls made of it when the block returns,
  -- as before when it throws, the lock being free in both cases. The behaviour is undefined only if
  -- that of the calls is, or if commit or abort throws.
  abbrev pub Atomic : Answers → Outcome (A × D) → D → Outcome A → TxnCtxt D → Type 0
  Atomic w calls d (returned a) c = (calls ≡ returned (a, c.db)) × (c.serialised ≡ false)
  Atomic w calls d raised c = (c.db ≡ d) × (c.serialised ≡ false)
  Atomic w calls d undefined c = (calls ≡ undefined) ⊎ ((w.commits ≡ false) ⊎ (w.aborts ≡ false))

  Atomic-calls :
      (commits aborts : Bool) (calls : Outcome (A × D)) (d : D)
      → let w = answers (some zero) commits aborts in
        let (o, c) = with_txn w (λ e. calls) d in Atomic w calls d o c
  unfolding with_txn begin commit abort
  Atomic-calls true aborts (returned (a, d')) d = (refl, refl)
  Atomic-calls false true (returned (a, d')) d = inr (inl refl)
  Atomic-calls false false (returned (a, d')) d = inr (inl refl)
  Atomic-calls commits true raised d = (refl, refl)
  Atomic-calls commits false raised d = inr (inr refl)
  Atomic-calls commits true undefined d = inl refl
  Atomic-calls commits false undefined d = inl refl

  -- A transaction is all or nothing, and gives its lock back: whatever the calls in the block and the
  -- library answer, the committed database is afterwards what the calls made of it if the block
  -- returns, and as before if it throws, and the lock is free. The behaviour is undefined only if that
  -- of the calls is, or if commit or abort throws.
  pub with_txn-Atomic :
      (w : Answers) (body : D → Outcome (A × D)) (d : D)
      → let (o, c) = with_txn w body d in Atomic w (body d) d o c
  unfolding with_txn begin commit abort
  with_txn-Atomic w body d = cases w.txn_begin w.commits w.aborts
    where
      cases :
          (b : Option ℕ) (commits aborts : Bool)
          → let w = answers b commits aborts in
            let (o, c) = with_txn w body d in Atomic w (body d) d o c
      cases none commits aborts = (refl, refl)
      cases (some (suc err)) commits aborts = (refl, refl)
      cases (some zero) commits aborts = Atomic-calls commits aborts (body d) d
