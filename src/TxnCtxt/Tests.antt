-- ===== src/TxnCtxt/Tests.antt =====
-- Runs of a transaction (lib/TxnCtxt.cpp) on a database that is one number.
use bdbmsgstore.Prelude.{ℕ, ◌+◌, ◌≡◌, refl, true, false, some}
use bdbmsgstore.Outcome.{Outcome, returned, raised, undefined}
use bdbmsgstore.TxnCtxt.{Answers, begin, commit, abort, with_txn}
use bdbmsgstore.TxnCtxt.Atomic.{Atomic, with_txn-Atomic}

abbrev fine : Answers
fine = record { txn_begin = some 0; commits = true; aborts = true }

abbrev no_commit : Answers
no_commit = record { txn_begin = some 0; commits = false; aborts = true }

abbrev add_one : ℕ → Outcome (ℕ × ℕ)
add_one d = returned (d, d + 1)

abbrev throw_after_begin : ℕ → Outcome (ℕ × ℕ)
throw_after_begin d = raised

fine_run : (with_txn fine add_one 4).1.db ≡ 5
unfolding with_txn begin commit abort
fine_run = refl

raised_run : (with_txn fine throw_after_begin 4).1.db ≡ 4
unfolding with_txn begin commit abort
raised_run = refl

-- Where commit throws, the handler aborts on the handle that commit has used up.
no_commit_run : (with_txn no_commit add_one 4).0 ≡ undefined
unfolding with_txn begin commit abort
no_commit_run = refl

with_txn-Atomic_example :
    Atomic fine (add_one 4) 4 (with_txn fine add_one 4).0 (with_txn fine add_one 4).1
with_txn-Atomic_example = with_txn-Atomic fine add_one 4
