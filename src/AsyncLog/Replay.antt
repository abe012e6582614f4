-- ===== src/AsyncLog/Replay.antt =====
-- What `extractPendingDequeueFromFile` and `extractPendingEnqueueFromFile` of
-- lib/AsyncOperationLogger.cpp do with one record: the bodies of the two cases of their `switch`,
-- which differ in the type of the pending value only.
pub mod View
pub mod Counts
pub mod Entries
pub mod Lost
pub mod Tally
use mathlib.Core.List.{foldl}
use bdbmsgstore.Prelude.{ℕ, Bool, List, [], if◌then◌else◌}
use bdbmsgstore.TwoLevel.{TwoLevel, add, remove}
use bdbmsgstore.PendingOperation.{PendingAsyncOperation, pending_operation}

pub data Record (V : Type 0) : Type 0 where
  start : ℕ → ℕ → V → Record V
  complete : ℕ → ℕ → Record V

-- `adset` or `aeset`, and `lostSet`: the completions whose start is in no file read so far.
pub record PendingSets (V : Type 0) : Type 0 where
  pub pending : TwoLevel V
  pub lost : TwoLevel PendingAsyncOperation

module _ {V : Type 0} where
  abbrev pub no_sets : PendingSets V
  no_sets = record { pending = []; lost = [] }

  -- A start is dropped with its lost completion, or else becomes pending.
  unfoldable pub start_seen : ℕ → ℕ → V → PendingSets V → PendingSets V
  start_seen pid qid v s =
      let (found, rest) = remove qid pid s.lost in
      if found
      then record { pending = s.pending; lost = rest }
      else record { pending = add qid pid v s.pending; lost = s.lost }

  -- A completion ends its pending start, or else is lost.
  unfoldable pub complete_seen : ℕ → ℕ → PendingSets V → PendingSets V
  complete_seen pid qid s =
      let (found, rest) = remove qid pid s.pending in
      if found
      then record { pending = rest; lost = s.lost }
      else record { pending = s.pending; lost = add qid pid (pending_operation pid qid) s.lost }

  unfoldable pub record_seen : PendingSets V → Record V → PendingSets V
  record_seen s (start pid qid v) = start_seen pid qid v s
  record_seen s (complete pid qid) = complete_seen pid qid s

  unfoldable pub replay : List (Record V) → PendingSets V → PendingSets V
  unfolding record_seen
  replay rs s = foldl record_seen s rs
