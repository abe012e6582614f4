-- ===== src/PidTracker/Wait.antt =====
-- `waitForPid` of lib/PidTracker.cpp. What other threads do while it waits is given as the states of
-- the tracker that it finds when it wakes up; without a further wake-up it stays blocked.
pub mod Result
pub mod Stall
use bdbmsgstore.Prelude.{ℕ, suc, ◌+◌, Bool, true, List, [], ◌∷◌, ltb, if◌then◌else◌, is_some}
use bdbmsgstore.Prelude.Int.{ℤ, pos, negsuc}
use bdbmsgstore.TwoLevel.{lookup}
use bdbmsgstore.PidTracker.Record.{PidTracker}

pub data Wait (A : Type 0) : Type 0 where
  passed : A → Wait A
  returned : ℤ → Wait A
  blocked : Wait A

abbrev pub is_duplicate : ℕ → ℕ → PidTracker → Bool
is_duplicate pid qid t = is_some (lookup qid pid t.dup_map)

-- The loop on `duplicateNotEnqueued`, which hands its count on.
unfoldable pub wait_duplicate : ℕ → ℕ → ℕ → PidTracker → List PidTracker → Wait ℕ
wait_duplicate pid qid try_count t [] =
    if is_duplicate pid qid t
    then blocked
    else if ltb 100 try_count
    then returned (negsuc 0)
    else passed try_count
wait_duplicate pid qid try_count t (t' ∷ wakes) =
    let again = wait_duplicate pid qid (try_count + 1) t' wakes in
    if is_duplicate pid qid t
    then if t'.stopped
      then returned (negsuc 1)
      else if ltb 100 (try_count + 1)
      then returned (negsuc 0)
      else again
    else if ltb 100 try_count
    then returned (negsuc 0)
    else passed try_count

-- The loop on `notYetEnqueued`.
unfoldable pub wait_enqueued : ℕ → ℕ → PidTracker → List PidTracker → Wait ℕ
wait_enqueued pid try_count t [] =
    if ltb t.main_record.last_pid pid then blocked else passed try_count
wait_enqueued pid try_count t (t' ∷ wakes) =
    let again = wait_enqueued pid (try_count + 1) t' wakes in
    if ltb t.main_record.last_pid pid
    then if t'.stopped
      then returned (negsuc 1)
      else if ltb 100 (try_count + 1)
      then returned (negsuc 0)
      else again
    else passed try_count

abbrev pub then_wait : (ℕ → Wait ℕ) → Wait ℕ → Wait ℕ
then_wait second (passed n) = second n
then_wait second (returned z) = returned z
then_wait second blocked = blocked

-- The two mutexes are taken one after the other: `t` is the state when the first is had, and `u` when
-- the second is.
unfoldable pub wait_for_pid :
    ℕ → ℕ → PidTracker → List PidTracker → PidTracker → List PidTracker → Wait ℕ
unfolding wait_duplicate wait_enqueued
wait_for_pid pid qid t dup_wakes u main_wakes =
    then_wait (λ n. wait_enqueued pid n u main_wakes) (wait_duplicate pid qid 0 t dup_wakes)

unfoldable pub stop : PidTracker → PidTracker
stop t = record t { stopped = true }
