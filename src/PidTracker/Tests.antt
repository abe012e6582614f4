-- ===== src/PidTracker/Tests.antt =====
-- Concrete runs of lib/PidTracker.cpp.
use bdbmsgstore.Prelude.{ℕ, ◌^◌, ◌≡◌, ◌≢◌, refl, Bool, true, false, [], ◌∷◌, arith, ◌==◌}
use bdbmsgstore.OrdMap.{find, insert, erase}
use bdbmsgstore.TwoLevel.{lookup, add, remove, put_back}
use bdbmsgstore.PidTracker.Record.{PidRecord, PidTracker, init, reset, enter_pid, add_pid}
use bdbmsgstore.PidTracker.Record.Prefix.{Follows, entered, enter_pid-Follows}
use bdbmsgstore.PidTracker.Record.Jump.{enter_pid-not_Follows}
use bdbmsgstore.PidTracker.Duplicates.{add_duplicate}
use bdbmsgstore.PidTracker.Smart.{will_enqueue, dequeue_check, enqueue_check}
use bdbmsgstore.PidTracker.Smart.Race.{will, enqueues, calls, first_check_decides}
use bdbmsgstore.PidTracker.Wait.{passed, wait_for_pid, stop}
use bdbmsgstore.PidTracker.Wait.Stall.{Since, restart, enter, wait_for_pid-ne_passed}
use bdbmsgstore.PidTracker.Wait.Result.{IsAnswer, wait_for_pid-IsAnswer}

-- A record that was reset to 5, and that 8 was entered in.
abbrev with_gap : PidRecord
with_gap = record { last_pid = 5; gap_pid_set = (8, tt) ∷ [] }

abbrev only_8 : ℕ → Bool
only_8 k = k == 8

with_gap-Follows : Follows 5 only_8 with_gap
unfolding find
with_gap-Follows = record {
  from_base = omega arith;
  whole = λ k b l. absurd (omega arith);
  beyond_last = λ k b. ground arith;
  apart = (omega arith, tt);
  window = (omega arith, tt);
  word = omega arith;
  words = (omega arith, tt);
}

enter_pid-Follows_example : Follows 5 (entered 6 only_8) (enter_pid 6 with_gap).1
enter_pid-Follows_example =
    enter_pid-Follows 5 6 only_8 with_gap with_gap-Follows (omega arith) (omega arith)

-- With 6 and then 7 the gap closes.
close_gap_run : (enter_pid 7 (enter_pid 6 with_gap).1).1 ≡ record { last_pid = 8; gap_pid_set = [] }
unfolding enter_pid
close_gap_run = refl

enter_pid-not_Follows_example :
    ¬ Follows 5 (entered (2 ^ 32) only_8) (enter_pid (2 ^ 32) with_gap).1
enter_pid-not_Follows_example =
    enter_pid-not_Follows 5 (2 ^ 32) only_8 with_gap with_gap-Follows (omega arith) (omega arith)
      (omega arith)

first_check_decides_example :
    let u = calls (will 4 1 ∷ []) (will_enqueue 3 1 init).1 in
    ((dequeue_check 3 1 u).0 ≡ false)
    × ((enqueue_check 3 1 (calls (enqueues 4 1 ∷ []) (dequeue_check 3 1 u).1)).0 ≡ false)
    × ((enqueue_check 3 1 u).0 ≡ true)
    × ((dequeue_check 3 1 (calls (enqueues 4 1 ∷ []) (enqueue_check 3 1 u).1)).0 ≡ true)
first_check_decides_example =
    first_check_decides 3 1 (will 4 1 ∷ []) (enqueues 4 1 ∷ []) init tt (refl, tt) (refl, tt)

-- A message that is registered as a duplicate, and is enqueued while the caller waits.
abbrev before_enqueue : PidTracker
before_enqueue = (add_duplicate 3 1 (reset 7 init)).1

wait_for_pid_run :
    wait_for_pid 3 1 before_enqueue ((add_pid 3 1 before_enqueue).1 ∷ []) before_enqueue []
    ≡ passed 1
unfolding add_duplicate reset add_pid wait_for_pid lookup find add insert remove put_back erase
wait_for_pid_run = refl

wait_for_pid-IsAnswer_example :
    IsAnswer 3 1 before_enqueue
      (stop before_enqueue ∷ [])
      before_enqueue
      []
      (wait_for_pid 3 1 before_enqueue (stop before_enqueue ∷ []) before_enqueue [])
wait_for_pid-IsAnswer_example =
    wait_for_pid-IsAnswer 3 1 before_enqueue (stop before_enqueue ∷ []) before_enqueue []

-- After a reset to 4 the ids 5 and 7 are entered, and 6 never is.
abbrev without_6 : PidTracker
without_6 = (add_pid 7 3 (add_pid 5 3 (reset 4 init)).1).1

without_6-Since : Since 4 6 without_6
unfolding add_pid reset
without_6-Since =
    enter 7 3 (enter 5 3 (restart init) (λ e. omega arith) (omega arith) (omega arith))
      (λ e. omega arith) (omega arith) (omega arith)

wait_for_pid-ne_passed_example : wait_for_pid 7 3 without_6 [] without_6 (without_6 ∷ []) ≢ passed 1
wait_for_pid-ne_passed_example =
    wait_for_pid-ne_passed 4 6 7 3 1 without_6 without_6 [] (without_6 ∷ []) (omega arith)
      (omega arith) (omega arith) without_6-Since (without_6-Since, tt)
