-- ===== src/PidTracker/Record.antt =====
-- The main record of lib/PidTracker.cpp, and the state of the tracker as a whole.
pub mod Closing
pub mod Prefix
pub mod Jump
use Prim.Native.Nat.{max}
use bdbmsgstore.Prelude.{ℕ, zero, suc, ◌+◌, Bool, true, false, List, [], ◌∷◌, ltb, if◌then◌else◌}
use bdbmsgstore.Prelude.Int.{ℤ, pos, ltb_ℤ}
use bdbmsgstore.Word.{sub_u64, to_int}
use bdbmsgstore.OrdMap.{OrdMap, IdSet, insert}
use bdbmsgstore.TwoLevel.{TwoLevel, remove, add}

pub record PidRecord : Type 0 where
  pub last_pid : ℕ
  pub gap_pid_set : IdSet

pub record PidTracker : Type 0 where
  pub dup_map : TwoLevel (Unit {0})
  pub pend_map : TwoLevel (Unit {0})
  pub main_record : PidRecord
  pub stopped : Bool

abbrev pub init : PidTracker
init = record {
  dup_map = [];
  pend_map = [];
  main_record = record { last_pid = 0; gap_pid_set = [] };
  stopped = false;
}

unfoldable pub reset : ℕ → PidTracker → PidTracker
reset pid t = record t { main_record = record { last_pid = pid; gap_pid_set = [] } }

-- static_cast<int>(pid - last) > 1
abbrev pub beyond : ℕ → ℕ → Bool
beyond pid last = ltb_ℤ (pos 1) (to_int (sub_u64 pid last))

-- The loop over the gap set: while (static_cast<int>(*pidIt - lastPid) <= 1 && pidIt != end()). At the
-- end of the set the first test reads past it, and whatever it says the second one ends the loop.
unfoldable pub close_gap : ℕ → IdSet → PidRecord
close_gap last [] = record { last_pid = last; gap_pid_set = [] }
close_gap last ((pid, u) ∷ gap) =
    let rest = close_gap (max pid last) gap in
    if beyond pid last then record { last_pid = last; gap_pid_set = (pid, u) ∷ gap } else rest

-- The branch of `addPid` for an id that is no duplicate: whether the record was updated, and the record.
unfoldable pub enter_pid : ℕ → PidRecord → Bool × PidRecord
unfolding close_gap
enter_pid pid r =
    if beyond pid r.last_pid
    then (
      false,
      (if ltb r.last_pid pid then record r { gap_pid_set = insert pid tt r.gap_pid_set } else r),
    )
    else (true, close_gap (max pid r.last_pid) r.gap_pid_set)

unfoldable pub add_pid : ℕ → ℕ → PidTracker → Bool × PidTracker
unfolding enter_pid
add_pid pid qid t =
    let (found, rest) = remove qid pid t.dup_map in
    let (updated, r) = enter_pid pid t.main_record in
    if found then (true, record t { dup_map = rest }) else (updated, record t { main_record = r })
