-- ===== src/PidTracker/Record/Jump.antt =====
-- Where the `int` difference of two ids is not their order.
use Prim.Native.Nat.{max}
use bdbmsgstore.Prelude.{
  ℕ, suc, ◌+◌, ◌^◌, ◌≤◌, ◌<◌, ◌≡◌, refl, Bool, true, false, [], ◌∷◌, arith, Bool-cases, inl, inr,
}
use bdbmsgstore.Bytes.{u64_mod}
use bdbmsgstore.OrdMap.{IdSet}
use bdbmsgstore.OrdMap.Laws.{find_below}
use bdbmsgstore.PidTracker.Record.{PidRecord, beyond, close_gap, enter_pid}
use bdbmsgstore.PidTracker.Record.Prefix.{Follows, entered}

close_gap-le : (last : ℕ) (gap : IdSet) → last ≤ (close_gap last gap).last_pid
unfolding close_gap
close_gap-le last [] = omega arith
close_gap-le last ((pid, u) ∷ gap) = elim (Bool-cases (beyond pid last)) [
  | inl far ↦ rw far (omega arith)
  | inr near ↦ rw near (omega (arith, close_gap-le (max pid last) gap))
]

beyond_far :
    (pid last : ℕ)
    → pid < u64_mod
    → last + 2 ^ 31 ≤ pid
    → pid ≤ last + 2 ^ 32
    → beyond pid last ≡ false
beyond_far pid last hp far near = ground arith

-- An id from 2 ^ 31 to 2 ^ 32 above the last one is taken for its successor: `addPid` reports an
-- update and moves `last_pid` to it or beyond, over the ids in between.
pub enter_pid_jumps :
    (pid : ℕ) (r : PidRecord)
    → pid < u64_mod
    → r.last_pid + 2 ^ 31 ≤ pid
    → pid ≤ r.last_pid + 2 ^ 32
    → ((enter_pid pid r).0 ≡ true) × (pid ≤ (enter_pid pid r).1.last_pid)
unfolding enter_pid
enter_pid_jumps pid r hp far near =
    rw (beyond_far pid r.last_pid hp far near)
      (refl, omega (arith, close_gap-le (max pid r.last_pid) r.gap_pid_set))

-- From a record that follows the ids entered so far, a 64-bit id from 2 ^ 31 to 2 ^ 32 above the last
-- one leads to a record that does not follow them.
pub enter_pid-not_Follows :
    (base pid : ℕ) (seen : ℕ → Bool) (r : PidRecord)
    → Follows base seen r
    → pid < u64_mod
    → r.last_pid + 2 ^ 31 ≤ pid
    → pid ≤ r.last_pid + 2 ^ 32
    → ¬ Follows base (entered pid seen) (enter_pid pid r).1
enter_pid-not_Follows base pid seen r h hp far near h' =
    let moved = (enter_pid_jumps pid r hp far near).1 in
    let gap =
      find_below (suc (suc r.last_pid)) (suc r.last_pid) r.gap_pid_set h.apart (omega arith) in
    let not_seen = h.beyond_last (suc r.last_pid) (omega arith) in
    let claimed = h'.whole (suc r.last_pid) (omega (arith, h.from_base)) (omega (arith, moved)) in
    ground (arith, gap, not_seen, claimed)
