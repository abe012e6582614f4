-- ===== src/PidTracker/Record/Closing.antt =====
-- Closing the gap above the last id: the loop of `addPid` over the gap set.
use Prim.Native.Nat.{max}
use bdbmsgstore.Prelude.{
  ℕ, suc, ◌+◌, ◌^◌, ◌≤◌, ◌<◌, ◌≡◌, refl, inl, inr, true, [], ◌∷◌, arith, ltb, is_some, Bool-cases,
  lt→ltb,
}
use bdbmsgstore.Bytes.{u64_mod}
use bdbmsgstore.OrdMap.{IdSet, find, insert, Above}
use bdbmsgstore.PidTracker.Record.{PidRecord, beyond, close_gap}

-- Within 2 ^ 31 of the last id, the test on the `int` difference is the order of the ids.
pub beyond_near :
    (pid last : ℕ)
    → pid < u64_mod
    → last < u64_mod
    → pid < last + 2 ^ 31
    → last < pid
    → beyond pid last ≡ ltb (last + 1) pid
beyond_near pid last hp hl near above = ground arith

-- All ids of the set lie below the bound.
abbrev pub Under : ℕ → IdSet → Type 0
Under hi [] = Unit {0}
Under hi ((k, u) ∷ m) = (k < hi) × Under hi m

pub Under-le : (lo hi : ℕ) (m : IdSet) → lo ≤ hi → Under lo m → Under hi m
Under-le lo hi [] h u = tt
Under-le lo hi ((k, _) ∷ m) h u = (omega arith, Under-le lo hi m h u.1)

pub insert-Under : (hi k : ℕ) (m : IdSet) → k < hi → Under hi m → Under hi (insert k tt m)
unfolding insert
insert-Under hi k [] h u = (h, tt)
insert-Under hi k ((j, w) ∷ m) h u = ground (arith, insert-Under hi k m h u.1)

-- What closing the gap above `last` makes of a gap set: the ids that follow on are taken, and the
-- others stay.
pub record Closed (last : ℕ) (gap : IdSet) (r : PidRecord) : Type 0 where
  pub grows : last ≤ r.last_pid
  pub apart : Above (suc (suc r.last_pid)) r.gap_pid_set
  pub window : Under (r.last_pid + 2 ^ 31) r.gap_pid_set
  pub word : r.last_pid < u64_mod
  pub words : Under u64_mod r.gap_pid_set
  pub taken : (k : ℕ) → last < k → k ≤ r.last_pid → is_some (find k gap) ≡ true
  pub kept : (k : ℕ) → r.last_pid < k → find k r.gap_pid_set ≡ find k gap

pub close_gap-Closed :
    (last : ℕ) (gap : IdSet)
    → last < u64_mod
    → Above (suc last) gap
    → Under (last + 2 ^ 31) gap
    → Under u64_mod gap
    → Closed last gap (close_gap last gap)
unfolding close_gap find
close_gap-Closed last [] hl a u w = record {
  grows = omega arith;
  apart = tt;
  window = tt;
  word = hl;
  words = tt;
  taken = λ k h h'. absurd (omega arith);
  kept = λ k h. refl;
}
close_gap-Closed last ((pid, v) ∷ gap) hl a u w =
    rw (beyond_near pid last w.0 hl u.0 a.0) (elim (Bool-cases (ltb (last + 1) pid)) [
      | inl far ↦ rw far (record {
        grows = omega arith;
        apart = (ground arith, a.1);
        window = u;
        word = hl;
        words = w;
        taken = λ k h h'. absurd (omega arith);
        kept = λ k h. refl;
      })
      | inr near ↦
          let top : max pid last ≡ pid = omega arith in
          let ih =
            close_gap-Closed pid gap w.0 a.1
              (Under-le (last + 2 ^ 31) (pid + 2 ^ 31) gap (omega arith) u.1) w.1 in
          rw (near, top)
            (record {
              grows = omega (arith, ih.grows);
              apart = ih.apart;
              window = ih.window;
              word = ih.word;
              words = ih.words;
              taken = λ k h h'. ground (arith, near, ih.taken k);
              kept = λ k h. ground (arith, near, ih.kept k h, ih.grows);
            })
    ])

-- A gap set that starts beyond the next id stays.
pub close_gap_stays :
    (last : ℕ) (gap : IdSet)
    → last < u64_mod
    → Above (suc (suc last)) gap
    → Under (last + 2 ^ 31) gap
    → Under u64_mod gap
    → close_gap last gap ≡ record { last_pid = last; gap_pid_set = gap }
unfolding close_gap
close_gap_stays last [] hl a u w = refl
close_gap_stays last ((pid, v) ∷ gap) hl a u w =
    rw (beyond_near pid last w.0 hl u.0 (omega arith), lt→ltb (last + 1) pid (omega arith))
