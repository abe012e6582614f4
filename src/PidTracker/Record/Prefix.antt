-- ===== src/PidTracker/Record/Prefix.antt =====
-- The main record of lib/PidTracker.cpp and the set of ids that were entered.
use Prim.Native.Nat.{max}
use bdbmsgstore.Prelude.{
  ℕ, suc, ◌+◌, ◌^◌, ◌≤◌, ◌<◌, ◌≡◌, inl, inr, Bool, true, ◌||◌, arith, ltb, ◌==◌, is_some,
  Bool-cases, lt→ltb, le→ltb, ltb→lt, ltb→le,
}
use bdbmsgstore.Bytes.{u64_mod}
use bdbmsgstore.OrdMap.{find, Above}
use bdbmsgstore.OrdMap.Laws.{find-insert, insert-Above, Above-le}
use bdbmsgstore.PidTracker.Record.{PidRecord, beyond, enter_pid}
use bdbmsgstore.PidTracker.Record.Closing.{
  beyond_near, Under, Under-le, insert-Under, close_gap-Closed, close_gap_stays,
}

-- The record and the ids that were entered since a reset to `base`: everything above `base` up to
-- `last_pid` was entered, the id after it was not, and the gap set holds what was entered beyond.
pub record Follows (base : ℕ) (seen : ℕ → Bool) (r : PidRecord) : Type 0 where
  pub from_base : base ≤ r.last_pid
  pub whole : (k : ℕ) → base < k → k ≤ r.last_pid → seen k ≡ true
  pub beyond_last : (k : ℕ) → r.last_pid < k → is_some (find k r.gap_pid_set) ≡ seen k
  pub apart : Above (suc (suc r.last_pid)) r.gap_pid_set
  pub window : Under (r.last_pid + 2 ^ 31) r.gap_pid_set
  pub word : r.last_pid < u64_mod
  pub words : Under u64_mod r.gap_pid_set

abbrev pub entered : ℕ → (ℕ → Bool) → ℕ → Bool
entered pid seen k = seen k || k == pid

module _ (base pid : ℕ) (seen : ℕ → Bool) (r : PidRecord) (h : Follows base seen r) where
  -- An id that is not above the last one changes nothing.
  enter_old : pid ≤ r.last_pid → (enter_pid pid r).1 ≡ r
  unfolding enter_pid
  enter_old le = elim (Bool-cases (beyond pid r.last_pid)) [
    | inl far ↦ rw (far, le→ltb r.last_pid pid le)
    | inr near ↦
        rw (near, top) (close_gap_stays r.last_pid r.gap_pid_set h.word h.apart h.window h.words)
  ]
    where
      top : max pid r.last_pid ≡ r.last_pid
      top = omega arith

  enter_far :
      pid < r.last_pid + 2 ^ 31
      → pid < u64_mod
      → r.last_pid + 1 < pid
      → Follows base (entered pid seen) (enter_pid pid r).1
  unfolding enter_pid
  enter_far near w far =
      rw
        (
          beyond_near pid r.last_pid w h.word near (omega arith),
          lt→ltb (r.last_pid + 1) pid far,
          lt→ltb r.last_pid pid (omega arith),
        )
        (record {
          from_base = h.from_base;
          whole = λ k b l. ground (arith, h.whole k b l);
          beyond_last =
              λ k b. rw (find-insert k pid tt r.gap_pid_set) (ground (arith, h.beyond_last k b));
          apart = insert-Above (suc (suc r.last_pid)) pid tt r.gap_pid_set (omega arith) h.apart;
          window = insert-Under (r.last_pid + 2 ^ 31) pid r.gap_pid_set near h.window;
          word = h.word;
          words = insert-Under u64_mod pid r.gap_pid_set w h.words;
        })

  enter_next :
      pid < u64_mod → pid ≡ r.last_pid + 1 → Follows base (entered pid seen) (enter_pid pid r).1
  unfolding enter_pid
  enter_next w e =
      let top : max pid r.last_pid ≡ pid = omega arith in
      let c =
        close_gap-Closed pid r.gap_pid_set w
          (Above-le (suc pid) (suc (suc r.last_pid)) r.gap_pid_set (omega arith) h.apart)
          (Under-le (r.last_pid + 2 ^ 31) (pid + 2 ^ 31) r.gap_pid_set (omega arith) h.window)
          h.words in
      rw
        (
          beyond_near pid r.last_pid w h.word (omega arith) (omega arith),
          le→ltb (r.last_pid + 1) pid (omega arith),
          top,
        )
        (record {
          from_base = omega (arith, h.from_base, c.grows);
          whole = λ k b l. ground (arith, e, h.whole k b, c.taken k, h.beyond_last k);
          beyond_last = λ k b. rw (c.kept k b) (ground (arith, e, c.grows, h.beyond_last k));
          apart = c.apart;
          window = c.window;
          word = c.word;
          words = c.words;
        })

-- Let the record follow the ids that were entered since a reset, and let a further 64-bit id be less
-- than 2 ^ 31 above the last one. After `addPid` the record follows the ids with this one: `last_pid`
-- is the largest id up to which all were entered, in whatever order, and the gap set holds the rest.
pub enter_pid-Follows :
    (base pid : ℕ) (seen : ℕ → Bool) (r : PidRecord)
    → Follows base seen r
    → pid < u64_mod
    → pid < r.last_pid + 2 ^ 31
    → Follows base (entered pid seen) (enter_pid pid r).1
enter_pid-Follows base pid seen r h w near = elim (Bool-cases (ltb r.last_pid pid)) [
  | inr old ↦
      let le = ltb→le r.last_pid pid old in
      rw (enter_old base pid seen r h le) (record {
        from_base = h.from_base;
        whole = λ k b l. ground (arith, h.whole k b l);
        beyond_last = λ k b. ground (arith, le, h.beyond_last k b);
        apart = h.apart;
        window = h.window;
        word = h.word;
        words = h.words;
      })
  | inl new ↦ elim (Bool-cases (ltb (r.last_pid + 1) pid)) [
    | inl far ↦ enter_far base pid seen r h near w (ltb→lt (r.last_pid + 1) pid far)
    | inr next ↦
        enter_next base pid seen r h w
          (omega (arith, ltb→lt r.last_pid pid new, ltb→le (r.last_pid + 1) pid next))
  ]
]
