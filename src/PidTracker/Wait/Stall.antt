-- ===== src/PidTracker/Wait/Stall.antt =====
-- Waiting above an id that is never entered (lib/PidTracker.cpp).
use bdbmsgstore.Prelude.{
  ℕ, ◌+◌, ◌^◌, ◌≤◌, ◌<◌, ◌≡◌, ◌≢◌, refl, inl, inr, Bool, true, false, List, [], ◌∷◌, arith, ltb,
  if◌then◌else◌, Bool-cases, ltb→le, ltb→lt, ◌∙◌, ne→==, subst, sym,
}
use bdbmsgstore.Bytes.{u64_mod}
use bdbmsgstore.OrdMap.{find}
use bdbmsgstore.TwoLevel.{remove}
use bdbmsgstore.PidTracker.Record.{PidTracker, reset, enter_pid, add_pid}
use bdbmsgstore.PidTracker.Record.Prefix.{Follows, entered, enter_pid-Follows}
use bdbmsgstore.PidTracker.Wait.{passed, wait_for_pid}
use bdbmsgstore.PidTracker.Wait.Result.{Seen, IsAnswer, wait_for_pid-IsAnswer}

-- The tracker after a reset to `base`, with calls of `addPid` for other ids than `gap`, each less than
-- 2 ^ 31 above the last one, and with calls that leave the main record alone.
pub data Since (base gap : ℕ) : PidTracker → Type 0 where
  restart : (t : PidTracker) → Since base gap (reset base t)
  enter :
      {t : PidTracker} (pid qid : ℕ)
      → Since base gap t
      → pid ≢ gap
      → pid < u64_mod
      → pid < t.main_record.last_pid + 2 ^ 31
      → Since base gap (add_pid pid qid t).1
  other :
      {t t' : PidTracker} → Since base gap t → t'.main_record ≡ t.main_record → Since base gap t'

reset-Follows :
    (base : ℕ) (t : PidTracker)
    → base < u64_mod
    → Follows base (λ k. false) (reset base t).main_record
unfolding reset find
reset-Follows base t w = record {
  from_base = omega arith;
  whole = λ k b l. absurd (omega arith);
  beyond_last = λ k b. refl;
  apart = tt;
  window = tt;
  word = w;
  words = tt;
}

add_pid-main_record :
    (pid qid : ℕ) (t : PidTracker)
    → (add_pid pid qid t).1.main_record
      ≡ (if (remove qid pid t.dup_map).0 then t.main_record else (enter_pid pid t.main_record).1)
unfolding add_pid
add_pid-main_record pid qid t = ground arith

Since-Follows :
    (base gap : ℕ) {t : PidTracker}
    → base < u64_mod
    → Since base gap t
    → (seen : ℕ → Bool) × Follows base seen t.main_record × (seen gap ≡ false)
Since-Follows base gap w (restart t) = ((λ k. false), reset-Follows base t w, refl)
Since-Follows base gap w (enter {t} pid qid s ne word near) =
    let (seen, follows, unseen) = Since-Follows base gap w s in
    elim (Bool-cases (remove qid pid t.dup_map).0) [
      | inl dup ↦ (seen, rw (add_pid-main_record pid qid t, dup) follows, unseen)
      | inr new ↦ (
        entered pid seen,
        rw (add_pid-main_record pid qid t, new)
            (enter_pid-Follows base pid seen t.main_record follows word near),
        rw (unseen, ne→== gap pid (λ e. ne (sym e))) refl,
      )
    ]
Since-Follows base gap w (other {t} {t'} s e) =
    let (seen, follows, unseen) = Since-Follows base gap w s in
    (seen, subst (Follows base seen) (sym e) follows, unseen)

clash : true ≡ false → ⊥
clash e = cc

-- The last id stays below the one that is left out.
last_pid-lt :
    (base gap : ℕ) {t : PidTracker}
    → base < gap
    → base < u64_mod
    → Since base gap t
    → t.main_record.last_pid < gap
last_pid-lt base gap {t} b w s =
    let (seen, follows, unseen) = Since-Follows base gap w s in
    elim (Bool-cases (ltb t.main_record.last_pid gap)) [
      | inl below ↦ ltb→lt _ _ below
      | inr above ↦ absurd (clash (sym (follows.whole gap b (ltb→le _ _ above)) ∙ unseen))
    ]

abbrev pub AllSince : ℕ → ℕ → List PidTracker → Type 0
AllSince base gap [] = Unit {0}
AllSince base gap (t ∷ ts) = Since base gap t × AllSince base gap ts

not_Seen :
    (base gap pid : ℕ) (u : PidTracker) (wakes : List PidTracker)
    → base < gap
    → base < u64_mod
    → gap ≤ pid
    → Since base gap u
    → AllSince base gap wakes
    → Seen (λ v. pid ≤ v.main_record.last_pid) u wakes
    → ⊥
not_Seen base gap pid u [] b w g s a h = absurd (omega (arith, last_pid-lt base gap b w s))
not_Seen base gap pid u (t ∷ wakes) b w g s a (inl h) =
    absurd (omega (arith, last_pid-lt base gap b w s))
not_Seen base gap pid u (t ∷ wakes) b w g s a (inr h) =
    not_Seen base gap pid t wakes b w g a.0 a.1 h

-- Let the tracker be reset to a 64-bit `base`, and `gap` be an id above it. After the reset let only ids
-- be entered that differ from `gap`, are 64-bit words, and are less than 2 ^ 31 above the last id of
-- the main record at the time; the other calls leave the main record alone. Then `waitForPid` on `gap`,
-- or on any later id, does not pass, whichever such states the main loop finds on entering it and on
-- its wake-ups.
pub wait_for_pid-ne_passed :
    (base gap pid qid n : ℕ) (t u : PidTracker) (dup_wakes main_wakes : List PidTracker)
    → base < gap
    → base < u64_mod
    → gap ≤ pid
    → Since base gap u
    → AllSince base gap main_wakes
    → wait_for_pid pid qid t dup_wakes u main_wakes ≢ passed n
wait_for_pid-ne_passed base gap pid qid n t u dup_wakes main_wakes b w g s a e =
    let answer : IsAnswer pid qid t dup_wakes u main_wakes (passed n) =
      subst (IsAnswer pid qid t dup_wakes u main_wakes) e
        (wait_for_pid-IsAnswer pid qid t dup_wakes u main_wakes) in
    not_Seen base gap pid u main_wakes b w g s a answer.2
