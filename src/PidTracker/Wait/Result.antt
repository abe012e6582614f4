-- ===== src/PidTracker/Wait/Result.antt =====
-- What `waitForPid` can return, and that it returns.
use bdbmsgstore.Prelude.{
  ℕ, zero, suc, ◌+◌, ◌≤◌, ◌<◌, ◌≡◌, refl, ◌⊎◌, inl, inr, Bool, true, false, List, [], ◌∷◌, arith,
  ltb, if◌then◌else◌, Bool-cases, length, le→ltb, ltb→le, ltb→lt,
}
use bdbmsgstore.Prelude.Int.{pos, negsuc}
use bdbmsgstore.PidTracker.Record.{PidTracker}
use bdbmsgstore.PidTracker.Wait.{
  Wait, passed, returned, blocked, is_duplicate, wait_duplicate, wait_enqueued, then_wait,
  wait_for_pid,
}

-- One of the states that were seen has the property.
abbrev pub Seen : (PidTracker → Type 0) → PidTracker → List PidTracker → Type 0
Seen P t [] = P t
Seen P t (t' ∷ ts) = P t ⊎ Seen P t' ts

-- The outcome of a loop that was entered with count `n`: it passes in a state with the property, with
-- a count up to 100 that has grown by at most one for each wake-up; it gives up with -1, after more
-- than 100; it stops with -2, having seen the stop; or it is blocked, with wake-ups left to count.
abbrev pub Ends : (PidTracker → Type 0) → ℕ → PidTracker → List PidTracker → Wait ℕ → Type 0
Ends P n t wakes (passed m) = (m ≤ n + length wakes) × (m ≤ 100) × Seen P t wakes
Ends P n t wakes (returned (pos m)) = ⊥
Ends P n t wakes (returned (negsuc zero)) = 100 < n + length wakes
Ends P n t wakes (returned (negsuc (suc zero))) = Seen (λ u. u.stopped ≡ true) t wakes
Ends P n t wakes (returned (negsuc (suc (suc m)))) = ⊥
Ends P n t wakes blocked = n + length wakes ≤ 100

Ends-later :
    (P : PidTracker → Type 0) (n : ℕ) (t t' : PidTracker) (wakes : List PidTracker) (w : Wait ℕ)
    → Ends P (n + 1) t' wakes w
    → Ends P n t (t' ∷ wakes) w
Ends-later P n t t' wakes (passed m) h = (omega arith, h.1, inr h.2)
Ends-later P n t t' wakes (returned (pos m)) h = h
Ends-later P n t t' wakes (returned (negsuc zero)) h = omega arith
Ends-later P n t t' wakes (returned (negsuc (suc zero))) h = inr h
Ends-later P n t t' wakes (returned (negsuc (suc (suc m)))) h = h
Ends-later P n t t' wakes blocked h = omega arith

Seen-first :
    (P : PidTracker → Type 0) (t : PidTracker) (wakes : List PidTracker) → P t → Seen P t wakes
Seen-first P t [] h = h
Seen-first P t (t' ∷ wakes) h = inl h

stop_or :
    (P : PidTracker → Type 0) (n : ℕ) (t : PidTracker) (wakes : List PidTracker) (b : Bool)
    (w : Wait ℕ)
    → (b ≡ true → Seen (λ u. u.stopped ≡ true) t wakes)
    → Ends P n t wakes w
    → Ends P n t wakes (if b then returned (negsuc 1) else w)
stop_or P n t wakes true w seen ends = seen refl
stop_or P n t wakes false w seen ends = ends

-- One turn of either loop, for the three tests it makes.
turn :
    (P : PidTracker → Type 0) (n : ℕ) (t t' : PidTracker) (wakes : List PidTracker) (w : Wait ℕ)
    → n ≤ 100
    → (n + 1 ≤ 100 → Ends P (n + 1) t' wakes w)
    → Ends P n t (t' ∷ wakes) (
        if t'.stopped
        then returned (negsuc 1)
        else if ltb 100 (n + 1)
        then returned (negsuc 0)
        else w)
turn P n t t' wakes w h ends =
    stop_or P n t (t' ∷ wakes) t'.stopped (if ltb 100 (n + 1) then returned (negsuc 0) else w)
      (λ e. inr (Seen-first (λ u. u.stopped ≡ true) t' wakes e))
      (elim (Bool-cases (ltb 100 (n + 1))) [
        | inl l ↦ rw (l) (ground (arith, ltb→lt 100 (n + 1) l))
        | inr l ↦ rw (l) (Ends-later P n t t' wakes w (ends (ltb→le 100 (n + 1) l)))
      ])

-- Leaving either loop by its condition.
leave :
    (P : PidTracker → Type 0) (n : ℕ) (t : PidTracker) (wakes : List PidTracker)
    → n ≤ 100
    → P t
    → Ends P n t wakes (passed n)
leave P n t wakes h p = (omega arith, h, Seen-first P t wakes p)

wait_duplicate-Ends :
    (pid qid n : ℕ) (t : PidTracker) (wakes : List PidTracker)
    → n ≤ 100
    → Ends (λ u. is_duplicate pid qid u ≡ false) n t wakes (wait_duplicate pid qid n t wakes)
unfolding wait_duplicate
wait_duplicate-Ends pid qid n t [] h = elim (Bool-cases (is_duplicate pid qid t)) [
  | inl e ↦ rw (e) (omega arith)
  | inr e ↦ rw (e, le→ltb 100 n h) (leave (λ u. is_duplicate pid qid u ≡ false) n t [] h e)
]
wait_duplicate-Ends pid qid n t (t' ∷ wakes) h = elim (Bool-cases (is_duplicate pid qid t)) [
  | inl e ↦ rw (e) (
      turn (λ u. is_duplicate pid qid u ≡ false) n t t' wakes
        (wait_duplicate pid qid (n + 1) t' wakes) h
        (λ l. wait_duplicate-Ends pid qid (n + 1) t' wakes l))
  | inr e ↦
      rw (e, le→ltb 100 n h) (leave (λ u. is_duplicate pid qid u ≡ false) n t (t' ∷ wakes) h e)
]

wait_enqueued-Ends :
    (pid n : ℕ) (u : PidTracker) (wakes : List PidTracker)
    → n ≤ 100
    → Ends (λ v. pid ≤ v.main_record.last_pid) n u wakes (wait_enqueued pid n u wakes)
unfolding wait_enqueued
wait_enqueued-Ends pid n u [] h = elim (Bool-cases (ltb u.main_record.last_pid pid)) [
  | inl e ↦ rw (e) (omega arith)
  | inr e ↦
      rw (e)
        (leave (λ v. pid ≤ v.main_record.last_pid) n u [] h (ltb→le u.main_record.last_pid pid e))
]
wait_enqueued-Ends pid n u (u' ∷ wakes) h = elim (Bool-cases (ltb u.main_record.last_pid pid)) [
  | inl e ↦ rw (e) (
      turn (λ v. pid ≤ v.main_record.last_pid) n u u' wakes (wait_enqueued pid (n + 1) u' wakes) h
        (λ l. wait_enqueued-Ends pid (n + 1) u' wakes l))
  | inr e ↦ rw (e) (
      leave (λ v. pid ≤ v.main_record.last_pid) n u (u' ∷ wakes) h
        (ltb→le u.main_record.last_pid pid e))
]

-- What `waitForPid` promises its caller.
abbrev pub IsAnswer :
    ℕ → ℕ → PidTracker → List PidTracker → PidTracker → List PidTracker → Wait ℕ → Type 0
IsAnswer pid qid t dup_wakes u main_wakes (passed m) =
    (m ≤ 100)
    × Seen (λ v. is_duplicate pid qid v ≡ false) t dup_wakes
    × Seen (λ v. pid ≤ v.main_record.last_pid) u main_wakes
IsAnswer pid qid t dup_wakes u main_wakes (returned (pos m)) = ⊥
IsAnswer pid qid t dup_wakes u main_wakes (returned (negsuc zero)) =
    100 < length dup_wakes + length main_wakes
IsAnswer pid qid t dup_wakes u main_wakes (returned (negsuc (suc zero))) =
    Seen (λ v. v.stopped ≡ true) t dup_wakes ⊎ Seen (λ v. v.stopped ≡ true) u main_wakes
IsAnswer pid qid t dup_wakes u main_wakes (returned (negsuc (suc (suc m)))) = ⊥
IsAnswer pid qid t dup_wakes u main_wakes blocked =
    (length dup_wakes ≤ 100) ⊎ (length main_wakes ≤ 100)

second_loop :
    (pid qid : ℕ) (t : PidTracker) (dup_wakes : List PidTracker) (u : PidTracker)
    (main_wakes : List PidTracker) (m : ℕ) (w : Wait ℕ)
    → Ends (λ v. is_duplicate pid qid v ≡ false) 0 t dup_wakes (passed m)
    → Ends (λ v. pid ≤ v.main_record.last_pid) m u main_wakes w
    → IsAnswer pid qid t dup_wakes u main_wakes w
second_loop pid qid t dup_wakes u main_wakes m (passed k) d e = (e.1, d.2, e.2)
second_loop pid qid t dup_wakes u main_wakes m (returned (pos k)) d e = e
second_loop pid qid t dup_wakes u main_wakes m (returned (negsuc zero)) d e = omega arith
second_loop pid qid t dup_wakes u main_wakes m (returned (negsuc (suc zero))) d e = inr e
second_loop pid qid t dup_wakes u main_wakes m (returned (negsuc (suc (suc k)))) d e = e
second_loop pid qid t dup_wakes u main_wakes m blocked d e = inr (omega arith)

both_loops :
    (pid qid : ℕ) (t : PidTracker) (dup_wakes : List PidTracker) (u : PidTracker)
    (main_wakes : List PidTracker) (w : Wait ℕ)
    → Ends (λ v. is_duplicate pid qid v ≡ false) 0 t dup_wakes w
    → IsAnswer pid qid t dup_wakes u main_wakes
        (then_wait (λ n. wait_enqueued pid n u main_wakes) w)
both_loops pid qid t dup_wakes u main_wakes (passed m) d =
    second_loop pid qid t dup_wakes u main_wakes m (wait_enqueued pid m u main_wakes) d
      (wait_enqueued-Ends pid m u main_wakes d.1)
both_loops pid qid t dup_wakes u main_wakes (returned (pos k)) d = elim d [ ]
both_loops pid qid t dup_wakes u main_wakes (returned (negsuc zero)) d = omega arith
both_loops pid qid t dup_wakes u main_wakes (returned (negsuc (suc zero))) d = inl d
both_loops pid qid t dup_wakes u main_wakes (returned (negsuc (suc (suc k)))) d = elim d [ ]
both_loops pid qid t dup_wakes u main_wakes blocked d = inl (omega arith)

-- For any states of the tracker that `waitForPid` finds on entering its two loops and on its wake-ups:
-- it returns a count of at most 100 only after a state where the message is no duplicate that waits
-- on the queue, and a state whose last id has reached the message's; it returns -1 only after more
-- than 100 wake-ups, -2 only after a state that is stopped, and nothing else; and it is blocked only
-- in a loop that has been given at most 100 wake-ups.
pub wait_for_pid-IsAnswer :
    (pid qid : ℕ) (t : PidTracker) (dup_wakes : List PidTracker) (u : PidTracker)
    (main_wakes : List PidTracker)
    → IsAnswer pid qid t dup_wakes u main_wakes (wait_for_pid pid qid t dup_wakes u main_wakes)
unfolding wait_for_pid
wait_for_pid-IsAnswer pid qid t dup_wakes u main_wakes =
    both_loops pid qid t dup_wakes u main_wakes (wait_duplicate pid qid 0 t dup_wakes)
      (wait_duplicate-Ends pid qid 0 t dup_wakes (omega arith))
