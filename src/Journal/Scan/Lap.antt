-- ===== src/Journal/Scan/Lap.antt =====
-- One lap of the loop of `recoverMessages` (lib/JournalImpl.cpp) over all cursors.
use native.Mathlib.Nat.{mod-eq_of_lt, mod_self}
use bdbmsgstore.Prelude.{
  ℕ, suc, ◌+◌, ◌%◌, ◌≡◌, ◌≤◌, ◌<◌, refl, inl, inr, true, false, some, List, [], ◌∷◌, ◌++◌, arith,
  ltb, length, get_elem?, map, Bool-cases, ap, ap₂, sym, ◌∙◌, append-nil, append_assoc,
  length-append, ltb→le, le→ltb,
}
use bdbmsgstore.Journal.{set_elem}
use bdbmsgstore.Journal.Scan.{Row, Slot, Scan, visit, advance, scan_loop}

-- What a lap does to a cursor, and which messages it gives.
abbrev pub lap_slot : Slot → Slot
lap_slot (rows, true) = (rows, true)
lap_slot ([], false) = ([], true)
lap_slot (row ∷ rows, false) = (rows, false)

abbrev pub heads : List Slot → List Row
heads [] = []
heads ((rows, true) ∷ slots) = heads slots
heads (([], false) ∷ slots) = heads slots
heads ((row ∷ rows, false) ∷ slots) = row ∷ heads slots

abbrev pub ended : List Slot → ℕ
ended [] = 0
ended ((rows, true) ∷ slots) = suc (ended slots)
ended ((rows, false) ∷ slots) = ended slots

pub ended-le : (slots : List Slot) → ended slots ≤ length slots
ended-le [] = omega arith
ended-le ((rows, true) ∷ slots) = omega (arith, ended-le slots)
ended-le ((rows, false) ∷ slots) = omega (arith, ended-le slots)

ended-append : (xs ys : List Slot) → ended (xs ++ ys) ≡ ended xs + ended ys
ended-append [] ys = omega arith
ended-append ((rows, true) ∷ xs) ys = omega (arith, ended-append xs ys)
ended-append ((rows, false) ∷ xs) ys = omega (arith, ended-append xs ys)

-- Where all cursors are done a lap changes nothing.
pub all_ended :
    (slots : List Slot)
    → length slots ≤ ended slots
    → (map lap_slot slots ≡ slots) × (heads slots ≡ [])
all_ended [] h = (refl, refl)
all_ended ((rows, true) ∷ slots) h =
    let (p, q) = all_ended slots (omega arith) in (ap (◌∷◌ (rows, true)) p, q)
all_ended ((rows, false) ∷ slots) h = absurd (omega (arith, ended-le slots))

get_elem?-middle : (xs ys : List Slot) (x : Slot) → get_elem? (xs ++ (x ∷ ys)) (length xs) ≡ some x
get_elem?-middle [] ys x = refl
get_elem?-middle (y ∷ xs) ys x = get_elem?-middle xs ys x

set_elem-middle :
    (xs ys : List Slot) (x x' : Slot)
    → set_elem (length xs) x' (xs ++ (x ∷ ys)) ≡ (xs ++ (x' ∷ [])) ++ ys
set_elem-middle [] ys x x' = refl
set_elem-middle (y ∷ xs) ys x x' = ap (◌∷◌ y) (set_elem-middle xs ys x x')

abbrev pub at : List Slot → ℕ → ℕ → List Row → Scan
at slots sindex done_cnt recovered = record {
  slots = slots;
  sindex = sindex;
  done_cnt = done_cnt;
  recovered = recovered;
}

-- The turn of one cursor.
turn :
    (before after : List Slot) (x : Slot) (recovered : List Row)
    → let s =
        at (before ++ (x ∷ after)) (length before) (ended before + ended (x ∷ after)) recovered in
      visit (get_elem? s.slots s.sindex) s
      ≡ at
          ((before ++ (lap_slot x ∷ [])) ++ after)
          (length before)
          (ended before + ended (lap_slot x ∷ after))
          (recovered ++ heads (x ∷ []))
turn before after (rows, true) recovered =
    rw (get_elem?-middle before after (rows, true), append-nil, append_assoc) refl
turn before after ([], false) recovered =
    rw (get_elem?-middle before after ([], false), append-nil, set_elem-middle) (ground arith)
turn before after (row ∷ rows, false) recovered =
    rw (get_elem?-middle before after (row ∷ rows, false), set_elem-middle) refl

count-shift :
    (before after : List Slot) (x : Slot)
    → ended before + ended (x ∷ after) ≡ ended (before ++ (x ∷ [])) + ended after
count-shift before after (rows, true) = omega (arith, ended-append before ((rows, true) ∷ []))
count-shift before after (rows, false) = omega (arith, ended-append before ((rows, false) ∷ []))

-- The loop stops where all cursors are done.
pub scan_loop-stop :
    (n fuel i cnt : ℕ) (slots : List Slot) (recovered : List Row)
    → n ≤ cnt
    → scan_loop n (suc fuel) (at slots i cnt recovered) ≡ some recovered
unfolding scan_loop
scan_loop-stop n fuel i cnt slots recovered h = rw (le→ltb cnt n h) refl

scan_loop-step :
    (n fuel i cnt : ℕ) (slots : List Slot) (recovered : List Row)
    → ltb cnt n ≡ true
    → scan_loop n (suc fuel) (at slots i cnt recovered)
      ≡ scan_loop n fuel (advance n (visit (get_elem? slots i) (at slots i cnt recovered)))
unfolding scan_loop
scan_loop-step n fuel i cnt slots recovered h = rw h refl

heads-cons : (x : Slot) (slots : List Slot) → heads (x ∷ []) ++ heads slots ≡ heads (x ∷ slots)
heads-cons (rows, true) slots = refl
heads-cons ([], false) slots = refl
heads-cons (row ∷ rows, false) slots = refl

at_eq :
    {xs ys : List Slot} {c d : ℕ} {r q : List Row} (i : ℕ)
    → xs ≡ ys
    → c ≡ d
    → r ≡ q
    → at xs i c r ≡ at ys i d q
at_eq i p q r = λ k. at (p k) i (q k) (r k)

scan_loop-ended :
    (n fuel i : ℕ) (before after : List Slot) (recovered : List Row)
    → length before + length after ≡ n
    → ltb (ended before + ended after) n ≡ false
    → scan_loop n
        (length after + suc fuel)
        (at (before ++ after) i (ended before + ended after) recovered)
      ≡ scan_loop n (suc fuel) (
          at
            (before ++ map lap_slot after)
            0
            (ended before + ended (map lap_slot after))
            (recovered ++ heads after))
scan_loop-ended n fuel i before after recovered e stop =
    let full : n ≤ ended before + ended after = ltb→le _ _ stop in
    let (same, none_left) = all_ended after (omega (arith, ended-le before)) in
    ap (λ f. scan_loop n f (at (before ++ after) i (ended before + ended after) recovered))
      (let p : length after + suc fuel ≡ suc (length after + fuel) = omega arith in p)
    ∙ scan_loop-stop n (length after + fuel) i _ (before ++ after) recovered full
    ∙ rw (same, none_left, append-nil)
        (sym (scan_loop-stop n fuel 0 _ (before ++ after) recovered full))

-- The cursors from one index on have their turns, and the next one is that of the first cursor again.
pub scan_loop-lap :
    (n fuel : ℕ) (before after : List Slot) (recovered : List Row)
    → 0 < n
    → length before + length after ≡ n
    → scan_loop n
        (length after + suc fuel)
        (at (before ++ after) (length before % n) (ended before + ended after) recovered)
      ≡ scan_loop n (suc fuel) (
          at
            (before ++ map lap_slot after)
            0
            (ended before + ended (map lap_slot after))
            (recovered ++ heads after))
scan_loop-lap n fuel before [] recovered h e =
    ap₂ (λ f i. scan_loop n f (at (before ++ []) i (ended before + 0) recovered))
      (let p : 0 + suc fuel ≡ suc fuel = omega arith in p)
      (let q : length before ≡ n = omega arith in rw q (mod_self n))
    ∙ ap (λ r. scan_loop n (suc fuel) (at (before ++ []) 0 (ended before + 0) r))
        (sym (append-nil recovered))
scan_loop-lap n fuel before (x ∷ after) recovered h e =
    let whole = before ++ (x ∷ after) in
    let next = before ++ (lap_slot x ∷ []) in
    let fuel' = length after + suc fuel in
    elim (Bool-cases (ltb (ended before + ended (x ∷ after)) n)) [
      | inl more ↦
          ap
            (λ f.
              scan_loop n f
                (at whole (length before % n) (ended before + ended (x ∷ after)) recovered))
            (let p : length (x ∷ after) + suc fuel ≡ suc fuel' = omega arith in p)
          ∙ scan_loop-step n fuel' (length before % n) _ whole recovered more
          ∙ ap
              (λ i. scan_loop n fuel' (
                advance n (
                  visit (get_elem? whole i)
                    (at whole i (ended before + ended (x ∷ after)) recovered))))
              (mod-eq_of_lt (omega arith))
          ∙ ap (λ s. scan_loop n fuel' (advance n s)) (turn before after x recovered)
          ∙ ap₂ (λ i c. scan_loop n fuel' (at (next ++ after) i c (recovered ++ heads (x ∷ []))))
              (ap (λ i. i % n)
                (let p : length before + 1 ≡ length next =
                    omega (arith, length-append before (lap_slot x ∷ [])) in
                  p))
              (count-shift before after (lap_slot x))
          ∙ scan_loop-lap n fuel next after (recovered ++ heads (x ∷ [])) h
              (omega (arith, length-append before (lap_slot x ∷ [])))
          ∙ ap (scan_loop n (suc fuel)) (
              at_eq 0 (append_assoc before (lap_slot x ∷ []) (map lap_slot after))
                (sym (count-shift before (map lap_slot after) (lap_slot x)))
                (append_assoc recovered (heads (x ∷ [])) (heads after)
                  ∙ ap (◌++◌ recovered) (heads-cons x after)))
      | inr stop ↦ scan_loop-ended n fuel (length before % n) before (x ∷ after) recovered e stop
    ]
