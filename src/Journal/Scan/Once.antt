-- ===== src/Journal/Scan/Once.antt =====
-- The loop of `recoverMessages` (lib/JournalImpl.cpp) ends, and gives each message once.
use mathlib.Core.List.Perm
use mathlib.Core.List.{Perm, perm_append_comm}
use native.Mathlib.Nat.{zero-mod}
use bdbmsgstore.Prelude.{
  ℕ, zero, suc, ◌+◌, ◌*◌, ◌%◌, ◌≡◌, ◌≤◌, ◌<◌, refl, inl, inr, true, false, some, List, [], ◌∷◌,
  ◌++◌, arith, ltb, length, map, Bool-cases, ap, sym, ◌∙◌, append-nil, append_assoc, ltb→lt, ltb→le,
}
use bdbmsgstore.Journal.Scan.{Row, Slot, scan_loop, work}
use bdbmsgstore.Journal.Scan.Lap.{
  lap_slot, heads, ended, ended-le, at, scan_loop-stop, scan_loop-lap,
}

-- What the unfinished cursors have left.
abbrev pub left : List Slot → List Row
left [] = []
left ((rows, true) ∷ slots) = left slots
left ((rows, false) ∷ slots) = rows ++ left slots

work-lap : (slots : List Slot) → work (map lap_slot slots) + length slots ≡ work slots + ended slots
work-lap [] = omega arith
work-lap ((rows, true) ∷ slots) = omega (arith, work-lap slots)
work-lap (([], false) ∷ slots) = omega (arith, work-lap slots)
work-lap ((row ∷ rows, false) ∷ slots) = omega (arith, work-lap slots)

perm_shift : (xs ys zs : List Row) → Perm (xs ++ (ys ++ zs)) (ys ++ (xs ++ zs))
perm_shift xs ys zs =
    rw (← append_assoc xs ys zs, ← append_assoc ys xs zs)
      (Perm.append_right zs (perm_append_comm xs ys))

left-lap : (slots : List Slot) → Perm (left slots) (heads slots ++ left (map lap_slot slots))
left-lap [] = Perm.refl []
left-lap ((rows, true) ∷ slots) = left-lap slots
left-lap (([], false) ∷ slots) = left-lap slots
left-lap ((row ∷ rows, false) ∷ slots) = Perm.cons row (
    Perm.trans (Perm.append_left rows (left-lap slots))
      (perm_shift rows (heads slots) (left (map lap_slot slots))))

none_left : (slots : List Slot) → length slots ≤ ended slots → left slots ≡ []
none_left [] h = refl
none_left ((rows, true) ∷ slots) h = none_left slots (omega arith)
none_left ((rows, false) ∷ slots) h = absurd (omega (arith, ended-le slots))

length-lap : (slots : List Slot) → length (map lap_slot slots) ≡ length slots
length-lap [] = refl
length-lap (x ∷ slots) = ap suc (length-lap slots)

-- Where all are done nothing is left to give.
stopped :
    (n f : ℕ) (slots : List Slot) (recovered : List Row)
    → length slots ≡ n
    → n ≤ ended slots
    → (rows : List Row) × (scan_loop n (suc f) (at slots 0 (ended slots) recovered)
        ≡ some (recovered ++ rows))
      × Perm (left slots) rows
stopped n f slots recovered e full = (
  [],
  rw (append-nil recovered) (scan_loop-stop n f 0 (ended slots) slots recovered full),
  rw (none_left slots (omega arith)) (Perm.refl []),
)

-- From the first cursor on, `k` laps and one more turn are enough for the work left.
pub scan_loop-Perm :
    (n k : ℕ) (slots : List Slot) (recovered : List Row)
    → 0 < n
    → length slots ≡ n
    → work slots ≤ k
    → (rows : List Row) × (scan_loop n (suc (n * k)) (at slots 0 (ended slots) recovered)
        ≡ some (recovered ++ rows))
      × Perm (left slots) rows
scan_loop-Perm n zero slots recovered h e w =
    stopped n (n * 0) slots recovered e (omega (arith, work-lap slots))
scan_loop-Perm n (suc k) slots recovered h e w = elim (Bool-cases (ltb (ended slots) n)) [
  | inr full ↦ stopped n (n * suc k) slots recovered e (ltb→le _ _ full)
  | inl more ↦
      let shorter : work (map lap_slot slots) ≤ k =
        omega (arith, work-lap slots, ltb→lt (ended slots) n more) in
      let (rows, gives, same) =
        scan_loop-Perm n k (map lap_slot slots) (recovered ++ heads slots) h (length-lap slots ∙ e)
          shorter in
      (
        heads slots ++ rows,
        ap (λ f. scan_loop n f (at slots 0 (ended slots) recovered))
              (let p : suc (n * suc k) ≡ length slots + suc (n * k) = grind arith in p)
            ∙ ap
                (λ i. scan_loop n (length slots + suc (n * k)) (at slots i (ended slots) recovered))
                (sym (zero-mod n))
            ∙ ap (λ c. scan_loop n (length slots + suc (n * k)) (at slots (0 % n) c recovered))
                (let p : ended slots ≡ 0 + ended slots = omega arith in p)
            ∙ scan_loop-lap n (n * k) [] slots recovered h (omega arith)
            ∙ ap
                (λ c.
                  scan_loop n (suc (n * k))
                    (at (map lap_slot slots) 0 c (recovered ++ heads slots)))
                (let p : 0 + ended (map lap_slot slots) ≡ ended (map lap_slot slots) =
                    omega arith in
                  p)
            ∙ gives
            ∙ ap some (append_assoc recovered (heads slots) rows),
        Perm.trans (left-lap slots) (Perm.append_left (heads slots) same),
      )
]
