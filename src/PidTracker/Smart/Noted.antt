-- ===== src/PidTracker/Smart/Noted.antt =====
-- The record of enqueues that are to be written, seen as the set of the messages noted in it.
use bdbmsgstore.Prelude.{
  ℕ, suc, ◌≤◌, ◌≡◌, refl, inl, inr, Bool, true, false, not, ◌&&◌, [], ◌∷◌, some, is_some, arith,
  ◌==◌, if◌then◌else◌, Option-cases,
}
use bdbmsgstore.OrdMap.{find, insert, erase, assign, IsOrdered, IdSet}
use bdbmsgstore.OrdMap.Laws.{find-assign, find-erase, insert-Above, erase-Above}
use bdbmsgstore.TwoLevel.{TwoLevel, lookup, add}
use bdbmsgstore.TwoLevel.Laws.{lookup-add}
use bdbmsgstore.PidTracker.Smart.{note, take_off}

-- The queues' sets are in order, empty ones included.
abbrev pub Sorted : ℕ → TwoLevel (Unit {0}) → Type 0
Sorted lo [] = Unit {0}
Sorted lo ((q, sub) ∷ m) = (lo ≤ q) × IsOrdered sub × Sorted (suc q) m

abbrev pub is_noted : ℕ → ℕ → TwoLevel (Unit {0}) → Bool
is_noted pid qid m = is_some (lookup qid pid m)

insert-Sorted :
    (lo k : ℕ) (sub : IdSet) (m : TwoLevel (Unit {0}))
    → lo ≤ k
    → IsOrdered sub
    → Sorted lo m
    → Sorted lo (insert k sub m)
unfolding insert
insert-Sorted lo k sub [] h o s = (h, o, tt)
insert-Sorted lo k sub ((i, w) ∷ m) h o s = ground (arith, insert-Sorted (suc i) k sub m)

assign-Sorted :
    (lo k : ℕ) (sub : IdSet) (m : TwoLevel (Unit {0}))
    → IsOrdered sub
    → Sorted lo m
    → Sorted lo (assign k sub m)
unfolding assign
assign-Sorted lo k sub [] o s = tt
assign-Sorted lo k sub ((i, w) ∷ m) o s = ground (arith, assign-Sorted (suc i) k sub m o s.2)

find-Sorted :
    (lo k : ℕ) (m : TwoLevel (Unit {0})) (sub : IdSet)
    → Sorted lo m
    → find k m ≡ some sub
    → IsOrdered sub
unfolding find
find-Sorted lo k [] sub s e = ground arith
find-Sorted lo k ((i, w) ∷ m) sub s e = ground (arith, find-Sorted (suc i) k m sub s.2)

pub note-Sorted : (pid qid : ℕ) (m : TwoLevel (Unit {0})) → Sorted 0 m → Sorted 0 (note pid qid m).1
unfolding note
note-Sorted pid qid m s = elim (Option-cases (find qid m)) [
  | inl e ↦ rw (e) (
      insert-Sorted 0 qid (insert pid tt []) m (omega arith)
        (insert-Above 0 pid tt [] (omega arith) tt) s)
  | inr (sub, e) ↦ rw (e) (
      assign-Sorted 0 qid (insert pid tt sub) m
        (insert-Above 0 pid tt sub (omega arith) (find-Sorted 0 qid m sub s e)) s)
]

pub take_off-Sorted :
    (pid qid : ℕ) (m : TwoLevel (Unit {0})) → Sorted 0 m → Sorted 0 (take_off pid qid m).1
unfolding take_off
take_off-Sorted pid qid m s = elim (Option-cases (find qid m)) [
  | inl e ↦ rw (e) s
  | inr (sub, e) ↦ elim (Option-cases (find pid sub)) [
    | inl f ↦ rw (e, f) s
    | inr (u, f) ↦
        rw (e, f)
          (assign-Sorted 0 qid (erase pid sub) m
            (erase-Above 0 pid sub (find-Sorted 0 qid m sub s e)) s)
  ]
]

pub note-answer :
    (pid qid : ℕ) (m : TwoLevel (Unit {0})) → (note pid qid m).0 ≡ not (is_noted pid qid m)
unfolding note lookup
note-answer pid qid m = elim (Option-cases (find qid m)) [
  | inl e ↦ rw (e) refl
  | inr (sub, e) ↦ rw (e) refl
]

pub take_off-answer :
    (pid qid : ℕ) (m : TwoLevel (Unit {0})) → (take_off pid qid m).0 ≡ is_noted pid qid m
unfolding take_off lookup
take_off-answer pid qid m = elim (Option-cases (find qid m)) [
  | inl e ↦ rw (e) refl
  | inr (sub, e) ↦ elim (Option-cases (find pid sub)) [
    | inl f ↦ rw (e, f) refl
    | inr (u, f) ↦ rw (e, f) refl
  ]
]

-- What one call does to whether a message is noted.
abbrev pub on : ℕ → ℕ → ℕ → ℕ → Bool
on pid qid p q = (qid == q) && (pid == p)

note-add : (pid qid : ℕ) (m : TwoLevel (Unit {0})) → (note pid qid m).1 ≡ add qid pid tt m
unfolding note add
note-add pid qid m = elim (Option-cases (find qid m)) [
  | inl e ↦ rw (e) refl
  | inr (sub, e) ↦ rw (e) refl
]

pub note-noted :
    (pid qid p q : ℕ) (m : TwoLevel (Unit {0}))
    → is_noted p q (note pid qid m).1 ≡ (if on pid qid p q then true else is_noted p q m)
note-noted pid qid p q m = rw (note-add pid qid m, lookup-add q p qid pid tt m) (ground arith)

pub take_off-noted :
    (pid qid p q : ℕ) (m : TwoLevel (Unit {0}))
    → Sorted 0 m
    → is_noted p q (take_off pid qid m).1 ≡ (if on pid qid p q then false else is_noted p q m)
unfolding take_off lookup
take_off-noted pid qid p q m s = elim (Option-cases (find qid m)) [
  | inl e ↦ rw (e) (ground (arith, e))
  | inr (sub, e) ↦ elim (Option-cases (find pid sub)) [
    | inl f ↦ rw (e, f) (ground (arith, e, f))
    | inr (u, f) ↦
        rw (e, f, find-assign q qid (erase pid sub) m)
          (ground (arith, e, find-erase 0 p pid sub (find-Sorted 0 qid m sub s e)))
  ]
]
