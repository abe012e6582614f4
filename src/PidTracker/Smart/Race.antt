-- ===== src/PidTracker/Smart/Race.antt =====
-- The two checks on the record of enqueues that are to be written (lib/PidTracker.cpp), for one message
-- on one queue, amid calls for others.
use bdbmsgstore.Prelude.{ℕ, ◌≡◌, refl, Bool, true, false, not, List, [], ◌∷◌, arith, ap, ◌∙◌}
use bdbmsgstore.PidTracker.Record.{PidTracker}
use bdbmsgstore.PidTracker.Smart.{will_enqueue, dequeue_check, enqueue_check}
use bdbmsgstore.PidTracker.Smart.Noted.{
  Sorted, is_noted, on, note-Sorted, take_off-Sorted, take_off-answer, note-noted, take_off-noted,
}

-- The calls, and what each does to the set of the messages noted.
pub data Call : Type 0 where
  will : ℕ → ℕ → Call
  dequeues : ℕ → ℕ → Call
  enqueues : ℕ → ℕ → Call

-- What a call answers, and the tracker after it.
unfoldable pub call : Call → PidTracker → Bool × PidTracker
unfolding will_enqueue dequeue_check enqueue_check
call (will pid qid) t = will_enqueue pid qid t
call (dequeues pid qid) t = dequeue_check pid qid t
call (enqueues pid qid) t = enqueue_check pid qid t

unfoldable pub calls : List Call → PidTracker → PidTracker
unfolding call
calls [] t = t
calls (c ∷ cs) t = calls cs (call c t).1

-- The calls are on other messages, or on other queues.
abbrev pub Elsewhere : ℕ → ℕ → List Call → Type 0
Elsewhere p q [] = Unit {0}
Elsewhere p q (will pid qid ∷ cs) = (on pid qid p q ≡ false) × Elsewhere p q cs
Elsewhere p q (dequeues pid qid ∷ cs) = (on pid qid p q ≡ false) × Elsewhere p q cs
Elsewhere p q (enqueues pid qid ∷ cs) = (on pid qid p q ≡ false) × Elsewhere p q cs

pub call-Sorted : (c : Call) (t : PidTracker) → Sorted 0 t.pend_map → Sorted 0 (call c t).1.pend_map
unfolding call will_enqueue dequeue_check enqueue_check
call-Sorted (will pid qid) t s = note-Sorted pid qid t.pend_map s
call-Sorted (dequeues pid qid) t s = take_off-Sorted pid qid t.pend_map s
call-Sorted (enqueues pid qid) t s = take_off-Sorted pid qid t.pend_map s

pub calls-Sorted :
    (cs : List Call) (t : PidTracker) → Sorted 0 t.pend_map → Sorted 0 (calls cs t).pend_map
unfolding calls
calls-Sorted [] t s = s
calls-Sorted (c ∷ cs) t s = calls-Sorted cs (call c t).1 (call-Sorted c t s)

call-Elsewhere :
    (p q : ℕ) (c : Call) (t : PidTracker)
    → Sorted 0 t.pend_map
    → Elsewhere p q (c ∷ [])
    → is_noted p q (call c t).1.pend_map ≡ is_noted p q t.pend_map
unfolding call will_enqueue dequeue_check enqueue_check
call-Elsewhere p q (will pid qid) t s e = rw (note-noted pid qid p q t.pend_map, e.0) refl
call-Elsewhere p q (dequeues pid qid) t s e = rw (take_off-noted pid qid p q t.pend_map s, e.0) refl
call-Elsewhere p q (enqueues pid qid) t s e = rw (take_off-noted pid qid p q t.pend_map s, e.0) refl

Elsewhere-parts :
    (p q : ℕ) (c : Call) (cs : List Call)
    → Elsewhere p q (c ∷ cs)
    → Elsewhere p q (c ∷ []) × Elsewhere p q cs
Elsewhere-parts p q (will pid qid) cs e = ((e.0, tt), e.1)
Elsewhere-parts p q (dequeues pid qid) cs e = ((e.0, tt), e.1)
Elsewhere-parts p q (enqueues pid qid) cs e = ((e.0, tt), e.1)

calls-Elsewhere :
    (p q : ℕ) (cs : List Call) (t : PidTracker)
    → Sorted 0 t.pend_map
    → Elsewhere p q cs
    → is_noted p q (calls cs t).pend_map ≡ is_noted p q t.pend_map
unfolding calls
calls-Elsewhere p q [] t s e = refl
calls-Elsewhere p q (c ∷ cs) t s e =
    let parts = Elsewhere-parts p q c cs e in
    calls-Elsewhere p q cs (call c t).1 (call-Sorted c t s) parts.1
    ∙ call-Elsewhere p q c t s parts.0

-- A call on the message itself, after other calls elsewhere: what it answers, and what it leaves.
pub check-answers :
    (p q : ℕ) (cs : List Call) (t : PidTracker)
    → Sorted 0 t.pend_map
    → Elsewhere p q cs
    → ((dequeue_check p q (calls cs t)).0 ≡ not (is_noted p q t.pend_map))
      × ((enqueue_check p q (calls cs t)).0 ≡ is_noted p q t.pend_map)
unfolding dequeue_check enqueue_check
check-answers p q cs t s e = (
  ap not (take_off-answer p q (calls cs t).pend_map ∙ calls-Elsewhere p q cs t s e),
  take_off-answer p q (calls cs t).pend_map ∙ calls-Elsewhere p q cs t s e,
)

pub check-takes :
    (p q : ℕ) (t : PidTracker)
    → Sorted 0 t.pend_map
    → (is_noted p q (dequeue_check p q t).1.pend_map ≡ false)
      × (is_noted p q (enqueue_check p q t).1.pend_map ≡ false)
unfolding dequeue_check enqueue_check
check-takes p q t s = (
  rw (take_off-noted p q p q t.pend_map s) (ground arith),
  rw (take_off-noted p q p q t.pend_map s) (ground arith),
)

pub will_enqueue-notes :
    (p q : ℕ) (t : PidTracker) → is_noted p q (will_enqueue p q t).1.pend_map ≡ true
unfolding will_enqueue
will_enqueue-notes p q t = rw (note-noted p q p q t.pend_map) (ground arith)

-- Let the map of the enqueues to be written be in order, and let all calls between `willEnqueue` on a
-- message of a queue and the first check on it, and between the two checks, be for other messages or
-- other queues. Then the first of the two checks decides: a dequeue that comes first is told that it is
-- not required, and the enqueue then that it is not either; an enqueue that comes first is told to go
-- on, and the dequeue then too.
pub first_check_decides :
    (p q : ℕ) (before after : List Call) (t : PidTracker)
    → Sorted 0 t.pend_map
    → Elsewhere p q before
    → Elsewhere p q after
    → let u = calls before (will_enqueue p q t).1 in
      ((dequeue_check p q u).0 ≡ false)
      × ((enqueue_check p q (calls after (dequeue_check p q u).1)).0 ≡ false)
      × ((enqueue_check p q u).0 ≡ true)
      × ((dequeue_check p q (calls after (enqueue_check p q u).1)).0 ≡ true)
unfolding call
first_check_decides p q before after t s e f =
    let t' = (will_enqueue p q t).1 in
    let s' = call-Sorted (will p q) t s in
    let u = calls before t' in
    let su = calls-Sorted before t' s' in
    let first = check-answers p q before t' s' e in
    let after_dequeue =
      check-answers p q after (dequeue_check p q u).1 (call-Sorted (dequeues p q) u su) f in
    let after_enqueue =
      check-answers p q after (enqueue_check p q u).1 (call-Sorted (enqueues p q) u su) f in
    (
      first.0 ∙ ap not (will_enqueue-notes p q t),
      after_dequeue.1 ∙ (check-takes p q u su).0,
      first.1 ∙ will_enqueue-notes p q t,
      after_enqueue.0 ∙ ap not (check-takes p q u su).1,
    )
