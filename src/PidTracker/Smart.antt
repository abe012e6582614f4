-- ===== src/PidTracker/Smart.antt =====
-- The record of enqueues that are still to be written, of lib/PidTracker.cpp: `willEnqueue` notes a
-- message, and `dequeueCheck` and `enqueueCheck` take it off. Unlike
-- `addPid`, these leave a queue's set in the map when it has run empty.
pub mod Noted
pub mod Race
use bdbmsgstore.Prelude.{ℕ, Bool, true, false, not, Option, none, some, is_some, []}
use bdbmsgstore.OrdMap.{find, insert, erase, assign, IdSet}
use bdbmsgstore.TwoLevel.{TwoLevel}
use bdbmsgstore.PidTracker.Record.{PidTracker}

abbrev note_sub : ℕ → ℕ → TwoLevel (Unit {0}) → Option IdSet → Bool × TwoLevel (Unit {0})
note_sub pid qid m none = (true, insert qid (insert pid tt []) m)
note_sub pid qid m (some sub) = (not (is_some (find pid sub)), assign qid (insert pid tt sub) m)

-- mit->second.insert(pid).second, and the map.
unfoldable pub note : ℕ → ℕ → TwoLevel (Unit {0}) → Bool × TwoLevel (Unit {0})
note pid qid m = note_sub pid qid m (find qid m)

abbrev take_entry :
    ℕ → ℕ → TwoLevel (Unit {0}) → IdSet → Option (Unit {0}) → Bool × TwoLevel (Unit {0})
take_entry pid qid m sub none = (false, m)
take_entry pid qid m sub (some u) = (true, assign qid (erase pid sub) m)

abbrev take_sub : ℕ → ℕ → TwoLevel (Unit {0}) → Option IdSet → Bool × TwoLevel (Unit {0})
take_sub pid qid m none = (false, m)
take_sub pid qid m (some sub) = take_entry pid qid m sub (find pid sub)

-- The lookups that the two checks share: whether the message was noted, and the map without it.
unfoldable pub take_off : ℕ → ℕ → TwoLevel (Unit {0}) → Bool × TwoLevel (Unit {0})
take_off pid qid m = take_sub pid qid m (find qid m)

unfoldable pub will_enqueue : ℕ → ℕ → PidTracker → Bool × PidTracker
unfolding note
will_enqueue pid qid t =
    let (fresh, m) = note pid qid t.pend_map in (fresh, record t { pend_map = m })

-- Whether the dequeue has to be done.
unfoldable pub dequeue_check : ℕ → ℕ → PidTracker → Bool × PidTracker
unfolding take_off
dequeue_check pid qid t =
    let (found, m) = take_off pid qid t.pend_map in (not found, record t { pend_map = m })

-- Whether the enqueue has to be done.
unfoldable pub enqueue_check : ℕ → ℕ → PidTracker → Bool × PidTracker
unfolding take_off
enqueue_check pid qid t =
    let (found, m) = take_off pid qid t.pend_map in (found, record t { pend_map = m })
