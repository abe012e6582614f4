-- ===== src/PidTracker/Duplicates.antt =====
-- The duplicate ids of lib/PidTracker.cpp: a message that had its id before it was enqueued here.
use bdbmsgstore.Prelude.{ℕ, ◌≡◌, refl, Bool, true, ◌&&◌, none, arith, ◌==◌, if◌then◌else◌, ==-refl}
use bdbmsgstore.TwoLevel.{lookup, add, IsKept}
use bdbmsgstore.TwoLevel.Laws.{lookup-add, lookup-remove, remove-found}
use bdbmsgstore.TwoLevel.Order.{add-IsKept}
use bdbmsgstore.PidTracker.Record.{PidTracker, add_pid}

unfoldable pub add_duplicate : ℕ → ℕ → PidTracker → Bool × PidTracker
add_duplicate pid qid t = (true, record t { dup_map = add qid pid tt t.dup_map })

-- The enqueue of a message that was registered as a duplicate ends the registration, and that of no
-- other message; it reports an update and leaves the main record and the pending map alone.
pub add_pid-add_duplicate :
    (pid qid : ℕ) (t : PidTracker)
    → IsKept t.dup_map
    → let t' = (add_pid pid qid (add_duplicate pid qid t).1).1 in
      ((add_pid pid qid (add_duplicate pid qid t).1).0 ≡ true)
      × (t'.main_record ≡ t.main_record)
      × (t'.pend_map ≡ t.pend_map)
      × ((q p : ℕ)
          → lookup q p t'.dup_map ≡ (if qid == q && pid == p then none else lookup q p t.dup_map))
unfolding add_pid add_duplicate
add_pid-add_duplicate pid qid t kept =
    let there = remove-found qid pid (add qid pid tt t.dup_map) in
    let here = lookup-add qid pid qid pid tt t.dup_map in
    rw (there, here, ==-refl qid, ==-refl pid)
      (
        refl,
        refl,
        refl,
        λ q p.
            rw
              (
                lookup-remove q p qid pid (add qid pid tt t.dup_map)
                    (add-IsKept qid pid tt t.dup_map kept),
                lookup-add q p qid pid tt t.dup_map,
              )
              (ground arith),
      )
