-- ===== src/AsyncLog/Clean/Keeps.antt =====
-- A round of `cleanDequeueLog` of lib/AsyncOperationLogger.cpp, followed by a recovery.
use bdbmsgstore.Prelude.{
  All, ℕ, zero, suc, ◌+◌, ◌-◌, ◌≤◌, ◌<◌, ◌≡◌, true, Option, some, List, [], ◌++◌, map, arith, ltb,
  is_some, get_or,
}
use bdbmsgstore.TwoLevel.{lookup, values}
use bdbmsgstore.PendingOperation.{PendingAsyncDequeue}
use bdbmsgstore.AsyncLog.Format.{DeqRecord, deq_log, deq_record, IsDeqRecord}
use bdbmsgstore.AsyncLog.Replay.{PendingSets, no_sets, replay}
use bdbmsgstore.AsyncLog.Extract.{ended}
use bdbmsgstore.AsyncLog.Recover.{recover_async_dequeue}
use bdbmsgstore.AsyncLog.Recover.Dequeues.{restart}
use bdbmsgstore.AsyncLog.Clean.{clean_dequeue_round}
use bdbmsgstore.AsyncLog.Clean.Counts.{
  end_of, deq_starts, deq_ends, starts-append, ends-append, compacted_counts,
}
use bdbmsgstore.AsyncLog.Clean.Dequeues.{
  log_at, left, later_records, round_at_0, round_at_1, restarts-ok, later-ok, recover_whole,
  pending_once,
}

-- All records that were logged: those of the current file, of the other one, and those that other
-- threads add during the round.
abbrev pub all_records :
    List DeqRecord → List DeqRecord → List DeqRecord → List DeqRecord → List DeqRecord
all_records rs gs ms ls = rs ++ (gs ++ (ms ++ ls))

module _ (q p : ℕ) where
  starts_of_four :
      (ws xs ys zs : List DeqRecord)
      → deq_starts q p (ws ++ (xs ++ (ys ++ zs)))
        ≡ deq_starts q p ws + deq_starts q p xs + deq_starts q p ys + deq_starts q p zs
  starts_of_four ws xs ys zs = omega (
    arith,
    starts-append q p ws (xs ++ (ys ++ zs)),
    starts-append q p xs (ys ++ zs),
    starts-append q p ys zs,
  )

  ends_of_four :
      (ws xs ys zs : List DeqRecord)
      → deq_ends q p (ws ++ (xs ++ (ys ++ zs)))
        ≡ deq_ends q p ws + deq_ends q p xs + deq_ends q p ys + deq_ends q p zs
  ends_of_four ws xs ys zs = omega (
    arith,
    ends-append q p ws (xs ++ (ys ++ zs)),
    ends-append q p xs (ys ++ zs),
    ends-append q p ys zs,
  )

  abbrev restarts : List DeqRecord → List DeqRecord
  restarts rs = map restart (values (left rs).pending)

  -- `xs` has as many more starts than completions as `ys`, and at most one of each.
  abbrev Matches : List DeqRecord → List DeqRecord → Type 0
  Matches xs ys =
      (deq_starts q p xs + deq_ends q p ys ≡ deq_ends q p xs + deq_starts q p ys)
      × (deq_starts q p xs ≤ 1)
      × (deq_ends q p xs ≤ 1)

  new_counts :
      (rs gs ms ls : List DeqRecord)
      → All IsDeqRecord rs
      → deq_starts q p (all_records rs gs ms ls) ≤ 1
      → deq_ends q p (all_records rs gs ms ls) ≤ 1
      → Matches (restarts rs ++ later_records rs gs ms ls) (all_records rs gs ms ls)
        × Matches (later_records rs gs ms ls ++ restarts rs) (all_records rs gs ms ls)
  new_counts rs gs ms ls ok hs hc = (
    omega (
      arith,
      starts,
      ends,
      counts,
      starts-append q p (restarts rs) (later_records rs gs ms ls),
      ends-append q p (restarts rs) (later_records rs gs ms ls),
      starts_of_four gs ms ls lost,
      ends_of_four gs ms ls lost,
    ),
    omega (
      arith,
      starts,
      ends,
      counts,
      starts-append q p (later_records rs gs ms ls) (restarts rs),
      ends-append q p (later_records rs gs ms ls) (restarts rs),
      starts_of_four gs ms ls lost,
      ends_of_four gs ms ls lost,
    ),
  )
    where
      lost : List DeqRecord
      lost = map end_of (values (left rs).lost)

      starts :
          deq_starts q p (all_records rs gs ms ls)
          ≡ deq_starts q p rs + deq_starts q p gs + deq_starts q p ms + deq_starts q p ls
      starts = starts_of_four rs gs ms ls

      ends :
          deq_ends q p (all_records rs gs ms ls)
          ≡ deq_ends q p rs + deq_ends q p gs + deq_ends q p ms + deq_ends q p ls
      ends = ends_of_four rs gs ms ls

      counts :
          (deq_starts q p (restarts rs) + deq_ends q p rs ≡ deq_ends q p lost + deq_starts q p rs)
          × (deq_starts q p (restarts rs) ≤ deq_starts q p rs)
          × (deq_ends q p lost ≤ deq_ends q p rs)
          × (deq_ends q p (restarts rs) ≡ 0)
          × (deq_starts q p lost ≡ 0)
      counts = compacted_counts q p rs ok (omega (arith, starts)) (omega (arith, ends))

  -- What is pending in matching records.
  pending_matching :
      (xs ys : List DeqRecord)
      → Matches xs ys
      → is_some (lookup q p (replay (map deq_record xs) no_sets).pending)
        ≡ ltb (deq_ends q p ys) (deq_starts q p ys)
  pending_matching xs ys h =
      rw (pending_once q p xs h.1 h.2)
        (same_order (deq_ends q p xs) (deq_starts q p xs) (deq_ends q p ys) (deq_starts q p ys) h.0)
    where
      same_order : (c s c' s' : ℕ) → s + c' ≡ c + s' → ltb c s ≡ ltb c' s'
      same_order c s c' s' e = ground arith

-- Let the current file, of index `k`, hold the records `rs`, and the other file `gs` or nothing; the
-- round finds no temporary file, and during it other threads log `ms` and then `ls`. If a message is
-- started at most once and ended at most once in all these records, then a recovery after the round
-- ends, and finds the message pending exactly if it was started and not ended.
pub clean_dequeue_round-recover :
    (q p k : ℕ) (files : ℕ → Option (List ℕ)) (rs gs ms ls : List DeqRecord)
    → k < 2
    → files k ≡ some (deq_log rs)
    → get_or (files (1 - k)) [] ≡ deq_log gs
    → All IsDeqRecord rs
    → All IsDeqRecord gs
    → All IsDeqRecord ms
    → All IsDeqRecord ls
    → deq_starts q p (all_records rs gs ms ls) ≤ 1
    → deq_ends q p (all_records rs gs ms ls) ≤ 1
    → let l = clean_dequeue_round true (deq_log ms) (deq_log ls) (log_at k files) in
      (s : PendingSets PendingAsyncDequeue) × ((recover_async_dequeue [] l).0 ≡ ended s)
      × (is_some (lookup q p s.pending)
          ≡ ltb (deq_ends q p (all_records rs gs ms ls)) (deq_starts q p (all_records rs gs ms ls)))
clean_dequeue_round-recover q p zero files rs gs ms ls lt h g r g' m l hs hc =
    let now = round_at_0 files rs gs ms ls h g r in
    let xs = restarts q p rs ++ later_records rs gs ms ls in
    (
      replay (map deq_record xs) no_sets,
      recover_whole _ (restarts q p rs) (later_records rs gs ms ls) now.0 now.1 (restarts-ok rs r)
          (later-ok rs gs ms ls r g' m l),
      pending_matching q p xs (all_records rs gs ms ls) (new_counts q p rs gs ms ls r hs hc).0,
    )
clean_dequeue_round-recover q p (suc zero) files rs gs ms ls lt h g r g' m l hs hc =
    let now = round_at_1 files rs gs ms ls h g r in
    let xs = later_records rs gs ms ls ++ restarts q p rs in
    (
      replay (map deq_record xs) no_sets,
      recover_whole _ (later_records rs gs ms ls) (restarts q p rs) now.1 now.0
          (later-ok rs gs ms ls r g' m l) (restarts-ok rs r),
      pending_matching q p xs (all_records rs gs ms ls) (new_counts q p rs gs ms ls r hs hc).1,
    )
clean_dequeue_round-recover q p (suc (suc k)) files rs gs ms ls lt h g r g' m l hs hc =
    absurd (omega arith)
