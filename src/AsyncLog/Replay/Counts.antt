-- ===== src/AsyncLog/Replay/Counts.antt =====
-- Operations that are logged once, by two pools of threads, in whatever order.
use native.Mathlib.Nat.{zero-add}
use bdbmsgstore.Prelude.{ℕ, ◌+◌, ◌≤◌, ◌≡◌, refl, ◌&&◌, List, [], ◌∷◌, arith, ◌==◌, if◌then◌else◌}
use bdbmsgstore.AsyncLog.Replay.{Record, start, complete, no_sets, replay}
use bdbmsgstore.OrdMap.{find}
use bdbmsgstore.TwoLevel.{lookup}
use bdbmsgstore.AsyncLog.Replay.View.{
  KeyState, idle, started, ended_first, status, key_step, key_run, status-replay,
  no_sets-IsConsistent,
}

module _ {V : Type 0} where
  -- How often message `p` on queue `q` starts, and ends, in a log.
  abbrev pub starts : ℕ → ℕ → List (Record V) → ℕ
  starts q p [] = 0
  starts q p (start pid qid v ∷ rs) = (if qid == q && pid == p then 1 else 0) + starts q p rs
  starts q p (complete pid qid ∷ rs) = starts q p rs

  abbrev pub completions : ℕ → ℕ → List (Record V) → ℕ
  completions q p [] = 0
  completions q p (start pid qid v ∷ rs) = completions q p rs
  completions q p (complete pid qid ∷ rs) =
      (if qid == q && pid == p then 1 else 0) + completions q p rs

  -- The state after `s` starts and `c` completions.
  abbrev pub Stands : KeyState V → ℕ → ℕ → Type 0
  Stands idle s c = s ≡ c
  Stands (started v) s c = s ≡ c + 1
  Stands ended_first s c = c ≡ s + 1

  pub key_run-Stands :
      (q p : ℕ) (rs : List (Record V)) (k : KeyState V) (s c : ℕ)
      → Stands k s c
      → s + starts q p rs ≤ 1
      → c + completions q p rs ≤ 1
      → Stands (key_run q p rs k) (s + starts q p rs) (c + completions q p rs)
  unfolding key_run
  key_run-Stands q p [] k s c h hs hc = ground arith
  key_run-Stands q p (start pid qid v ∷ rs) k s c h hs hc = ground (
    arith,
    key_run-Stands q p rs (key_step q p (start pid qid v) k)
        (s + (if qid == q && pid == p then 1 else 0)) c,
  )
  key_run-Stands q p (complete pid qid ∷ rs) k s c h hs hc = ground (
    arith,
    key_run-Stands q p rs (key_step q p (complete pid qid) k) s
        (c + (if qid == q && pid == p then 1 else 0)),
  )

  -- Of an operation that a log starts at most once and ends at most once, in either order and among
  -- any others, reading the log leaves: a pending entry if it is started and not ended, a lost
  -- completion if it is ended and not started, and nothing otherwise.
  pub status-Stands :
      (q p : ℕ) (rs : List (Record V))
      → starts q p rs ≤ 1
      → completions q p rs ≤ 1
      → Stands (status q p (replay rs no_sets)) (starts q p rs) (completions q p rs)
  status-Stands q p rs hs hc = rw (status-replay q p rs no_sets no_sets-IsConsistent) (
      unfold lookup find in
      simp zero-add at (key_run-Stands q p rs idle 0 0 refl (omega arith) (omega arith)))
