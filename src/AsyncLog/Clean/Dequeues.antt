-- ===== src/AsyncLog/Clean/Dequeues.antt =====
-- What one round of the dequeue log's cleaner leaves in the two files.
use mathlib.Core.List.{foldl}
use bdbmsgstore.Prelude.{
  All, All-append, ℕ, ◌≤◌, ◌≡◌, refl, sym, ap, ◌∙◌, true, Option, none, some, List, [], ◌∷◌, ◌++◌,
  map, append_assoc, append-nil, arith, ltb, is_some, get_or,
}
use bdbmsgstore.TwoLevel.{lookup, values}
use bdbmsgstore.PendingOperation.{PendingAsyncOperation, PendingAsyncDequeue}
use bdbmsgstore.AsyncLog.Format.{
  DeqRecord, dequeue_start, deq_bytes, deq_log, deq_record, IsDeqRecord, dequeue_start_buff,
  dequeue_complete_buff,
}
use bdbmsgstore.AsyncLog.Replay.{PendingSets, no_sets, replay}
use bdbmsgstore.AsyncLog.Replay.View.{state_of}
use bdbmsgstore.AsyncLog.Replay.Counts.{Stands, status-Stands}
use bdbmsgstore.AsyncLog.Replay.Entries.{replay-MapHolds, All-values}
use bdbmsgstore.AsyncLog.Replay.Lost.{IsLost, lost-MapHolds}
use bdbmsgstore.AsyncLog.Extract.{ended, extract_pending_dequeue}
use bdbmsgstore.AsyncLog.Logger.{LogFiles, write}
use bdbmsgstore.AsyncLog.Logger.Mass.{write-write}
use bdbmsgstore.AsyncLog.Recover.{recover_async_dequeue}
use bdbmsgstore.AsyncLog.Recover.Dequeues.{
  extract-HoldsDequeues, restart, recover_async_dequeue_lem,
}
use bdbmsgstore.AsyncLog.Recover.Again.{IsEntry, starts-IsEntry, restart-IsDeqRecord}
use bdbmsgstore.AsyncLog.Clean.{relogged, clean_dequeue_round}
use bdbmsgstore.AsyncLog.Clean.Counts.{end_of, IsWord, completions-IsWord, deq_starts, deq_ends}

deq_log-append : (xs ys : List DeqRecord) → deq_log (xs ++ ys) ≡ deq_log xs ++ deq_log ys
unfolding deq_log
deq_log-append [] ys = refl
deq_log-append (x ∷ xs) ys =
    ap (◌++◌ (deq_bytes x)) (deq_log-append xs ys)
    ∙ sym (append_assoc (deq_bytes x) (deq_log xs) (deq_log ys))

relogged-restart :
    (vs : List PendingAsyncDequeue)
    → relogged (λ pad. dequeue_start_buff pad.msg_id pad.queue_id) vs ≡ deq_log (map restart vs)
unfolding relogged deq_log deq_bytes
relogged-restart [] = refl
relogged-restart (v ∷ vs) = ap (◌++◌ (deq_bytes (restart v))) (relogged-restart vs)

foldl-ends :
    (a : List ℕ) (l : LogFiles) (ops : List PendingAsyncOperation)
    → foldl (λ l' pao. write (dequeue_complete_buff pao.msg_id pao.queue_id) l') (write a l) ops
      ≡ write (a ++ deq_log (map end_of ops)) l
unfolding deq_log deq_bytes
foldl-ends a l [] = rw append-nil
foldl-ends a l (v ∷ vs) = rw (write-write a (deq_bytes (end_of v)) l) (
    foldl-ends (a ++ deq_bytes (end_of v)) l vs
    ∙ ap (λ x. write x l) (append_assoc a (deq_bytes (end_of v)) (deq_log (map end_of vs))))

-- The files of a dequeue log with current index `k` and no temporary file.
abbrev pub log_at : ℕ → (ℕ → Option (List ℕ)) → LogFiles
log_at k files = record { index = k; files = files; tmp = none }

-- What a file leaves when it is read by itself.
abbrev pub left : List DeqRecord → PendingSets PendingAsyncDequeue
left rs = replay (map deq_record rs) no_sets

-- What the new current file holds after a round on `rs`: what it held, what others logged, and the lost
-- completions.
abbrev pub later_records :
    List DeqRecord → List DeqRecord → List DeqRecord → List DeqRecord → List DeqRecord
later_records rs gs ms ls = gs ++ (ms ++ (ls ++ map end_of (values (left rs).lost)))

-- The current file holds `rs`. The other one holds `gs`, which an earlier round left, or is not there.
-- Meanwhile `ms` and then `ls` are logged.
module _ (files : ℕ → Option (List ℕ)) (rs gs ms ls : List DeqRecord) where
  whole : All IsDeqRecord rs → extract_pending_dequeue (some (deq_log rs)) no_sets ≡ ended (left rs)
  whole ok =
      extract-HoldsDequeues (some (deq_log rs)) rs no_sets
        (dequeue_start 0 0, 0, omega arith, sym (append-nil (deq_log rs))) ok

  pub round_at_0 :
      files 0 ≡ some (deq_log rs)
      → get_or (files 1) [] ≡ deq_log gs
      → All IsDeqRecord rs
      → let l = clean_dequeue_round true (deq_log ms) (deq_log ls) (log_at 0 files) in
        (l.files 0 ≡ some (deq_log (map restart (values (left rs).pending))))
        × (l.files 1 ≡ some (deq_log (later_records rs gs ms ls)))
  unfolding clean_dequeue_round
  round_at_0 h g ok =
      rw (h, whole ok)
        (rw (foldl-ends (deq_log ls) _ (values (left rs).lost))
          (rw relogged-restart refl, rw g simp (deq_log-append, append_assoc)))

  pub round_at_1 :
      files 1 ≡ some (deq_log rs)
      → get_or (files 0) [] ≡ deq_log gs
      → All IsDeqRecord rs
      → let l = clean_dequeue_round true (deq_log ms) (deq_log ls) (log_at 1 files) in
        (l.files 1 ≡ some (deq_log (map restart (values (left rs).pending))))
        × (l.files 0 ≡ some (deq_log (later_records rs gs ms ls)))
  unfolding clean_dequeue_round
  round_at_1 h g ok =
      rw (h, whole ok)
        (rw (foldl-ends (deq_log ls) _ (values (left rs).lost))
          (rw relogged-restart refl, rw g (simp (deq_log-append, append_assoc))))

pub restarts-ok :
    (rs : List DeqRecord)
    → All IsDeqRecord rs
    → All IsDeqRecord (map restart (values (left rs).pending))
restarts-ok rs ok =
    All-values IsEntry IsDeqRecord restart restart-IsDeqRecord (left rs).pending
      (replay-MapHolds IsEntry (map deq_record rs) (starts-IsEntry rs ok))

ends-ok :
    (rs : List DeqRecord)
    → All IsDeqRecord rs
    → All IsDeqRecord (map end_of (values (left rs).lost))
ends-ok rs ok =
    All-values (IsLost IsWord) IsDeqRecord end_of (λ pid qid v h. rw h.0 (h.1.0, h.1.1))
      (left rs).lost (lost-MapHolds IsWord (map deq_record rs) (completions-IsWord rs ok))

pub later-ok :
    (rs gs ms ls : List DeqRecord)
    → All IsDeqRecord rs
    → All IsDeqRecord gs
    → All IsDeqRecord ms
    → All IsDeqRecord ls
    → All IsDeqRecord (later_records rs gs ms ls)
later-ok rs gs ms ls r g m l =
    All-append IsDeqRecord gs _ g
      (All-append IsDeqRecord ms _ m (All-append IsDeqRecord ls _ l (ends-ok rs r)))

-- What two files of whole records give back.
pub recover_whole :
    (l : LogFiles) (xs ys : List DeqRecord)
    → l.files 0 ≡ some (deq_log xs)
    → l.files 1 ≡ some (deq_log ys)
    → All IsDeqRecord xs
    → All IsDeqRecord ys
    → (recover_async_dequeue [] l).0 ≡ ended (replay (map deq_record (xs ++ ys)) no_sets)
recover_whole l xs ys hx hy okx oky =
    ap (λ r. r.0)
      (recover_async_dequeue_lem l xs ys
        (rw hx (dequeue_start 0 0, 0, omega arith, sym (append-nil (deq_log xs))))
        (rw hy (dequeue_start 0 0, 0, omega arith, sym (append-nil (deq_log ys)))) okx oky)

state_pending :
    (o : Option PendingAsyncDequeue) (l : Option PendingAsyncOperation) (s c : ℕ)
    → Stands (state_of o l) s c
    → is_some o ≡ ltb c s
state_pending none none s c h = ground arith
state_pending none (some w) s c h = ground arith
state_pending (some v) l s c h = ground arith

-- Of an operation that is logged once, an entry is pending if there are more starts than completions.
pub pending_once :
    (q p : ℕ) (rs : List DeqRecord)
    → deq_starts q p rs ≤ 1
    → deq_ends q p rs ≤ 1
    → is_some (lookup q p (replay (map deq_record rs) no_sets).pending)
      ≡ ltb (deq_ends q p rs) (deq_starts q p rs)
pending_once q p rs hs hc =
    state_pending (lookup q p (replay (map deq_record rs) no_sets).pending)
      (lookup q p (replay (map deq_record rs) no_sets).lost) (deq_starts q p rs) (deq_ends q p rs)
      (status-Stands q p (map deq_record rs) hs hc)
