-- ===== src/AsyncLog/Extract/DequeueLog.antt =====
-- Reading a dequeue log back, with a record that was cut off at the end of the file.
use bdbmsgstore.Prelude.{
  All, ℕ, zero, suc, ◌<◌, ◌≡◌, refl, ap, ◌∙◌, some, List, [], ◌∷◌, ◌++◌, map, append_assoc, arith,
  take, length, length-append,
}
use bdbmsgstore.Bytes.{u64_mod, put_u64}
use bdbmsgstore.AsyncLog.Extract.Words.{
  words, enough-words, drop-words, get-words, get-words-drop, cut_words,
}
use bdbmsgstore.PendingOperation.{PendingAsyncDequeue, pending_dequeue}
use bdbmsgstore.AsyncLog.Replay.{PendingSets, start_seen, complete_seen, record_seen, replay}
use bdbmsgstore.AsyncLog.Format.{
  DeqRecord, dequeue_start, dequeue_complete, deq_bytes, deq_log, deq_record, IsDeqRecord,
}
use bdbmsgstore.AsyncLog.Extract.{
  next, ended, read_loop, continue, dequeue_step, extract_pending_dequeue,
}

dequeue_step-start :
    (pid qid : ℕ) (rest : List ℕ) (s : PendingSets PendingAsyncDequeue)
    → pid < u64_mod
    → qid < u64_mod
    → dequeue_step 2 (words pid qid rest) s
      ≡ next rest (start_seen pid qid (pending_dequeue pid qid) s)
unfolding dequeue_step
dequeue_step-start pid qid rest s hp hq = rw (
  enough-words pid qid rest,
  get-words pid qid rest hp,
  get-words-drop pid qid rest hq,
  drop-words pid qid rest,
)

dequeue_step_complete :
    (pid qid : ℕ) (rest : List ℕ) (s : PendingSets PendingAsyncDequeue)
    → pid < u64_mod
    → qid < u64_mod
    → dequeue_step 3 (words pid qid rest) s ≡ next rest (complete_seen pid qid s)
unfolding dequeue_step
dequeue_step_complete pid qid rest s hp hq = rw (
  enough-words pid qid rest,
  get-words pid qid rest hp,
  get-words-drop pid qid rest hq,
  drop-words pid qid rest,
)

-- The loop reads one whole record.
read_loop-deq_bytes :
    (fuel : ℕ) (r : DeqRecord) (rest : List ℕ) (s : PendingSets PendingAsyncDequeue)
    → IsDeqRecord r
    → read_loop dequeue_step (suc fuel) (deq_bytes r ++ rest) s
      ≡ read_loop dequeue_step fuel rest (record_seen s (deq_record r))
unfolding read_loop deq_bytes record_seen
read_loop-deq_bytes fuel (dequeue_start pid qid) rest s h =
    ap (continue dequeue_step (read_loop dequeue_step fuel))
      (dequeue_step-start pid qid rest s h.0 h.1)
read_loop-deq_bytes fuel (dequeue_complete pid qid) rest s h =
    ap (continue dequeue_step (read_loop dequeue_step fuel))
      (dequeue_step_complete pid qid rest s h.0 h.1)

length-deq_bytes : (r : DeqRecord) → length (deq_bytes r) ≡ 17
unfolding deq_bytes put_u64
length-deq_bytes (dequeue_start pid qid) = refl
length-deq_bytes (dequeue_complete pid qid) = refl

-- It ignores a record of which only the first `n` bytes are there.
read_loop-torn :
    (fuel : ℕ) (r : DeqRecord) (n : ℕ) (s : PendingSets PendingAsyncDequeue)
    → n < 17
    → read_loop dequeue_step (suc fuel) (take n (deq_bytes r)) s ≡ ended s
unfolding read_loop deq_bytes dequeue_step
read_loop-torn fuel (dequeue_start pid qid) zero s h = refl
read_loop-torn fuel (dequeue_start pid qid) (suc n) s h =
    rw (cut_words n (put_u64 pid ++ put_u64 qid) (omega arith))
read_loop-torn fuel (dequeue_complete pid qid) zero s h = refl
read_loop-torn fuel (dequeue_complete pid qid) (suc n) s h =
    rw (cut_words n (put_u64 pid ++ put_u64 qid) (omega arith))

read_loop-deq_log :
    (fuel : ℕ) (rs : List DeqRecord) (torn : DeqRecord) (n : ℕ)
    (s : PendingSets PendingAsyncDequeue)
    → All IsDeqRecord rs
    → n < 17
    → length (deq_log rs ++ take n (deq_bytes torn)) < fuel
    → read_loop dequeue_step fuel (deq_log rs ++ take n (deq_bytes torn)) s
      ≡ ended (replay (map deq_record rs) s)
unfolding deq_log replay
read_loop-deq_log zero rs torn n s ok h lt = absurd (omega arith)
read_loop-deq_log (suc fuel) [] torn n s ok h lt = read_loop-torn fuel torn n s h
read_loop-deq_log (suc fuel) (r ∷ rs) torn n s ok h lt =
    let tail = deq_log rs ++ take n (deq_bytes torn) in
    rw append_assoc (
      read_loop-deq_bytes fuel r tail s ok.0
      ∙ read_loop-deq_log fuel rs torn n (record_seen s (deq_record r)) ok.1 h (
          omega (
            arith,
            ap length (append_assoc (deq_bytes r) (deq_log rs) (take n (deq_bytes torn))),
            length-append {0} (deq_bytes r) tail,
            length-deq_bytes r,
          )))

-- Reading a dequeue log gives the replay of its records, in order, from any sets; if the write of a
-- further record was cut off after fewer than its 17 bytes, that record is ignored. The loop ends.
pub extract-deq_log :
    (rs : List DeqRecord) (torn : DeqRecord) (n : ℕ) (s : PendingSets PendingAsyncDequeue)
    → All IsDeqRecord rs
    → n < 17
    → extract_pending_dequeue (some (deq_log rs ++ take n (deq_bytes torn))) s
      ≡ ended (replay (map deq_record rs) s)
unfolding extract_pending_dequeue
extract-deq_log rs torn n s ok h =
    read_loop-deq_log (suc (length (deq_log rs ++ take n (deq_bytes torn)))) rs torn n s ok h
      (omega arith)
