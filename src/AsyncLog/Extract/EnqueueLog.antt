-- ===== src/AsyncLog/Extract/EnqueueLog.antt =====
-- Reading an enqueue log back, with the messages that its starts carry.
use bdbmsgstore.Prelude.{
  All, ℕ, zero, suc, ◌+◌, ◌-◌, ◌<◌, ◌≡◌, refl, ap, ◌∙◌, inl, inr, Bool, true, some, List, [], ◌∷◌,
  ◌++◌, map, append_assoc, arith, ltb, ltb→lt, ltb→le, take, length, length-append, length-take-le,
  Bool-cases,
}
use bdbmsgstore.Bytes.{put_u64}
use bdbmsgstore.PendingOperation.{PendingAsyncEnqueue}
use bdbmsgstore.AsyncLog.Replay.{PendingSets, record_seen, replay}
use bdbmsgstore.AsyncLog.Format.{
  EnqRecord, enqueue_start, enqueue_complete, enq_bytes, enq_log, enq_record, IsEnqRecord,
}
use bdbmsgstore.AsyncLog.Extract.{
  stop, Reading, ended, read_loop, continue, enqueue_step, extract_pending_enqueue,
}
use bdbmsgstore.AsyncLog.Extract.Words.{length-preamble, preamble, preamble-take}
use bdbmsgstore.AsyncLog.Extract.Message.{
  flag_byte, read_message-whole, read_message-cut, enqueue_step-preamble, enqueue_step_complete,
  enqueue_step-short, enqueue_step-short_complete,
}

module _ (can_hold : ℕ → Bool) where
  -- A message that the log can give back: its words fit, its bytes are all there, and the vector for
  -- it can be had.
  abbrev pub IsReadable : EnqRecord → Type 0
  IsReadable (enqueue_start pid qid buff size t) =
      IsEnqRecord (enqueue_start pid qid buff size t) × (can_hold size ≡ true)
  IsReadable (enqueue_complete pid qid) = IsEnqRecord (enqueue_complete pid qid)

  start-append :
      (pid qid : ℕ) (buff : List ℕ) (size : ℕ) (t : Bool) (rest : List ℕ)
      → enq_bytes (enqueue_start pid qid buff size t) ++ rest
        ≡ 4 ∷ preamble pid qid size (flag_byte t) (take size buff ++ rest)
  unfolding enq_bytes put_u64
  start-append pid qid buff size t rest = refl

  -- The loop reads one whole record.
  read_loop-enq_bytes :
      (fuel : ℕ) (r : EnqRecord) (rest : List ℕ) (s : PendingSets PendingAsyncEnqueue)
      → IsReadable r
      → read_loop (enqueue_step can_hold) (suc fuel) (enq_bytes r ++ rest) s
        ≡ read_loop (enqueue_step can_hold) fuel rest (record_seen s (enq_record r))
  unfolding read_loop record_seen
  read_loop-enq_bytes fuel (enqueue_start pid qid buff size t) rest s h =
      rw (start-append pid qid buff size t rest) (
        ap (continue (enqueue_step can_hold) (read_loop (enqueue_step can_hold) fuel)) (
          enqueue_step-preamble can_hold pid qid size t (take size buff ++ rest) s h.0.0 h.0.1 h.0.2
          ∙ read_message-whole can_hold pid qid size t buff rest s h.1 h.0.3))
  read_loop-enq_bytes fuel (enqueue_complete pid qid) rest s h =
      unfold enq_bytes in
      ap (continue (enqueue_step can_hold) (read_loop (enqueue_step can_hold) fuel))
        (enqueue_step_complete can_hold pid qid rest s h.0 h.1)

  abbrev loop :
      ℕ → List ℕ → PendingSets PendingAsyncEnqueue → Reading (PendingSets PendingAsyncEnqueue)
  loop = read_loop (enqueue_step can_hold)

  torn_preamble :
      (fuel pid qid : ℕ) (buff : List ℕ) (size : ℕ) (t : Bool) (n : ℕ)
      (s : PendingSets PendingAsyncEnqueue)
      → IsReadable (enqueue_start pid qid buff size t)
      → n < 25 + size
      → enqueue_step can_hold 4 (take n (preamble pid qid size (flag_byte t) (take size buff))) s
        ≡ stop s
  torn_preamble fuel pid qid buff size t n s h lt = elim (Bool-cases (ltb n 25)) [
    | inl short ↦ enqueue_step-short can_hold _ s (
        omega (
          arith,
          ltb→lt n 25 short,
          length-take-le n (preamble pid qid size (flag_byte t) (take size buff)),
        ))
    | inr long ↦
        let cut = take (n - 25) (take size buff) in
        rw (preamble-take pid qid size (flag_byte t) (take size buff) n (ltb→le n 25 long)) (
          enqueue_step-preamble can_hold pid qid size t cut s h.0.0 h.0.1 h.0.2
          ∙ read_message-cut can_hold pid qid size t cut s h.1
              (omega (arith, ltb→le n 25 long, length-take-le (n - 25) (take size buff))))
  ]

  -- It ignores a record of which only the first `n` bytes are there.
  read_loop-torn :
      (fuel : ℕ) (r : EnqRecord) (n : ℕ) (s : PendingSets PendingAsyncEnqueue)
      → IsReadable r
      → n < length (enq_bytes r)
      → loop (suc fuel) (take n (enq_bytes r)) s ≡ ended s
  unfolding read_loop
  read_loop-torn fuel r zero s h lt = refl
  read_loop-torn fuel (enqueue_start pid qid buff size t) (suc n) s h lt =
      unfold enq_bytes in
      ap (continue (enqueue_step can_hold) (loop fuel)) (
        torn_preamble fuel pid qid buff size t n s h (
          omega (
            arith,
            length-preamble pid qid size (flag_byte t) (take size buff),
            length-take-le size buff,
          )))
  read_loop-torn fuel (enqueue_complete pid qid) (suc n) s h lt =
      unfold enq_bytes put_u64 in
      ap (continue (enqueue_step can_hold) (loop fuel)) (
        enqueue_step-short_complete can_hold _ s
          (omega (arith, length-take-le n (put_u64 pid ++ put_u64 qid))))

  enq_bytes_pos : (r : EnqRecord) → 0 < length (enq_bytes r)
  unfolding enq_bytes
  enq_bytes_pos (enqueue_start pid qid buff size t) = omega arith
  enq_bytes_pos (enqueue_complete pid qid) = omega arith

  read_loop-enq_log :
      (fuel : ℕ) (rs : List EnqRecord) (torn : EnqRecord) (n : ℕ)
      (s : PendingSets PendingAsyncEnqueue)
      → All IsReadable rs
      → IsReadable torn
      → n < length (enq_bytes torn)
      → length (enq_log rs ++ take n (enq_bytes torn)) < fuel
      → loop fuel (enq_log rs ++ take n (enq_bytes torn)) s ≡ ended (replay (map enq_record rs) s)
  unfolding enq_log replay
  read_loop-enq_log zero rs torn n s ok tok h lt = absurd (omega arith)
  read_loop-enq_log (suc fuel) [] torn n s ok tok h lt = read_loop-torn fuel torn n s tok h
  read_loop-enq_log (suc fuel) (r ∷ rs) torn n s ok tok h lt =
      let tail = enq_log rs ++ take n (enq_bytes torn) in
      rw append_assoc (
        read_loop-enq_bytes fuel r tail s ok.0
        ∙ read_loop-enq_log fuel rs torn n (record_seen s (enq_record r)) ok.1 tok h (
            omega (
              arith,
              ap length (append_assoc (enq_bytes r) (enq_log rs) (take n (enq_bytes torn))),
              length-append {0} (enq_bytes r) tail,
              enq_bytes_pos r,
            )))

  -- Reading an enqueue log gives the replay of its records, each start with its message, in order and
  -- from any sets; a further record of which only the first bytes were written is ignored. The loop
  -- ends. The records are readable: words fit, the bytes are there, and the vector can be had.
  pub extract-enq_log :
      (rs : List EnqRecord) (torn : EnqRecord) (n : ℕ) (s : PendingSets PendingAsyncEnqueue)
      → All IsReadable rs
      → IsReadable torn
      → n < length (enq_bytes torn)
      → extract_pending_enqueue can_hold (some (enq_log rs ++ take n (enq_bytes torn))) s
        ≡ ended (replay (map enq_record rs) s)
  unfolding extract_pending_enqueue
  extract-enq_log rs torn n s ok tok h =
      read_loop-enq_log (suc (length (enq_log rs ++ take n (enq_bytes torn)))) rs torn n s ok tok h
        (omega arith)
