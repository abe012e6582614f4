-- ===== src/AsyncLog/Format.antt =====
-- The records of the two logs, as the functions of lib/AsyncOperationLogger.cpp write them.
use bdbmsgstore.Prelude.{ℕ, ◌≤◌, ◌<◌, Bool, List, [], ◌∷◌, ◌++◌, take, length, if◌then◌else◌}
use bdbmsgstore.Bytes.{u64_mod, put_u64}
use bdbmsgstore.PendingOperation.{
  PendingAsyncEnqueue, PendingAsyncDequeue, pending_dequeue, pending_operation,
}
use bdbmsgstore.AsyncLog.Replay.{Record, start, complete}

abbrev pub aolog_dequeue_start : ℕ
aolog_dequeue_start = 2

abbrev pub aolog_dequeue_complete : ℕ
aolog_dequeue_complete = 3

abbrev pub aolog_enqueue_start : ℕ
aolog_enqueue_start = 4

abbrev pub aolog_enqueue_complete : ℕ
aolog_enqueue_complete = 5

-- A record of the dequeue log.
pub data DeqRecord : Type 0 where
  dequeue_start : ℕ → ℕ → DeqRecord
  dequeue_complete : ℕ → ℕ → DeqRecord

-- A record of the enqueue log; a start carries the buffer, the size and the transient flag.
pub data EnqRecord : Type 0 where
  enqueue_start : ℕ → ℕ → List ℕ → ℕ → Bool → EnqRecord
  enqueue_complete : ℕ → ℕ → EnqRecord

-- The buffer of `log_dequeue_start_on_file`.
unfoldable pub dequeue_start_buff : ℕ → ℕ → List ℕ
dequeue_start_buff pid qid = aolog_dequeue_start ∷ (put_u64 pid ++ put_u64 qid)

-- The buffer of `log_dequeue_complete`.
unfoldable pub dequeue_complete_buff : ℕ → ℕ → List ℕ
dequeue_complete_buff pid qid = aolog_dequeue_complete ∷ (put_u64 pid ++ put_u64 qid)

-- The buffer of `log_enqueue_complete`.
unfoldable pub enqueue_complete_buff : ℕ → ℕ → List ℕ
enqueue_complete_buff pid qid = aolog_enqueue_complete ∷ (put_u64 pid ++ put_u64 qid)

-- The preamble that `log_enqueue_start_on_file` fills, and the `buffsize` bytes of the message that it
-- writes behind the preamble.
unfoldable pub enqueue_start_buff : ℕ → ℕ → List ℕ → ℕ → Bool → List ℕ
enqueue_start_buff pid qid buff buffsize transient =
    aolog_enqueue_start
    ∷ (put_u64 pid
        ++ (put_u64 qid
            ++ (put_u64 buffsize ++ ((if transient then 1 else 0) ∷ take buffsize buff))))

unfoldable pub deq_bytes : DeqRecord → List ℕ
unfolding dequeue_start_buff dequeue_complete_buff
deq_bytes (dequeue_start pid qid) = dequeue_start_buff pid qid
deq_bytes (dequeue_complete pid qid) = dequeue_complete_buff pid qid

unfoldable pub enq_bytes : EnqRecord → List ℕ
unfolding enqueue_start_buff enqueue_complete_buff
enq_bytes (enqueue_start pid qid buff size transient) =
    enqueue_start_buff pid qid buff size transient
enq_bytes (enqueue_complete pid qid) = enqueue_complete_buff pid qid

unfoldable pub deq_log : List DeqRecord → List ℕ
deq_log [] = []
deq_log (r ∷ rs) = deq_bytes r ++ deq_log rs

unfoldable pub enq_log : List EnqRecord → List ℕ
enq_log [] = []
enq_log (r ∷ rs) = enq_bytes r ++ enq_log rs

-- What a reader makes of a record.
abbrev pub deq_record : DeqRecord → Record PendingAsyncDequeue
deq_record (dequeue_start pid qid) = start pid qid (pending_dequeue pid qid)
deq_record (dequeue_complete pid qid) = complete pid qid

abbrev pub enq_record : EnqRecord → Record PendingAsyncEnqueue
enq_record (enqueue_start pid qid buff size transient) = start pid qid (record {
  operation = pending_operation pid qid;
  buff = take size buff;
  size = size;
  transient = transient;
})
enq_record (enqueue_complete pid qid) = complete pid qid

-- The ids are 64-bit words.
abbrev pub IsDeqRecord : DeqRecord → Type 0
IsDeqRecord (dequeue_start pid qid) = (pid < u64_mod) × (qid < u64_mod)
IsDeqRecord (dequeue_complete pid qid) = (pid < u64_mod) × (qid < u64_mod)

-- The ids and the size are 64-bit words, and the buffer holds the bytes that the size promises.
abbrev pub IsEnqRecord : EnqRecord → Type 0
IsEnqRecord (enqueue_start pid qid buff size transient) =
    (pid < u64_mod) × (qid < u64_mod) × (size < u64_mod) × (size ≤ length buff)
IsEnqRecord (enqueue_complete pid qid) = (pid < u64_mod) × (qid < u64_mod)
