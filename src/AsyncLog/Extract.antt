-- ===== src/AsyncLog/Extract.antt =====
-- The reading loops of lib/AsyncOperationLogger.cpp. `infile.read` of n bytes fails, and sets `eof`,
-- when fewer are left; the loop runs until `eof`. So a step takes the opcode that was read and the
-- bytes behind it, and says how the loop goes on.
pub mod Words
pub mod DequeueLog
pub mod Message
pub mod EnqueueLog
use bdbmsgstore.Prelude.{
  ℕ, zero, suc, Bool, not, Option, none, some, List, [], ◌∷◌, ltb, ◌==◌, if◌then◌else◌, take, drop,
  length, get_elem?, get_or,
}
use bdbmsgstore.Bytes.{get_u64}
use bdbmsgstore.PendingOperation.{
  PendingAsyncEnqueue, PendingAsyncDequeue, pending_dequeue, pending_enqueue,
}
use bdbmsgstore.AsyncLog.Replay.{PendingSets, start_seen, complete_seen}
use bdbmsgstore.AsyncLog.Format.{
  aolog_dequeue_start, aolog_dequeue_complete, aolog_enqueue_start, aolog_enqueue_complete,
}

-- The file ended; the loop goes on at the given bytes; or the vector for a message could not be had.
pub data Step (S : Type 0) : Type 0 where
  stop : S → Step S
  next : List ℕ → S → Step S
  raise : S → Step S

pub data Reading (S : Type 0) : Type 0 where
  ended : S → Reading S
  threw : S → Reading S
  out_of_fuel : Reading S

-- do { infile.read(&opcode, 1); ... } while (!infile.eof());
module _ {S : Type 0} (step : ℕ → List ℕ → S → Step S) where
  abbrev pub continue : (List ℕ → S → Reading S) → Step S → Reading S
  continue loop (stop s) = ended s
  continue loop (next rest s) = loop rest s
  continue loop (raise s) = threw s

  unfoldable pub read_loop : ℕ → List ℕ → S → Reading S
  read_loop zero bytes s = out_of_fuel
  read_loop (suc fuel) [] s = ended s
  read_loop (suc fuel) (opcode ∷ rest) s = continue (read_loop fuel) (step opcode rest s)

-- `switch (opcode)` of `extractPendingDequeueFromFile`; an unknown opcode is skipped.
unfoldable pub dequeue_step :
    ℕ → List ℕ → PendingSets PendingAsyncDequeue → Step (PendingSets PendingAsyncDequeue)
dequeue_step opcode rest s =
    let pid = get_u64 rest in
    let qid = get_u64 (drop 8 rest) in
    if opcode == aolog_dequeue_start
    then if ltb (length rest) 16
      then stop s
      else next (drop 16 rest) (start_seen pid qid (pending_dequeue pid qid) s)
    else if opcode == aolog_dequeue_complete
    then if ltb (length rest) 16 then stop s else next (drop 16 rest) (complete_seen pid qid s)
    else next rest s

-- `switch (opcode)` of `extractPendingEnqueueFromFile`. `can_hold` says for which sizes
-- `std::vector<char>(size)` does not throw.
module _ (can_hold : ℕ → Bool) where
  -- The start's preamble has been read.
  unfoldable pub read_message :
      ℕ
      → ℕ
      → ℕ
      → Bool
      → List ℕ
      → PendingSets PendingAsyncEnqueue
      → Step (PendingSets PendingAsyncEnqueue)
  read_message pid qid size transient body s =
      if can_hold size
      then if ltb (length body) size
        then stop s
        else next (drop size body) (
            start_seen pid qid
              (record (pending_enqueue pid qid transient) { buff = take size body; size = size }) s)
      else raise s

  unfoldable pub enqueue_step :
      ℕ → List ℕ → PendingSets PendingAsyncEnqueue → Step (PendingSets PendingAsyncEnqueue)
  unfolding read_message
  enqueue_step opcode rest s =
      let pid = get_u64 rest in
      let qid = get_u64 (drop 8 rest) in
      let flag = get_or (get_elem? rest 24) 0 in
      if opcode == aolog_enqueue_start
      then if ltb (length rest) 25
        then stop s
        else read_message pid qid (get_u64 (drop 16 rest)) (not (flag == 0)) (drop 25 rest) s
      else if opcode == aolog_enqueue_complete
      then if ltb (length rest) 16 then stop s else next (drop 16 rest) (complete_seen pid qid s)
      else next rest s

-- A file that cannot be opened leaves the sets as they are.
abbrev pub read_file : {S : Type 0} → (ℕ → List ℕ → S → Step S) → Option (List ℕ) → S → Reading S
read_file step none s = ended s
read_file step (some bytes) s = read_loop step (suc (length bytes)) bytes s

unfoldable pub extract_pending_dequeue :
    Option (List ℕ) → PendingSets PendingAsyncDequeue → Reading (PendingSets PendingAsyncDequeue)
unfolding dequeue_step read_loop
extract_pending_dequeue file s = read_file dequeue_step file s

unfoldable pub extract_pending_enqueue :
    (ℕ → Bool)
    → Option (List ℕ)
    → PendingSets PendingAsyncEnqueue
    → Reading (PendingSets PendingAsyncEnqueue)
unfolding enqueue_step read_loop
extract_pending_enqueue can_hold file s = read_file (enqueue_step can_hold) file s
