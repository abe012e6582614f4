-- ===== src/AsyncLog/Extract/Message.antt =====
-- One step of the enqueue loop, over the bytes of a whole record, and of one that was cut off.
use bdbmsgstore.Prelude.{
  ℕ, ◌≤◌, ◌<◌, ◌≡◌, refl, Bool, true, false, not, List, ◌++◌, arith, ◌==◌, if◌then◌else◌, le→ltb,
  lt→ltb, take, length, length-append, length-take, take-append_self, drop-append_self,
}
use bdbmsgstore.Bytes.{u64_mod}
use bdbmsgstore.PendingOperation.{PendingAsyncEnqueue, pending_operation}
use bdbmsgstore.AsyncLog.Replay.{PendingSets, start_seen, complete_seen}
use bdbmsgstore.AsyncLog.Extract.{stop, next, read_message, enqueue_step}
use bdbmsgstore.AsyncLog.Extract.Words.{
  words, enough-words, drop-words, get-words, get-words-drop, preamble, enough-preamble,
  drop-preamble, flag-preamble, get-preamble, get-preamble-qid, get-preamble-size,
}

abbrev pub flag_byte : Bool → ℕ
flag_byte t = if t then 1 else 0

flag_read : (t : Bool) → not (flag_byte t == 0) ≡ t
flag_read true = refl
flag_read false = refl

-- The pending enqueue that a start with these fields becomes.
abbrev pub stored : ℕ → ℕ → List ℕ → ℕ → Bool → PendingAsyncEnqueue
stored pid qid buff size t = record {
  operation = pending_operation pid qid;
  buff = take size buff;
  size = size;
  transient = t;
}

module _ (can_hold : ℕ → Bool) where
  pub read_message-whole :
      (pid qid size : ℕ) (t : Bool) (buff rest : List ℕ) (s : PendingSets PendingAsyncEnqueue)
      → can_hold size ≡ true
      → size ≤ length buff
      → read_message can_hold pid qid size t (take size buff ++ rest) s
        ≡ next rest (start_seen pid qid (stored pid qid buff size t) s)
  unfolding read_message
  read_message-whole pid qid size t buff rest s c h =
      let n = length-take size buff h in
      rw (
        c,
        le→ltb (length (take size buff ++ rest)) size
            (omega (arith, n, length-append {0} (take size buff) rest)),
        take-append_self size (take size buff) rest n,
        drop-append_self size (take size buff) rest n,
      )

  -- A message of which fewer bytes are there than its size says ends the loop.
  pub read_message-cut :
      (pid qid size : ℕ) (t : Bool) (body : List ℕ) (s : PendingSets PendingAsyncEnqueue)
      → can_hold size ≡ true
      → length body < size
      → read_message can_hold pid qid size t body s ≡ stop s
  unfolding read_message
  read_message-cut pid qid size t body s c h = rw (c, lt→ltb (length body) size h)

  pub enqueue_step-preamble :
      (pid qid size : ℕ) (t : Bool) (rest : List ℕ) (s : PendingSets PendingAsyncEnqueue)
      → pid < u64_mod
      → qid < u64_mod
      → size < u64_mod
      → enqueue_step can_hold 4 (preamble pid qid size (flag_byte t) rest) s
        ≡ read_message can_hold pid qid size t rest s
  unfolding enqueue_step
  enqueue_step-preamble pid qid size t rest s hp hq hs =
      let f = flag_byte t in
      rw (
        enough-preamble pid qid size f rest,
        get-preamble pid qid size f rest hp,
        get-preamble-qid pid qid size f rest hq,
        get-preamble-size pid qid size f rest hs,
        drop-preamble pid qid size f rest,
        flag-preamble pid qid size f rest,
        flag_read t,
      )

  pub enqueue_step_complete :
      (pid qid : ℕ) (rest : List ℕ) (s : PendingSets PendingAsyncEnqueue)
      → pid < u64_mod
      → qid < u64_mod
      → enqueue_step can_hold 5 (words pid qid rest) s ≡ next rest (complete_seen pid qid s)
  unfolding enqueue_step
  enqueue_step_complete pid qid rest s hp hq = rw (
    enough-words pid qid rest,
    get-words pid qid rest hp,
    get-words-drop pid qid rest hq,
    drop-words pid qid rest,
  )

  pub enqueue_step-short :
      (bytes : List ℕ) (s : PendingSets PendingAsyncEnqueue)
      → length bytes < 25
      → enqueue_step can_hold 4 bytes s ≡ stop s
  unfolding enqueue_step
  enqueue_step-short bytes s h = rw (lt→ltb (length bytes) 25 h)

  pub enqueue_step-short_complete :
      (bytes : List ℕ) (s : PendingSets PendingAsyncEnqueue)
      → length bytes < 16
      → enqueue_step can_hold 5 bytes s ≡ stop s
  unfolding enqueue_step
  enqueue_step-short_complete bytes s h = rw (lt→ltb (length bytes) 16 h)
