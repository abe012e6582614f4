-- ===== src/Provider.antt =====
-- The asynchronous operations of lib/BdbStoreProvider.cpp: `enqueue` and `dequeue`, which the broker
-- calls, here, and in Pools what the threads of the two pools run; Recovery and Startup have the
-- recovery of the messages. The provider is initialised, and no management object counts. Each call
-- below is made of the steps that the log, the tracker and the journal take under their mutexes.
pub mod Pools
pub mod Worker
pub mod Overtake
pub mod Remover
pub mod Recovery
pub mod Startup
mod Tests
use bdbmsgstore.Prelude.{
  ℕ, zero, suc, ◌+◌, Bool, true, false, not, Option, none, some, List, [], ◌∷◌, ◌++◌, ◌==◌,
  if◌then◌else◌, is_some,
}
use bdbmsgstore.Prelude.Int.{pos, negsuc}
use bdbmsgstore.AsyncLog.Logger.{
  AsyncOperationLogger, log_enqueue_start, log_enqueue_complete, log_dequeue_start,
  log_dequeue_complete,
}
use bdbmsgstore.IdSequence.{IdSequence, next}
use bdbmsgstore.PidTracker.Record.{PidTracker, add_pid}
use bdbmsgstore.PidTracker.Duplicates.{add_duplicate}
use bdbmsgstore.PidTracker.Smart.{will_enqueue, dequeue_check, enqueue_check}
use bdbmsgstore.PidTracker.Wait.{Wait, passed, returned, blocked, wait_for_pid}
use bdbmsgstore.Journal.{JournalImpl, Outcome, raised, undefined, enqueue_data, dequeue_data}
use bdbmsgstore.Journal.Berkeley.{Database}

-- The bound arguments of a scheduled `store`: the queue of the journal, the encoded message, its size,
-- its id, and whether it is transient.
pub record StoreTask : Type 0 where
  pub queue : ℕ
  pub buff : List ℕ
  pub size : ℕ
  pub pid : ℕ
  pub transient : Bool

-- Those of a scheduled `async_dequeue`.
pub record DequeueTask : Type 0 where
  pub msg_id : ℕ
  pub queue : ℕ

-- A queue's journal, the store that the broker keeps for it, is found by the queue's id.
pub record BdbStoreProvider (D : Type 0) : Type 0 where
  pub aologger : AsyncOperationLogger
  pub tracker : PidTracker
  pub message_id_sequence : IdSequence
  pub enable_smart_async : Bool
  pub journals : ℕ → Option (JournalImpl D)
  pub enqueue_pool : List StoreTask
  pub dequeue_pool : List DequeueTask

module _ {D : Type 0} where
  -- if (messageId == 0) ... else tracker.addDuplicate(messageId, queueId)
  unfoldable pub assign_id : ℕ → ℕ → BdbStoreProvider D → ℕ × BdbStoreProvider D
  assign_id message_id queue_id s =
      let (fresh, ids) = next s.message_id_sequence in
      if message_id == 0
      then (fresh, record s { message_id_sequence = ids })
      else (message_id, record s { tracker = (add_duplicate message_id queue_id s.tracker).1 })

  unfoldable pub start_enqueue : ℕ → ℕ → List ℕ → ℕ → Bool → BdbStoreProvider D → BdbStoreProvider D
  start_enqueue message_id queue_id buff size transient s = record s {
    aologger = (log_enqueue_start message_id queue_id buff size transient s.aologger).1;
    tracker =
        if s.enable_smart_async then (will_enqueue message_id queue_id s.tracker).1 else s.tracker;
  }

  unfoldable pub schedule_store : StoreTask → BdbStoreProvider D → BdbStoreProvider D
  schedule_store task s = record s { enqueue_pool = s.enqueue_pool ++ (task ∷ []) }

  -- `scheduled` says whether the pool takes the task, `buff` and `size` are what `msgEncode` makes of
  -- the message. The message's id is returned.
  unfoldable pub enqueue :
      Bool → ℕ → ℕ → List ℕ → ℕ → Bool → BdbStoreProvider D → Outcome ℕ × BdbStoreProvider D
  unfolding assign_id start_enqueue schedule_store
  enqueue scheduled queue_id message_id buff size transient s =
      let (pid, s') = assign_id message_id queue_id s in
      let s'' = start_enqueue pid queue_id buff size transient s' in
      if queue_id == 0
      then (raised, s)
      else if scheduled
      then (
        Outcome.returned pid,
        schedule_store
            (record {
              queue = queue_id;
              buff = buff;
              size = size;
              pid = pid;
              transient = transient;
            })
            s'',
      )
      else (raised, s'')

  unfoldable pub dequeue_now :
      Bool → ℕ → ℕ → BdbStoreProvider D → Outcome (Unit {0}) × BdbStoreProvider D
  dequeue_now scheduled queue_id message_id s =
      let s' = record s { aologger = (log_dequeue_start message_id queue_id s.aologger).1 } in
      if scheduled
      then (
        Outcome.returned tt,
        record s' {
          dequeue_pool = s'.dequeue_pool ++ (record { msg_id = message_id; queue = queue_id } ∷ []);
        },
      )
      else (raised, s')

  unfoldable pub dequeue :
      Bool → ℕ → ℕ → BdbStoreProvider D → Outcome (Unit {0}) × BdbStoreProvider D
  unfolding dequeue_now
  dequeue scheduled queue_id message_id s =
      let (required, tracker') = dequeue_check message_id queue_id s.tracker in
      let checked = record s { tracker = tracker' } in
      if message_id == 0
      then (raised, s)
      else if queue_id == 0
      then (raised, s)
      else if s.enable_smart_async
      then if required then dequeue_now scheduled queue_id message_id checked else (
        Outcome.returned tt,
        record checked { aologger = (log_enqueue_complete message_id queue_id checked.aologger).1 },
      )
      else dequeue_now scheduled queue_id message_id s
