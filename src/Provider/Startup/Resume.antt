-- ===== src/Provider/Startup/Resume.antt =====
-- The end of `recoverMessages` (lib/BdbStoreProvider.cpp): the operations that are still pending are
-- handed to the pools.
use bdbmsgstore.Prelude.{Bool, List, [], ◌∷◌, ◌++◌, if◌then◌else◌, is_some}
use bdbmsgstore.TwoLevel.{TwoLevel, remove, values}
use bdbmsgstore.PendingOperation.{
  PendingOperationId, PendingAsyncDequeue, PendingAsyncEnqueue, op_id,
}
use bdbmsgstore.AsyncLog.Logger.{MassContext, log_mass_enqueue_dequeue_complete}
use bdbmsgstore.PidTracker.Smart.{will_enqueue}
use bdbmsgstore.Provider.{StoreTask, DequeueTask, BdbStoreProvider}

pub record Resuming (D : Type 0) : Type 0 where
  pub adset : TwoLevel PendingAsyncDequeue
  pub useless_list : List PendingOperationId
  pub provider : BdbStoreProvider D

abbrev pub store_task : PendingAsyncEnqueue → StoreTask
store_task pae = record {
  queue = pae.queue_id;
  buff = pae.buff;
  size = pae.size;
  pid = pae.msg_id;
  transient = pae.transient;
}

abbrev pub dequeue_task : PendingAsyncDequeue → DequeueTask
dequeue_task pad = record { msg_id = pad.msg_id; queue = pad.queue_id }

-- `takes` says whether a pool takes a task. A queue with no journal is only logged.
module _ {D : Type 0} (takes : Bool) where
  abbrev pub schedule_enqueue : PendingAsyncEnqueue → BdbStoreProvider D → BdbStoreProvider D
  schedule_enqueue pae s = record s {
    tracker =
        if s.enable_smart_async
        then (will_enqueue pae.msg_id pae.queue_id s.tracker).1
        else s.tracker;
    enqueue_pool = if takes then s.enqueue_pool ++ (store_task pae ∷ []) else s.enqueue_pool;
  }

  -- An enqueue with a pending dequeue is useless, and so is the dequeue.
  unfoldable pub resume_enqueue : PendingAsyncEnqueue → Resuming D → Resuming D
  resume_enqueue pae s =
      let (dequeued, adset') = remove pae.queue_id pae.msg_id s.adset in
      if dequeued
      then record s { adset = adset'; useless_list = s.useless_list ++ (op_id pae.operation ∷ []) }
      else if is_some (s.provider.journals pae.queue_id)
      then record s { provider = schedule_enqueue pae s.provider }
      else s

  unfoldable pub resume_enqueues : List PendingAsyncEnqueue → Resuming D → Resuming D
  unfolding resume_enqueue
  resume_enqueues [] s = s
  resume_enqueues (pae ∷ paes) s = resume_enqueues paes (resume_enqueue pae s)

  unfoldable pub resume_dequeue : PendingAsyncDequeue → BdbStoreProvider D → BdbStoreProvider D
  resume_dequeue pad s =
      if is_some (s.journals pad.queue_id)
      then record s {
        dequeue_pool = if takes then s.dequeue_pool ++ (dequeue_task pad ∷ []) else s.dequeue_pool;
      }
      else s

  unfoldable pub resume_dequeues :
      List PendingAsyncDequeue → BdbStoreProvider D → BdbStoreProvider D
  unfolding resume_dequeue
  resume_dequeues [] s = s
  resume_dequeues (pad ∷ pads) s = resume_dequeues pads (resume_dequeue pad s)

  -- Both loops, and the completions of what was found useless.
  unfoldable pub resume :
      MassContext
      → TwoLevel PendingAsyncEnqueue
      → TwoLevel PendingAsyncDequeue
      → BdbStoreProvider D
      → BdbStoreProvider D
  unfolding resume_enqueues resume_dequeues log_mass_enqueue_dequeue_complete
  resume mass aeset adset s =
      let r =
        resume_enqueues (values aeset)
          (record { adset = adset; useless_list = []; provider = s }) in
      let s' = resume_dequeues (values r.adset) r.provider in
      record s' { aologger = (log_mass_enqueue_dequeue_complete mass r.useless_list s'.aologger).1 }
