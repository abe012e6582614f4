-- ===== src/Provider/Tests.antt =====
-- Concrete runs of lib/BdbStoreProvider.cpp.
use bdbmsgstore.Prelude.{◌≡◌, refl, true, false, none, some, [], ◌∷◌, arith}
use bdbmsgstore.AsyncLog.Logger.{LogFiles, open_logger, log_enqueue_start, log_enqueue_complete}
use bdbmsgstore.AsyncLog.Replay.{start, complete, replay, no_sets}
use bdbmsgstore.AsyncLog.Replay.View.{idle, status}
use bdbmsgstore.IdSequence.{next}
use bdbmsgstore.OrdMap.{find}
use bdbmsgstore.TwoLevel.{lookup}
use bdbmsgstore.Journal.{JournalImpl, returned, open_journal, init_message_db}
use bdbmsgstore.Journal.Cells.{Cells, cells, stored, cells-IsDatabase}
use bdbmsgstore.Provider.{BdbStoreProvider, assign_id, enqueue, dequeue}
use bdbmsgstore.Provider.Pools.{store}
use bdbmsgstore.PidTracker.Record.{PidTracker, reset}
use bdbmsgstore.PidTracker.Wait.{wait_for_pid}
use bdbmsgstore.Provider.{DequeueTask}
use bdbmsgstore.Provider.Pools.{async_dequeue}
use bdbmsgstore.Provider.Remover.{DequeueResult, async_dequeue-DequeueResult}
use bdbmsgstore.Provider.Worker.{StoreResult, store-StoreResult}
use bdbmsgstore.Provider.Overtake.{task_of, dequeue_overtakes, start_after_two-idle}

abbrev no_files : LogFiles
no_files = record { index = 0; files = λ k. none; tmp = none }

abbrev opened : JournalImpl Cells
opened = (init_message_db cells (open_journal 2 true)).1

-- Each queue has a journal with two databases.
abbrev provider : BdbStoreProvider Cells
provider = record {
  aologger = open_logger no_files no_files;
  tracker = bdbmsgstore.PidTracker.Record.init;
  message_id_sequence = bdbmsgstore.IdSequence.init;
  enable_smart_async = true;
  journals = λ queue. some opened;
  enqueue_pool = [];
  dequeue_pool = [];
}

dequeue_overtakes_example :
    let pid = (assign_id 0 3 provider).0 in
    let e = enqueue true 3 0 (65 ∷ []) 1 false provider in
    let d = dequeue true 3 pid e.1 in
    let w = store cells (task_of cells 3 pid (65 ∷ []) 1 false) d.1 in
    (d.0 ≡ returned tt)
    × (d.1.dequeue_pool ≡ provider.dequeue_pool)
    × (w.0 ≡ returned tt)
    × (w.1.journals ≡ provider.journals)
    × (w.1.aologger
        ≡ (log_enqueue_complete pid 3
            (log_enqueue_complete pid 3
              (log_enqueue_start pid 3 (65 ∷ []) 1 false provider.aologger).1).1).1)
unfolding assign_id next
dequeue_overtakes_example =
    dequeue_overtakes cells 3 0 (65 ∷ []) 1 false provider opened (λ e. omega arith)
      (λ e. omega arith) refl tt refl

store-StoreResult_example :
    let r = store cells (task_of cells 3 7 (65 ∷ []) 1 false) provider in
    StoreResult cells stored (task_of cells 3 7 (65 ∷ []) 1 false) provider opened r.0 r.1
unfolding init_message_db open_journal
store-StoreResult_example =
    store-StoreResult cells stored cells-IsDatabase (task_of cells 3 7 (65 ∷ []) 1 false) provider
      opened refl
      (record { creates = refl; some_files = omega arith; as_many = refl; all_open = tt })

start_after_two-idle_example :
    status 3 7 (
      replay
        (start 7 3 true ∷ complete 7 3 ∷ complete 7 3 ∷ start 7 3 false ∷ [])
        (replay [] no_sets))
    ≡ idle
unfolding replay lookup find
start_after_two-idle_example = start_after_two-idle 3 7 [] true false refl

-- A worker that removes message 7, when the id has been reached.
abbrev remove_7 : DequeueTask
remove_7 = record { msg_id = 7; queue = 3 }

abbrev reached : PidTracker
reached = reset 7 bdbmsgstore.PidTracker.Record.init

async_dequeue-DequeueResult_example :
    DequeueResult cells stored true remove_7 reached [] reached [] provider opened
      (wait_for_pid 7 3 reached [] reached [])
      (async_dequeue cells true remove_7 reached [] reached [] provider)
unfolding init_message_db open_journal
async_dequeue-DequeueResult_example =
    async_dequeue-DequeueResult cells stored cells-IsDatabase true remove_7 reached [] reached []
      provider opened refl
      (record { creates = refl; some_files = omega arith; as_many = refl; all_open = tt })
