-- ===== src/Provider/Startup/Tests.antt =====
-- Concrete ends of the recovery of lib/BdbStoreProvider.cpp.
use bdbmsgstore.Prelude.{◌≡◌, refl, true, false, none, some, [], ◌∷◌, arith}
use bdbmsgstore.OrdMap.{find, erase, assign}
use bdbmsgstore.TwoLevel.{TwoLevel, remove, put_back}
use bdbmsgstore.AsyncLog.Logger.{MassContext, LogFiles, open_logger}
use bdbmsgstore.PendingOperation.{PendingAsyncDequeue, PendingAsyncEnqueue, pending_operation}
use bdbmsgstore.Journal.{open_journal}
use bdbmsgstore.Journal.Cells.{Cells}
use bdbmsgstore.Provider.{BdbStoreProvider}
use bdbmsgstore.Provider.Startup.{later_id}
use bdbmsgstore.Provider.Startup.Resume.{resume}
use bdbmsgstore.Provider.Startup.Resumed.{Resumed, resume-Resumed}

-- Memory can be had, and no other thread writes to the logs.
abbrev alone : MassContext
alone = record { malloc = λ n. true; before_enqueues = λ k l. l; before_dequeues = λ k l. l }

abbrev no_files : LogFiles
no_files = record { index = 0; files = λ k. none; tmp = none }

abbrev provider : BdbStoreProvider Cells
provider = record {
  aologger = open_logger no_files no_files;
  tracker = bdbmsgstore.PidTracker.Record.init;
  message_id_sequence = bdbmsgstore.IdSequence.init;
  enable_smart_async = true;
  journals = λ queue. some (open_journal 2 true);
  enqueue_pool = [];
  dequeue_pool = [];
}

abbrev starts : TwoLevel PendingAsyncEnqueue
starts =
    (
      3,
      (7, record { operation = pending_operation 7 3; buff = []; size = 0; transient = false })
          ∷ (
            8,
            record { operation = pending_operation 8 3; buff = []; size = 0; transient = false },
          )
          ∷ [],
    )
    ∷ []

abbrev dequeues : TwoLevel PendingAsyncDequeue
dequeues =
    (
      3,
      (5, record { operation = pending_operation 5 3 })
          ∷ (7, record { operation = pending_operation 7 3 })
          ∷ [],
    )
    ∷ []

resume-Resumed_example :
    Resumed starts dequeues provider (resume true alone starts dequeues provider)
resume-Resumed_example =
    resume-Resumed alone starts dequeues provider
      (omega arith, (omega arith, (omega arith, tt)), refl, tt)

-- 8 is stored, 5 is removed, and 7 is neither.
resume_run :
    let s = resume true alone starts dequeues provider in
    (s.enqueue_pool ≡ record { queue = 3; buff = []; size = 0; pid = 8; transient = false } ∷ [])
    × (s.dequeue_pool ≡ record { msg_id = 5; queue = 3 } ∷ [])
unfolding resume remove find put_back erase assign
resume_run = (refl, refl)

later_id_run : later_id 5 9 ≡ 9
unfolding later_id
later_id_run = refl
