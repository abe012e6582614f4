-- ===== src/Provider/Startup.antt =====
-- `recoverMessages` of lib/BdbStoreProvider.cpp: the recovery of all queues at start-up, and the
-- operations that are scheduled again. The pools have no thread at work yet. `compact_message_database`
-- of lib/JournalImpl.cpp returns at once, and the cleaner threads are started at the end.
pub mod Resume
pub mod Turned
pub mod Resumed
pub mod Whole
mod Tests
use bdbmsgstore.Prelude.{
  ℕ, suc, ◌+◌, ◌^◌, Bool, true, false, Option, none, some, List, [], ◌∷◌, ◌++◌, ltb, ◌==◌,
  if◌then◌else◌, is_some, take,
}
use bdbmsgstore.Word.{sub_u64, suc_u64}
use bdbmsgstore.OrdMap.{OrdMap}
use bdbmsgstore.TwoLevel.{TwoLevel, remove, values}
use bdbmsgstore.IdSequence.{IdSequence}
use bdbmsgstore.PendingOperation.{
  PendingOperationId, PendingAsyncDequeue, PendingAsyncEnqueue, op_id,
}
use bdbmsgstore.AsyncLog.Logger.{
  MassContext, AsyncOperationLogger, LogFiles, log_mass_enqueue_dequeue_complete,
}
use bdbmsgstore.AsyncLog.Extract.{Reading, ended, threw, out_of_fuel}
use bdbmsgstore.AsyncLog.Replay.{PendingSets}
use bdbmsgstore.AsyncLog.Recover.{recover_async_dequeue, recover_async_enqueue}
use bdbmsgstore.PidTracker.Record.{PidTracker, reset}
use bdbmsgstore.PidTracker.Smart.{will_enqueue}
use bdbmsgstore.Journal.{JournalImpl, Outcome, returned, raised, undefined}
use bdbmsgstore.Journal.Berkeley.{Database}
use bdbmsgstore.Journal.Scan.{Row}
use bdbmsgstore.Journal.Startup.{
  discard_transient_message, discard_accepted_message, recover_complete,
}
use bdbmsgstore.Message.{Buffer}
use bdbmsgstore.Provider.{StoreTask, DequeueTask, BdbStoreProvider}
use bdbmsgstore.Provider.Pools.{set_journal}
use bdbmsgstore.Provider.Recovery.{◌>>=◌}
use bdbmsgstore.Provider.Recovery.Rows.{Broker}
use bdbmsgstore.Provider.Recovery.Messages.{Recovering, QueueRecovered, decode_and_recover_msg}

-- The later of two ids by RFC 1982, where 0 stands for none yet.
unfoldable pub later_id : ℕ → ℕ → ℕ
later_id highest this =
    if highest == 0 then this else if ltb (sub_u64 this highest) (2 ^ 63) then this else highest

pub record Highest : Type 0 where
  pub highest_rid : ℕ
  pub local_last_pid : ℕ

abbrev pub raise_highest : {D : Type 0} → QueueRecovered D → Highest → Highest
raise_highest d h = record {
  highest_rid = later_id h.highest_rid d.max_rid;
  local_last_pid = later_id h.local_last_pid d.last_pid;
}

-- The state of the first loop: the journals, what is passed on, and the highest ids.
abbrev pub Pass : Type 0 → Type 0
Pass D = (ℕ → Option (JournalImpl D)) × Recovering × Highest

module _ {D : Type 0} (db : Database D) (rows : D → List Row) (mass : MassContext) (b : Buffer)
    (broker : Broker) (enable_accept_recovery : Bool) (accepted_from_mongo : List (List ℕ)) where
  abbrev pub after_queue :
      ℕ → Pass D → Option (Outcome (QueueRecovered D)) → Option (Outcome (Pass D))
  after_queue queue (js, r, h) none = none
  after_queue queue (js, r, h) (some (returned d)) =
      some (returned (set_journal queue d.journal js, d.shared, raise_highest d h))
  after_queue queue (js, r, h) (some raised) = some raised
  after_queue queue (js, r, h) (some undefined) = some undefined

  abbrev pub queue_at : ℕ → ℕ → Pass D → Option (JournalImpl D) → Option (Outcome (Pass D))
  queue_at fuel queue s none = some undefined
  queue_at fuel queue s (some j) = after_queue queue s (
      decode_and_recover_msg db rows mass b broker enable_accept_recovery accepted_from_mongo fuel
        queue j s.1)

  abbrev pub go_on :
      (Pass D → Option (Outcome (Pass D))) → Option (Outcome (Pass D)) → Option (Outcome (Pass D))
  go_on rest none = none
  go_on rest (some (returned s)) = rest s
  go_on rest (some raised) = some raised
  go_on rest (some undefined) = some undefined

  -- The loop over the recovered queues.
  unfoldable pub recover_queues_messages : ℕ → List ℕ → Pass D → Option (Outcome (Pass D))
  recover_queues_messages fuel [] s = some (returned s)
  recover_queues_messages fuel (queue ∷ queues) s =
      go_on (recover_queues_messages fuel queues) (queue_at fuel queue s (s.0 queue))

module _ {D : Type 0} (db : Database D) where
  abbrev pub then_journal :
      (JournalImpl D → Outcome (Unit {0}) × JournalImpl D)
      → Outcome (Unit {0}) × JournalImpl D
      → Outcome (Unit {0}) × JournalImpl D
  then_journal f (returned u, j) = f j
  then_journal f (raised, j) = (raised, j)
  then_journal f (undefined, j) = (undefined, j)

  -- Both lists are discarded here, and once more, empty, by `recover_complete`.
  unfoldable pub complete_journal : JournalImpl D → Outcome (Unit {0}) × JournalImpl D
  unfolding discard_transient_message discard_accepted_message recover_complete
  complete_journal j =
      then_journal (recover_complete db)
        (then_journal (discard_accepted_message db) (discard_transient_message db j))

  abbrev pub keep_journal :
      ℕ
      → (ℕ → Option (JournalImpl D))
      → Outcome (Unit {0}) × JournalImpl D
      → Outcome (ℕ → Option (JournalImpl D))
  keep_journal queue js (returned u, j) = returned (set_journal queue j js)
  keep_journal queue js (raised, j) = raised
  keep_journal queue js (undefined, j) = undefined

  abbrev pub complete_at :
      ℕ
      → (ℕ → Option (JournalImpl D))
      → Option (JournalImpl D)
      → Outcome (ℕ → Option (JournalImpl D))
  complete_at queue js none = undefined
  complete_at queue js (some j) = keep_journal queue js (complete_journal j)

  unfoldable pub complete_queues :
      List ℕ → (ℕ → Option (JournalImpl D)) → Outcome (ℕ → Option (JournalImpl D))
  complete_queues [] js = returned js
  complete_queues (queue ∷ queues) js = complete_at queue js (js queue) >>= complete_queues queues
