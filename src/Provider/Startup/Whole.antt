-- ===== src/Provider/Startup/Whole.antt =====
-- `recoverMessages` of lib/BdbStoreProvider.cpp as a whole.
use bdbmsgstore.Prelude.{ℕ, Bool, Option, none, some, List, []}
use bdbmsgstore.Word.{suc_u64}
use bdbmsgstore.IdSequence
use bdbmsgstore.PendingOperation.{PendingAsyncDequeue, PendingAsyncEnqueue}
use bdbmsgstore.AsyncLog.Logger.{MassContext, LogFiles}
use bdbmsgstore.AsyncLog.Extract.{Reading, ended, threw, out_of_fuel}
use bdbmsgstore.AsyncLog.Replay.{PendingSets}
use bdbmsgstore.AsyncLog.Recover.{recover_async_dequeue, recover_async_enqueue}
use bdbmsgstore.PidTracker.Record.{reset}
use bdbmsgstore.Journal.{JournalImpl, Outcome, returned, raised, undefined}
use bdbmsgstore.Journal.Berkeley.{Database}
use bdbmsgstore.Journal.Scan.{Row}
use bdbmsgstore.Message.{Buffer}
use bdbmsgstore.OrdMap.{OrdMap}
use bdbmsgstore.Provider.{BdbStoreProvider}
use bdbmsgstore.Provider.Recovery.Rows.{Broker, RecoverableMessage}
use bdbmsgstore.Provider.Recovery.Messages.{Recovering}
use bdbmsgstore.Provider.Startup.{Highest, Pass, recover_queues_messages, complete_queues}
use bdbmsgstore.Provider.Startup.Resume.{resume}

-- The maps that the broker gets, and the provider.
abbrev pub Recovered : Type 0 → Type 0
Recovered D = OrdMap RecoverableMessage × OrdMap (List ℕ) × BdbStoreProvider D

module _ {D : Type 0} (db : Database D) (rows : D → List Row) (mass : MassContext)
    (can_hold : ℕ → Bool) (b : Buffer) (broker : Broker) (enable_accept_recovery : Bool)
    (accepted_from_mongo : List (List ℕ)) (takes : Bool) where
  -- messageIdSequence.reset(highestRid + 1), tracker.reset(localLastPid), and the rest
  abbrev pub restart :
      Recovering → Highest → BdbStoreProvider D → (ℕ → Option (JournalImpl D)) → Recovered D
  restart r h s js = (
    r.message_map,
    r.message_queue_map,
    resume takes mass r.aeset r.adset (record s {
      aologger = r.aologger;
      journals = js;
      message_id_sequence = IdSequence.reset (suc_u64 h.highest_rid) s.message_id_sequence;
      tracker = reset h.local_last_pid s.tracker;
    }),
  )

  abbrev pub complete_pass :
      List ℕ → BdbStoreProvider D → Option (Outcome (Pass D)) → Option (Outcome (Recovered D))
  complete_pass queues s none = none
  complete_pass queues s (some (returned (js, r, h))) = elim (complete_queues db queues js) [
    | returned js' ↦ some (returned (restart r h s js'))
    | raised ↦ some raised
    | undefined ↦ some undefined
  ]
  complete_pass queues s (some raised) = some raised
  complete_pass queues s (some undefined) = some undefined

  abbrev pub both_read :
      ℕ
      → ℕ
      → List ℕ
      → BdbStoreProvider D
      → Reading (PendingSets PendingAsyncDequeue) × LogFiles
      → Reading (PendingSets PendingAsyncEnqueue) × LogFiles
      → Option (Outcome (Recovered D))
  both_read fuel highest_rid queues s (ended ad, deq) (ended ae, enq) = complete_pass queues s (
      recover_queues_messages db rows mass b broker enable_accept_recovery accepted_from_mongo fuel
        queues
        (
          s.journals,
          record {
            message_map = [];
            message_queue_map = [];
            found_msg = [];
            adset = ad.pending;
            aeset = ae.pending;
            aologger = record { enqueue_log = enq; dequeue_log = deq };
          },
          record { highest_rid = highest_rid; local_last_pid = 0 },
        ))
  both_read fuel highest_rid queues s (ended ad, deq) (threw ae, enq) = some raised
  both_read fuel highest_rid queues s (ended ad, deq) (out_of_fuel, enq) = none
  both_read fuel highest_rid queues s (threw ad, deq) e = some raised
  both_read fuel highest_rid queues s (out_of_fuel, deq) e = none

  -- `queues` are the ids of the recovered queues, in the order of their recovery.
  unfoldable pub recover_messages :
      ℕ → ℕ → List ℕ → BdbStoreProvider D → Option (Outcome (Recovered D))
  unfolding recover_queues_messages complete_queues resume
  recover_messages fuel highest_rid queues s =
      both_read fuel highest_rid queues s (recover_async_dequeue [] s.aologger.dequeue_log)
        (recover_async_enqueue can_hold [] s.aologger.enqueue_log)
