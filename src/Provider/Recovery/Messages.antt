-- ===== src/Provider/Recovery/Messages.antt =====
-- `decodeAndRecoverMsg` of lib/BdbStoreProvider.cpp as a whole.
use bdbmsgstore.Prelude.{ℕ, Bool, Option, none, some, List, []}
use bdbmsgstore.OrdMap.{OrdMap}
use bdbmsgstore.TwoLevel.{TwoLevel}
use bdbmsgstore.PendingOperation.{PendingAsyncDequeue, PendingAsyncEnqueue}
use bdbmsgstore.AsyncLog.Logger.{
  MassContext, AsyncOperationLogger, log_mass_enqueue_complete, log_mass_dequeue_complete,
  log_mass_enqueue_dequeue_complete,
}
use bdbmsgstore.Journal.{JournalImpl, Outcome, returned, raised, undefined, is_enqueued}
use bdbmsgstore.Journal.Berkeley.{Database}
use bdbmsgstore.Journal.Startup.{register_as_transient, register_as_accepted}
use bdbmsgstore.Journal.Scan.{Row, recover_messages}
use bdbmsgstore.Message.{Buffer}
use bdbmsgstore.Provider.Recovery.{
  QueueRecoverReport, empty_report, LogPass, pending_enqueues, ◌>>=◌,
}
use bdbmsgstore.Provider.Recovery.Rows.{Broker, RecoverableMessage, RowPass, recover_rows}

-- What the queues' recoveries pass on: the arguments by reference, and the log.
pub record Recovering : Type 0 where
  pub message_map : OrdMap RecoverableMessage
  pub message_queue_map : OrdMap (List ℕ)
  pub found_msg : List (List ℕ)
  pub adset : TwoLevel PendingAsyncDequeue
  pub aeset : TwoLevel PendingAsyncEnqueue
  pub aologger : AsyncOperationLogger

-- What one of them leaves; `max_rid` is returned.
pub record QueueRecovered (D : Type 0) : Type 0 where
  pub journal : JournalImpl D
  pub shared : Recovering
  pub report : QueueRecoverReport
  pub last_pid : ℕ
  pub max_rid : ℕ

abbrev pub first_pass : List Row → Recovering → LogPass
first_pass recovered r = record {
  adset = r.adset;
  useless_async = [];
  transient_async = [];
  first = 0;
  recovered = recovered;
  penq_recovered = [];
  aologger = r.aologger;
  report = empty_report;
}

abbrev pub second_pass : TwoLevel PendingAsyncEnqueue → LogPass → Recovering → RowPass
second_pass aeset s r = record {
  adset = s.adset;
  aeset = aeset;
  transient_msg = [];
  inner_accepted_msg = [];
  async_accepted_msg = [];
  transient_async = s.transient_async;
  useless_async = s.useless_async;
  dequeue_completed_async = [];
  penq_recovered = s.penq_recovered;
  found_msg = r.found_msg;
  last_pid = 0;
  max_rid = 0;
  report = s.report;
  message_map = r.message_map;
  message_queue_map = r.message_queue_map;
}

module _ (mass : MassContext) where
  -- The completions that were found missing are logged.
  unfoldable pub log_completions : RowPass → AsyncOperationLogger → AsyncOperationLogger
  unfolding log_mass_enqueue_complete log_mass_dequeue_complete log_mass_enqueue_dequeue_complete
  log_completions s l =
      let l' = (log_mass_enqueue_complete mass s.transient_async l).1 in
      let l'' = (log_mass_dequeue_complete mass s.dequeue_completed_async l').1 in
      (log_mass_enqueue_dequeue_complete mass s.useless_async l'').1

  abbrev pub finish : {D : Type 0} → JournalImpl D → LogPass → RowPass → QueueRecovered D
  finish j p s = record {
    journal =
        register_as_accepted s.async_accepted_msg
          (register_as_accepted s.inner_accepted_msg (register_as_transient s.transient_msg j));
    shared = record {
      message_map = s.message_map;
      message_queue_map = s.message_queue_map;
      found_msg = s.found_msg;
      adset = s.adset;
      aeset = s.aeset;
      aologger = log_completions s p.aologger;
    };
    report = s.report;
    last_pid = s.last_pid;
    max_rid = s.max_rid;
  }

module _ {D : Type 0} (db : Database D) (rows : D → List Row) (mass : MassContext) (b : Buffer)
    (broker : Broker) (enable_accept_recovery : Bool) (accepted_from_mongo : List (List ℕ)) where
  -- `recovered` is what was read from the journal.
  unfoldable pub decode_recovered :
      ℕ → JournalImpl D → List Row → Recovering → Outcome (QueueRecovered D)
  unfolding pending_enqueues recover_rows log_completions
  decode_recovered queue j recovered r =
      pending_enqueues queue (λ p. is_enqueued db p j) r.aeset (first_pass recovered r)
      >>= λ (ks : TwoLevel PendingAsyncEnqueue × LogPass).
          recover_rows b broker enable_accept_recovery accepted_from_mongo queue ks.1.recovered
            (second_pass ks.0 ks.1 r)
          >>= λ (s : RowPass). returned (finish mass j ks.1 s)

  abbrev pub after_read :
      ℕ
      → Recovering
      → Option (Outcome (List Row) × JournalImpl D)
      → Option (Outcome (QueueRecovered D))
  after_read queue r none = none
  after_read queue r (some (returned recovered, j)) = some (decode_recovered queue j recovered r)
  after_read queue r (some (raised, j)) = some raised
  after_read queue r (some (undefined, j)) = some undefined

  -- `none` where the fuel for reading the journal does not suffice.
  unfoldable pub decode_and_recover_msg :
      ℕ → ℕ → JournalImpl D → Recovering → Option (Outcome (QueueRecovered D))
  unfolding decode_recovered
  decode_and_recover_msg fuel queue j r = after_read queue r (recover_messages db rows fuel j)
