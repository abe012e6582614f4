-- ===== src/Provider/Recovery.antt =====
-- The recovery of one queue's messages, `decodeAndRecoverMsg` of lib/BdbStoreProvider.cpp: what it
-- keeps of its arguments and locals, and its first loop, over the pending enqueues of all queues. An
-- exception ends the start-up: what was logged before it is not followed further.
pub mod Rows
pub mod Messages
pub mod Pending
pub mod Passed
pub mod Given
pub mod Delivery
mod Tests
use bdbmsgstore.Prelude.{
  ℕ, ◌+◌, Bool, true, false, List, [], ◌∷◌, ◌++◌, ltb, ◌==◌, if◌then◌else◌, take,
}
use bdbmsgstore.OrdMap.{OrdMap, IdSet, insert, empty}
use bdbmsgstore.TwoLevel.{TwoLevel, remove}
use bdbmsgstore.PendingOperation.{
  PendingOperationId, PendingAsyncDequeue, PendingAsyncEnqueue, op_id,
}
use bdbmsgstore.AsyncLog.Logger.{AsyncOperationLogger, log_enqueue_complete}
use bdbmsgstore.Journal.{Outcome, returned, raised, undefined}
use bdbmsgstore.Journal.Scan.{Row}

infixl 5 ◌>>=◌
abbrev pub ◌>>=◌ : {A B : Type 0} → Outcome A → (A → Outcome B) → Outcome B
returned a >>= f = f a
raised >>= f = raised
undefined >>= f = undefined

pub record QueueRecoverReport : Type 0 where
  pub rcnt : ℕ
  pub acnt : ℕ
  pub aacnt : ℕ
  pub tcnt : ℕ
  pub dbcnt : ℕ
  pub logcnt : ℕ
  pub wacnt : ℕ

abbrev pub empty_report : QueueRecoverReport
empty_report = record { rcnt = 0; acnt = 0; aacnt = 0; tcnt = 0; dbcnt = 0; logcnt = 0; wacnt = 0 }

-- What the first loop changes.
pub record LogPass : Type 0 where
  pub adset : TwoLevel PendingAsyncDequeue
  pub useless_async : List PendingOperationId
  pub transient_async : List PendingOperationId
  pub first : ℕ
  pub recovered : List Row
  pub penq_recovered : IdSet
  pub aologger : AsyncOperationLogger
  pub report : QueueRecoverReport

-- Dequeue start before enqueue complete: no recovery.
abbrev pub drop_useless : PendingAsyncEnqueue → TwoLevel PendingAsyncDequeue → LogPass → LogPass
drop_useless pae adset' s = record s {
  adset = adset';
  useless_async = s.useless_async ++ (op_id pae.operation ∷ []);
  report = record s.report { aacnt = s.report.aacnt + 1 };
}

abbrev pub drop_transient : PendingAsyncEnqueue → LogPass → LogPass
drop_transient pae s = record s {
  transient_async = s.transient_async ++ (op_id pae.operation ∷ []);
}

abbrev pub drop_stored : PendingAsyncEnqueue → LogPass → LogPass
drop_stored pae s = record s {
  aologger = (log_enqueue_complete pae.msg_id pae.queue_id s.aologger).1;
  report = record s.report { wacnt = s.report.wacnt + 1 };
  first = s.first + 1;
}

abbrev pub take_up : ℕ → PendingAsyncEnqueue → LogPass → LogPass
take_up first' pae s = record s {
  first = first';
  recovered = s.recovered ++ ((pae.msg_id, take pae.size pae.buff) ∷ []);
  penq_recovered = insert pae.msg_id tt s.penq_recovered;
}

-- `queue` is the id of the journal's queue, and `is_enqueued` asks the journal.
module _ (queue : ℕ) (is_enqueued : ℕ → Outcome Bool) where
  abbrev pub after_check : PendingAsyncEnqueue → LogPass → Bool → Outcome (Bool × LogPass)
  after_check pae s true = returned (false, drop_stored pae s)
  after_check pae s false = returned (true, take_up (s.first + 1) pae s)

  -- The body of the loop: whether the entry stays in the set of pending enqueues.
  unfoldable pub pending_enqueue : PendingAsyncEnqueue → LogPass → Outcome (Bool × LogPass)
  pending_enqueue pae s =
      let (dequeued, adset') = remove pae.queue_id pae.msg_id s.adset in
      if dequeued
      then returned (false, drop_useless pae adset' s)
      else if pae.transient
      then returned (false, drop_transient pae s)
      else if queue == pae.queue_id
      then if ltb s.first 10
        then is_enqueued pae.msg_id >>= after_check pae s
        else returned (true, take_up s.first pae s)
      else returned (true, s)

  abbrev pub keep_entry :
      ℕ × PendingAsyncEnqueue
      → Bool
      → OrdMap PendingAsyncEnqueue × LogPass
      → Outcome (OrdMap PendingAsyncEnqueue × LogPass)
  keep_entry e keep (sub, s) = returned ((if keep then e ∷ sub else sub), s)

  unfoldable pub pending_of_queue :
      OrdMap PendingAsyncEnqueue → LogPass → Outcome (OrdMap PendingAsyncEnqueue × LogPass)
  unfolding pending_enqueue
  pending_of_queue [] s = returned ([], s)
  pending_of_queue ((p, pae) ∷ sub) s = pending_enqueue pae s >>= λ (ks : Bool × LogPass).
      pending_of_queue sub ks.1 >>= keep_entry (p, pae) ks.0

  abbrev pub keep_queue :
      ℕ
      → OrdMap PendingAsyncEnqueue
      → TwoLevel PendingAsyncEnqueue × LogPass
      → Outcome (TwoLevel PendingAsyncEnqueue × LogPass)
  keep_queue q sub (aeset, s) = returned ((if empty sub then aeset else (q, sub) ∷ aeset), s)

  -- A queue whose entries are all gone leaves the set.
  unfoldable pub pending_enqueues :
      TwoLevel PendingAsyncEnqueue → LogPass → Outcome (TwoLevel PendingAsyncEnqueue × LogPass)
  unfolding pending_of_queue
  pending_enqueues [] s = returned ([], s)
  pending_enqueues ((q, sub) ∷ aeset) s =
      pending_of_queue sub s >>= λ (ks : OrdMap PendingAsyncEnqueue × LogPass).
      pending_enqueues aeset ks.1 >>= keep_queue q ks.0
