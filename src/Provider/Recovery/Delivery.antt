-- ===== src/Provider/Recovery/Delivery.antt =====
-- Which messages the recovery of a queue (`decodeAndRecoverMsg` of lib/BdbStoreProvider.cpp) puts back
-- on the queue.
use bdbmsgstore.AsyncLog.Logger.{MassContext}
use bdbmsgstore.Prelude.{
  ℕ, ◌+◌, ◌-◌, ◌≤◌, ◌≡◌, refl, Bool, true, ◌&&◌, ◌||◌, Option, none, some, List, [], ◌∷◌, arith,
  ltb, if◌then◌else◌, is_some, ap, ◌∙◌,
}
use bdbmsgstore.TwoLevel.{TwoLevel, lookup, values, IsKept}
use bdbmsgstore.PendingOperation.{PendingAsyncEnqueue}
use bdbmsgstore.Journal.{JournalImpl, returned, is_enqueued}
use bdbmsgstore.Journal.Berkeley.{Database}
use bdbmsgstore.Journal.Startup.{register_as_transient, register_as_accepted}
use bdbmsgstore.Journal.Scan.{Row}
use bdbmsgstore.Message.{Buffer}
use bdbmsgstore.Provider.Recovery.{LogPass}
use bdbmsgstore.Provider.Recovery.Rows.{Broker, RowPass}
use bdbmsgstore.Provider.Recovery.Messages.{
  Recovering, QueueRecovered, first_pass, second_pass, finish, decode_recovered,
}
use bdbmsgstore.Provider.Recovery.Pending.{
  one, occurs, times, of_queue, entry, taken_up, RowsEncoded, EntriesEncoded,
}
use bdbmsgstore.Provider.Recovery.Passed.{Passed, pending_enqueues-Passed}
use bdbmsgstore.Provider.Recovery.Given.{count, count-append, gives, Given, recover_rows-Given}

-- How often a message is put back that the journal has `n` times: once less for a pending dequeue,
-- unless there is a pending enqueue too; that one is taken up if it is not dequeued, not transient
-- and not stored.
abbrev pub deliveries : ℕ → Bool → Bool → Option PendingAsyncEnqueue → ℕ
deliveries n dequeued stored none = n - one dequeued
deliveries n dequeued stored (some pae) = n + taken_up dequeued stored (some pae)

-- Whether it is registered as accepted, and so removed from the journal.
abbrev pub registered : ℕ → Bool → Option PendingAsyncEnqueue → ℕ
registered n dequeued none = one (ltb 0 n && dequeued)
registered n dequeued (some pae) = 0

times-entry :
    (q p : ℕ) (xs : List PendingAsyncEnqueue) → ltb 0 (times q p xs) ≡ is_some (entry q p xs)
times-entry q p [] = refl
times-entry q p (pae ∷ xs) = ground (arith, times-entry q p xs)

left_over :
    {V : Type 0} (n : ℕ) (found : Option V) (stored : Bool) (e : Option PendingAsyncEnqueue)
    → n + taken_up (is_some found) stored e - one (is_some (if is_some e then none else found))
      ≡ deliveries n (is_some found) stored e
left_over n found stored none = omega arith
left_over n found stored (some pae) = omega arith

accepts :
    {V : Type 0} (n : ℕ) (found : Option V) (stored : Bool) (e : Option PendingAsyncEnqueue)
    → one (
        ltb 0 (n + taken_up (is_some found) stored e)
        && is_some (if is_some e then none else found))
      ≡ registered n (is_some found) e
accepts n found stored none = ground arith
accepts n found stored (some pae) = ground arith

module _ {D : Type 0} (db : Database D) (rows : D → List Row) (mass : MassContext) (b : Buffer)
    (broker : Broker) (enable : Bool) where
  -- What the recovery leaves of a message of the queue, by what was read and what was pending.
  pub record Delivered (queue : ℕ) (stored : ℕ → Bool) (j : JournalImpl D) (recovered : List Row)
      (r : Recovering) (d : QueueRecovered D) : Type 0 where
    pub given :
        (p : ℕ)
        → times queue p (values r.aeset) ≤ 1
        → gives queue p d.shared.message_queue_map
          ≡ gives queue p r.message_queue_map
            + deliveries
                (occurs p recovered)
                (is_some (lookup queue p r.adset))
                (stored p)
                (entry queue p (values r.aeset))
    pub accepted :
        (p : ℕ)
        → times queue p (values r.aeset) ≤ 1
        → count p d.journal.accepted_list
          ≡ count p j.accepted_list
            + registered
                (occurs p recovered)
                (is_some (lookup queue p r.adset))
                (entry queue p (values r.aeset))
    pub not_pending :
        (p : ℕ)
        → (ltb 0 (occurs p recovered) || ltb 0 (times queue p (values r.aeset))) ≡ true
        → times queue p (values r.aeset) ≤ 1
        → lookup queue p d.shared.adset ≡ none

  module _ (wants : (h : List ℕ) (n : ℕ) → broker.load_content h n ≡ true) where
    finish-Delivered :
        (queue : ℕ) (stored : ℕ → Bool) (j : JournalImpl D) (recovered : List Row) (r : Recovering)
        (aeset' : TwoLevel PendingAsyncEnqueue) (s : LogPass) (t : RowPass)
        → IsKept r.adset
        → Passed b queue stored (values r.aeset) (first_pass recovered r) s
        → Given b broker enable queue wants s.recovered (second_pass aeset' s r) t
        → Delivered queue stored j recovered r (finish mass j s t)
    unfolding register_as_transient register_as_accepted
    finish-Delivered queue stored j recovered r aeset' s t k a c = record {
      given = λ p h.
          c.more p (a.kept k)
          ∙ ap (◌+◌ (gives queue p r.message_queue_map)) (
              rw (a.more p h, a.gone queue p, times-entry queue p (values r.aeset))
                (left_over (occurs p recovered) (lookup queue p r.adset) (stored p)
                  (entry queue p (values r.aeset))));
      accepted = λ p h.
          rw (c.inner, count-append p t.async_accepted_msg j.accepted_list, c.accepted p (a.kept k))
            (rw (a.more p h, a.gone queue p, times-entry queue p (values r.aeset))
              (omega (
                arith,
                accepts (occurs p recovered) (lookup queue p r.adset) (stored p)
                    (entry queue p (values r.aeset)),
              )));
      not_pending = λ p e h. ground (arith, c.gone p (a.kept k), a.gone queue p, a.more p h);
    }

    -- Let a queue's journal answer each question, at most ten enqueues be pending on the queue, each
    -- message that is read or pending be as long as its header says, the broker want all contents, and
    -- nothing have been accepted elsewhere. Then the recovery of the queue returns. Of a message with at
    -- most one pending enqueue on it: without one, it is put back on the queue as often as it was read
    -- from the journal as not transient, once less if a dequeue is pending, and then it is registered
    -- for removal; with one, it is put back as often as it was read, and once more if it is neither
    -- transient, nor stored, nor dequeued. If it was read or its enqueue was pending, no dequeue of it
    -- is pending any more.
    pub decode_recovered-Delivered :
        (queue : ℕ) (stored : ℕ → Bool) (j : JournalImpl D) (recovered : List Row) (r : Recovering)
        → ((p : ℕ) → is_enqueued db p j ≡ returned (stored p))
        → IsKept r.adset
        → of_queue queue (values r.aeset) ≤ 10
        → EntriesEncoded b (values r.aeset)
        → RowsEncoded b recovered
        → (d : QueueRecovered D) × (decode_recovered db rows mass b broker enable [] queue j
              recovered r
            ≡ returned d)
          × Delivered queue stored j recovered r d
    unfolding decode_recovered
    decode_recovered-Delivered queue stored j recovered r asked k ten ee re =
        let (ks, passed, a) =
          pending_enqueues-Passed b queue stored (λ p. is_enqueued db p j) asked r.aeset
            (first_pass recovered r) k (omega arith) in
        let (t, gave, c) =
          recover_rows-Given b broker enable queue wants ks.1.recovered (second_pass ks.0 ks.1 r)
            (a.encoded ee re) in
        (
          finish mass j ks.1 t,
          rw passed (rw gave refl),
          finish-Delivered queue stored j recovered r ks.0 ks.1 t k a c,
        )
