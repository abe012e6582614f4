-- ===== src/Provider/Worker.antt =====
-- What a worker of the enqueue pool leaves behind (`store` of lib/BdbStoreProvider.cpp).
use bdbmsgstore.Prelude.{
  ℕ, ◌≡◌, refl, ◌⊎◌, inl, inr, Bool, true, false, Option, some, List, if◌then◌else◌, ap, ◌∙◌,
  ==-refl, sym,
}
use bdbmsgstore.AsyncLog.Logger.{log_enqueue_complete}
use bdbmsgstore.PidTracker.Smart.{enqueue_check}
use bdbmsgstore.PidTracker.Smart.Noted.{is_noted, take_off-answer}
use bdbmsgstore.Journal.{JournalImpl, Outcome, returned, raised, undefined, partition, enqueue_data}
use bdbmsgstore.Journal.Berkeley.{Status, Database, IsDatabase}
use bdbmsgstore.TxnCtxt.Ending.{Ending, lost, ending}
use bdbmsgstore.Journal.Contents.{IsReady}
use bdbmsgstore.Journal.Outcomes.{Enqueued, Enqueued-lost}
use bdbmsgstore.Journal.Calls.{enqueue_data-Enqueued}
use bdbmsgstore.Provider.{StoreTask, BdbStoreProvider}
use bdbmsgstore.Provider.Pools.{complete_store, after_data, store_in, store}

if_cases :
    {X : Type 0} (P : X → Type 0) (b : Bool) (x y : X)
    → (b ≡ true → P x)
    → (b ≡ false → P y)
    → P (if b then x else y)
if_cases P true x y f g = f refl
if_cases P false x y f g = g refl

module _ {D : Type 0} (db : Database D) (stored : D → ℕ → Option (List ℕ)) where
  -- The message was not wanted any more, and the journals are as they were.
  abbrev pub Skipped : StoreTask → BdbStoreProvider D → BdbStoreProvider D → Type 0
  Skipped task s s' =
      (s.enable_smart_async ≡ true)
      × (is_noted task.pid task.queue s.tracker.pend_map ≡ false)
      × (s'.journals ≡ s.journals)

  -- How the transaction around the put of the message into a database ends.
  abbrev pub put_ending : StoreTask → D → Ending Status
  put_ending task d = ending (db.put_txn task.pid d) (db.put task.pid task.buff d)

  -- The put into the message's partition was committed, and its status decides what the journal holds.
  abbrev pub Put : StoreTask → JournalImpl D → BdbStoreProvider D → Type 0
  Put task j s' =
      (j' : JournalImpl D) × (d : D) × (s'.journals task.queue ≡ some j')
      × IsReady j'
      × (partition task.pid j ≡ some d)
      × Enqueued stored task.pid task.buff j (put_ending task d) (returned tt) j'

  abbrev pub StoreResult :
      StoreTask
      → BdbStoreProvider D
      → JournalImpl D
      → Outcome (Unit {0})
      → BdbStoreProvider D
      → Type 0
  StoreResult task s j (returned u) s' =
      (s'.aologger ≡ (log_enqueue_complete task.pid task.queue s.aologger).1)
      × (Skipped task s s' ⊎ Put task j s')
  StoreResult task s j raised s' =
      (s'.aologger ≡ s.aologger)
      × (s'.tracker.main_record ≡ s.tracker.main_record)
      × (s'.tracker.dup_map ≡ s.tracker.dup_map)
  StoreResult task s j undefined s' =
      (d : D) × (partition task.pid j ≡ some d) × (put_ending task d ≡ lost)

  module _ (laws : IsDatabase db stored) where
    -- `now` is the provider after the check on the tracker, if there is one.
    data-result :
        (task : StoreTask) (s now : BdbStoreProvider D) (j : JournalImpl D) (d : D)
        (o : Outcome (Unit {0})) (j' : JournalImpl D)
        → now.aologger ≡ s.aologger
        → now.tracker.main_record ≡ s.tracker.main_record
        → now.tracker.dup_map ≡ s.tracker.dup_map
        → IsReady j'
        → partition task.pid j ≡ some d
        → Enqueued stored task.pid task.buff j (put_ending task d) o j'
        → let r = after_data task.pid task.queue now (o, j') in StoreResult task s j r.0 r.1
    unfolding after_data complete_store
    data-result task s now j d (returned u) j' l m p h e w = (
      ap (λ log. (log_enqueue_complete task.pid task.queue log).1) l,
      inr (j', d, rw (==-refl task.queue) refl, h, e, w),
    )
    data-result task s now j d raised j' l m p h e w = (l, m, p)
    data-result task s now j d undefined j' l m p h e w =
        (d, e, Enqueued-lost stored task.pid task.buff j j' (put_ending task d) w)

    store_in-result :
        (task : StoreTask) (s : BdbStoreProvider D) (j : JournalImpl D)
        → IsReady j
        → let r = store_in db task.buff task.pid task.queue s j in StoreResult task s j r.0 r.1
    unfolding store_in complete_store enqueue_check
    store_in-result task s j h =
        let (now, (d, e, w)) = enqueue_data-Enqueued db stored laws task.pid task.buff j h in
        let put_result = λ (s' : BdbStoreProvider D).
          data-result task s s' j d (enqueue_data db task.pid task.buff j).0
            (enqueue_data db task.pid task.buff j).1 in
        if_cases (λ (r : Outcome (Unit {0}) × BdbStoreProvider D). StoreResult task s j r.0 r.1)
          s.enable_smart_async _ _
          (λ smart.
            if_cases (λ (r : Outcome (Unit {0}) × BdbStoreProvider D). StoreResult task s j r.0 r.1)
              (enqueue_check task.pid task.queue s.tracker).0 _ _
              (λ required. put_result _ refl refl refl now e w)
              (λ skip. (
                refl,
                inl (
                  smart,
                  sym (take_off-answer task.pid task.queue s.tracker.pend_map) ∙ skip,
                  refl,
                ),
              )))
          (λ plain. put_result s refl refl refl now e w)

    -- A worker that stores a message, with the journal's databases open. If it returns, it has logged
    -- the completion, and either the message was no longer wanted and the journals are as they were, or
    -- the put was committed and the journal holds what its status says. If it throws, it has logged
    -- nothing, and has not entered the id in the tracker. Its behaviour is undefined only when that of
    -- the put's transaction is: when the put and abort throw, or commit does.
    pub store-StoreResult :
        (task : StoreTask) (s : BdbStoreProvider D) (j : JournalImpl D)
        → s.journals task.queue ≡ some j
        → IsReady j
        → let r = store db task s in StoreResult task s j r.0 r.1
    unfolding store
    store-StoreResult task s j q h = rw q (store_in-result task s j h)
