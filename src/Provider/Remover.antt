-- ===== src/Provider/Remover.antt =====
-- What a worker of the dequeue pool leaves behind (`async_dequeue` of lib/BdbStoreProvider.cpp).
use bdbmsgstore.Prelude.{
  ℕ, zero, suc, ◌+◌, ◌≤◌, ◌<◌, ◌≡◌, refl, ◌⊎◌, Bool, true, false, Option, none, some, List,
  if◌then◌else◌, ==-refl, sym, subst, length, is_some,
}
use bdbmsgstore.Prelude.Int.{pos, negsuc}
use bdbmsgstore.AsyncLog.Logger.{log_dequeue_complete}
use bdbmsgstore.PidTracker.Record.{PidTracker}
use bdbmsgstore.PidTracker.Wait.{Wait, passed, blocked, is_duplicate, wait_for_pid}
use bdbmsgstore.PidTracker.Wait.Result.{Seen, IsAnswer, wait_for_pid-IsAnswer}
use bdbmsgstore.Journal.{JournalImpl, Outcome, returned, raised, undefined, partition}
use bdbmsgstore.Journal.Berkeley.{Status, Database, IsDatabase}
use bdbmsgstore.TxnCtxt.Ending.{Ending, lost, ending}
use bdbmsgstore.Journal.Contents.{IsReady}
use bdbmsgstore.Journal.Outcomes.{Dequeued, Dequeued-lost}
use bdbmsgstore.Journal.Calls.{dequeue_data-Dequeued}
use bdbmsgstore.Provider.{DequeueTask, BdbStoreProvider}
use bdbmsgstore.Provider.Pools.{after_remove, remove_at, redispatch, after_wait, async_dequeue}

module _ {D : Type 0} (db : Database D) (stored : D → ℕ → Option (List ℕ)) where
  -- How the transaction around the delete of the message from a database ends.
  abbrev pub del_ending : DequeueTask → D → Ending Status
  del_ending task d = ending (db.del_txn task.msg_id d) (db.del task.msg_id d)

  -- The completion is logged, and the status of the delete decides what the journal holds.
  abbrev pub Removed :
      DequeueTask → BdbStoreProvider D → JournalImpl D → BdbStoreProvider D → Type 0
  Removed task s j s' =
      (s'.aologger ≡ (log_dequeue_complete task.msg_id task.queue s.aologger).1)
      × ((j' : JournalImpl D) × (d : D) × (s'.journals task.queue ≡ some j')
          × IsReady j'
          × (partition task.msg_id j ≡ some d)
          × Dequeued stored task.msg_id j (del_ending task d) (returned tt) j')

  abbrev pub RemoveResult :
      DequeueTask
      → BdbStoreProvider D
      → JournalImpl D
      → Outcome (Unit {0})
      → BdbStoreProvider D
      → Type 0
  RemoveResult task s j (returned u) s' = Removed task s j s'
  RemoveResult task s j raised s' =
      (s'.aologger ≡ s.aologger) × (s'.dequeue_pool ≡ s.dequeue_pool) × (s'.tracker ≡ s.tracker)
  RemoveResult task s j undefined s' =
      (d : D) × (partition task.msg_id j ≡ some d) × (del_ending task d ≡ lost)

  -- The waiting has seen that the message is stored.
  abbrev pub SawStored :
      DequeueTask → PidTracker → List PidTracker → PidTracker → List PidTracker → Type 0
  SawStored task t dup_wakes u main_wakes =
      Seen (λ v. is_duplicate task.msg_id task.queue v ≡ false) t dup_wakes
      × Seen (λ v. task.msg_id ≤ v.main_record.last_pid) u main_wakes

  module _ (scheduled : Bool) (task : DequeueTask) (t : PidTracker) (dup_wakes : List PidTracker)
      (u : PidTracker) (main_wakes : List PidTracker) (s : BdbStoreProvider D)
      (j : JournalImpl D) where
    abbrev pub SawStop : Type 0
    SawStop = Seen (λ v. v.stopped ≡ true) t dup_wakes ⊎ Seen (λ v. v.stopped ≡ true) u main_wakes

    -- By what the waiting came to.
    abbrev pub DequeueResult : Wait ℕ → Option (Outcome (Unit {0}) × BdbStoreProvider D) → Type 0
    DequeueResult blocked r = (r ≡ none) × ((length dup_wakes ≤ 100) ⊎ (length main_wakes ≤ 100))
    DequeueResult (passed n) r =
        SawStored task t dup_wakes u main_wakes
        × ((o : Outcome (Unit {0})) × (s' : BdbStoreProvider D) × (r ≡ some (o, s'))
            × RemoveResult task s j o s')
    DequeueResult (Wait.returned (negsuc zero)) r =
        (100 < length dup_wakes + length main_wakes) × (r ≡ some (redispatch db scheduled task s))
    DequeueResult (Wait.returned (negsuc (suc zero))) r = SawStop × (r ≡ some (returned tt, s))
    DequeueResult (Wait.returned (negsuc (suc (suc n)))) r = ⊥
    DequeueResult (Wait.returned (pos n)) r = ⊥

  module _ (laws : IsDatabase db stored) where
    remove-result :
        (task : DequeueTask) (s : BdbStoreProvider D) (j : JournalImpl D) (d : D)
        (o : Outcome (Unit {0})) (j' : JournalImpl D)
        → IsReady j'
        → partition task.msg_id j ≡ some d
        → Dequeued stored task.msg_id j (del_ending task d) o j'
        → let r = after_remove db task.msg_id task.queue s (o, j') in RemoveResult task s j r.0 r.1
    unfolding after_remove
    remove-result task s j d (returned u) j' h e w =
        (refl, (j', d, rw (==-refl task.queue) refl, h, e, w))
    remove-result task s j d raised j' h e w = (refl, refl, refl)
    remove-result task s j d undefined j' h e w =
        (d, e, Dequeued-lost stored task.msg_id j j' (del_ending task d) w)

    remove_at-result :
        (task : DequeueTask) (s : BdbStoreProvider D) (j : JournalImpl D)
        → s.journals task.queue ≡ some j
        → IsReady j
        → let r = remove_at db task.msg_id task.queue s (s.journals task.queue) in
          RemoveResult task s j r.0 r.1
    remove_at-result task s j q h =
        let (now, (d, e, w)) = dequeue_data-Dequeued db stored laws task.msg_id j h in
        rw q (remove-result task s j d _ _ now e w)

    wait-result :
        (scheduled : Bool) (task : DequeueTask) (t : PidTracker) (dup_wakes : List PidTracker)
        (u : PidTracker) (main_wakes : List PidTracker) (s : BdbStoreProvider D) (j : JournalImpl D)
        (w : Wait ℕ)
        → s.journals task.queue ≡ some j
        → IsReady j
        → IsAnswer task.msg_id task.queue t dup_wakes u main_wakes w
        → DequeueResult scheduled task t dup_wakes u main_wakes s j w
            (after_wait db scheduled task s w)
    unfolding after_wait
    wait-result sch task t dw u mw s j blocked q h a = (refl, a)
    wait-result sch task t dw u mw s j (passed n) q h a =
        ((a.1, a.2), (_, _, refl, remove_at-result task s j q h))
    wait-result sch task t dw u mw s j (Wait.returned (negsuc zero)) q h a = (a, refl)
    wait-result sch task t dw u mw s j (Wait.returned (negsuc (suc zero))) q h a = (a, refl)
    wait-result sch task t dw u mw s j (Wait.returned (negsuc (suc (suc n)))) q h a = elim a [ ]
    wait-result sch task t dw u mw s j (Wait.returned (pos n)) q h a = elim a [ ]

    -- A worker that removes a message, on a queue whose journal is open. While `waitForPid` is blocked it
    -- has not ended. If the waiting passes, it has seen the message stored: the worker then returns,
    -- with the completion logged and the journal as the status of the committed delete says, or throws
    -- with nothing logged, or is not defined, which comes only of the delete's transaction, when the
    -- delete and abort throw, or commit does. After -1, and more than 100 wake-ups, it is dispatched
    -- again, and after -2, and a stop, it returns and changes nothing.
    pub async_dequeue-DequeueResult :
        (scheduled : Bool) (task : DequeueTask) (t : PidTracker) (dup_wakes : List PidTracker)
        (u : PidTracker) (main_wakes : List PidTracker) (s : BdbStoreProvider D) (j : JournalImpl D)
        → s.journals task.queue ≡ some j
        → IsReady j
        → DequeueResult scheduled task t dup_wakes u main_wakes s j
            (wait_for_pid task.msg_id task.queue t dup_wakes u main_wakes)
            (async_dequeue db scheduled task t dup_wakes u main_wakes s)
    unfolding async_dequeue
    async_dequeue-DequeueResult scheduled task t dup_wakes u main_wakes s j q h =
        let w = wait_for_pid task.msg_id task.queue t dup_wakes u main_wakes in
        subst
          (λ o.
            DequeueResult scheduled task t dup_wakes u main_wakes s j w
              (if is_some o then after_wait db scheduled task s w else some (undefined, s)))
          (sym q)
          (wait-result scheduled task t dup_wakes u main_wakes s j w q h
            (wait_for_pid-IsAnswer task.msg_id task.queue t dup_wakes u main_wakes))
