-- ===== src/Provider/Overtake.antt =====
-- A dequeue that comes before the worker of its enqueue (lib/BdbStoreProvider.cpp, with the option for
-- smart asynchronous operations), and what the enqueue log then says.
use bdbmsgstore.Prelude.{
  ℕ, ◌≡◌, ◌≢◌, refl, Bool, true, false, some, List, [], ◌∷◌, ◌==◌, if◌then◌else◌, ap, ◌∙◌, sym,
  subst, ne→==, ==-refl, Bool-cases, inl, inr,
}
use bdbmsgstore.AsyncLog.Logger.{log_enqueue_start, log_enqueue_complete}
use bdbmsgstore.AsyncLog.Replay.{Record, start, complete, replay, no_sets}
use bdbmsgstore.AsyncLog.Replay.View.{
  idle, status, key_run, status-replay, no_sets-IsConsistent, replay-IsConsistent,
}
use bdbmsgstore.PidTracker.Duplicates.{add_duplicate}
use bdbmsgstore.PidTracker.Smart.{will_enqueue, dequeue_check, enqueue_check}
use bdbmsgstore.PidTracker.Smart.Noted.{Sorted}
use bdbmsgstore.PidTracker.Smart.Race.{calls, first_check_decides}
use bdbmsgstore.Journal.{JournalImpl, returned}
use bdbmsgstore.Journal.Berkeley.{Database}
use bdbmsgstore.Provider.{
  StoreTask, BdbStoreProvider, assign_id, start_enqueue, schedule_store, enqueue, dequeue,
}
use bdbmsgstore.Provider.Pools.{complete_store, store_in, store_at, store}

if_true : {X : Type 0} (b : Bool) (x y : X) → b ≡ true → (if b then x else y) ≡ x
if_true b x y h = ap (λ c. if c then x else y) h

if_false : {X : Type 0} (b : Bool) (x y : X) → b ≡ false → (if b then x else y) ≡ y
if_false b x y h = ap (λ c. if c then x else y) h

module _ {D : Type 0} (db : Database D) where
  abbrev pub task_of : ℕ → ℕ → List ℕ → ℕ → Bool → StoreTask
  task_of queue pid buff size transient = record {
    queue = queue;
    buff = buff;
    size = size;
    pid = pid;
    transient = transient;
  }

  enqueue-scheduled :
      (queue message_id : ℕ) (buff : List ℕ) (size : ℕ) (transient : Bool) (s : BdbStoreProvider D)
      → queue ≢ 0
      → let (pid, s') = assign_id message_id queue s in
        enqueue true queue message_id buff size transient s ≡ (
          returned pid,
          schedule_store
              (task_of queue pid buff size transient)
              (start_enqueue pid queue buff size transient s'),
        )
  unfolding enqueue
  enqueue-scheduled queue message_id buff size transient s h =
      if_false (queue == 0) _ _ (ne→== queue 0 h)

  dequeue-skips :
      (queue pid : ℕ) (s : BdbStoreProvider D)
      → queue ≢ 0
      → pid ≢ 0
      → s.enable_smart_async ≡ true
      → (dequeue_check pid queue s.tracker).0 ≡ false
      → dequeue true queue pid s ≡ (
        returned tt,
        record s {
          tracker = (dequeue_check pid queue s.tracker).1;
          aologger = (log_enqueue_complete pid queue s.aologger).1;
        },
      )
  unfolding dequeue
  dequeue-skips queue pid s hq hp smart skip =
      if_false (pid == 0) _ _ (ne→== pid 0 hp)
      ∙ (if_false (queue == 0) _ _ (ne→== queue 0 hq)
          ∙ (if_true s.enable_smart_async _ _ smart
              ∙ if_false (dequeue_check pid queue s.tracker).0 _ _ skip))

  store-skips :
      (task : StoreTask) (s : BdbStoreProvider D) (j : JournalImpl D)
      → s.journals task.queue ≡ some j
      → s.enable_smart_async ≡ true
      → (enqueue_check task.pid task.queue s.tracker).0 ≡ false
      → store db task s ≡ (
        returned tt,
        complete_store task.pid task.queue
            (record s { tracker = (enqueue_check task.pid task.queue s.tracker).1 }),
      )
  unfolding store store_in
  store-skips task s j q smart skip =
      ap (store_at db task.buff task.pid task.queue s) q
      ∙ (if_true s.enable_smart_async _ _ smart
          ∙ if_false (enqueue_check task.pid task.queue s.tracker).0 _ _ skip)

  assign_id-same :
      (message_id queue : ℕ) (s : BdbStoreProvider D)
      → let r = (assign_id message_id queue s).1 in
        (r.tracker.pend_map ≡ s.tracker.pend_map)
        × (r.enable_smart_async ≡ s.enable_smart_async)
        × (r.journals ≡ s.journals)
        × (r.dequeue_pool ≡ s.dequeue_pool)
        × (r.aologger ≡ s.aologger)
  unfolding assign_id add_duplicate
  assign_id-same message_id queue s = elim (Bool-cases (message_id == 0)) [
    | inl e ↦ rw e (refl, refl, refl, refl, refl)
    | inr e ↦ rw e (refl, refl, refl, refl, refl)
  ]

  module _ (queue pid : ℕ) (buff : List ℕ) (size : ℕ) (transient : Bool) (s : BdbStoreProvider D)
      (hq : queue ≢ 0) (hp : pid ≢ 0) (smart : s.enable_smart_async ≡ true)
      (sorted : Sorted 0 s.tracker.pend_map) where
    abbrev sent : BdbStoreProvider D
    sent =
        schedule_store (task_of queue pid buff size transient)
          (start_enqueue pid queue buff size transient s)

    abbrev after_dequeue : BdbStoreProvider D
    after_dequeue = record sent {
      tracker = (dequeue_check pid queue sent.tracker).1;
      aologger = (log_enqueue_complete pid queue sent.aologger).1;
    }

    noted : sent.tracker ≡ (will_enqueue pid queue s.tracker).1
    unfolding schedule_store start_enqueue
    noted = if_true s.enable_smart_async _ _ smart

    decides :
        ((dequeue_check pid queue sent.tracker).0 ≡ false)
        × ((enqueue_check pid queue (dequeue_check pid queue sent.tracker).1).0 ≡ false)
    unfolding calls
    decides =
        let d = first_check_decides pid queue [] [] s.tracker sorted tt tt in rw noted (d.0, d.1)

    overtaken_sent :
        (j : JournalImpl D)
        → s.journals queue ≡ some j
        → let d = dequeue true queue pid sent in
          let w = store db (task_of queue pid buff size transient) d.1 in
          (d.0 ≡ returned tt)
          × (d.1.dequeue_pool ≡ s.dequeue_pool)
          × (w.0 ≡ returned tt)
          × (w.1.journals ≡ s.journals)
          × (w.1.aologger
              ≡ (log_enqueue_complete pid queue
                  (log_enqueue_complete pid queue
                    (log_enqueue_start pid queue buff size transient s.aologger).1).1).1)
    unfolding schedule_store start_enqueue complete_store
    overtaken_sent j q =
        let skips = dequeue-skips queue pid sent hq hp smart decides.0 in
        let skipped =
          store-skips (task_of queue pid buff size transient) after_dequeue j q smart decides.1 in
        rw skips (rw skipped (refl, refl, refl, refl, refl))

  -- With smart asynchronous operations, let a queue with a journal get a message, and let it be
  -- dequeued before a worker stores it. Then the dequeue returns and schedules nothing; the worker
  -- returns, with all journals as they were; the dequeue log is as it was; and the enqueue log has
  -- the start and then two completions, one of the dequeue and one of the worker.
  pub dequeue_overtakes :
      (queue message_id : ℕ) (buff : List ℕ) (size : ℕ) (transient : Bool) (s : BdbStoreProvider D)
      (j : JournalImpl D)
      → queue ≢ 0
      → (assign_id message_id queue s).0 ≢ 0
      → s.enable_smart_async ≡ true
      → Sorted 0 s.tracker.pend_map
      → s.journals queue ≡ some j
      → let pid = (assign_id message_id queue s).0 in
        let e = enqueue true queue message_id buff size transient s in
        let d = dequeue true queue pid e.1 in
        let w = store db (task_of queue pid buff size transient) d.1 in
        (d.0 ≡ returned tt)
        × (d.1.dequeue_pool ≡ s.dequeue_pool)
        × (w.0 ≡ returned tt)
        × (w.1.journals ≡ s.journals)
        × (w.1.aologger
            ≡ (log_enqueue_complete pid queue
                (log_enqueue_complete pid queue
                  (log_enqueue_start pid queue buff size transient s.aologger).1).1).1)
  dequeue_overtakes queue message_id buff size transient s j hq hp smart sorted q =
      let same = assign_id-same message_id queue s in
      let s' = (assign_id message_id queue s).1 in
      let pid = (assign_id message_id queue s).0 in
      let done =
        overtaken_sent queue pid buff size transient s' hq hp (same.1 ∙ smart)
          (subst (Sorted 0) (sym same.0) sorted) j (ap (λ f. f queue) same.2 ∙ q) in
      rw (enqueue-scheduled queue message_id buff size transient s hq) (
        done.0,
        done.1 ∙ same.3,
        done.2,
        done.3 ∙ same.2,
        done.4
            ∙ ap
                (λ log.
                  (log_enqueue_complete pid queue
                    (log_enqueue_complete pid queue
                      (log_enqueue_start pid queue buff size transient log).1).1).1)
                same.4,
      )

-- Let nothing be known of a message on a queue. After a start, two completions and another start of
-- it, reading the log does not find it pending: the second completion takes the second start away.
pub start_after_two-idle :
    {V : Type 0} (queue pid : ℕ) (rs : List (Record V)) (v w : V)
    → status queue pid (replay rs no_sets) ≡ idle
    → status queue pid (
        replay
          (start pid queue v ∷ complete pid queue ∷ complete pid queue ∷ start pid queue w ∷ [])
          (replay rs no_sets))
      ≡ idle
unfolding key_run
start_after_two-idle queue pid rs v w h =
    rw
      (
        status-replay queue pid _ (replay rs no_sets)
            (replay-IsConsistent rs no_sets no_sets-IsConsistent),
        h,
        ==-refl queue,
        ==-refl pid,
      )
      refl
