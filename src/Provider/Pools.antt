-- ===== src/Provider/Pools.antt =====
-- The calls that the threads of the two pools run: `store` and `async_dequeue` of
-- lib/BdbStoreProvider.cpp.
use bdbmsgstore.Prelude.{
  ℕ, zero, suc, Bool, Option, none, some, List, [], ◌∷◌, ◌++◌, ◌==◌, if◌then◌else◌, is_some,
}
use bdbmsgstore.Prelude.Int.{pos, negsuc}
use bdbmsgstore.AsyncLog.Logger.{log_enqueue_complete, log_dequeue_complete}
use bdbmsgstore.PidTracker.Record.{PidTracker, add_pid}
use bdbmsgstore.PidTracker.Smart.{enqueue_check}
use bdbmsgstore.PidTracker.Wait.{Wait, passed, returned, blocked, wait_for_pid}
use bdbmsgstore.Journal.{JournalImpl, Outcome, raised, undefined, enqueue_data, dequeue_data}
use bdbmsgstore.Journal.Berkeley.{Database}
use bdbmsgstore.Provider.{StoreTask, DequeueTask, BdbStoreProvider}

module _ {D : Type 0} where
  abbrev pub set_journal :
      ℕ → JournalImpl D → (ℕ → Option (JournalImpl D)) → ℕ → Option (JournalImpl D)
  set_journal q j journals i = if i == q then some j else journals i

  -- The end of `store`: the completion is logged, and the id is entered.
  unfoldable pub complete_store : ℕ → ℕ → BdbStoreProvider D → BdbStoreProvider D
  complete_store pid queue s = record s {
    aologger = (log_enqueue_complete pid queue s.aologger).1;
    tracker = (add_pid pid queue s.tracker).1;
  }

  -- An exception, of the store and not of the journal library, passes through.
  unfoldable pub after_data :
      ℕ
      → ℕ
      → BdbStoreProvider D
      → Outcome (Unit {0}) × JournalImpl D
      → Outcome (Unit {0}) × BdbStoreProvider D
  unfolding complete_store
  after_data pid queue s (Outcome.returned u, j) = (
    Outcome.returned tt,
    complete_store pid queue (record s { journals = set_journal queue j s.journals }),
  )
  after_data pid queue s (raised, j) =
      (raised, record s { journals = set_journal queue j s.journals })
  after_data pid queue s (undefined, j) =
      (undefined, record s { journals = set_journal queue j s.journals })

module _ {D : Type 0} (db : Database D) where
  unfoldable pub store_in :
      List ℕ → ℕ → ℕ → BdbStoreProvider D → JournalImpl D → Outcome (Unit {0}) × BdbStoreProvider D
  unfolding after_data complete_store
  store_in buff pid queue s j =
      let (required, tracker') = enqueue_check pid queue s.tracker in
      let checked = record s { tracker = tracker' } in
      if s.enable_smart_async
      then if required
        then after_data pid queue checked (enqueue_data db pid buff j)
        else (Outcome.returned tt, complete_store pid queue checked)
      else after_data pid queue s (enqueue_data db pid buff j)

  abbrev pub store_at :
      List ℕ
      → ℕ
      → ℕ
      → BdbStoreProvider D
      → Option (JournalImpl D)
      → Outcome (Unit {0}) × BdbStoreProvider D
  store_at buff pid queue s none = (raised, s)
  store_at buff pid queue s (some j) = store_in buff pid queue s j

  -- The pool's thread has taken the task off its list.
  unfoldable pub store : StoreTask → BdbStoreProvider D → Outcome (Unit {0}) × BdbStoreProvider D
  unfolding store_in
  store task s = store_at task.buff task.pid task.queue s (s.journals task.queue)

  unfoldable pub after_remove :
      ℕ
      → ℕ
      → BdbStoreProvider D
      → Outcome (Unit {0}) × JournalImpl D
      → Outcome (Unit {0}) × BdbStoreProvider D
  after_remove msg_id queue s (Outcome.returned u, j) = (
    Outcome.returned tt,
    record s {
      journals = set_journal queue j s.journals;
      aologger = (log_dequeue_complete msg_id queue s.aologger).1;
    },
  )
  after_remove msg_id queue s (raised, j) =
      (raised, record s { journals = set_journal queue j s.journals })
  after_remove msg_id queue s (undefined, j) =
      (undefined, record s { journals = set_journal queue j s.journals })

  abbrev pub remove_at :
      ℕ → ℕ → BdbStoreProvider D → Option (JournalImpl D) → Outcome (Unit {0}) × BdbStoreProvider D
  remove_at msg_id queue s none = (undefined, s)
  remove_at msg_id queue s (some j) = after_remove msg_id queue s (dequeue_data db msg_id j)

  abbrev pub redispatch :
      Bool → DequeueTask → BdbStoreProvider D → Outcome (Unit {0}) × BdbStoreProvider D
  redispatch scheduled task s =
      if scheduled
      then (Outcome.returned tt, record s { dequeue_pool = s.dequeue_pool ++ (task ∷ []) })
      else (raised, s)

  -- The `switch` on what `waitForPid` returns, and what follows it; `none` while it is still blocked.
  unfoldable pub after_wait :
      Bool
      → DequeueTask
      → BdbStoreProvider D
      → Wait ℕ
      → Option (Outcome (Unit {0}) × BdbStoreProvider D)
  unfolding after_remove
  after_wait scheduled task s blocked = none
  after_wait scheduled task s (passed n) =
      some (remove_at task.msg_id task.queue s (s.journals task.queue))
  after_wait scheduled task s (returned (negsuc zero)) = some (redispatch scheduled task s)
  after_wait scheduled task s (returned (negsuc (suc zero))) = some (Outcome.returned tt, s)
  after_wait scheduled task s (returned (negsuc (suc (suc n)))) =
      some (remove_at task.msg_id task.queue s (s.journals task.queue))
  after_wait scheduled task s (returned (pos n)) =
      some (remove_at task.msg_id task.queue s (s.journals task.queue))

  -- `t`, `dup_wakes`, `u` and `main_wakes` are the tracker's states that `waitForPid` finds; `s` is the
  -- provider's state when it returns.
  unfoldable pub async_dequeue :
      Bool
      → DequeueTask
      → PidTracker
      → List PidTracker
      → PidTracker
      → List PidTracker
      → BdbStoreProvider D
      → Option (Outcome (Unit {0}) × BdbStoreProvider D)
  unfolding after_wait
  async_dequeue scheduled task t dup_wakes u main_wakes s =
      if is_some (s.journals task.queue)
      then after_wait scheduled task s
          (wait_for_pid task.msg_id task.queue t dup_wakes u main_wakes)
      else some (undefined, s)
