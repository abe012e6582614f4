-- ===== src/Provider/Startup/Resumed.antt =====
-- Which operations the end of `recoverMessages` (lib/BdbStoreProvider.cpp) hands to the pools.
use bdbmsgstore.AsyncLog.Logger.{MassContext}
use bdbmsgstore.Prelude.{
  All, ℕ, ◌+◌, ◌≤◌, ◌≡◌, refl, inl, inr, Bool, true, false, not, ◌&&◌, none, List, [], ◌∷◌, ◌++◌,
  ltb, if◌then◌else◌, is_some, Bool-cases, append-nil, append_assoc, ap, ap₂, subst, sym, ◌∙◌,
}
use bdbmsgstore.TwoLevel.{TwoLevel, lookup, values, IsKept}
use bdbmsgstore.PendingOperation.{PendingAsyncDequeue, PendingAsyncEnqueue}
use bdbmsgstore.Provider.{StoreTask, DequeueTask, BdbStoreProvider}
use bdbmsgstore.Provider.Recovery.Pending.{one, times}
use bdbmsgstore.Provider.Startup.Resume.{
  Resuming, dequeue_task, resume_enqueues, resume_dequeue, resume_dequeues, resume,
}
use bdbmsgstore.Provider.Startup.Turned.{store_tasks, has_journal, IsFrom, resume_enqueues-Turned}

-- Tasks for the dequeues on queues that have a journal, in order.
abbrev pub dequeue_tasks : (ℕ → Bool) → List PendingAsyncDequeue → List DequeueTask
dequeue_tasks has [] = []
dequeue_tasks has (pad ∷ pads) =
    if has pad.queue_id then dequeue_task pad ∷ dequeue_tasks has pads else dequeue_tasks has pads

module _ {D : Type 0} where
  abbrev with_task : PendingAsyncDequeue → BdbStoreProvider D → BdbStoreProvider D
  with_task pad s = record s { dequeue_pool = s.dequeue_pool ++ (dequeue_task pad ∷ []) }

  resume_dequeue_some :
      (pad : PendingAsyncDequeue) (s : BdbStoreProvider D)
      → has_journal s pad.queue_id ≡ true
      → resume_dequeue true pad s ≡ with_task pad s
  unfolding resume_dequeue
  resume_dequeue_some pad s j = ap (λ b. if b then with_task pad s else s) j

  resume_dequeue_none :
      (pad : PendingAsyncDequeue) (s : BdbStoreProvider D)
      → has_journal s pad.queue_id ≡ false
      → resume_dequeue true pad s ≡ s
  unfolding resume_dequeue
  resume_dequeue_none pad s j = ap (λ b. if b then with_task pad s else s) j

  abbrev Adds : List PendingAsyncDequeue → BdbStoreProvider D → BdbStoreProvider D → Type 0
  Adds pads s s' =
      (s'.dequeue_pool ≡ s.dequeue_pool ++ dequeue_tasks (has_journal s) pads)
      × (s'.enqueue_pool ≡ s.enqueue_pool)
      × (s'.journals ≡ s.journals)

  -- The second loop only adds to its pool.
  resume_dequeues-Adds :
      (pads : List PendingAsyncDequeue) (s : BdbStoreProvider D)
      → Adds pads s (resume_dequeues true pads s)
  unfolding resume_dequeues
  resume_dequeues-Adds [] s = (sym (append-nil s.dequeue_pool), refl, refl)
  resume_dequeues-Adds (pad ∷ pads) s = elim (Bool-cases (has_journal s pad.queue_id)) [
    | inl j ↦
        let (pool, stores, journals) = resume_dequeues-Adds pads (with_task pad s) in
        subst (λ t. Adds (pad ∷ pads) s (resume_dequeues true pads t))
          (sym (resume_dequeue_some pad s j))
          (rw j (pool ∙ append_assoc s.dequeue_pool (dequeue_task pad ∷ []) _, stores, journals))
    | inr j ↦
        subst (λ t. Adds (pad ∷ pads) s (resume_dequeues true pads t))
          (sym (resume_dequeue_none pad s j)) (rw j (resume_dequeues-Adds pads s))
  ]

  -- What is handed to the pools, and to which dequeues.
  pub record Resumed (aeset : TwoLevel PendingAsyncEnqueue) (adset : TwoLevel PendingAsyncDequeue)
      (s s' : BdbStoreProvider D) : Type 0 where
    pub stores :
        (q p : ℕ)
        → times q p (values aeset) ≤ 1
        → store_tasks q p s'.enqueue_pool
          ≡ store_tasks q p s.enqueue_pool
            + one (
                ltb 0 (times q p (values aeset))
                && (not (is_some (lookup q p adset)) && has_journal s q))
    -- Each new task is that of a pending enqueue, with its message.
    pub added : List StoreTask
    pub added-pool : s'.enqueue_pool ≡ s.enqueue_pool ++ added
    pub added-IsFrom : All (IsFrom (values aeset)) added
    -- An ordered map, with one entry for each queue and id, so its lookups say all that is in it.
    pub left : TwoLevel PendingAsyncDequeue
    pub left-IsKept : IsKept left
    pub left-lookup :
        (q p : ℕ)
        → lookup q p left ≡ (if ltb 0 (times q p (values aeset)) then none else lookup q p adset)
    pub dequeues : s'.dequeue_pool ≡ s.dequeue_pool ++ dequeue_tasks (has_journal s) (values left)
    pub journals : s'.journals ≡ s.journals

  -- At the end of a recovery, with pools that take every task and the pending dequeues an ordered map of
  -- maps without empty ones. For a message with at most one pending enqueue on a queue, the pool gets
  -- one more task to store it there if that enqueue is pending, its dequeue is not, and the queue has a
  -- journal, and none otherwise; each new
  -- task is that of one of the pending enqueues, with its message. The dequeues that are pending with no such enqueue are an ordered map
  -- too, each in it once; and after the tasks that it had, the other pool gets one task for each of
  -- them on a queue with a journal, in the order of the map, and no others. The journals stay.
  pub resume-Resumed :
      (mass : MassContext) (aeset : TwoLevel PendingAsyncEnqueue)
      (adset : TwoLevel PendingAsyncDequeue) (s : BdbStoreProvider D)
      → IsKept adset
      → Resumed aeset adset s (resume true mass aeset adset s)
  unfolding resume
  resume-Resumed mass aeset adset s k =
      let r : Resuming D = record { adset = adset; useless_list = []; provider = s } in
      let t = resume_enqueues-Turned (values aeset) r in
      let r' = resume_enqueues true (values aeset) r in
      let (pool, tasks, js) = resume_dequeues-Adds (values r'.adset) r'.provider in
      record {
        stores = λ q p h. ap (store_tasks q p) tasks ∙ t.stores q p k h;
        added = t.added;
        added-pool = tasks ∙ t.added-pool;
        added-IsFrom = t.added-IsFrom;
        left = r'.adset;
        left-IsKept = t.kept k;
        left-lookup = λ q p. t.gone q p k;
        dequeues =
            pool
            ∙ ap₂ (λ pool' js'. pool' ++ dequeue_tasks (λ q. is_some (js' q)) (values r'.adset))
                t.dequeues t.journals;
        journals = js ∙ t.journals;
      }
