-- ===== src/Provider/Startup/Turned.antt =====
-- The first loop at the end of `recoverMessages` (lib/BdbStoreProvider.cpp): the pending enqueues.
use bdbmsgstore.Prelude.{
  All, ℕ, ◌+◌, ◌≤◌, ◌≡◌, ◌⊎◌, refl, inl, inr, Bool, true, false, not, ◌&&◌, none, List, [], ◌∷◌,
  ◌++◌, arith, ltb, ◌==◌, if◌then◌else◌, is_some, Bool-cases, append-nil, append_assoc, ap, sym,
  ◌∙◌,
}
use bdbmsgstore.TwoLevel.{TwoLevel, lookup, remove, IsKept}
use bdbmsgstore.TwoLevel.Laws.{lookup-remove, remove-found}
use bdbmsgstore.TwoLevel.Order.{remove-IsKept}
use bdbmsgstore.PendingOperation.{PendingAsyncDequeue, PendingAsyncEnqueue}
use bdbmsgstore.Provider.{StoreTask, BdbStoreProvider}
use bdbmsgstore.Provider.Recovery.Pending.{one, is_of, times, not_there, same_place}
use bdbmsgstore.Provider.Startup.Resume.{Resuming, store_task, resume_enqueue, resume_enqueues}

abbrev pub is_task : ℕ → ℕ → StoreTask → Bool
is_task q p task = task.queue == q && task.pid == p

-- The tasks that store a message of a queue.
abbrev pub store_tasks : ℕ → ℕ → List StoreTask → ℕ
store_tasks q p [] = 0
store_tasks q p (task ∷ tasks) = one (is_task q p task) + store_tasks q p tasks

-- The task is that of one of these enqueues.
abbrev pub IsFrom : List PendingAsyncEnqueue → StoreTask → Type 0
IsFrom [] task = ⊥
IsFrom (pae ∷ paes) task = (task ≡ store_task pae) ⊎ IsFrom paes task

IsFrom-append :
    (paes : List PendingAsyncEnqueue) (pae : PendingAsyncEnqueue) (xs ys : List StoreTask)
    → All (IsFrom (pae ∷ [])) xs
    → All (IsFrom paes) ys
    → All (IsFrom (pae ∷ paes)) (xs ++ ys)
IsFrom-append paes pae [] [] h k = tt
IsFrom-append paes pae [] (task ∷ ys) h k = (inr k.0, IsFrom-append paes pae [] ys h k.1)
IsFrom-append paes pae (task ∷ xs) ys (inl e, h) k = (inl e, IsFrom-append paes pae xs ys h k)
IsFrom-append paes pae (task ∷ xs) ys (inr e, h) k = absurd e

store_tasks-append :
    (q p : ℕ) (xs ys : List StoreTask)
    → store_tasks q p (xs ++ ys) ≡ store_tasks q p xs + store_tasks q p ys
store_tasks-append q p [] ys = omega arith
store_tasks-append q p (task ∷ xs) ys = omega (arith, store_tasks-append q p xs ys)

found :
    (q p : ℕ) (pae : PendingAsyncEnqueue) (m : TwoLevel PendingAsyncDequeue)
    → is_of q p pae ≡ true
    → is_some (lookup q p m) ≡ (remove pae.queue_id pae.msg_id m).0
found q p pae m h =
    ap is_some (same_place q p pae m h) ∙ sym (remove-found pae.queue_id pae.msg_id m)

still_gone :
    (q p : ℕ) (pae : PendingAsyncEnqueue) (m : TwoLevel PendingAsyncDequeue)
    → (remove pae.queue_id pae.msg_id m).0 ≡ false
    → lookup q p m ≡ (if ltb 0 (times q p (pae ∷ [])) then none else lookup q p m)
still_gone q p pae m d = elim (Bool-cases (is_of q p pae)) [
  | inl same ↦ rw same (not_there _ (found q p pae m same ∙ d))
  | inr other ↦ rw other refl
]

module _ {D : Type 0} where
  abbrev pub has_journal : BdbStoreProvider D → ℕ → Bool
  has_journal s q = is_some (s.journals q)

  -- One entry, or several: what is left of the dequeues, and what is to be stored.
  pub record Turned (paes : List PendingAsyncEnqueue) (r r' : Resuming D) : Type 0 where
    pub kept : IsKept r.adset → IsKept r'.adset
    pub gone :
        (q p : ℕ)
        → IsKept r.adset
        → lookup q p r'.adset ≡ (if ltb 0 (times q p paes) then none else lookup q p r.adset)
    pub added : List StoreTask
    pub added-pool : r'.provider.enqueue_pool ≡ r.provider.enqueue_pool ++ added
    pub added-IsFrom : All (IsFrom paes) added
    pub journals : r'.provider.journals ≡ r.provider.journals
    pub dequeues : r'.provider.dequeue_pool ≡ r.provider.dequeue_pool
    pub stores :
        (q p : ℕ)
        → IsKept r.adset
        → times q p paes ≤ 1
        → store_tasks q p r'.provider.enqueue_pool
          ≡ store_tasks q p r.provider.enqueue_pool
            + one (
                ltb 0 (times q p paes)
                && (not (is_some (lookup q p r.adset)) && has_journal r.provider q))

  same_queue :
      (q p : ℕ) (pae : PendingAsyncEnqueue) (s : BdbStoreProvider D)
      → is_of q p pae ≡ true
      → has_journal s q ≡ has_journal s pae.queue_id
  same_queue q p pae s h = let e : pae.queue_id ≡ q = ground arith in ap (has_journal s) (sym e)

  resume_enqueue-Turned :
      (pae : PendingAsyncEnqueue) (r : Resuming D) → Turned (pae ∷ []) r (resume_enqueue true pae r)
  unfolding resume_enqueue
  resume_enqueue-Turned pae r = elim (Bool-cases (remove pae.queue_id pae.msg_id r.adset).0) [
    | inl d ↦ rw d (record {
      kept = λ k. remove-IsKept pae.queue_id pae.msg_id r.adset k;
      gone = λ q p k. rw (lookup-remove q p pae.queue_id pae.msg_id r.adset k) (ground arith);
      added = [];
      added-pool = sym (append-nil r.provider.enqueue_pool);
      added-IsFrom = tt;
      journals = refl;
      dequeues = refl;
      stores = λ q p k h. elim (Bool-cases (is_of q p pae)) [
        | inl same ↦ rw (same, found q p pae r.adset same ∙ d) (omega arith)
        | inr other ↦ rw other (omega arith)
      ];
    })
    | inr d ↦ rw d (elim (Bool-cases (has_journal r.provider pae.queue_id)) [
      | inl j ↦ rw j (record {
        kept = λ k. k;
        gone = λ q p k. still_gone q p pae r.adset d;
        added = store_task pae ∷ [];
        added-pool = refl;
        added-IsFrom = (inl refl, tt);
        journals = refl;
        dequeues = refl;
        stores = λ q p k h.
            rw (store_tasks-append q p r.provider.enqueue_pool (store_task pae ∷ []))
              (elim (Bool-cases (is_of q p pae)) [
                | inl same ↦
                    rw
                      (same, found q p pae r.adset same ∙ d, same_queue q p pae r.provider same ∙ j)
                      refl
                | inr other ↦ rw other (omega arith)
              ]);
      })
      | inr j ↦ rw j (record {
        kept = λ k. k;
        gone = λ q p k. still_gone q p pae r.adset d;
        added = [];
        added-pool = sym (append-nil r.provider.enqueue_pool);
        added-IsFrom = tt;
        journals = refl;
        dequeues = refl;
        stores = λ q p k h. elim (Bool-cases (is_of q p pae)) [
          | inl same ↦
              rw (same, found q p pae r.adset same ∙ d, same_queue q p pae r.provider same ∙ j)
                (omega arith)
          | inr other ↦ rw other (omega arith)
        ];
      })
    ])
  ]

  Turned-cons :
      (pae : PendingAsyncEnqueue) (paes : List PendingAsyncEnqueue) (r t u : Resuming D)
      → Turned (pae ∷ []) r t
      → Turned paes t u
      → Turned (pae ∷ paes) r u
  Turned-cons pae paes r t u a c = record {
    kept = λ k. c.kept (a.kept k);
    gone = λ q p k. ground (arith, a.gone q p k, c.gone q p (a.kept k));
    added = a.added ++ c.added;
    added-pool =
        c.added-pool
        ∙ ap (λ pool. pool ++ c.added) a.added-pool
        ∙ append_assoc r.provider.enqueue_pool a.added c.added;
    added-IsFrom = IsFrom-append paes pae a.added c.added a.added-IsFrom c.added-IsFrom;
    journals = c.journals ∙ a.journals;
    dequeues = c.dequeues ∙ a.dequeues;
    stores = λ q p k h.
        let j : has_journal t.provider q ≡ has_journal r.provider q =
          ap (λ js. is_some (js q)) a.journals in
        ground (arith, j, a.gone q p k, a.stores q p k, c.stores q p (a.kept k));
  }

  pub resume_enqueues-Turned :
      (paes : List PendingAsyncEnqueue) (r : Resuming D)
      → Turned paes r (resume_enqueues true paes r)
  unfolding resume_enqueues
  resume_enqueues-Turned [] r = record {
    kept = λ k. k;
    gone = λ q p k. refl;
    added = [];
    added-pool = sym (append-nil r.provider.enqueue_pool);
    added-IsFrom = tt;
    journals = refl;
    dequeues = refl;
    stores = λ q p k h. omega arith;
  }
  resume_enqueues-Turned (pae ∷ paes) r =
      Turned-cons pae paes r (resume_enqueue true pae r) _ (resume_enqueue-Turned pae r)
        (resume_enqueues-Turned paes (resume_enqueue true pae r))
