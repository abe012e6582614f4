-- ===== src/Provider/Recovery/Passed.antt =====
-- The first loop of `decodeAndRecoverMsg` (lib/BdbStoreProvider.cpp) over all pending enqueues, of
-- which at most ten are of the queue, so that the journal is asked for each of them.
use bdbmsgstore.Prelude.{
  ℕ, ◌+◌, ◌≤◌, ◌≡◌, refl, Bool, none, List, [], ◌∷◌, ◌++◌, arith, ltb, if◌then◌else◌, is_some,
}
use bdbmsgstore.OrdMap.{OrdMap, empty}
use bdbmsgstore.TwoLevel.{TwoLevel, lookup, values, values_sub, IsKept}
use bdbmsgstore.PendingOperation.{PendingAsyncEnqueue}
use bdbmsgstore.Journal.{Outcome, returned}
use bdbmsgstore.Message.{Buffer}
use bdbmsgstore.Provider.Recovery.{LogPass, pending_of_queue, pending_enqueues}
use bdbmsgstore.Provider.Recovery.Pending.{
  occurs, times, of_queue, entry, taken_up, RowsEncoded, EntriesEncoded, Offered,
  pending_enqueue-Offered,
}

times-append :
    (q p : ℕ) (xs ys : List PendingAsyncEnqueue)
    → times q p (xs ++ ys) ≡ times q p xs + times q p ys
times-append q p [] ys = omega arith
times-append q p (pae ∷ xs) ys = omega (arith, times-append q p xs ys)

of_queue-append :
    (q : ℕ) (xs ys : List PendingAsyncEnqueue)
    → of_queue q (xs ++ ys) ≡ of_queue q xs + of_queue q ys
of_queue-append q [] ys = omega arith
of_queue-append q (pae ∷ xs) ys = omega (arith, of_queue-append q xs ys)

EntriesEncoded-append :
    (b : Buffer) (xs ys : List PendingAsyncEnqueue)
    → EntriesEncoded b (xs ++ ys)
    → EntriesEncoded b xs × EntriesEncoded b ys
EntriesEncoded-append b [] ys e = (tt, e)
EntriesEncoded-append b (pae ∷ xs) ys e =
    let (ex, ey) = EntriesEncoded-append b xs ys e.1 in ((e.0, ex), ey)

no_entry : (q p : ℕ) (xs : List PendingAsyncEnqueue) → times q p xs ≡ 0 → entry q p xs ≡ none
no_entry q p [] h = refl
no_entry q p (pae ∷ xs) h = ground (arith, no_entry q p xs)

entry-append :
    (q p : ℕ) (xs ys : List PendingAsyncEnqueue)
    → entry q p (xs ++ ys) ≡ (if ltb 0 (times q p xs) then entry q p xs else entry q p ys)
entry-append q p [] ys = refl
entry-append q p (pae ∷ xs) ys = ground (arith, entry-append q p xs ys)

module _ (b : Buffer) (queue : ℕ) (stored : ℕ → Bool) where
  pub record Passed (paes : List PendingAsyncEnqueue) (s s' : LogPass) : Type 0 where
    pub kept : IsKept s.adset → IsKept s'.adset
    pub gone :
        (q p : ℕ)
        → lookup q p s'.adset ≡ (if ltb 0 (times q p paes) then none else lookup q p s.adset)
    pub first_le : s'.first ≤ s.first + of_queue queue paes
    pub more :
        (p : ℕ)
        → times queue p paes ≤ 1
        → occurs p s'.recovered
          ≡ occurs p s.recovered
            + taken_up (is_some (lookup queue p s.adset)) (stored p) (entry queue p paes)
    pub encoded : EntriesEncoded b paes → RowsEncoded b s.recovered → RowsEncoded b s'.recovered

  Passed-nil : (s : LogPass) → Passed [] s s
  Passed-nil s = record {
    kept = λ k. k;
    gone = λ q p. refl;
    first_le = omega arith;
    more = λ p h. omega arith;
    encoded = λ e r. r;
  }

  Passed-append :
      (xs ys : List PendingAsyncEnqueue) (s t u : LogPass)
      → Passed xs s t
      → Passed ys t u
      → Passed (xs ++ ys) s u
  Passed-append xs ys s t u a c = record {
    kept = λ k. c.kept (a.kept k);
    gone = λ q p. ground (arith, times-append q p xs ys, a.gone q p, c.gone q p);
    first_le = omega (arith, of_queue-append queue xs ys, a.first_le, c.first_le);
    more = λ p h. ground (
      arith,
      times-append queue p xs ys,
      entry-append queue p xs ys,
      no_entry queue p xs,
      no_entry queue p ys,
      a.gone queue p,
      a.more p,
      c.more p,
    );
    encoded =
        λ e r. let (ex, ey) = EntriesEncoded-append b xs ys e in c.encoded ey (a.encoded ex r);
  }

  module _ (is_enqueued : ℕ → Outcome Bool)
      (asked : (p : ℕ) → is_enqueued p ≡ returned (stored p)) where
    Passed-one :
        (pae : PendingAsyncEnqueue) (s s' : LogPass)
        → Offered b queue stored is_enqueued asked pae s s'
        → Passed (pae ∷ []) s s'
    Passed-one pae s s' o = record {
      kept = λ k. o.kept;
      gone = λ q p. ground (arith, o.gone q p);
      first_le = omega (arith, o.first_le);
      more = λ p h. o.more p;
      encoded = λ e r. o.encoded e.0 r;
    }

    pending_of_queue-Passed :
        (sub : OrdMap PendingAsyncEnqueue) (s : LogPass)
        → IsKept s.adset
        → s.first + of_queue queue (values_sub sub) ≤ 10
        → (ks : OrdMap PendingAsyncEnqueue × LogPass) × (pending_of_queue queue is_enqueued sub s
            ≡ returned ks)
          × Passed (values_sub sub) s ks.1
    unfolding pending_of_queue
    pending_of_queue-Passed [] s k h = (([], s), refl, Passed-nil s)
    pending_of_queue-Passed ((p, pae) ∷ sub) s k h =
        let (one_turn, turned, o) =
          pending_enqueue-Offered b queue stored is_enqueued asked pae s k (omega arith) in
        let (rest, passed, c) =
          pending_of_queue-Passed sub one_turn.1 o.kept (omega (arith, o.first_le)) in
        (
          ((if one_turn.0 then (p, pae) ∷ rest.0 else rest.0), rest.1),
          rw (turned, passed) refl,
          Passed-append (pae ∷ []) (values_sub sub) s one_turn.1 rest.1
              (Passed-one pae s one_turn.1 o) c,
        )

    pub pending_enqueues-Passed :
        (aeset : TwoLevel PendingAsyncEnqueue) (s : LogPass)
        → IsKept s.adset
        → s.first + of_queue queue (values aeset) ≤ 10
        → (ks : TwoLevel PendingAsyncEnqueue × LogPass) × (pending_enqueues queue is_enqueued aeset
              s
            ≡ returned ks)
          × Passed (values aeset) s ks.1
    unfolding pending_enqueues
    pending_enqueues-Passed [] s k h = (([], s), refl, Passed-nil s)
    pending_enqueues-Passed ((q, sub) ∷ aeset) s k h =
        let split : of_queue queue (values_sub sub ++ values aeset)
            ≡ of_queue queue (values_sub sub) + of_queue queue (values aeset) =
          of_queue-append queue (values_sub sub) (values aeset) in
        let (one_queue, turned, a) = pending_of_queue-Passed sub s k (omega arith) in
        let (rest, passed, c) =
          pending_enqueues-Passed aeset one_queue.1 (a.kept k) (omega (arith, a.first_le)) in
        (
          ((if empty one_queue.0 then rest.0 else (q, one_queue.0) ∷ rest.0), rest.1),
          rw (turned, passed) refl,
          Passed-append (values_sub sub) (values aeset) s one_queue.1 rest.1 a c,
        )
