-- ===== src/Provider/Recovery/Pending.antt =====
-- What the first loop of `decodeAndRecoverMsg` (lib/BdbStoreProvider.cpp) does for one message of the
-- queue, where the journal answers each question.
use bdbmsgstore.Prelude.{
  ℕ, suc, ◌+◌, ◌≤◌, ◌≡◌, refl, inl, inr, Bool, true, false, ◌&&◌, Option, none, some, List, [], ◌∷◌,
  ◌++◌, arith, ◌==◌, if◌then◌else◌, is_some, take, append-nil, length, Bool-cases, lt→ltb, ap₂, sym,
  ◌∙◌,
}
use bdbmsgstore.TwoLevel.{TwoLevel, lookup, remove, IsKept}
use bdbmsgstore.TwoLevel.Laws.{lookup-remove, remove-found}
use bdbmsgstore.TwoLevel.Order.{remove-IsKept}
use bdbmsgstore.PendingOperation.{PendingAsyncEnqueue}
use bdbmsgstore.Journal.{Outcome, returned}
use bdbmsgstore.Journal.Scan.{Row}
use bdbmsgstore.Message.{Buffer}
use bdbmsgstore.Provider.Recovery.{
  LogPass, drop_useless, drop_transient, drop_stored, take_up, pending_enqueue,
}

-- Whether the first byte, the transient flag, is 0.
abbrev pub lasts : List ℕ → Bool
lasts [] = false
lasts (flag ∷ value) = flag == 0

abbrev pub one : Bool → ℕ
one true = 1
one false = 0

-- The messages with an id, not counting those marked as transient.
abbrev pub occurs : ℕ → List Row → ℕ
occurs p [] = 0
occurs p ((id, value) ∷ rows) = one (id == p && lasts value) + occurs p rows

pub occurs-append : (p : ℕ) (xs ys : List Row) → occurs p (xs ++ ys) ≡ occurs p xs + occurs p ys
occurs-append p [] ys = omega arith
occurs-append p ((id, value) ∷ xs) ys = omega (arith, occurs-append p xs ys)

abbrev pub is_of : ℕ → ℕ → PendingAsyncEnqueue → Bool
is_of q p pae = pae.queue_id == q && pae.msg_id == p

-- The entries of a message on a queue, and the first of them.
abbrev pub times : ℕ → ℕ → List PendingAsyncEnqueue → ℕ
times q p [] = 0
times q p (pae ∷ paes) = one (is_of q p pae) + times q p paes

abbrev pub of_queue : ℕ → List PendingAsyncEnqueue → ℕ
of_queue q [] = 0
of_queue q (pae ∷ paes) = one (q == pae.queue_id) + of_queue q paes

abbrev pub entry : ℕ → ℕ → List PendingAsyncEnqueue → Option PendingAsyncEnqueue
entry q p [] = none
entry q p (pae ∷ paes) = if is_of q p pae then some pae else entry q p paes

-- Whether the entry is taken up: it is not dequeued, not transient and not stored.
abbrev pub taken_up : Bool → Bool → Option PendingAsyncEnqueue → ℕ
taken_up dequeued stored none = 0
taken_up dequeued stored (some pae) =
    if dequeued
    then 0
    else if pae.transient
    then 0
    else if stored
    then 0
    else one (lasts (take pae.size pae.buff))

-- A message is long enough for the header that it names.
abbrev pub IsEncoded : Buffer → List ℕ → Type 0
IsEncoded b [] = ⊥
IsEncoded b (flag ∷ value) = flag ≡ 0 → b.get_long value + 5 ≤ suc (length value)

abbrev pub RowsEncoded : Buffer → List Row → Type 0
RowsEncoded b [] = Unit {0}
RowsEncoded b ((id, value) ∷ rows) = IsEncoded b value × RowsEncoded b rows

RowsEncoded-append :
    (b : Buffer) (xs ys : List Row) → RowsEncoded b xs → RowsEncoded b ys → RowsEncoded b (xs ++ ys)
RowsEncoded-append b [] ys hx hy = hy
RowsEncoded-append b ((id, value) ∷ xs) ys hx hy = (hx.0, RowsEncoded-append b xs ys hx.1 hy)

abbrev pub EntryEncoded : Buffer → PendingAsyncEnqueue → Type 0
EntryEncoded b pae = pae.transient ≡ false → IsEncoded b (take pae.size pae.buff)

abbrev pub EntriesEncoded : Buffer → List PendingAsyncEnqueue → Type 0
EntriesEncoded b [] = Unit {0}
EntriesEncoded b (pae ∷ paes) = EntryEncoded b pae × EntriesEncoded b paes

pub same_place :
    {V : Type 0} (q p : ℕ) (pae : PendingAsyncEnqueue) (m : TwoLevel V)
    → is_of q p pae ≡ true
    → lookup q p m ≡ lookup pae.queue_id pae.msg_id m
same_place q p pae m h =
    let (e, e') : (pae.queue_id ≡ q) × (pae.msg_id ≡ p) = (ground arith, ground arith) in
    ap₂ (λ i k. lookup i k m) (sym e) (sym e')

pub not_there : {V : Type 0} (o : Option V) → is_some o ≡ false → o ≡ none
not_there none h = refl
not_there (some v) h = cc

module _ (b : Buffer) (queue : ℕ) (stored : ℕ → Bool) (is_enqueued : ℕ → Outcome Bool)
    (asked : (p : ℕ) → is_enqueued p ≡ returned (stored p)) where
  -- What one turn of the loop leaves.
  pub record Offered (pae : PendingAsyncEnqueue) (s s' : LogPass) : Type 0 where
    pub kept : IsKept s'.adset
    pub gone :
        (q p : ℕ) → lookup q p s'.adset ≡ (if is_of q p pae then none else lookup q p s.adset)
    pub first_le : s'.first ≤ s.first + one (queue == pae.queue_id)
    pub more :
        (p : ℕ)
        → occurs p s'.recovered
          ≡ occurs p s.recovered
            + taken_up
                (is_some (lookup queue p s.adset))
                (stored p)
                (if is_of queue p pae then some pae else none)
    pub encoded : EntryEncoded b pae → RowsEncoded b s.recovered → RowsEncoded b s'.recovered

  offer_live : PendingAsyncEnqueue → LogPass → Bool × LogPass
  offer_live pae s =
      if pae.transient
      then (false, drop_transient pae s)
      else if queue == pae.queue_id
      then if stored pae.msg_id
        then (false, drop_stored pae s)
        else (true, take_up (s.first + 1) pae s)
      else (true, s)

  offer : PendingAsyncEnqueue → LogPass → Bool × LogPass
  offer pae s =
      let (dequeued, adset') = remove pae.queue_id pae.msg_id s.adset in
      if dequeued then (false, drop_useless pae adset' s) else offer_live pae s

  pending_enqueue-returned :
      (pae : PendingAsyncEnqueue) (s : LogPass)
      → s.first + one (queue == pae.queue_id) ≤ 10
      → pending_enqueue queue is_enqueued pae s ≡ returned (offer pae s)
  unfolding pending_enqueue offer offer_live
  pending_enqueue-returned pae s h = elim (Bool-cases (remove pae.queue_id pae.msg_id s.adset).0) [
    | inl d ↦ rw d refl
    | inr d ↦ rw d (elim (Bool-cases pae.transient) [
      | inl t ↦ rw t refl
      | inr t ↦ rw t (elim (Bool-cases (queue == pae.queue_id)) [
        | inl e ↦
            rw (e, lt→ltb s.first 10 (ground arith), asked pae.msg_id)
              (elim (Bool-cases (stored pae.msg_id)) [ inl x ↦ rw x refl | inr x ↦ rw x refl ])
        | inr e ↦ rw e refl
      ])
    ])
  ]

  offer_live-adset :
      (pae : PendingAsyncEnqueue) (s : LogPass) → (offer_live pae s).1.adset ≡ s.adset
  unfolding offer_live
  offer_live-adset pae s = ground arith

  abbrev new_rows : PendingAsyncEnqueue → List Row
  new_rows pae =
      if pae.transient
      then []
      else if queue == pae.queue_id
      then if stored pae.msg_id then [] else (pae.msg_id, take pae.size pae.buff) ∷ []
      else []

  offer_live-recovered :
      (pae : PendingAsyncEnqueue) (s : LogPass)
      → (offer_live pae s).1.recovered ≡ s.recovered ++ new_rows pae
  unfolding offer_live
  offer_live-recovered pae s = ground (arith, append-nil s.recovered)

  occurs-new_rows :
      (p : ℕ) (pae : PendingAsyncEnqueue)
      → occurs p (new_rows pae)
        ≡ taken_up false (stored p) (if is_of queue p pae then some pae else none)
  occurs-new_rows p pae = ground arith

  new_rows-Encoded : (pae : PendingAsyncEnqueue) → EntryEncoded b pae → RowsEncoded b (new_rows pae)
  new_rows-Encoded pae e = elim (Bool-cases pae.transient) [
    | inl t ↦ rw t tt
    | inr t ↦ rw t (elim (Bool-cases (queue == pae.queue_id)) [
      | inl q ↦
          rw q (elim (Bool-cases (stored pae.msg_id)) [ inl x ↦ rw x tt | inr x ↦ rw x (e t, tt) ])
      | inr q ↦ rw q tt
    ])
  ]

  offer_live-Offered :
      (pae : PendingAsyncEnqueue) (s : LogPass)
      → IsKept s.adset
      → lookup pae.queue_id pae.msg_id s.adset ≡ none
      → Offered pae s (offer_live pae s).1
  offer_live-Offered pae s k e = record {
    kept = rw (offer_live-adset pae s) k;
    gone = λ q p. rw (offer_live-adset pae s) (elim (Bool-cases (is_of q p pae)) [
      | inl same ↦ rw same (same_place q p pae s.adset same ∙ e)
      | inr other ↦ rw other refl
    ]);
    first_le = (unfold offer_live in ground arith);
    more = λ p.
        rw
          (
            offer_live-recovered pae s,
            occurs-append p s.recovered (new_rows pae),
            occurs-new_rows p pae,
          )
          (elim (Bool-cases (is_of queue p pae)) [
            | inl same ↦ rw (same, same_place queue p pae s.adset same ∙ e) refl
            | inr other ↦ rw other refl
          ]);
    encoded = λ e' r.
        rw (offer_live-recovered pae s)
          (RowsEncoded-append b s.recovered (new_rows pae) r (new_rows-Encoded pae e'));
  }

  drop_useless-Offered :
      (pae : PendingAsyncEnqueue) (s : LogPass)
      → IsKept s.adset
      → is_some (lookup pae.queue_id pae.msg_id s.adset) ≡ true
      → Offered pae s (drop_useless pae (remove pae.queue_id pae.msg_id s.adset).1 s)
  drop_useless-Offered pae s k e = record {
    kept = remove-IsKept pae.queue_id pae.msg_id s.adset k;
    gone = λ q p. lookup-remove q p pae.queue_id pae.msg_id s.adset k;
    first_le = omega arith;
    more = λ p. elim (Bool-cases (is_of queue p pae)) [
      | inl same ↦ rw (same, same_place queue p pae s.adset same, e) (omega arith)
      | inr other ↦ rw other (omega arith)
    ];
    encoded = λ e r. r;
  }

  pub pending_enqueue-Offered :
      (pae : PendingAsyncEnqueue) (s : LogPass)
      → IsKept s.adset
      → s.first + one (queue == pae.queue_id) ≤ 10
      → (ks : Bool × LogPass) × (pending_enqueue queue is_enqueued pae s ≡ returned ks)
        × Offered pae s ks.1
  unfolding offer
  pending_enqueue-Offered pae s k h = (
    offer pae s,
    pending_enqueue-returned pae s h,
    elim (Bool-cases (remove pae.queue_id pae.msg_id s.adset).0) [
      | inl d ↦
          rw d
            (drop_useless-Offered pae s k (sym (remove-found pae.queue_id pae.msg_id s.adset) ∙ d))
      | inr d ↦ rw d (
          offer_live-Offered pae s k
            (not_there _ (sym (remove-found pae.queue_id pae.msg_id s.adset) ∙ d)))
    ],
  )
