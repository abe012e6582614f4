-- ===== src/Provider/Recovery/Given.antt =====
-- What the second loop of `decodeAndRecoverMsg` (lib/BdbStoreProvider.cpp) does for one message of the
-- queue, where nothing was accepted elsewhere and the broker wants the content of every message.
use bdbmsgstore.Prelude.{
  ℕ, suc, ◌+◌, ◌-◌, ◌≡◌, refl, inl, inr, Bool, true, false, ◌&&◌, none, some, List, [], ◌∷◌, ◌++◌,
  arith, ltb, ◌==◌, if◌then◌else◌, is_some, get_or, length, take, drop, Bool-cases, ap, sym, ◌∙◌,
  subst, le→ltb, ==-refl, ==→eq,
}
use bdbmsgstore.OrdMap.{OrdMap, find, insert}
use bdbmsgstore.OrdMap.Laws.{find-insert, find-assign}
use bdbmsgstore.TwoLevel.{TwoLevel, lookup, remove, IsKept}
use bdbmsgstore.TwoLevel.Laws.{lookup-remove, remove-found}
use bdbmsgstore.TwoLevel.Order.{remove-IsKept}
use bdbmsgstore.PendingOperation.{PendingAsyncDequeue}
use bdbmsgstore.Journal.{returned}
use bdbmsgstore.Journal.Scan.{Row}
use bdbmsgstore.Message.{Buffer}
use bdbmsgstore.Provider.Recovery.Rows.{
  Broker, RowPass, add_transient, put, push, note_id, check_accepted, check_dequeued, give_message,
  lasting_row, recover_row, recover_rows,
}
use bdbmsgstore.Provider.Recovery.Pending.{lasts, one, occurs, not_there, IsEncoded, RowsEncoded}

abbrev pub count : ℕ → List ℕ → ℕ
count q [] = 0
count q (x ∷ xs) = one (x == q) + count q xs

pub count-append : (q : ℕ) (xs ys : List ℕ) → count q (xs ++ ys) ≡ count q xs + count q ys
count-append q [] ys = omega arith
count-append q (x ∷ xs) ys = omega (arith, count-append q xs ys)

-- How often a message is to be put on a queue.
abbrev pub gives : ℕ → ℕ → OrdMap (List ℕ) → ℕ
gives q p m = count q (get_or (find p m) [])

pub find-put :
    {V : Type 0} (j k : ℕ) (v : V) (m : OrdMap V)
    → find j (put k v m) ≡ (if k == j then some v else find j m)
find-put j k v m =
    ground (arith, find-assign j k v (insert k v m), find-insert j k v m, find-insert k k v m)

gives-push_self : (q p : ℕ) (m : OrdMap (List ℕ)) → gives q p (push p q m) ≡ gives q p m + 1
gives-push_self q p m =
    rw
      (
        find-put p p (get_or (find p m) [] ++ (q ∷ [])) m,
        ==-refl p,
        count-append q (get_or (find p m) []) (q ∷ []),
        ==-refl q,
      )
      refl

gives-push :
    (q p id : ℕ) (m : OrdMap (List ℕ)) → gives q p (push id q m) ≡ gives q p m + one (id == p)
gives-push q p id m = elim (Bool-cases (id == p)) [
  | inl e ↦ rw e (
      subst (λ i. gives q p (push i q m) ≡ gives q p m + 1) (sym (==→eq id p e))
        (gives-push_self q p m))
  | inr e ↦ rw (find-put p id (get_or (find id m) [] ++ (q ∷ [])) m, e) (omega arith)
]

module _ (b : Buffer) (broker : Broker) (enable : Bool) (queue : ℕ)
    (wants : (h : List ℕ) (n : ℕ) → broker.load_content h n ≡ true) where
  check_accepted-nil :
      (id : ℕ) (uid : List ℕ) (s : RowPass) → check_accepted queue enable [] id uid s ≡ (true, s)
  unfolding check_accepted
  check_accepted-nil id uid s = ground arith

  pub record Given (rows : List Row) (s s' : RowPass) : Type 0 where
    pub kept : IsKept s.adset → IsKept s'.adset
    pub gone :
        (p : ℕ)
        → IsKept s.adset
        → lookup queue p s'.adset ≡ (if ltb 0 (occurs p rows) then none else lookup queue p s.adset)
    pub more :
        (p : ℕ)
        → IsKept s.adset
        → gives queue p s'.message_queue_map
          ≡ gives queue p s.message_queue_map
            + (occurs p rows - one (is_some (lookup queue p s.adset)))
    pub accepted :
        (p : ℕ)
        → IsKept s.adset
        → count p s'.async_accepted_msg
          ≡ count p s.async_accepted_msg
            + one (ltb 0 (occurs p rows) && is_some (lookup queue p s.adset))
    pub inner : s'.inner_accepted_msg ≡ s.inner_accepted_msg

  there :
      (id p : ℕ) (m : TwoLevel PendingAsyncDequeue)
      → (id == p) ≡ true
      → is_some (lookup queue p m) ≡ (remove queue id m).0
  there id p m e =
      ap (λ i. is_some (lookup queue i m)) (sym (==→eq id p e)) ∙ sym (remove-found queue id m)

  -- The row of a message with a pending dequeue.
  dequeued-Given :
      (id : ℕ) (value : List ℕ) (s s' : RowPass)
      → lasts value ≡ true
      → (remove queue id s.adset).0 ≡ true
      → s'.adset ≡ (remove queue id s.adset).1
      → s'.message_queue_map ≡ s.message_queue_map
      → s'.async_accepted_msg ≡ s.async_accepted_msg ++ (id ∷ [])
      → s'.inner_accepted_msg ≡ s.inner_accepted_msg
      → Given ((id, value) ∷ []) s s'
  dequeued-Given id value s s' l d a m r i = record {
    inner = i;
    kept = λ k. rw a (remove-IsKept queue id s.adset k);
    gone = λ p k. rw (a, lookup-remove queue p queue id s.adset k) (ground arith);
    more = λ p k. rw m (elim (Bool-cases (id == p)) [
      | inl e ↦ rw (e, l, there id p s.adset e ∙ d) (omega arith)
      | inr e ↦ rw e (omega arith)
    ]);
    accepted = λ p k.
        rw (r, count-append p s.async_accepted_msg (id ∷ []))
          (elim (Bool-cases (id == p)) [
            | inl e ↦ rw (e, l, there id p s.adset e ∙ d) refl
            | inr e ↦ rw e refl
          ]);
  }

  -- The row of any other one, which lasts.
  lasting-Given :
      (id : ℕ) (value : List ℕ) (s s' : RowPass)
      → lasts value ≡ true
      → (remove queue id s.adset).0 ≡ false
      → s'.adset ≡ s.adset
      → s'.message_queue_map ≡ push id queue s.message_queue_map
      → s'.async_accepted_msg ≡ s.async_accepted_msg
      → s'.inner_accepted_msg ≡ s.inner_accepted_msg
      → Given ((id, value) ∷ []) s s'
  lasting-Given id value s s' l d a m r i = record {
    inner = i;
    kept = λ k. rw a k;
    gone = λ p k. rw a (elim (Bool-cases (id == p)) [
      | inl e ↦ rw (e, l) (not_there _ (there id p s.adset e ∙ d))
      | inr e ↦ rw e refl
    ]);
    more = λ p k.
        rw (m, gives-push queue p id s.message_queue_map)
          (elim (Bool-cases (id == p)) [
            | inl e ↦ rw (e, l, there id p s.adset e ∙ d) (omega arith)
            | inr e ↦ rw e (omega arith)
          ]);
    accepted = λ p k. rw r (elim (Bool-cases (id == p)) [
      | inl e ↦ rw (e, l, there id p s.adset e ∙ d) (omega arith)
      | inr e ↦ rw e (omega arith)
    ]);
  }

  lasting_row-Given :
      (id : ℕ) (header content value : List ℕ) (s : RowPass)
      → lasts value ≡ true
      → Given ((id, value) ∷ []) s (lasting_row b broker enable [] queue id header content s)
  unfolding lasting_row check_dequeued give_message note_id
  lasting_row-Given id header content value s l = elim (Bool-cases (remove queue id s.adset).0) [
    | inl d ↦
        rw (check_accepted-nil id (broker.uid header) (note_id id s).1, d)
          (dequeued-Given id value s _ l d refl refl refl refl)
    | inr d ↦
        rw
          (
            check_accepted-nil id (broker.uid header) (note_id id s).1,
            d,
            wants header (length content),
          )
          (lasting-Given id value s _ l d refl refl refl refl)
  ]

  Given-nil : (s : RowPass) → Given [] s s
  Given-nil s = record {
    kept = λ k. k;
    gone = λ p k. refl;
    more = λ p k. omega arith;
    accepted = λ p k. omega arith;
    inner = refl;
  }

  Given-cons :
      (row : Row) (rows : List Row) (s t u : RowPass)
      → Given (row ∷ []) s t
      → Given rows t u
      → Given (row ∷ rows) s u
  Given-cons (id, value) rows s t u a c = record {
    kept = λ k. c.kept (a.kept k);
    gone = λ p k. ground (arith, a.gone p k, c.gone p (a.kept k));
    more = λ p k. ground (arith, a.gone p k, a.more p k, c.more p (a.kept k));
    accepted = λ p k. ground (arith, a.gone p k, a.accepted p k, c.accepted p (a.kept k));
    inner = c.inner ∙ a.inner;
  }

  skipped : (id p : ℕ) (value : List ℕ) → lasts value ≡ false → occurs p ((id, value) ∷ []) ≡ 0
  skipped id p value l = ground arith

  transient-Given :
      (id : ℕ) (value : List ℕ) (s : RowPass)
      → lasts value ≡ false
      → Given ((id, value) ∷ []) s (add_transient id s)
  transient-Given id value s l = record {
    kept = λ k. k;
    gone = λ p k. rw (skipped id p value l) refl;
    more = λ p k. rw (skipped id p value l) (omega arith);
    accepted = λ p k. rw (skipped id p value l) (omega arith);
    inner = refl;
  }

  recover_row-Given :
      (row : Row) (s : RowPass)
      → IsEncoded b row.1
      → (s' : RowPass) × (recover_row b broker enable [] queue row s ≡ returned s')
        × Given (row ∷ []) s s'
  unfolding recover_row
  recover_row-Given (id, []) s e = absurd e
  recover_row-Given (id, flag ∷ value) s e = elim (Bool-cases (flag == 0)) [
    | inr other ↦ (add_transient id s, rw other refl, transient-Given id (flag ∷ value) s other)
    | inl lasting ↦
        let size = b.get_long value in
        let header = take size (drop 4 value) in
        let content = drop (size + 5) (flag ∷ value) in
        (
          lasting_row b broker enable [] queue id header content s,
          rw (lasting, le→ltb (suc (length value)) (size + 5) (e (==→eq flag 0 lasting))) refl,
          lasting_row-Given id header content (flag ∷ value) s lasting,
        )
  ]

  pub recover_rows-Given :
      (rows : List Row) (s : RowPass)
      → RowsEncoded b rows
      → (s' : RowPass) × (recover_rows b broker enable [] queue rows s ≡ returned s')
        × Given rows s s'
  unfolding recover_rows
  recover_rows-Given [] s e = (s, refl, Given-nil s)
  recover_rows-Given (row ∷ rows) s e =
      let (t, turned, a) = recover_row-Given row s e.0 in
      let (u, gave, c) = recover_rows-Given rows t e.1 in
      (u, rw turned gave, Given-cons row rows s t u a c)
