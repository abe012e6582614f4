-- ===== src/Journal/Refine.antt =====
-- Enqueues and dequeues in a row on a journal (lib/JournalImpl.cpp) whose databases do what they are
-- asked to, beside the same changes of a map.
use native.Mathlib.Nat.{mod-eq_of_lt}
use bdbmsgstore.Prelude.{
  ℕ, ◌%◌, ◌^◌, ◌≡◌, ◌<◌, refl, inl, inr, true, Option, none, some, List, [], ◌∷◌, arith, ◌==◌,
  if◌then◌else◌, is_some, get_or, Bool-cases, Option-cases, ap, ◌∙◌, All, ==→eq, ==-refl,
}
use bdbmsgstore.Journal.{JournalImpl, Outcome, returned, enqueue_data, dequeue_data}
use bdbmsgstore.Journal.Key.{same_key-low}
use bdbmsgstore.Journal.Berkeley.{Status, ok, key_exist, not_found, failed, Database, IsDatabase}
use bdbmsgstore.TxnCtxt.Ending.{Ending, unchanged, committed, lost}
use bdbmsgstore.Journal.Reliable.{IsReliable, HasTxns, EndsPut, EndsDel, Puts-EndsPut, Dels-EndsDel}
use bdbmsgstore.Journal.Contents.{IsReady, contents}
use bdbmsgstore.Journal.Outcomes.{together, Enqueued, Dequeued}
use bdbmsgstore.Journal.Calls.{enqueue_data-Enqueued, dequeue_data-Dequeued}

pub data Op : Type 0 where
  enqueue : ℕ → List ℕ → Op
  dequeue : ℕ → Op

abbrev pub op_pid : Op → ℕ
op_pid (enqueue pid v) = pid
op_pid (dequeue pid) = pid

-- The map that a journal stands for: an id that is there keeps its message.
abbrev pub map_op : Op → (ℕ → Option (List ℕ)) → ℕ → Option (List ℕ)
map_op (enqueue pid v) m p = if p == pid then some (get_or (m pid) v) else m p
map_op (dequeue pid) m p = if p == pid then none else m p

abbrev pub map_ops : List Op → (ℕ → Option (List ℕ)) → ℕ → Option (List ℕ)
map_ops [] m = m
map_ops (o ∷ os) m = map_ops os (map_op o m)

low_together : (n p pid : ℕ) → p < 2 ^ 32 → pid < 2 ^ 32 → together n p pid ≡ (p == pid)
low_together n p pid hp hq = elim (Bool-cases (p == pid)) [
  | inl e ↦
      rw (==→eq p pid e, ==-refl (pid % n), ==-refl pid)
        (same_key-low pid pid ∙ ==-refl (pid % 2 ^ 32))
  | inr e ↦
      rw (e, same_key-low p pid, mod-eq_of_lt hp, mod-eq_of_lt hq, e)
        (elim (Bool-cases (p % n == pid % n)) [ inl q ↦ rw q refl | inr q ↦ rw q refl ])
]

module _ (f : ℕ → Option (List ℕ)) (p pid : ℕ) where
  stays :
      (v : List ℕ)
      → is_some (f pid) ≡ true
      → f p ≡ (if p == pid then some (get_or (f pid) v) else f p)
  stays v h = elim (Bool-cases (p == pid)) [
    | inl e ↦ elim (Option-cases (f pid)) [
      | inl q ↦ absurd (ground (arith, h, q))
      | inr (w, q) ↦ rw (e, q) (ap f (==→eq p pid e) ∙ q)
    ]
    | inr e ↦ rw e refl
  ]

  stays_away : f pid ≡ none → f p ≡ (if p == pid then none else f p)
  stays_away h = elim (Bool-cases (p == pid)) [
    | inl e ↦ rw e (ap f (==→eq p pid e) ∙ h)
    | inr e ↦ rw e refl
  ]

map_op-same :
    (op : Op) (f g : ℕ → Option (List ℕ))
    → op_pid op < 2 ^ 32
    → ((p : ℕ) → p < 2 ^ 32 → f p ≡ g p)
    → (p : ℕ) → p < 2 ^ 32
    → map_op op f p ≡ map_op op g p
map_op-same (enqueue pid v) f g lt same p l = rw (same p l, same pid lt) refl
map_op-same (dequeue pid) f g lt same p l = rw (same p l) refl

map_ops-same :
    (ops : List Op) (f g : ℕ → Option (List ℕ))
    → All (λ o. op_pid o < 2 ^ 32) ops
    → ((p : ℕ) → p < 2 ^ 32 → f p ≡ g p)
    → (p : ℕ) → p < 2 ^ 32
    → map_ops ops f p ≡ map_ops ops g p
map_ops-same [] f g lt same p l = same p l
map_ops-same (o ∷ os) f g lt same p l =
    map_ops-same os (map_op o f) (map_op o g) lt.1 (map_op-same o f g lt.0 same) p l

module _ {D : Type 0} (db : Database D) (stored : D → ℕ → Option (List ℕ)) where
  abbrev pub apply : Op → JournalImpl D → Outcome (Unit {0}) × JournalImpl D
  apply (enqueue pid v) j = enqueue_data db pid v j
  apply (dequeue pid) j = dequeue_data db pid j

  -- The outcomes of the calls in a row, and the journal after them.
  unfoldable pub apply_all : List Op → JournalImpl D → List (Outcome (Unit {0})) × JournalImpl D
  apply_all [] j = ([], j)
  apply_all (o ∷ os) j =
      let (out, j') = apply o j in let (outs, j'') = apply_all os j' in (out ∷ outs, j'')

  enqueue-map :
      (pid p : ℕ) (v : List ℕ) (j j' : JournalImpl D) (g : Ending Status) (o : Outcome (Unit {0}))
      → EndsPut g
      → pid < 2 ^ 32
      → p < 2 ^ 32
      → Enqueued stored pid v j g o j'
      → (o ≡ returned tt) × (contents stored j' p ≡ map_op (enqueue pid v) (contents stored j) p)
  enqueue-map pid p v j j' unchanged o r hp hq e = absurd r
  enqueue-map pid p v j j' (committed ok) o r hp hq e =
      (e.0, e.1.1 p ∙ rw (low_together j.num_jfiles p pid hq hp, e.1.0) refl)
  enqueue-map pid p v j j' (committed key_exist) o r hp hq e =
      (e.0, e.1 p ∙ stays (contents stored j) p pid v e.2)
  enqueue-map pid p v j j' (committed not_found) o r hp hq e = absurd r
  enqueue-map pid p v j j' (committed failed) o r hp hq e = absurd r
  enqueue-map pid p v j j' lost o r hp hq e = absurd r

  pub dequeue-map :
      (pid p : ℕ) (j j' : JournalImpl D) (g : Ending Status) (o : Outcome (Unit {0}))
      → EndsDel g
      → pid < 2 ^ 32
      → p < 2 ^ 32
      → Dequeued stored pid j g o j'
      → (o ≡ returned tt) × (contents stored j' p ≡ map_op (dequeue pid) (contents stored j) p)
  dequeue-map pid p j j' unchanged o r hp hq e = absurd r
  dequeue-map pid p j j' (committed ok) o r hp hq e =
      (e.0, e.1 p ∙ rw (low_together j.num_jfiles p pid hq hp) refl)
  dequeue-map pid p j j' (committed not_found) o r hp hq e =
      (e.0, e.1 p ∙ stays_away (contents stored j) p pid e.2)
  dequeue-map pid p j j' (committed key_exist) o r hp hq e = absurd r
  dequeue-map pid p j j' (committed failed) o r hp hq e = absurd r
  dequeue-map pid p j j' lost o r hp hq e = absurd r

  module _ (laws : IsDatabase db stored) (sure : IsReliable db) (txns : HasTxns db) where
    apply-map :
        (op : Op) (j : JournalImpl D)
        → IsReady j
        → op_pid op < 2 ^ 32
        → let r = apply op j in
          IsReady r.1
          × (r.0 ≡ returned tt)
          × ((p : ℕ) → p < 2 ^ 32 → contents stored r.1 p ≡ map_op op (contents stored j) p)
    apply-map (enqueue pid v) j h lt =
        let (now, (d, e, outcome)) = enqueue_data-Enqueued db stored laws pid v j h in
        let ends =
          Puts-EndsPut (db.put_txn pid d) (db.put pid v d) (txns.put_txns pid d)
            (sure.puts pid v d) in
        (
          now,
          (enqueue-map pid pid v j _ _ _ ends lt lt outcome).0,
          λ p l. (enqueue-map pid p v j _ _ _ ends lt l outcome).1,
        )
    apply-map (dequeue pid) j h lt =
        let (now, (d, e, outcome)) = dequeue_data-Dequeued db stored laws pid j h in
        let ends =
          Dels-EndsDel (db.del_txn pid d) (db.del pid d) (txns.del_txns pid d) (sure.dels pid d) in
        (
          now,
          (dequeue-map pid pid j _ _ _ ends lt lt outcome).0,
          λ p l. (dequeue-map pid p j _ _ _ ends lt l outcome).1,
        )

    -- With databases and transactions that neither throw nor fail, any enqueues and dequeues of messages with ids below
    -- 2 ^ 32 on a journal with its databases open all return; and what the journal then holds under
    -- such ids is what a map holds after the same insertions, which keep a message that is there, and
    -- removals, however the ids are spread over the databases.
    pub apply_all-map :
        (ops : List Op) (j : JournalImpl D)
        → IsReady j
        → All (λ o. op_pid o < 2 ^ 32) ops
        → let r = apply_all ops j in
          IsReady r.1
          × All (λ o. o ≡ returned tt) r.0
          × ((p : ℕ) → p < 2 ^ 32 → contents stored r.1 p ≡ map_ops ops (contents stored j) p)
    unfolding apply_all
    apply_all-map [] j h lt = (h, tt, λ p l. refl)
    apply_all-map (o ∷ os) j h lt =
        let (now, out, first) = apply-map o j h lt.0 in
        let (later, outs, rest) = apply_all-map os (apply o j).1 now lt.1 in
        (
          later,
          (out, outs),
          λ p l. rest p l ∙ map_ops-same os _ (map_op o (contents stored j)) lt.1 first p l,
        )
