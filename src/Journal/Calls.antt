-- ===== src/Journal/Calls.antt =====
-- What each call of the journal (lib/JournalImpl.cpp) does to its contents, whatever its databases and
-- their transactions answer.
use bdbmsgstore.Prelude.{
  ℕ, ◌≡◌, refl, Bool, false, Option, none, some, List, if◌then◌else◌, is_some, ap, ◌∙◌,
}
use bdbmsgstore.Journal.{
  JournalImpl, Outcome, returned, partition, set_partition, touched, answer_put, put_in_txn,
  enqueue_at, dequeue_at, ignore_answer, answer_del, del_in_txn, answer_exists, store_msg,
  remove_msg, enqueue_data, dequeue_data, is_enqueued,
}
use bdbmsgstore.TxnCtxt.{TxnCtxt}
use bdbmsgstore.TxnCtxt.Ending.{Ending, unchanged, committed, lost, ending, EndsAs, with_txn-EndsAs}
use bdbmsgstore.Journal.Berkeley.{Status, ok, key_exist, not_found, failed, Database, IsDatabase}
use bdbmsgstore.Journal.Contents.{
  IsReady, partition-IsReady, set_partition-IsReady, touched-IsReady, contents, content_of,
}
use bdbmsgstore.Journal.Outcomes.{Kept, Enqueued, Dequeued, Asked, set_changed, set_same}

module _ {D : Type 0} (db : Database D) (stored : D → ℕ → Option (List ℕ))
    (laws : IsDatabase db stored) where
  module _ (pid : ℕ) (d : D) (j : JournalImpl D) (h : IsReady j)
      (e : partition pid j ≡ some d) where
    content : contents stored j pid ≡ stored d pid
    content = ap (content_of stored pid) e

    abbrev pub put_db : D → JournalImpl D
    put_db d' = set_partition pid d' (touched j)

    put_db-IsReady : (d' : D) → IsReady (put_db d')
    put_db-IsReady d' = set_partition-IsReady pid d' (touched j) (touched-IsReady j h)

    unmoved : (d' : D) → d' ≡ d → Kept stored j (put_db d')
    unmoved d' q = set_same stored pid d d' j h e (λ k. ap (λ x. stored x k) q)

    enqueue-answer :
        (v : List ℕ) (g : Ending Status) (o : Outcome Status) (c : TxnCtxt D)
        → EndsAs (db.put pid v d) d g o c
        → Enqueued stored pid v j g (ignore_answer db (answer_put db o)) (put_db c.db)
    enqueue-answer v unchanged o c (a, q) =
        (ap (λ x. ignore_answer db (answer_put db x)) a, unmoved c.db q)
    enqueue-answer v (committed ok) o c (a, q) =
        let done = laws.put_ok pid v d c.db q in
        (
          ap (λ x. ignore_answer db (answer_put db x)) a,
          (content ∙ done.0, set_changed stored pid d c.db j h e (some v) done.1),
        )
    enqueue-answer v (committed key_exist) o c (a, q) = (
      ap (λ x. ignore_answer db (answer_put db x)) a,
      set_same stored pid d c.db j h e (laws.put_not_ok pid v d c.db key_exist q (λ r. cc)),
      ap is_some content ∙ laws.put_exist pid v d c.db q,
    )
    enqueue-answer v (committed not_found) o c (a, q) = (
      ap (λ x. ignore_answer db (answer_put db x)) a,
      set_same stored pid d c.db j h e (laws.put_not_ok pid v d c.db not_found q (λ r. cc)),
    )
    enqueue-answer v (committed failed) o c (a, q) = (
      ap (λ x. ignore_answer db (answer_put db x)) a,
      set_same stored pid d c.db j h e (laws.put_not_ok pid v d c.db failed q (λ r. cc)),
    )
    enqueue-answer v lost o c a = ap (λ x. ignore_answer db (answer_put db x)) a

    pub dequeue-answer :
        (g : Ending Status) (o : Outcome Status) (c : TxnCtxt D)
        → EndsAs (db.del pid d) d g o c
        → Dequeued stored pid j g (answer_del db o) (put_db c.db)
    dequeue-answer unchanged o c (a, q) = (ap (answer_del db) a, unmoved c.db q)
    dequeue-answer (committed ok) o c (a, q) =
        (ap (answer_del db) a, set_changed stored pid d c.db j h e none (laws.del_ok pid d c.db q))
    dequeue-answer (committed not_found) o c (a, q) = (
      ap (answer_del db) a,
      set_same stored pid d c.db j h e (laws.del_not_ok pid d c.db not_found q (λ r. cc)),
      content ∙ laws.del_not_found pid d c.db q,
    )
    dequeue-answer (committed key_exist) o c (a, q) = (
      ap (answer_del db) a,
      set_same stored pid d c.db j h e (laws.del_not_ok pid d c.db key_exist q (λ r. cc)),
    )
    dequeue-answer (committed failed) o c (a, q) = (
      ap (answer_del db) a,
      set_same stored pid d c.db j h e (laws.del_not_ok pid d c.db failed q (λ r. cc)),
    )
    dequeue-answer lost o c a = ap (answer_del db) a

    asked : (a : Option Status) → db.exists pid d ≡ a → Asked stored pid j a (answer_exists db a)
    asked none q = refl
    asked (some ok) q = rw (ap is_some content ∙ laws.exists_found pid d ok q (λ r. cc)) refl
    asked (some key_exist) q =
        rw (ap is_some content ∙ laws.exists_found pid d key_exist q (λ r. cc)) refl
    asked (some not_found) q = rw (ap is_some (content ∙ laws.exists_not_found pid d q)) refl
    asked (some failed) q =
        rw (ap is_some content ∙ laws.exists_found pid d failed q (λ r. cc)) refl

    enqueue_data-put :
        (v : List ℕ)
        → let (o, c) = put_in_txn db pid v d in
          enqueue_data db pid v j ≡ (ignore_answer db (answer_put db o), put_db c.db)
    unfolding enqueue_data store_msg
    enqueue_data-put v =
        let (o, c) = put_in_txn db pid v d in
        ap (λ b. if b then enqueue_at db pid v j (partition pid j) else (returned tt, j)) h.creates
        ∙ (ap (enqueue_at db pid v j) e
            ∙ ap
                (λ b.
                  let (o', j') : Outcome Bool × JournalImpl D =
                    if b then (answer_put db o, put_db c.db) else (returned false, j) in
                  (ignore_answer db o', j'))
                h.creates)

    dequeue_data-del :
        let (o, c) = del_in_txn db pid d in dequeue_data db pid j ≡ (answer_del db o, put_db c.db)
    unfolding dequeue_data remove_msg
    dequeue_data-del =
        let (o, c) = del_in_txn db pid d in
        ap (λ b. if b then dequeue_at db pid j (partition pid j) else (returned tt, j)) h.creates
        ∙ (ap (dequeue_at db pid j) e
            ∙ ap (λ b. if b then (answer_del db o, put_db c.db) else (returned tt, j)) h.creates)

  -- Let the journal's databases be open. Then `enqueue_data` leaves them open, and what it comes to is
  -- decided by the transaction around its put: whether begin, the put, commit and abort throw, and the
  -- put's status. If the transaction cannot begin, or the put throws and abort does not, it throws and
  -- the journal holds what it held. If the put throws and abort does too, or commit throws, its
  -- behaviour is undefined. Otherwise it returns: on success the message has entered an empty place,
  -- under the ids of its partition and key, and on any other status the journal holds what it held, on
  -- DB_KEYEXIST with a message in that place.
  pub enqueue_data-Enqueued :
      (pid : ℕ) (v : List ℕ) (j : JournalImpl D)
      → IsReady j
      → let r = enqueue_data db pid v j in
        IsReady r.1
        × ((d : D) × (partition pid j ≡ some d)
            × Enqueued stored pid v j (ending (db.put_txn pid d) (db.put pid v d)) r.0 r.1)
  enqueue_data-Enqueued pid v j h =
      let (d, e) = partition-IsReady pid j h in
      let (o, c) = put_in_txn db pid v d in
      let answer =
        enqueue-answer pid d j h e v (ending (db.put_txn pid d) (db.put pid v d)) o c
          (with_txn-EndsAs (db.put_txn pid d) (db.put pid v) d) in
      rw (enqueue_data-put pid d j h e v) (put_db-IsReady pid d j h e c.db, (d, e, answer))

  -- Let the journal's databases be open. Then `dequeue_data` leaves them open, and what it comes to is
  -- decided by the transaction around its delete, as for `enqueue_data`. If it returns, what was held
  -- under the ids of the message's partition and key is gone on success, and on any other status the
  -- journal holds what it held, on DB_NOTFOUND with nothing in that place.
  pub dequeue_data-Dequeued :
      (pid : ℕ) (j : JournalImpl D)
      → IsReady j
      → let r = dequeue_data db pid j in
        IsReady r.1
        × ((d : D) × (partition pid j ≡ some d)
            × Dequeued stored pid j (ending (db.del_txn pid d) (db.del pid d)) r.0 r.1)
  dequeue_data-Dequeued pid j h =
      let (d, e) = partition-IsReady pid j h in
      let (o, c) = del_in_txn db pid d in
      let answer =
        dequeue-answer pid d j h e (ending (db.del_txn pid d) (db.del pid d)) o c
          (with_txn-EndsAs (db.del_txn pid d) (db.del pid) d) in
      rw (dequeue_data-del pid d j h e) (put_db-IsReady pid d j h e c.db, (d, e, answer))

  -- With its databases open, `is_enqueued` throws if the lookup throws, and else says whether the
  -- journal holds a message under the id.
  pub is_enqueued-Asked :
      (pid : ℕ) (j : JournalImpl D)
      → IsReady j
      → (d : D) × (partition pid j ≡ some d)
        × Asked stored pid j (db.exists pid d) (is_enqueued db pid j)
  unfolding is_enqueued
  is_enqueued-Asked pid j h =
      let (d, e) = partition-IsReady pid j h in
      rw (h.creates, e) (d, refl, asked pid d j h e (db.exists pid d) refl)
