-- ===== src/Journal/Collide.antt =====
-- Two corners of lib/JournalImpl.cpp: ids whose difference is a multiple of 2 ^ 32, and the journal
-- that is made without databases.
use bdbmsgstore.Prelude.{
  ℕ, ◌%◌, ◌^◌, ◌≡◌, refl, false, Option, some, List, arith, ap, ◌∙◌, sym, ==-refl,
}
use bdbmsgstore.Journal.{
  JournalImpl, Outcome, returned, undefined, partition, open_journal, enqueue_data, dequeue_data,
  is_enqueued, init_message_db,
}
use bdbmsgstore.Journal.Key.{same_key-low}
use bdbmsgstore.Journal.Berkeley.{Status, ok, key_exist, not_found, failed, Database, IsDatabase}
use bdbmsgstore.TxnCtxt.Ending.{Ending, unchanged, committed, lost}
use bdbmsgstore.Journal.Contents.{IsReady, contents, content_of, contents_here}
use bdbmsgstore.Journal.Outcomes.{Kept, Enqueued}
use bdbmsgstore.Journal.Calls.{enqueue_data-Enqueued}
use bdbmsgstore.Journal.Reliable.{IsReliable, HasTxns, EndsPut, Puts-EndsPut}

-- A journal made with `create_bdb` false goes on as one that has databases: whatever opening them
-- does, which is nothing, every enqueue, dequeue and lookup then divides by 0.
pub open_journal-undefined :
    {D : Type 0} (db : Database D) (n pid : ℕ) (v : List ℕ)
    → let j = (init_message_db db (open_journal n false)).1 in
      ((init_message_db db (open_journal n false)).0 ≡ returned tt)
      × ((enqueue_data db pid v j).0 ≡ undefined)
      × ((dequeue_data db pid j).0 ≡ undefined)
      × (is_enqueued db pid j ≡ undefined)
unfolding init_message_db open_journal enqueue_data dequeue_data is_enqueued
open_journal-undefined db n pid v = (refl, refl, refl, refl)

module _ {D : Type 0} (db : Database D) (stored : D → ℕ → Option (List ℕ))
    (laws : IsDatabase db stored) where
  -- The two ids share their place.
  shares :
      (pid other : ℕ) (v : List ℕ) (j : JournalImpl D) (d : D)
      → partition other j ≡ some d
      → other % 2 ^ 32 ≡ pid % 2 ^ 32
      → other % j.num_jfiles ≡ pid % j.num_jfiles
      → contents stored j pid ≡ some v
      → contents stored j other ≡ some v
  shares pid other v j d e low here holds =
      ap (content_of stored other) e
      ∙ (laws.same other pid d (same_key-low other pid ∙ (rw low (==-refl (pid % 2 ^ 32))))
          ∙ (sym (contents_here stored pid other d j (rw here (==-refl (pid % j.num_jfiles))) e)
              ∙ holds))

  not_entered :
      (other : ℕ) (w v : List ℕ) (j j' : JournalImpl D) (g : Ending Status) (o : Outcome (Unit {0}))
      → EndsPut g
      → contents stored j other ≡ some v
      → Enqueued stored other w j g o j'
      → (o ≡ returned tt) × Kept stored j j'
  not_entered other w v j j' unchanged o r h e = absurd r
  not_entered other w v j j' (committed ok) o r h e = absurd (ground (arith, h, e.1.0))
  not_entered other w v j j' (committed key_exist) o r h e = (e.0, e.1)
  not_entered other w v j j' (committed not_found) o r h e = absurd r
  not_entered other w v j j' (committed failed) o r h e = absurd r
  not_entered other w v j j' lost o r h e = absurd r

  -- Let the journal, with its databases open and working, transactions included, hold a message under an id. A message with
  -- an id that differs by a multiple of 2 ^ 32, and falls into the same partition, is then lost: its
  -- enqueue returns and leaves the journal as it was, which has the first message under both ids.
  pub second_is_lost :
      (pid other : ℕ) (v w : List ℕ) (j : JournalImpl D)
      → IsReady j
      → other % 2 ^ 32 ≡ pid % 2 ^ 32
      → other % j.num_jfiles ≡ pid % j.num_jfiles
      → contents stored j pid ≡ some v
      → IsReliable db
      → HasTxns db
      → let r = enqueue_data db other w j in
        (r.0 ≡ returned tt) × Kept stored j r.1 × (contents stored j other ≡ some v)
  second_is_lost pid other v w j h low here holds sure txns =
      let (now, (d, e, outcome)) = enqueue_data-Enqueued db stored laws other w j h in
      let ends =
        Puts-EndsPut (db.put_txn other d) (db.put other w d) (txns.put_txns other d)
          (sure.puts other w d) in
      let there = shares pid other v j d e low here holds in
      let done = not_entered other w v j _ _ _ ends there outcome in (done.0, done.1, there)
