-- ===== src/Journal.antt =====
-- lib/JournalImpl.cpp: the journal of one queue, its messages spread over `num_jfiles` databases by
-- their ids. Logging, management objects and the paths of the databases are left out.
pub mod Key
pub mod Berkeley
pub mod Contents
pub mod Outcomes
pub mod Calls
pub mod Reliable
pub mod Refine
pub mod Collide
pub mod Scan
pub mod Startup
pub mod Cells
mod Tests
use mathlib.Core.List.{foldl}
use bdbmsgstore.Prelude.{
  ℕ, zero, suc, ◌+◌, ◌%◌, Bool, true, false, Option, none, some, List, [], ◌∷◌, ◌++◌, ◌==◌,
  if◌then◌else◌, get_elem?,
}
pub use bdbmsgstore.Outcome.{Outcome, returned, raised, undefined}
use bdbmsgstore.TxnCtxt.{TxnCtxt, called, with_txn}
use bdbmsgstore.Journal.Berkeley.{Status, ok, key_exist, not_found, failed, Database}

pub record JournalImpl (D : Type 0) : Type 0 where
  pub write_activity_flag : Bool
  pub flush_triggered_flag : Bool
  pub is_init : Bool
  pub num_jfiles : ℕ
  pub create_bdb : Bool
  pub transient_list : List ℕ
  pub accepted_list : List ℕ
  pub message_dbs : List (Option D)

abbrev pub set_elem : {A : Type 0} → ℕ → A → List A → List A
set_elem i a [] = []
set_elem zero a (x ∷ xs) = a ∷ xs
set_elem (suc i) a (x ∷ xs) = x ∷ set_elem i a xs

abbrev pub null_dbs : {D : Type 0} → ℕ → List (Option D)
null_dbs zero = []
null_dbs (suc n) = none ∷ null_dbs n

-- The constructor. Its parameter `create_bdb` decides on the number of databases, but the member of
-- that name is set to true.
unfoldable pub open_journal : {D : Type 0} → ℕ → Bool → JournalImpl D
open_journal num_jfiles create_bdb = record {
  write_activity_flag = false;
  flush_triggered_flag = true;
  is_init = false;
  num_jfiles = if create_bdb then num_jfiles else 0;
  create_bdb = true;
  transient_list = [];
  accepted_list = [];
  message_dbs = if create_bdb then null_dbs num_jfiles else [];
}

abbrev pub here : {D : Type 0} → Option (Option D) → Option D
here none = none
here (some d) = d

-- messageDbs[pid%num_jfiles]
abbrev pub partition : {D : Type 0} → ℕ → JournalImpl D → Option D
partition pid j =
    if j.num_jfiles == 0 then none else here (get_elem? j.message_dbs (pid % j.num_jfiles))

abbrev pub set_partition : {D : Type 0} → ℕ → D → JournalImpl D → JournalImpl D
set_partition pid d j = record j {
  message_dbs = set_elem (pid % j.num_jfiles) (some d) j.message_dbs;
}

abbrev pub touched : {D : Type 0} → JournalImpl D → JournalImpl D
touched j = record j { write_activity_flag = true }

module _ {D : Type 0} (db : Database D) where
  -- The loop over the databases that are left to open, from index `k` on. One that cannot be opened is
  -- left as none.
  unfoldable pub open_dbs : ℕ → ℕ → List (Option D) → Bool × List (Option D)
  open_dbs zero k dbs = (true, dbs)
  open_dbs (suc n) k dbs =
      let opened = open_dbs n (k + 1) (set_elem k (db.open_db k) dbs) in
      elim (db.open_db k) [ none ↦ (false, set_elem k none dbs) | some d ↦ opened ]

  unfoldable pub init_message_db : JournalImpl D → Outcome (Unit {0}) × JournalImpl D
  unfolding open_dbs
  init_message_db j =
      let (all_open, dbs) = open_dbs j.num_jfiles 0 j.message_dbs in
      if j.is_init
      then (returned tt, j)
      else if all_open
      then (returned tt, record j { message_dbs = dbs; is_init = true })
      else (raised, record j { message_dbs = dbs })

  -- if (status == DB_KEYEXIST) return false; return true;
  abbrev pub answer_put : Outcome Status → Outcome Bool
  answer_put (returned key_exist) = returned false
  answer_put (returned ok) = returned true
  answer_put (returned not_found) = returned true
  answer_put (returned failed) = returned true
  answer_put raised = raised
  answer_put undefined = undefined

  -- The block that begins the transaction, puts and commits, with abort and a new throw in its handler.
  abbrev pub put_in_txn : ℕ → List ℕ → D → Outcome Status × TxnCtxt D
  put_in_txn pid p d = with_txn (db.put_txn pid d) (λ e. called (db.put pid p e)) d

  -- The database is that of the message's partition at every call.
  unfoldable pub store_msg : ℕ → List ℕ → D → JournalImpl D → Outcome Bool × JournalImpl D
  store_msg pid p d j =
      let (o, c) = put_in_txn pid p d in
      if j.create_bdb
      then (answer_put o, set_partition pid c.db (touched j))
      else (returned false, j)

  abbrev pub ignore_answer : Outcome Bool → Outcome (Unit {0})
  ignore_answer (returned b) = returned tt
  ignore_answer raised = raised
  ignore_answer undefined = undefined

  abbrev pub enqueue_at : ℕ → List ℕ → JournalImpl D → Option D → Outcome (Unit {0}) × JournalImpl D
  enqueue_at pid data_buff j none = (undefined, j)
  enqueue_at pid data_buff j (some d) =
      let (o, j') = store_msg pid data_buff d j in (ignore_answer o, j')

  unfoldable pub enqueue_data : ℕ → List ℕ → JournalImpl D → Outcome (Unit {0}) × JournalImpl D
  unfolding store_msg
  enqueue_data pid data_buff j =
      if j.create_bdb then enqueue_at pid data_buff j (partition pid j) else (returned tt, j)

  -- A status that is not 0 is logged, and the transaction is committed all the same.
  abbrev pub answer_del : Outcome Status → Outcome (Unit {0})
  answer_del (returned s) = returned tt
  answer_del raised = raised
  answer_del undefined = undefined

  abbrev pub del_in_txn : ℕ → D → Outcome Status × TxnCtxt D
  del_in_txn pid d = with_txn (db.del_txn pid d) (λ e. called (db.del pid e)) d

  unfoldable pub remove_msg : ℕ → D → JournalImpl D → Outcome (Unit {0}) × JournalImpl D
  remove_msg pid d j =
      let (o, c) = del_in_txn pid d in
      if j.create_bdb then (answer_del o, set_partition pid c.db (touched j)) else (returned tt, j)

  abbrev pub dequeue_at : ℕ → JournalImpl D → Option D → Outcome (Unit {0}) × JournalImpl D
  dequeue_at pid j none = (undefined, j)
  dequeue_at pid j (some d) = remove_msg pid d j

  unfoldable pub dequeue_data : ℕ → JournalImpl D → Outcome (Unit {0}) × JournalImpl D
  unfolding remove_msg
  dequeue_data pid j = if j.create_bdb then dequeue_at pid j (partition pid j) else (returned tt, j)

  abbrev pub answer_exists : Option Status → Outcome Bool
  answer_exists none = raised
  answer_exists (some not_found) = returned false
  answer_exists (some ok) = returned true
  answer_exists (some key_exist) = returned true
  answer_exists (some failed) = returned true

  abbrev pub exists_at : ℕ → Option D → Outcome Bool
  exists_at rid none = undefined
  exists_at rid (some d) = answer_exists (db.exists rid d)

  unfoldable pub is_enqueued : ℕ → JournalImpl D → Outcome Bool
  is_enqueued rid j = if j.create_bdb then exists_at rid (partition rid j) else returned false
