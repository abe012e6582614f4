-- ===== src/Journal/Berkeley.antt =====
-- What lib/JournalImpl.cpp asks of a Berkeley DB database with one message per 64-bit key. The library is not part of the sources: its
-- calls are parameters, and `IsDatabase` is what its manual says of them.
use bdbmsgstore.Prelude.{ℕ, ◌≡◌, ◌≢◌, true, Option, none, some, List, if◌then◌else◌, is_some}
use bdbmsgstore.TxnCtxt.{Answers}
use bdbmsgstore.Journal.Key.{same_key}

-- The status codes that the journal tells apart: 0, DB_KEYEXIST, DB_NOTFOUND, and any other.
pub data Status : Type 0 where
  ok : Status
  key_exist : Status
  not_found : Status
  failed : Status

-- Each call throws (`none`), or has a status and leaves the database as its transaction sees it.
pub record Database (D : Type 0) : Type 0 where
  -- put(txn, &key, &p, DB_NOOVERWRITE)
  pub put : ℕ → List ℕ → D → Option (Status × D)
  -- what begin, commit and abort of the transaction around a put answer
  pub put_txn : ℕ → D → Answers
  -- del(txn, &key, 0), or del(0, &key, DB_AUTO_COMMIT) at start-up
  pub del : ℕ → D → Option (Status × D)
  -- and of the transaction around a delete
  pub del_txn : ℕ → D → Answers
  -- exists(0, &key, 0)
  pub exists : ℕ → D → Option Status
  -- open(txn, path, 0, DB_BTREE, DB_CREATE | DB_THREAD, 0), and commit, for the database of an index
  pub open_db : ℕ → Option D

-- The databases hold at most one message for keys that the comparison calls the same; `put` enters a
-- message only where there is none; `del` takes one away or finds none; a status that is not 0
-- comes with no change.
pub record IsDatabase {D : Type 0} (db : Database D) (stored : D → ℕ → Option (List ℕ))
    : Type 0 where
  pub same : (j k : ℕ) (d : D) → same_key j k ≡ true → stored d j ≡ stored d k
  pub put_ok :
      (k : ℕ) (v : List ℕ) (d d' : D)
      → db.put k v d ≡ some (ok, d')
      → (stored d k ≡ none)
        × ((j : ℕ) → stored d' j ≡ (if same_key j k then some v else stored d j))
  pub put_not_ok :
      (k : ℕ) (v : List ℕ) (d d' : D) (s : Status)
      → db.put k v d ≡ some (s, d')
      → s ≢ ok
      → (j : ℕ) → stored d' j ≡ stored d j
  pub put_exist :
      (k : ℕ) (v : List ℕ) (d d' : D)
      → db.put k v d ≡ some (key_exist, d')
      → is_some (stored d k) ≡ true
  pub del_ok :
      (k : ℕ) (d d' : D)
      → db.del k d ≡ some (ok, d')
      → (j : ℕ) → stored d' j ≡ (if same_key j k then none else stored d j)
  pub del_not_ok :
      (k : ℕ) (d d' : D) (s : Status)
      → db.del k d ≡ some (s, d')
      → s ≢ ok
      → (j : ℕ) → stored d' j ≡ stored d j
  pub del_not_found : (k : ℕ) (d d' : D) → db.del k d ≡ some (not_found, d') → stored d k ≡ none
  pub exists_not_found : (k : ℕ) (d : D) → db.exists k d ≡ some not_found → stored d k ≡ none
  pub exists_found :
      (k : ℕ) (d : D) (s : Status)
      → db.exists k d ≡ some s
      → s ≢ not_found
      → is_some (stored d k) ≡ true
