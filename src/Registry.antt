-- ===== src/Registry.antt =====
-- What the broker creates and destroys at the store, lib/BdbStoreProvider.cpp: general configuration
-- items, exchanges and queues, each kind in a table of its own by persistence id, and their recovery.
-- Berkeley DB is a parameter, and so are the broker's encoding of an object and its reading of one.
pub mod Tables
pub mod Created
pub mod Destroyed
pub mod Loop
pub mod Fill
pub mod Recovered
pub mod Bindings
pub mod Queues
pub mod Run
pub mod Memory
mod Tests
use bdbmsgstore.Prelude.{
  ℕ, Bool, true, false, Option, none, some, List, [], ◌∷◌, ◌++◌, ltb, ◌==◌, if◌then◌else◌,
}
use bdbmsgstore.Word.{suc_u64}
use bdbmsgstore.OrdMap.{OrdMap}
use bdbmsgstore.IdSequence.{IdSequence, init, next, reset}
use bdbmsgstore.Journal.{Outcome, returned, raised, undefined}
use bdbmsgstore.Journal.Berkeley.{Status, ok, key_exist, not_found, failed}
use bdbmsgstore.Journal.Scan.{Row}
use bdbmsgstore.TxnCtxt.{Answers, TxnCtxt, with_txn}
use bdbmsgstore.Provider.Recovery.{◌>>=◌}
use bdbmsgstore.Provider.Recovery.Rows.{put}

-- A database with one object for each id. A call throws (none), or has a status.
pub record ObjectDb (D : Type 0) : Type 0 where
  -- put(txn, &key, &value, DB_NOOVERWRITE)
  pub put_object : ℕ → List ℕ → D → Option (Status × D)
  -- del(0, &key, DB_AUTO_COMMIT)
  pub del_object : ℕ → D → Option (Status × D)
  -- What `next` of a cursor gives until it is false.
  pub rows : D → List Row

-- A database and the sequence of the ids of its objects.
pub record Table (D : Type 0) : Type 0 where
  pub db : D
  pub ids : IdSequence

abbrev pub max : ℕ → ℕ → ℕ
max a b = if ltb a b then b else a

module _ {A : Type 0} where
  abbrev pub add_found : ℕ → Option A → List (ℕ × A) → List (ℕ × A)
  add_found id none found = found
  add_found id (some a) found = found ++ ((id, a) ∷ [])

  -- The loop over a table: the broker makes an object of each value, or none; the largest id, and the
  -- objects with their ids.
  unfoldable pub recover_each :
      (List ℕ → Outcome (Option A)) → List Row → ℕ → List (ℕ × A) → Outcome (ℕ × List (ℕ × A))
  recover_each decode [] max_id found = returned (max_id, found)
  recover_each decode ((id, value) ∷ rest) max_id found = decode value >>= λ (a : Option A).
      recover_each decode rest (max id max_id) (add_found id a found)

  -- The map that is filled in the order of the objects.
  abbrev pub fill : List (ℕ × A) → OrdMap A → OrdMap A
  fill [] m = m
  fill ((id, a) ∷ found) m = fill found (put id a m)

  abbrev pub found_config : A → Outcome (Option A)
  found_config a = returned (some a)

module _ {D : Type 0} (odb : ObjectDb D) where
  abbrev pub answer_object : Option (Status × D) → Outcome (Status × D)
  answer_object none = raised
  answer_object (some (s, d)) = returned (s, d)

  -- if (status == DB_KEYEXIST) return false; p.setPersistenceId(id); return true;
  abbrev pub answer_create : ℕ → Outcome Status → Outcome (Option ℕ)
  answer_create id (returned key_exist) = returned none
  answer_create id (returned ok) = returned (some id)
  answer_create id (returned not_found) = returned (some id)
  answer_create id (returned failed) = returned (some id)
  answer_create id raised = raised
  answer_create id undefined = undefined

  abbrev pub create_with : Answers → List ℕ → D → ℕ × IdSequence → Outcome (Option ℕ) × Table D
  create_with w value d (id, ids) =
      let (o, c) = with_txn w (λ e. answer_object (odb.put_object id value e)) d in
      (answer_create id o, record { db = c.db; ids = ids })

  -- `create` of an object with the given encoding: its new id if it is stored.
  unfoldable pub create : Answers → List ℕ → Table D → Outcome (Option ℕ) × Table D
  create w value t = create_with w value t.db (next t.ids)

  abbrev pub refuse_false : Outcome (Option ℕ) → Outcome ℕ
  refuse_false (returned none) = raised
  refuse_false (returned (some id)) = returned id
  refuse_false raised = raised
  refuse_false undefined = undefined

  -- `create` of an exchange, `pid` being the persistence id that it has.
  unfoldable pub create_exchange : Answers → ℕ → List ℕ → Table D → Outcome ℕ × Table D
  create_exchange w pid value t =
      let (o, t') = create w value t in if pid == 0 then (refuse_false o, t') else (raised, t)

  unfoldable pub create_config : Answers → ℕ → List ℕ → Table D → Outcome ℕ × Table D
  create_config w pid value t =
      let (o, t') = create w value t in if pid == 0 then (refuse_false o, t') else (raised, t)

  abbrev pub answer_destroy : Table D → Option (Status × D) → Outcome (Unit {0}) × Table D
  answer_destroy t none = (raised, t)
  answer_destroy t (some (s, d)) = (returned tt, record t { db = d })

  unfoldable pub destroy : ℕ → Table D → Outcome (Unit {0}) × Table D
  destroy pid t = answer_destroy t (odb.del_object pid t.db)

  module _ {A : Type 0} where
    abbrev pub reset_ids : Table D → Outcome (ℕ × List (ℕ × A)) → Outcome (List (ℕ × A)) × Table D
    reset_ids t (returned (max_id, found)) =
        (returned found, record t { ids = reset (suc_u64 max_id) t.ids })
    reset_ids t raised = (raised, t)
    reset_ids t undefined = (undefined, t)

    abbrev pub fill_found : Outcome (List (ℕ × A)) × Table D → Outcome (OrdMap A) × Table D
    fill_found (returned found, t) = (returned (fill found []), t)
    fill_found (raised, t) = (raised, t)
    fill_found (undefined, t) = (undefined, t)

    -- The exchanges of `exchangeMap`.
    unfoldable pub recover_exchanges :
        (List ℕ → Outcome (Option A)) → Table D → Outcome (OrdMap A) × Table D
    recover_exchanges decode t = fill_found (reset_ids t (recover_each decode (odb.rows t.db) 1 []))

    -- The configuration items, each with its id.
    unfoldable pub recover_configs :
        (List ℕ → Outcome A) → Table D → Outcome (List (ℕ × A)) × Table D
    recover_configs decode t =
        reset_ids t (recover_each (λ v. decode v >>= found_config) (odb.rows t.db) 1 [])

-- A new process starts its sequence from the first id.
abbrev pub restarted : {D : Type 0} → Table D → Table D
restarted t = record t { ids = init }
