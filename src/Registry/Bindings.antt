-- ===== src/Registry/Bindings.antt =====
-- The bindings of queues to exchanges in lib/BdbStoreProvider.cpp: `bind`, `unbind`, the destruction of
-- an exchange or a queue, and `recoverBindings`; lib/BindingDbt.cpp. The database has any number of
-- values for an exchange's id. It and `qpid::framing::Buffer` are parameters.
pub mod Laws
pub mod Defined
pub mod Encoded
pub mod Deleted
pub mod Removed
pub mod Unbound
pub mod Stored
pub mod Memory
pub mod Bound
mod Tests
use bdbmsgstore.Prelude.{
  ℕ, Bool, true, false, ◌&&◌, ◌||◌, Option, none, some, List, [], ◌∷◌, ◌++◌, ltb, ◌==◌,
  if◌then◌else◌, length, map, is_some,
}
use bdbmsgstore.OrdMap.{OrdMap, find}
use bdbmsgstore.Journal.{Outcome, returned, raised, undefined}
use bdbmsgstore.Journal.Berkeley.{Status, ok, key_exist, not_found, failed}
use bdbmsgstore.Journal.Scan.{Row}
use bdbmsgstore.TxnCtxt.{Answers, TxnCtxt, with_txn}
use bdbmsgstore.Provider.Recovery.{◌>>=◌}
use bdbmsgstore.Provider.Recovery.Rows.{eq_bytes}
use bdbmsgstore.Registry.{ObjectDb, Table, destroy}

-- A call throws (none), or has a status.
pub record BindingDb (B : Type 0) : Type 0 where
  -- put(txn, &key, &value, DB_NODUPDATA)
  pub put_value : ℕ → List ℕ → B → Option (Status × B)
  -- del(0, &key, DB_AUTO_COMMIT), which deletes all values of the key
  pub del_values : ℕ → B → Option (Status × B)
  -- What `next` of a cursor gives until it is false.
  pub rows : B → List Row
  -- What get(DB_SET) and then get(DB_NEXT_DUP) of a cursor give until the status is not 0.
  pub values : ℕ → B → List (List ℕ)
  -- del(0) of a cursor at the row
  pub del_row : Row → B → Option B

-- The members of a `Buffer` that are used, each with the bytes it writes, or with what it reads and
-- the bytes left over, or throwing (none); `F` is the type of field tables.
pub record Framing (F : Type 0) : Type 0 where
  pub put_long_long : ℕ → List ℕ
  pub get_long_long : List ℕ → Option (ℕ × List ℕ)
  pub put_short_string : List ℕ → Option (List ℕ)
  pub get_short_string : List ℕ → Option (List ℕ × List ℕ)
  pub put_table : F → Option (List ℕ)
  pub get_table : List ℕ → Option (F × List ℕ)

abbrev pub or_raise : {A : Type 0} → Option A → Outcome A
or_raise none = raised
or_raise (some a) = returned a

-- A call bind(queueName, routingkey, args) of the exchange with an id.
pub record Binding (F : Type 0) : Type 0 where
  pub exchange : ℕ
  pub queue_name : List ℕ
  pub routing_key : List ℕ
  pub args : F

module _ {F : Type 0} (fr : Framing F) where
  -- The constructor of BindingDbt; the name and the key are short strings.
  unfoldable pub binding_dbt : ℕ → List ℕ → List ℕ → F → Outcome (List ℕ)
  binding_dbt queue_id queue_name key args =
      or_raise (fr.put_short_string queue_name) >>= λ (name : List ℕ).
      or_raise (fr.put_short_string key) >>= λ (k : List ℕ).
      or_raise (fr.put_table args) >>= λ (a : List ℕ).
      returned (fr.put_long_long queue_id ++ (name ++ (k ++ a)))

  -- The queue's id, with the bytes after it.
  unfoldable pub get_queue_id : List ℕ → Outcome (ℕ × List ℕ)
  get_queue_id value = if ltb (length value) 8 then raised else or_raise (fr.get_long_long value)

  -- Whether `deleteBindingsForQueue` deletes a row, and whether `deleteBinding` does.
  unfoldable pub is_of_queue : ℕ → Row → Outcome Bool
  is_of_queue queue_id row = get_queue_id row.1 >>= λ (r : ℕ × List ℕ). returned (queue_id == r.0)

  abbrev pub has_key : List ℕ → List ℕ → Outcome Bool
  has_key bkey rest = or_raise (fr.get_short_string rest) >>= λ (q : List ℕ × List ℕ).
      or_raise (fr.get_short_string q.1) >>= λ (k : List ℕ × List ℕ). returned (eq_bytes bkey k.0)

  unfoldable pub is_binding : ℕ → List ℕ → Row → Outcome Bool
  is_binding queue_id bkey row = get_queue_id row.1 >>= λ (r : ℕ × List ℕ).
      (if queue_id == r.0 then has_key bkey r.1 else returned false)

  -- The queue's id, and the call that binds the queue, of a row.
  unfoldable pub read_binding : Row → Outcome (ℕ × Binding F)
  read_binding row = get_queue_id row.1 >>= λ (r : ℕ × List ℕ).
      or_raise (fr.get_short_string r.1) >>= λ (q : List ℕ × List ℕ).
      or_raise (fr.get_short_string q.1) >>= λ (k : List ℕ × List ℕ).
      or_raise (fr.get_table k.1) >>= λ (a : F × List ℕ).
      returned (r.0, record { exchange = row.0; queue_name = q.0; routing_key = k.0; args = a.0 })

abbrev pub db_after : {B : Type 0} → Outcome (Unit {0}) × TxnCtxt B → Outcome (Unit {0}) × B
db_after (o, c) = (o, c.db)

module _ {B : Type 0} (bdb : BindingDb B) where
  -- `put`, which throws for every status that is not 0.
  abbrev pub answer_put_value : Option (Status × B) → Outcome (Unit {0} × B)
  answer_put_value none = raised
  answer_put_value (some (ok, b)) = returned (tt, b)
  answer_put_value (some (key_exist, b)) = raised
  answer_put_value (some (not_found, b)) = raised
  answer_put_value (some (failed, b)) = raised

  abbrev pub delete_hit : Row → (B → Outcome (Unit {0} × B)) → B → Bool → Outcome (Unit {0} × B)
  delete_hit row go_on b false = go_on b
  delete_hit row go_on b true = or_raise (bdb.del_row row b) >>= go_on

  -- The loop of `deleteBindingsForQueue` and of `deleteBinding` over the rows that a cursor gives.
  unfoldable pub delete_rows : (Row → Outcome Bool) → List Row → B → Outcome (Unit {0} × B)
  delete_rows is_hit [] b = returned (tt, b)
  delete_rows is_hit (row ∷ rest) b = is_hit row >>= delete_hit row (delete_rows is_hit rest) b

  abbrev pub rows_of_key : ℕ → B → List Row
  rows_of_key k b = map (λ v. (k, v)) (bdb.values k b)

  abbrev pub answer_del_values : B → Option (Status × B) → Outcome (Unit {0}) × B
  answer_del_values b none = (raised, b)
  answer_del_values b (some (s, b')) = (returned tt, b')

  abbrev pub then_bindings :
      {D : Type 0} → ℕ → B → Outcome (Unit {0}) × Table D → Outcome (Unit {0}) × (Table D × B)
  then_bindings id b (returned u, t) =
      let (o, b') = answer_del_values b (bdb.del_values id b) in (o, (t, b'))
  then_bindings id b (raised, t) = (raised, (t, b))
  then_bindings id b (undefined, t) = (undefined, (t, b))

  -- `destroy` of an exchange.
  unfoldable pub destroy_exchange :
      {D : Type 0} → ObjectDb D → ℕ → Table D → B → Outcome (Unit {0}) × (Table D × B)
  destroy_exchange odb id t b = then_bindings id b (destroy odb id t)

module _ {B F : Type 0} (bdb : BindingDb B) (fr : Framing F) where
  abbrev pub put_bound : Answers → ℕ → B → Outcome (List ℕ) → Outcome (Unit {0}) × B
  put_bound w exchange_id b (returned value) =
      let (o, c) = with_txn w (λ d. answer_put_value bdb (bdb.put_value exchange_id value d)) b in
      (o, c.db)
  put_bound w exchange_id b raised = (raised, b)
  put_bound w exchange_id b undefined = (undefined, b)

  unfoldable pub bind : Answers → ℕ → ℕ → List ℕ → List ℕ → F → B → Outcome (Unit {0}) × B
  bind w exchange_id queue_id queue_name key args b =
      put_bound w exchange_id b (binding_dbt fr queue_id queue_name key args)

  unfoldable pub delete_bindings_for_queue : Answers → ℕ → B → Outcome (Unit {0}) × B
  delete_bindings_for_queue w queue_id b =
      db_after (with_txn w (λ d. delete_rows bdb (is_of_queue fr queue_id) (bdb.rows d) d) b)

  unfoldable pub delete_binding : Answers → ℕ → ℕ → List ℕ → B → Outcome (Unit {0}) × B
  delete_binding w exchange_id queue_id bkey b = db_after (
      with_txn w
        (λ d. delete_rows bdb (is_binding fr queue_id bkey) (rows_of_key bdb exchange_id d) d) b)

  module _ {E Q : Type 0} (exchange_map : OrdMap E) (queue_map : OrdMap Q) where
    abbrev pub has_ends : ℕ × Binding F → Bool
    has_ends r = is_some (find r.1.exchange exchange_map) && is_some (find r.0 queue_map)

    abbrev pub BindingPass : Type 0
    BindingPass = List (Binding F) × B

    abbrev pub bind_or_delete :
        Row
        → (BindingPass → Outcome BindingPass)
        → BindingPass
        → Binding F
        → Bool
        → Outcome BindingPass
    bind_or_delete row go_on (calls, b) call true = go_on (calls ++ (call ∷ []), b)
    bind_or_delete row go_on (calls, b) call false =
        or_raise (bdb.del_row row b) >>= λ (b' : B). go_on (calls, b')

    -- The loop of `recoverBindings`: a row with an end that was not recovered is deleted, and of any
    -- other the exchange is told.
    unfoldable pub bind_rows : List Row → BindingPass → Outcome BindingPass
    bind_rows [] s = returned s
    bind_rows (row ∷ rest) s = read_binding fr row >>= λ (r : ℕ × Binding F).
        bind_or_delete row (bind_rows rest) s r.1 (has_ends r)

    unfoldable pub recover_bindings : B → Outcome BindingPass
    recover_bindings b = bind_rows (bdb.rows b) ([], b)
