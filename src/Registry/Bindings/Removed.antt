-- ===== src/Registry/Bindings/Removed.antt =====
-- Which rows are deleted (`deleteBindingsForQueue` and `deleteBinding` of lib/BdbStoreProvider.cpp).
use bdbmsgstore.Prelude.{ℕ, ◌≡◌, refl, Bool, true, false, not, ◌&&◌, List, ◌==◌, if◌then◌else◌, ◌∙◌}
use bdbmsgstore.Journal.{Outcome}
use bdbmsgstore.Journal.Scan.{Row}
use bdbmsgstore.TxnCtxt.{Answers, with_txn}
use bdbmsgstore.TxnCtxt.Atomic.{with_txn-Atomic}
use bdbmsgstore.Registry.Bindings.{
  BindingDb, Framing, delete_rows, is_of_queue, is_binding, rows_of_key, delete_bindings_for_queue,
  delete_binding,
}
use bdbmsgstore.Registry.Bindings.Defined.{is_of_queue-Defined, is_binding-Defined}
use bdbmsgstore.Registry.Bindings.Laws.{holds, IsBindingDb}
use bdbmsgstore.Registry.Bindings.Deleted.{is_true, Deleted, Left, Atomic-Left, delete_rows-Defined}

module _ {B F : Type 0} (bdb : BindingDb B) (fr : Framing F) (laws : IsBindingDb bdb) where
  abbrev pub hits_queue : ℕ → Row → Bool
  hits_queue queue_id r = is_true (is_of_queue fr queue_id r)

  abbrev pub hits_binding : ℕ → ℕ → List ℕ → Row → Bool
  hits_binding exchange_id queue_id bkey r =
      r.0 == exchange_id && is_true (is_binding fr queue_id bkey r)

  queue_meant :
      (queue_id : ℕ) (b b' : B) (r : Row)
      → Deleted bdb laws (is_of_queue fr queue_id) (bdb.rows b) b b'
      → holds bdb b' r ≡ (holds bdb b r && not (hits_queue queue_id r))
  queue_meant queue_id b b' r d = d r ∙ cases (holds bdb b r) (hits_queue queue_id r)
    where
      cases : (x y : Bool) → (if x && y then false else x) ≡ (x && not y)
      cases true true = refl
      cases true false = refl
      cases false y = refl

  binding_meant :
      (exchange_id queue_id : ℕ) (bkey : List ℕ) (b b' : B) (r : Row)
      → Deleted bdb laws (is_binding fr queue_id bkey) (rows_of_key bdb exchange_id b) b b'
      → holds bdb b' r ≡ (holds bdb b r && not (hits_binding exchange_id queue_id bkey r))
  binding_meant exchange_id queue_id bkey b b' r d =
      d r
      ∙ rw (laws.values_held exchange_id b r)
          (cases (r.0 == exchange_id) (holds bdb b r) (is_true (is_binding fr queue_id bkey r)))
    where
      cases :
          (z x y : Bool)
          → (if (if z then x else false) && y then false else x) ≡ (x && not (z && y))
      cases true true true = refl
      cases true true false = refl
      cases true false y = refl
      cases false true y = refl
      cases false false y = refl

  -- `deleteBindingsForQueue` removes the rows of the queue and no others, or throws and removes none.
  pub delete_bindings_for_queue-Left :
      (w : Answers) (queue_id : ℕ) (b : B)
      → Left bdb laws
          (is_of_queue fr queue_id)
          w
          (hits_queue queue_id)
          b
          (delete_bindings_for_queue bdb fr w queue_id b)
  unfolding delete_bindings_for_queue
  delete_bindings_for_queue-Left w queue_id b =
      let calls : B → Outcome (Unit {0} × B) =
        λ d. delete_rows bdb (is_of_queue fr queue_id) (bdb.rows d) d in
      let (o, c) = with_txn w calls b in
      Atomic-Left bdb laws (is_of_queue fr queue_id) w (hits_queue queue_id) (bdb.rows b) b o c
        (delete_rows-Defined bdb laws (is_of_queue fr queue_id) (is_of_queue-Defined fr queue_id)
          (bdb.rows b) b)
        (λ r b' d. queue_meant queue_id b b' r d) (with_txn-Atomic w calls b)

  -- `unbind` removes the rows of the exchange, the queue and the key, and no others, or throws and
  -- removes none.
  pub delete_binding-Left :
      (w : Answers) (exchange_id queue_id : ℕ) (bkey : List ℕ) (b : B)
      → Left bdb laws
          (is_binding fr queue_id bkey)
          w
          (hits_binding exchange_id queue_id bkey)
          b
          (delete_binding bdb fr w exchange_id queue_id bkey b)
  unfolding delete_binding
  delete_binding-Left w exchange_id queue_id bkey b =
      let calls : B → Outcome (Unit {0} × B) =
        λ d. delete_rows bdb (is_binding fr queue_id bkey) (rows_of_key bdb exchange_id d) d in
      let (o, c) = with_txn w calls b in
      Atomic-Left bdb laws (is_binding fr queue_id bkey) w (hits_binding exchange_id queue_id bkey)
        (rows_of_key bdb exchange_id b) b o c
        (delete_rows-Defined bdb laws (is_binding fr queue_id bkey)
          (is_binding-Defined fr queue_id bkey) (rows_of_key bdb exchange_id b) b)
        (λ r b' d. binding_meant exchange_id queue_id bkey b b' r d) (with_txn-Atomic w calls b)
