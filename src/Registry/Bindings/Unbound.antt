-- ===== src/Registry/Bindings/Unbound.antt =====
-- What `unbind` and the destruction of a queue do to the bindings that `bind` has written
-- (lib/BdbStoreProvider.cpp).
use bdbmsgstore.Prelude.{
  ℕ, ◌≡◌, ◌<◌, ◌⊎◌, Bool, false, not, ◌&&◌, List, ◌==◌, if◌then◌else◌, ◌∙◌, ap,
}
use bdbmsgstore.Bytes.{u64_mod}
use bdbmsgstore.Journal.{Outcome, returned, raised, undefined}
use bdbmsgstore.Journal.Scan.{Row}
use bdbmsgstore.TxnCtxt.{Answers}
use bdbmsgstore.Provider.Recovery.Rows.{eq_bytes}
use bdbmsgstore.Registry.Bindings.{
  BindingDb, Framing, binding_dbt, delete_bindings_for_queue, delete_binding, is_of_queue,
  is_binding,
}
use bdbmsgstore.Registry.Bindings.Laws.{holds, IsBindingDb, IsFraming}
use bdbmsgstore.Registry.Bindings.Encoded.{is_of_queue-encoded, is_binding-encoded}
use bdbmsgstore.Registry.Bindings.Deleted.{is_true, Left}
use bdbmsgstore.Registry.Bindings.Removed.{
  hits_queue, hits_binding, delete_bindings_for_queue-Left, delete_binding-Left,
}

module _ {B : Type 0} (bdb : BindingDb B) where
  -- What a call that deletes does to a row, `gone` being whether it is to go.
  abbrev pub Unbound : Answers → Bool → Row → B → Outcome (Unit {0}) × B → Type 0
  Unbound w gone row b (returned u, b') = holds bdb b' row ≡ (holds bdb b row && not gone)
  Unbound w gone row b (raised, b') = b' ≡ b
  Unbound w gone row b (undefined, b') = (w.commits ≡ false) ⊎ (w.aborts ≡ false)

  module _ (laws : IsBindingDb bdb) (is_hit : Row → Outcome Bool) where
    row-Left :
        (w : Answers) (hit : Row → Bool) (gone : Bool) (row : Row) (b : B)
        (r : Outcome (Unit {0}) × B)
        → hit row ≡ gone
        → Left bdb laws is_hit w hit b r
        → Unbound w gone row b r
    row-Left w hit gone row b (returned u, b') e left =
        left row ∙ ap (λ x. holds bdb b row && not x) e
    row-Left w hit gone row b (raised, b') e left = left
    row-Left w hit gone row b (undefined, b') e left = left

module _ {B F : Type 0} (bdb : BindingDb B) (fr : Framing F) where
  -- Destroying a queue takes away all its bindings, and no others: of the row that `bind` writes for a
  -- queue with a 64-bit id, `deleteBindingsForQueue` leaves it in the database as it was if its queue is
  -- another one, and otherwise removes it; or it throws, and the database is as before. The behaviour is
  -- undefined only if commit or abort throws. The database and the Buffer do what is documented.
  pub delete_bindings_for_queue-Unbound :
      (laws : IsBindingDb bdb) (framing : IsFraming fr) (w : Answers) (destroyed : ℕ) (b : B)
      (exchange_id queue_id : ℕ) (name key : List ℕ) (args : F) (value : List ℕ)
      → queue_id < u64_mod
      → binding_dbt fr queue_id name key args ≡ returned value
      → Unbound bdb w
          (destroyed == queue_id)
          (exchange_id, value)
          b
          (delete_bindings_for_queue bdb fr w destroyed b)
  delete_bindings_for_queue-Unbound laws framing w destroyed b exchange_id queue_id name key args
        value small e =
      row-Left bdb laws (is_of_queue fr destroyed) w (hits_queue bdb fr laws destroyed)
        (destroyed == queue_id) (exchange_id, value) b
        (delete_bindings_for_queue bdb fr w destroyed b)
        (ap is_true (
          is_of_queue-encoded fr framing queue_id small name key args value e exchange_id
            destroyed))
        (delete_bindings_for_queue-Left bdb fr laws w destroyed b)

  -- `unbind` takes away the bindings of an exchange to a queue by a key, and no others: the row that
  -- `bind` writes is removed if its exchange, queue and key are those, and is in the database as it
  -- was if one of them is not; or the call throws, and the database is as before. The behaviour
  -- is undefined only if commit or abort throws. The database and the Buffer do what is documented.
  pub delete_binding-Unbound :
      (laws : IsBindingDb bdb) (framing : IsFraming fr) (w : Answers) (e q : ℕ) (bkey : List ℕ)
      (b : B) (exchange_id queue_id : ℕ) (name key : List ℕ) (args : F) (value : List ℕ)
      → queue_id < u64_mod
      → binding_dbt fr queue_id name key args ≡ returned value
      → Unbound bdb w
          (exchange_id == e && (if q == queue_id then eq_bytes bkey key else false))
          (exchange_id, value)
          b
          (delete_binding bdb fr w e q bkey b)
  delete_binding-Unbound laws framing w e q bkey b exchange_id queue_id name key args value small
        enc =
      row-Left bdb laws (is_binding fr q bkey) w (hits_binding bdb fr laws e q bkey)
        (exchange_id == e && (if q == queue_id then eq_bytes bkey key else false))
        (exchange_id, value) b (delete_binding bdb fr w e q bkey b)
        (ap (λ o. exchange_id == e && is_true o)
          (is_binding-encoded fr framing queue_id small name key args value enc exchange_id q bkey))
        (delete_binding-Left bdb fr laws w e q bkey b)
