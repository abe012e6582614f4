-- ===== src/Registry/Bindings/Stored.antt =====
-- What `bind` of lib/BdbStoreProvider.cpp writes.
use bdbmsgstore.Prelude.{
  ℕ, ◌≡◌, ◌⊎◌, inl, inr, refl, Bool, true, false, ◌||◌, Option, none, some, List, ◌++◌, ap, subst,
}
use bdbmsgstore.Journal.{Outcome, returned, raised, undefined}
use bdbmsgstore.Journal.Berkeley.{Status, ok, key_exist, not_found, failed}
use bdbmsgstore.Journal.Scan.{Row}
use bdbmsgstore.TxnCtxt.{Answers, TxnCtxt, with_txn}
use bdbmsgstore.TxnCtxt.Atomic.{Atomic, with_txn-Atomic}
use bdbmsgstore.Provider.Recovery.{◌>>=◌}
use bdbmsgstore.Registry.Bindings.{
  BindingDb, Framing, or_raise, binding_dbt, answer_put_value, put_bound, bind,
}
use bdbmsgstore.Registry.Bindings.Laws.{eq_row, holds, IsBindingDb}
use bdbmsgstore.Registry.Bindings.Defined.{Defined}

module _ {B F : Type 0} (bdb : BindingDb B) (fr : Framing F) where
  -- The rows after a bind: one more than before, or, where it throws, the same.
  abbrev pub Stored : Answers → ℕ → Outcome (List ℕ) → B → Outcome (Unit {0}) × B → Type 0
  Stored w exchange_id encoded b (returned u, b') =
      (value : List ℕ) × ((encoded ≡ returned value)
        × ((r : Row) → holds bdb b' r ≡ (eq_row r (exchange_id, value) || holds bdb b r)))
  Stored w exchange_id encoded b (raised, b') = b' ≡ b
  Stored w exchange_id encoded b (undefined, b') = (w.commits ≡ false) ⊎ (w.aborts ≡ false)

  abbrev put_db : B → Outcome (Unit {0} × B) → B
  put_db b (returned (u, b')) = b'
  put_db b raised = b
  put_db b undefined = b

  abbrev put_returned : Outcome (Unit {0} × B) → Bool
  put_returned (returned x) = true
  put_returned raised = false
  put_returned undefined = false

  answer_put_value-inv :
      (a : Option (Status × B)) (b : B)
      → answer_put_value bdb a ≡ returned (tt, b)
      → a ≡ some (ok, b)
  answer_put_value-inv none b h = absurd (let x : false ≡ true = ap put_returned h in cc)
  answer_put_value-inv (some (ok, c)) b h = ap (λ o. some (ok, put_db b o)) h
  answer_put_value-inv (some (key_exist, c)) b h =
      absurd (let x : false ≡ true = ap put_returned h in cc)
  answer_put_value-inv (some (not_found, c)) b h =
      absurd (let x : false ≡ true = ap put_returned h in cc)
  answer_put_value-inv (some (failed, c)) b h =
      absurd (let x : false ≡ true = ap put_returned h in cc)

  answer_put_value-Defined : (a : Option (Status × B)) → Defined (answer_put_value bdb a)
  answer_put_value-Defined none = tt
  answer_put_value-Defined (some (ok, c)) = tt
  answer_put_value-Defined (some (key_exist, c)) = tt
  answer_put_value-Defined (some (not_found, c)) = tt
  answer_put_value-Defined (some (failed, c)) = tt

  binding_dbt-Defined :
      (queue_id : ℕ) (name key : List ℕ) (args : F)
      → Defined (binding_dbt fr queue_id name key args)
  unfolding binding_dbt
  binding_dbt-Defined queue_id name key args =
      three (fr.put_short_string name) (fr.put_short_string key) (fr.put_table args)
    where
      three :
          (n k a : Option (List ℕ))
          → Defined (
              or_raise n >>= λ (x : List ℕ). or_raise k >>= λ (y : List ℕ).
              or_raise a >>= λ (z : List ℕ).
              returned (fr.put_long_long queue_id ++ (x ++ (y ++ z))))
      three none k a = tt
      three (some n) none a = tt
      three (some n) (some k) none = tt
      three (some n) (some k) (some a) = tt

  module _ (laws : IsBindingDb bdb) (w : Answers) (exchange_id : ℕ) (b : B) where
    entered :
        (value : List ℕ) (o : Outcome (Unit {0})) (c : TxnCtxt B)
        → Atomic w (answer_put_value bdb (bdb.put_value exchange_id value b)) b o c
        → Stored w exchange_id (returned value) b (o, c.db)
    entered value (returned u) c (e, free) = (
      value,
      (
        refl,
        laws.put_ok exchange_id value b c.db
            (answer_put_value-inv (bdb.put_value exchange_id value b) c.db e),
      ),
    )
    entered value raised c (e, free) = e
    entered value undefined c (inl e) =
        absurd (subst Defined e (answer_put_value-Defined (bdb.put_value exchange_id value b)))
    entered value undefined c (inr h) = h

    put_bound-Stored :
        (encoded : Outcome (List ℕ))
        → Defined encoded
        → Stored w exchange_id encoded b (put_bound bdb fr w exchange_id b encoded)
    put_bound-Stored (returned value) never =
        let calls : B → Outcome (Unit {0} × B) =
          λ d. answer_put_value bdb (bdb.put_value exchange_id value d) in
        let (o, c) = with_txn w calls b in entered value o c (with_txn-Atomic w calls b)
    put_bound-Stored raised never = refl
    put_bound-Stored undefined never = absurd never

    -- `bind` adds the one row that BindingDbt makes of its arguments, under the exchange's id, and
    -- changes no other; or it throws, because the row cannot be made, is there already, or the database
    -- throws, and changes nothing. The behaviour is undefined only if commit or abort throws. The
    -- database does what its manual says.
    pub bind-Stored :
        (queue_id : ℕ) (name key : List ℕ) (args : F)
        → Stored w exchange_id
            (binding_dbt fr queue_id name key args)
            b
            (bind bdb fr w exchange_id queue_id name key args b)
    unfolding bind
    bind-Stored queue_id name key args =
        put_bound-Stored (binding_dbt fr queue_id name key args)
          (binding_dbt-Defined queue_id name key args)
