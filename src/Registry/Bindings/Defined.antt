-- ===== src/Registry/Bindings/Defined.antt =====
-- Reading a row of the bindings (lib/BdbStoreProvider.cpp) returns or throws.
use bdbmsgstore.Prelude.{
  ℕ, Bool, true, false, Option, none, some, List, ◌==◌, if◌then◌else◌, ltb, length,
}
use bdbmsgstore.Journal.{Outcome, returned, raised, undefined}
use bdbmsgstore.Journal.Scan.{Row}
use bdbmsgstore.Provider.Recovery.{◌>>=◌}
use bdbmsgstore.Provider.Recovery.Rows.{eq_bytes}
use bdbmsgstore.Registry.Bindings.{
  Binding, read_binding, Framing, or_raise, get_queue_id, has_key, is_of_queue, is_binding,
}

abbrev pub Defined : {A : Type 0} → Outcome A → Type 0
Defined (returned a) = Unit {0}
Defined raised = Unit {0}
Defined undefined = ⊥

pub Defined-bind :
    {A C : Type 0} (o : Outcome A) (f : A → Outcome C)
    → Defined o
    → ((a : A) → Defined (f a))
    → Defined (o >>= f)
Defined-bind (returned a) f h g = g a
Defined-bind raised f h g = tt
Defined-bind undefined f h g = absurd h

pub or_raise-Defined : {A : Type 0} (a : Option A) → Defined (or_raise a)
or_raise-Defined none = tt
or_raise-Defined (some a) = tt

module _ {F : Type 0} (fr : Framing F) where
  get_queue_id-Defined : (value : List ℕ) → Defined (get_queue_id fr value)
  unfolding get_queue_id
  get_queue_id-Defined value = short (ltb (length value) 8)
    where
      short : (x : Bool) → Defined (if x then raised else or_raise (fr.get_long_long value))
      short true = tt
      short false = or_raise-Defined (fr.get_long_long value)

  pub is_of_queue-Defined : (queue_id : ℕ) (row : Row) → Defined (is_of_queue fr queue_id row)
  unfolding is_of_queue
  is_of_queue-Defined queue_id row =
      Defined-bind (get_queue_id fr row.1) (λ r. returned (queue_id == r.0))
        (get_queue_id-Defined row.1) (λ r. tt)

  has_key-Defined : (bkey rest : List ℕ) → Defined (has_key fr bkey rest)
  has_key-Defined bkey rest =
      Defined-bind (or_raise (fr.get_short_string rest))
        (λ q. or_raise (fr.get_short_string q.1) >>= λ (k : List ℕ × List ℕ).
          returned (eq_bytes bkey k.0))
        (or_raise-Defined (fr.get_short_string rest))
        (λ q.
          Defined-bind (or_raise (fr.get_short_string q.1)) (λ k. returned (eq_bytes bkey k.0))
            (or_raise-Defined (fr.get_short_string q.1)) (λ k. tt))

  pub is_binding-Defined :
      (queue_id : ℕ) (bkey : List ℕ) (row : Row) → Defined (is_binding fr queue_id bkey row)
  unfolding is_binding
  is_binding-Defined queue_id bkey row =
      Defined-bind (get_queue_id fr row.1)
        (λ r. if queue_id == r.0 then has_key fr bkey r.1 else returned false)
        (get_queue_id-Defined row.1) (λ r. same (queue_id == r.0) r.1)
    where
      same :
          (x : Bool) (rest : List ℕ) → Defined (if x then has_key fr bkey rest else returned false)
      same true rest = has_key-Defined bkey rest
      same false rest = tt

  module _ (e : ℕ) where
    abbrev from_table : ℕ → List ℕ → List ℕ → List ℕ → Outcome (ℕ × Binding F)
    from_table q name key rest = or_raise (fr.get_table rest) >>= λ (a : F × List ℕ).
        returned (q, record { exchange = e; queue_name = name; routing_key = key; args = a.0 })

    abbrev from_key : ℕ → List ℕ → List ℕ → Outcome (ℕ × Binding F)
    from_key q name rest =
        or_raise (fr.get_short_string rest) >>= λ (k : List ℕ × List ℕ). from_table q name k.0 k.1

    abbrev from_name : ℕ → List ℕ → Outcome (ℕ × Binding F)
    from_name q rest =
        or_raise (fr.get_short_string rest) >>= λ (n : List ℕ × List ℕ). from_key q n.0 n.1

    from_name-Defined : (q : ℕ) (rest : List ℕ) → Defined (from_name q rest)
    from_name-Defined q rest =
        Defined-bind (or_raise (fr.get_short_string rest)) (λ n. from_key q n.0 n.1)
          (or_raise-Defined (fr.get_short_string rest))
          (λ n.
            Defined-bind (or_raise (fr.get_short_string n.1)) (λ k. from_table q n.0 k.0 k.1)
              (or_raise-Defined (fr.get_short_string n.1))
              (λ k.
                Defined-bind (or_raise (fr.get_table k.1))
                  (λ a.
                    returned
                      (q, record { exchange = e; queue_name = n.0; routing_key = k.0; args = a.0 }))
                  (or_raise-Defined (fr.get_table k.1)) (λ a. tt)))

  pub read_binding-Defined : (row : Row) → Defined (read_binding fr row)
  unfolding read_binding
  read_binding-Defined row =
      Defined-bind (get_queue_id fr row.1) (λ r. from_name row.0 r.0 r.1)
        (get_queue_id-Defined row.1) (λ r. from_name-Defined row.0 r.0 r.1)
