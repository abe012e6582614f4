-- ===== src/Registry/Bindings/Encoded.antt =====
-- Reading the rows that `bind` writes (lib/BindingDbt.cpp, lib/BdbStoreProvider.cpp).
use bdbmsgstore.Prelude.{
  ℕ, ◌≡◌, ◌<◌, ◌≤◌, refl, Bool, true, false, Option, none, some, List, ◌++◌, ◌==◌, if◌then◌else◌,
  length, length-append, ap, sym, arith, le→ltb,
}
use bdbmsgstore.Bytes.{u64_mod}
use bdbmsgstore.Journal.{Outcome, returned, raised, undefined}
use bdbmsgstore.Provider.Recovery.{◌>>=◌}
use bdbmsgstore.Provider.Recovery.Rows.{eq_bytes}
use bdbmsgstore.Registry.Bindings.{
  Framing, or_raise, binding_dbt, get_queue_id, has_key, is_of_queue, is_binding, read_binding,
}
use bdbmsgstore.Registry.Bindings.Laws.{IsFraming}

module _ {F : Type 0} (fr : Framing F) where
  -- The encodings that a row is made of.
  pub record Parts (name key : List ℕ) (args : F) : Type 0 where
    pub name_bytes : List ℕ
    pub key_bytes : List ℕ
    pub args_bytes : List ℕ
    pub name_put : fr.put_short_string name ≡ some name_bytes
    pub key_put : fr.put_short_string key ≡ some key_bytes
    pub args_put : fr.put_table args ≡ some args_bytes

  abbrev pub joined : {name key : List ℕ} {args : F} → ℕ → Parts name key args → List ℕ
  joined queue_id p = fr.put_long_long queue_id ++ (p.name_bytes ++ (p.key_bytes ++ p.args_bytes))

  abbrev value_of : List ℕ → Outcome (List ℕ) → List ℕ
  value_of v (returned w) = w
  value_of v raised = v
  value_of v undefined = v

  abbrev has_value : Outcome (List ℕ) → Bool
  has_value (returned w) = true
  has_value raised = false
  has_value undefined = false

  module _ (queue_id : ℕ) (name key : List ℕ) (args : F) (value : List ℕ) where
    parts :
        (n k a : Option (List ℕ))
        → fr.put_short_string name ≡ n
        → fr.put_short_string key ≡ k
        → fr.put_table args ≡ a
        → (or_raise n >>= λ (x : List ℕ). or_raise k >>= λ (y : List ℕ).
            or_raise a >>= λ (z : List ℕ). returned (fr.put_long_long queue_id ++ (x ++ (y ++ z))))
          ≡ returned value
        → (p : Parts name key args) × (value ≡ joined queue_id p)
    parts none k a en ek ea h = absurd (let x : false ≡ true = ap has_value h in cc)
    parts (some n) none a en ek ea h = absurd (let x : false ≡ true = ap has_value h in cc)
    parts (some n) (some k) none en ek ea h = absurd (let x : false ≡ true = ap has_value h in cc)
    parts (some n) (some k) (some a) en ek ea h = (
      record {
        name_bytes = n;
        key_bytes = k;
        args_bytes = a;
        name_put = en;
        key_put = ek;
        args_put = ea;
      },
      sym (ap (value_of value) h),
    )

    binding_dbt-Parts :
        binding_dbt fr queue_id name key args ≡ returned value
        → (p : Parts name key args) × (value ≡ joined queue_id p)
    unfolding binding_dbt
    binding_dbt-Parts h =
        parts (fr.put_short_string name) (fr.put_short_string key) (fr.put_table args) refl refl
          refl h

  module _ (laws : IsFraming fr) (queue_id : ℕ) (small : queue_id < u64_mod) (name key : List ℕ)
      (args : F) where
    get_queue_id-joined :
        (p : Parts name key args)
        → get_queue_id fr (joined queue_id p)
          ≡ returned (queue_id, p.name_bytes ++ (p.key_bytes ++ p.args_bytes))
    unfolding get_queue_id
    get_queue_id-joined p =
        let rest : List ℕ = p.name_bytes ++ (p.key_bytes ++ p.args_bytes) in
        let long : 8 ≤ length (fr.put_long_long queue_id ++ rest) =
          rw (length-append (fr.put_long_long queue_id) rest, laws.eight queue_id) (omega arith) in
        rw
          (
            le→ltb (length (fr.put_long_long queue_id ++ rest)) 8 long,
            laws.long_long queue_id rest small,
          )
          refl

    has_key-joined :
        (p : Parts name key args) (bkey : List ℕ)
        → has_key fr bkey (p.name_bytes ++ (p.key_bytes ++ p.args_bytes))
          ≡ returned (eq_bytes bkey key)
    has_key-joined p bkey =
        rw
          (
            laws.short_string name p.name_bytes (p.key_bytes ++ p.args_bytes) p.name_put,
            laws.short_string key p.key_bytes p.args_bytes p.key_put,
          )
          refl

    module _ (value : List ℕ)
        (encoded : binding_dbt fr queue_id name key args ≡ returned value) where
      pub is_of_queue-encoded : (e q : ℕ) → is_of_queue fr q (e, value) ≡ returned (q == queue_id)
      unfolding is_of_queue
      is_of_queue-encoded e q =
          let (p, is_joined) = binding_dbt-Parts queue_id name key args value encoded in
          rw (is_joined, get_queue_id-joined p) refl

      pub is_binding-encoded :
          (e q : ℕ) (bkey : List ℕ)
          → is_binding fr q bkey (e, value)
            ≡ returned (if q == queue_id then eq_bytes bkey key else false)
      unfolding is_binding
      is_binding-encoded e q bkey =
          let (p, is_joined) = binding_dbt-Parts queue_id name key args value encoded in
          rw (is_joined, get_queue_id-joined p, has_key-joined p bkey) (pushed (q == queue_id))
        where
          pushed :
              (x : Bool)
              → (if x then returned (eq_bytes bkey key) else returned false)
                ≡ returned (if x then eq_bytes bkey key else false)
          pushed true = refl
          pushed false = refl

      pub read_binding-encoded :
          (e : ℕ)
          → read_binding fr (e, value)
            ≡ returned (
              queue_id,
              record { exchange = e; queue_name = name; routing_key = key; args = args },
            )
      unfolding read_binding
      read_binding-encoded e =
          let (p, is_joined) = binding_dbt-Parts queue_id name key args value encoded in
          rw
            (
              is_joined,
              get_queue_id-joined p,
              laws.short_string name p.name_bytes (p.key_bytes ++ p.args_bytes) p.name_put,
              laws.short_string key p.key_bytes p.args_bytes p.key_put,
              laws.table args p.args_bytes p.args_put,
            )
            refl
