-- ===== src/Registry/Bindings/Bound.antt =====
-- The recovery of the bindings (`recoverBindings` of lib/BdbStoreProvider.cpp).
use bdbmsgstore.Prelude.{
  ℕ, ◌≡◌, ◌<◌, ◌⊎◌, inl, inr, refl, Bool, true, false, not, ◌&&◌, ◌||◌, Option, none, some, List,
  [], ◌∷◌, ◌++◌, if◌then◌else◌, is_some, sym, subst, ◌∙◌, append-nil, append_assoc,
}
use bdbmsgstore.Bytes.{u64_mod}
use bdbmsgstore.OrdMap.{OrdMap, find}
use bdbmsgstore.Journal.{Outcome, returned, raised, undefined}
use bdbmsgstore.Journal.Scan.{Row}
use bdbmsgstore.Provider.Recovery.{◌>>=◌}
use bdbmsgstore.Registry.Bindings.{
  BindingDb, Framing, Binding, or_raise, binding_dbt, read_binding, has_ends, bind_or_delete,
  bind_rows, recover_bindings,
}
use bdbmsgstore.Registry.Bindings.Defined.{Defined, read_binding-Defined}
use bdbmsgstore.Registry.Bindings.Laws.{eq_row, has_row, eq_row_refl, holds, IsBindingDb, IsFraming}
use bdbmsgstore.Registry.Bindings.Encoded.{read_binding-encoded}
use bdbmsgstore.Registry.Bindings.Deleted.{Deleted, passed_by, struck}

module _ {B F E Q : Type 0} (bdb : BindingDb B) (fr : Framing F) (laws : IsBindingDb bdb)
    (exchange_map : OrdMap E) (queue_map : OrdMap Q) where
  abbrev ends : ℕ × Binding F → Bool
  ends x = has_ends bdb fr exchange_map queue_map x

  abbrev told_of : Outcome (ℕ × Binding F) → List (Binding F)
  told_of (returned x) = if ends x then x.1 ∷ [] else []
  told_of raised = []
  told_of undefined = []

  -- What the exchange of a row is told.
  abbrev pub told : Row → List (Binding F)
  told row = told_of (read_binding fr row)

  abbrev pub calls_of : List Row → List (Binding F)
  calls_of [] = []
  calls_of (row ∷ rows) = told row ++ calls_of rows

  abbrev pub is_stale : Row → Outcome Bool
  is_stale row = read_binding fr row >>= λ (x : ℕ × Binding F). returned (not (ends x))

  -- A row that cannot be read, or a deletion that throws.
  abbrev pub Failed : List Row → Type 0
  Failed rows =
      ((row : Row) × ((has_row row rows ≡ true) × (read_binding fr row ≡ raised)))
      ⊎ ((row : Row) × ((b : B) × (bdb.del_row row b ≡ none)))

  abbrev pub Bound : List Row → List (Binding F) → B → Outcome (List (Binding F) × B) → Type 0
  Bound rows calls b (returned (calls', b')) =
      (calls' ≡ calls ++ calls_of rows) × Deleted bdb laws is_stale rows b b'
  Bound rows calls b raised = Failed rows
  Bound rows calls b undefined = (row : Row) × (read_binding fr row ≡ undefined)

  module _ (row : Row) (rows : List Row) where
    Failed-later : Failed rows → Failed (row ∷ rows)
    Failed-later (inl (r, (h, e))) = inl (r, (or_true (eq_row r row) (has_row r rows) h, e))
      where
        or_true : (x y : Bool) → y ≡ true → (x || y) ≡ true
        or_true true y p = refl
        or_true false y p = p
    Failed-later (inr f) = inr f

    went_on :
        (calls : List (Binding F)) (b : B) (x : ℕ × Binding F) (o : Outcome (List (Binding F) × B))
        → read_binding fr row ≡ returned x
        → ends x ≡ true
        → Bound rows (calls ++ (x.1 ∷ [])) b o
        → Bound (row ∷ rows) calls b o
    went_on calls b x (returned (calls', b')) e t (same, d) = (
      same ∙ append_assoc calls (x.1 ∷ []) (calls_of rows) ∙ rw (e, t) refl,
      passed_by bdb laws is_stale row rows b b' (rw (e, t) refl) d,
    )
    went_on calls b x raised e t f = Failed-later f
    went_on calls b x undefined e t f = f

    deleted :
        (calls : List (Binding F)) (b c : B) (x : ℕ × Binding F)
        (o : Outcome (List (Binding F) × B))
        → read_binding fr row ≡ returned x
        → ends x ≡ false
        → bdb.del_row row b ≡ some c
        → Bound rows calls c o
        → Bound (row ∷ rows) calls b o
    deleted calls b c x (returned (calls', b')) e t p (same, d) =
        (same ∙ rw (e, t) refl, struck bdb laws is_stale row rows b c b' (rw (e, t) refl) p d)
    deleted calls b c x raised e t p f = Failed-later f
    deleted calls b c x undefined e t p f = f

    module _ (calls : List (Binding F)) (b : B)
        (later : (cs : List (Binding F)) (c : B)
          → Bound rows cs c (bind_rows bdb fr exchange_map queue_map rows (cs, c))) where
      deletes :
          (x : ℕ × Binding F) (a : Option B)
          → read_binding fr row ≡ returned x
          → ends x ≡ false
          → bdb.del_row row b ≡ a
          → Bound
              (row ∷ rows)
              calls
              b
              (or_raise a >>= λ (c : B). bind_rows bdb fr exchange_map queue_map rows (calls, c))
      deletes x none e t p = inr (row, (b, p))
      deletes x (some c) e t p =
          deleted calls b c x (bind_rows bdb fr exchange_map queue_map rows (calls, c)) e t p
            (later calls c)

      binds :
          (x : ℕ × Binding F) (y : Bool)
          → read_binding fr row ≡ returned x
          → ends x ≡ y
          → Bound (row ∷ rows) calls b (
              bind_or_delete bdb fr exchange_map queue_map row
                (bind_rows bdb fr exchange_map queue_map rows)
                (calls, b)
                x.1
                y)
      binds x true e t =
          went_on calls b x (bind_rows bdb fr exchange_map queue_map rows (calls ++ (x.1 ∷ []), b))
            e t (later (calls ++ (x.1 ∷ [])) b)
      binds x false e t = deletes x (bdb.del_row row b) e t refl

      reads :
          (o : Outcome (ℕ × Binding F))
          → read_binding fr row ≡ o
          → Bound (row ∷ rows) calls b (
              o >>= λ (x : ℕ × Binding F).
              bind_or_delete bdb fr exchange_map queue_map row
                (bind_rows bdb fr exchange_map queue_map rows)
                (calls, b)
                x.1
                (ends x))
      reads (returned x) e = binds x (ends x) e refl
      reads raised e = inl (row, (rw (eq_row_refl row) refl, e))
      reads undefined e = (row, e)

  bind_rows-Bound :
      (rows : List Row) (calls : List (Binding F)) (b : B)
      → Bound rows calls b (bind_rows bdb fr exchange_map queue_map rows (calls, b))
  unfolding bind_rows
  bind_rows-Bound [] calls b = (sym (append-nil calls), λ r. refl)
  bind_rows-Bound (row ∷ rows) calls b =
      reads row rows calls b (bind_rows-Bound rows) (read_binding fr row) refl

  abbrev pub both_found : ℕ → ℕ → Bool
  both_found exchange_id queue_id =
      is_some (find exchange_id exchange_map) && is_some (find queue_id queue_map)

  -- What the recovery makes of one row, which binds the queue `queue_id` by the call `call`.
  abbrev pub Recovered : ℕ → Binding F → Row → B → Outcome (List (Binding F) × B) → Type 0
  Recovered queue_id call row b (returned (calls, b')) =
      (calls ≡ calls_of (bdb.rows b))
      × ((told row ≡ (if both_found call.exchange queue_id then call ∷ [] else []))
          × (holds bdb b' row ≡ (holds bdb b row && both_found call.exchange queue_id)))
  Recovered queue_id call row b raised = Failed (bdb.rows b)
  Recovered queue_id call row b undefined = ⊥

  fate :
      (queue_id : ℕ) (call : Binding F) (row : Row) (b : B) (o : Outcome (List (Binding F) × B))
      → ((r : Row) → Defined (read_binding fr r))
      → read_binding fr row ≡ returned (queue_id, call)
      → Bound (bdb.rows b) [] b o
      → Recovered queue_id call row b o
  fate queue_id call row b (returned (calls, b')) never e (same, d) = (
    same,
    (rw e refl, d row ∙ rw e (stays (holds bdb b row) (both_found call.exchange queue_id))),
  )
    where
      stays : (x y : Bool) → (if x && not y then false else x) ≡ (x && y)
      stays true true = refl
      stays true false = refl
      stays false y = refl
  fate queue_id call row b raised never e f = f
  fate queue_id call row b undefined never e (r, p) = subst Defined p (never r)

  -- `recoverBindings` tells each exchange of the bindings that have both ends, and drops the others: the
  -- calls are those of the rows in the order of the cursor, where a row that `bind` wrote, for a queue
  -- with a 64-bit id, gives the one call with the name, key and arguments of that `bind` if its exchange and its
  -- queue were recovered, and none otherwise; and the row stays in the database in the first case only.
  -- The recovery throws only if a row cannot be read or a deletion throws, and is never undefined. The
  -- database and the Buffer do what is documented.
  pub recover_bindings-Recovered :
      (framing : IsFraming fr) (b : B) (exchange_id queue_id : ℕ) (name key : List ℕ) (args : F)
      (value : List ℕ)
      → queue_id < u64_mod
      → binding_dbt fr queue_id name key args ≡ returned value
      → Recovered queue_id
          (record { exchange = exchange_id; queue_name = name; routing_key = key; args = args })
          (exchange_id, value)
          b
          (recover_bindings bdb fr exchange_map queue_map b)
  unfolding recover_bindings
  recover_bindings-Recovered framing b exchange_id queue_id name key args value small e =
      fate queue_id
        (record { exchange = exchange_id; queue_name = name; routing_key = key; args = args })
        (exchange_id, value) b (recover_bindings bdb fr exchange_map queue_map b)
        (read_binding-Defined fr)
        (read_binding-encoded fr framing queue_id small name key args value e exchange_id)
        (bind_rows-Bound (bdb.rows b) [] b)
