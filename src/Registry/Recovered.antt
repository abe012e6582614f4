-- ===== src/Registry/Recovered.antt =====
-- The recovery of a table (`recoverConfigs` and `recoverExchanges` of lib/BdbStoreProvider.cpp), by the
-- table read as a map.
use bdbmsgstore.Prelude.{ℕ, suc, ◌<◌, ◌≡◌, refl, Option, List, [], arith, ◌∙◌}
use bdbmsgstore.Word.{suc_u64}
use bdbmsgstore.OrdMap.{OrdMap, find}
use bdbmsgstore.IdSequence.{reset}
use bdbmsgstore.Journal.{Outcome, returned, raised, undefined}
use bdbmsgstore.Registry.{
  ObjectDb, Table, fill_found, recover_each, reset_ids, recover_configs, recover_exchanges,
  restarted,
}
use bdbmsgstore.Registry.Tables.{entry, Distinct, IsObjectDb, contents, IsAhead}
use bdbmsgstore.Registry.Fill.{DistinctFound, Apart-nothing, recover_each-Distinct, find-fill}
use bdbmsgstore.Registry.Loop.{
  Unreadable, decode_config, object_of, or_else-none, Found, recover_each-Found,
}

module _ {A : Type 0} where
  abbrev DistinctList : Outcome (List (ℕ × A)) → Type 0
  DistinctList (returned found) = Distinct found
  DistinctList raised = Unit {0}
  DistinctList undefined = Unit {0}

module _ {D A : Type 0} (odb : ObjectDb D) (decode : List ℕ → Outcome (Option A)) where
  -- The recovery of a table with the contents `m`, by its outcome: the objects, as `look` finds them,
  -- are those that the broker makes of the contents, and the sequence is ahead of all ids again.
  abbrev pub Restored :
      {M : Type 0} → (M → ℕ → Option A) → ℕ → (ℕ → Option (List ℕ)) → Outcome M → Table D → Type 0
  Restored look n m (returned x) t =
      ((k : ℕ) → look x k ≡ object_of decode (m k))
      × (((k : ℕ) → contents odb t k ≡ m k) × IsAhead odb n t)
  Restored look n m raised t = Unreadable decode m raised
  Restored look n m undefined t = Unreadable decode m undefined

  abbrev pub entry_of : List (ℕ × A) → ℕ → Option A
  entry_of found k = entry k found

  abbrev pub find_of : OrdMap A → ℕ → Option A
  find_of m k = find k m

  table_reset :
      (n : ℕ) (t : Table D) (o : Outcome (ℕ × List (ℕ × A)))
      → IsAhead odb (suc n) t
      → Found decode (odb.rows t.db) 1 [] o
      → let (o', t') = reset_ids odb (restarted t) o in Restored entry_of n (contents odb t) o' t'
  unfolding reset
  table_reset n t (returned (max_id, found)) ahead (same, (le, (keys, least))) =
      let lt : max_id < suc t.ids.id =
        least (suc t.ids.id) (omega (arith, ahead.positive))
          (λ k h. omega (arith, ahead.above k h)) in
      let up : suc_u64 max_id ≡ suc max_id = omega (arith, lt, ahead.room) in
      (
        same,
        (
          λ k. refl,
          record {
            positive = rw up (omega arith);
            room = rw up (omega (arith, lt, ahead.room));
            above = λ k h. rw up (omega (arith, keys k h));
          },
        ),
      )
  table_reset n t raised ahead e = e
  table_reset n t undefined ahead e = e

  filled :
      (n : ℕ) (m : ℕ → Option (List ℕ)) (o : Outcome (List (ℕ × A))) (t : Table D)
      → DistinctList o
      → Restored entry_of n m o t
      → let (o', t') = fill_found odb (o, t) in Restored find_of n m o' t'
  unfolding find
  filled n m (returned found) t d (same, ahead) =
      (λ k. find-fill k found [] d ∙ or_else-none (entry k found) ∙ same k, ahead)
  filled n m raised t d e = e
  filled n m undefined t d e = e

  distinct_reset :
      (t : Table D) (o : Outcome (ℕ × List (ℕ × A)))
      → DistinctFound o
      → DistinctList (reset_ids odb t o).0
  distinct_reset t (returned (max_id, found)) d = d
  distinct_reset t raised d = d
  distinct_reset t undefined d = d

  module _ (laws : IsObjectDb odb) (n : ℕ) (t : Table D) (ahead : IsAhead odb (suc n) t) where
    pub found-Restored :
        let (o, t') = reset_ids odb (restarted t) (recover_each decode (odb.rows t.db) 1 []) in
        Restored entry_of n (contents odb t) o t'
    found-Restored =
        table_reset n t (recover_each decode (odb.rows t.db) 1 []) ahead
          (recover_each-Found decode (odb.rows t.db) 1 [] (laws.distinct t.db))

    pub recover_exchanges-Restored :
        let (o, t') = recover_exchanges odb decode (restarted t) in
        Restored find_of n (contents odb t) o t'
    unfolding recover_exchanges
    recover_exchanges-Restored =
        let (o, t') = reset_ids odb (restarted t) (recover_each decode (odb.rows t.db) 1 []) in
        filled n (contents odb t) o t'
          (distinct_reset (restarted t) (recover_each decode (odb.rows t.db) 1 []) (
            recover_each-Distinct decode (odb.rows t.db) 1 [] (laws.distinct t.db)
              (Apart-nothing A (odb.rows t.db)) tt))
          found-Restored

module _ {D A : Type 0} (odb : ObjectDb D) (decode : List ℕ → Outcome A) where
  pub recover_configs-Restored :
      (laws : IsObjectDb odb) (n : ℕ) (t : Table D)
      → IsAhead odb (suc n) t
      → let (o, t') = recover_configs odb decode (restarted t) in
        Restored odb
          (decode_config decode)
          (entry_of odb (decode_config decode))
          n
          (contents odb t)
          o
          t'
  unfolding recover_configs
  recover_configs-Restored laws n t ahead = found-Restored odb (decode_config decode) laws n t ahead
