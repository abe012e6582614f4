-- ===== src/Registry/Queues/Listed.antt =====
-- The recovery of the queues (`recoverQueues` of lib/BdbStoreProvider.cpp), by the table read as a map.
use bdbmsgstore.Prelude.{
  ℕ, suc, ◌≡◌, true, Option, none, some, List, [], if◌then◌else◌, is_some, ap, sym, subst, ◌∙◌, All,
}
use bdbmsgstore.OrdMap.{find}
use bdbmsgstore.Journal.{Outcome, returned, raised, undefined}
use bdbmsgstore.Registry.{ObjectDb, Table, recover_each, reset_ids, restarted}
use bdbmsgstore.Registry.Tables.{entry, IsObjectDb, contents, IsAhead}
use bdbmsgstore.Registry.Loop.{or_else-none, Unreadable, object_of}
use bdbmsgstore.Registry.Fill.{DistinctFound, recover_each-Distinct, Apart-nothing, find-fill}
use bdbmsgstore.IdSequence.{reset}
use bdbmsgstore.Registry.Recovered.{found-Restored, Restored, entry_of}
use bdbmsgstore.Registry.Queues.{Queues, QueuePass, queues_recovered, recover_queues}
use bdbmsgstore.Registry.Queues.Names.{
  new_journal, journal_at, lift, decode_name, is_named, loop_agrees,
}

module _ {D : Type 0} (J : Type 0) (odb : ObjectDb D) (num_jfiles : ℕ)
    (decode : List ℕ → Outcome (List ℕ)) where
  -- The recovery of a table with the contents `m`, by its outcome.
  abbrev pub Listed : ℕ → (ℕ → Option (List ℕ)) → Outcome (QueuePass J) → Queues D J → Type 0
  Listed n m (returned p) s =
      ((k : ℕ)
        → (find k p.queue_map ≡ object_of (decode_name decode) (m k))
          × (s.journal_list k ≡ (
              if is_some (object_of (decode_name decode) (m k))
              then some (new_journal num_jfiles)
              else none)))
      × (((k : ℕ) → contents odb s.table k ≡ m k) × IsAhead odb n s.table)
  Listed n m raised s = Unreadable (decode_name decode) m raised
  Listed n m undefined s = Unreadable (decode_name decode) m undefined

  from_found :
      (n : ℕ) (t : Table D) (m : ℕ → Option (List ℕ)) (o : Outcome (ℕ × List (ℕ × List ℕ)))
      → DistinctFound o
      → (let (o', t') = reset_ids odb t o in
          Restored odb (decode_name decode) (entry_of odb (decode_name decode)) n m o' t')
      → let (p, s) = queues_recovered num_jfiles t (lift num_jfiles o) in Listed n m p s
  unfolding find reset
  from_found n t m (returned (max_id, found)) d (same, kept) = (
    λ k. (
      find-fill k found [] d ∙ or_else-none (entry k found) ∙ same k,
      journal_at num_jfiles k found (λ i. none)
          ∙ ap (λ x. if is_some x then some (new_journal num_jfiles) else none) (same k),
    ),
    kept,
  )
  from_found n t m raised d e = e
  from_found n t m undefined d e = e

  -- `recoverQueues` recovers each queue of the table, with its id and name, and opens no journal but
  -- lists one for each of them; the sequence is then ahead of all ids. It throws only where the broker
  -- throws on a stored value. No queue's name is empty, as a C string; the sequence was ahead before
  -- the restart, with room for one more id, and the database does what its manual says.
  pub recover_queues-Listed :
      (laws : IsObjectDb odb) (n : ℕ) (t : Table D)
      → IsAhead odb (suc n) t
      → All (λ r. is_named (decode r.1) ≡ true) (odb.rows t.db)
      → let (p, s) = recover_queues {J = J} num_jfiles odb decode (restarted t) in
        Listed n (contents odb t) p s
  unfolding recover_queues
  recover_queues-Listed laws n t ahead named =
      let o : Outcome (ℕ × List (ℕ × List ℕ)) =
        recover_each (decode_name decode) (odb.rows t.db) 1 [] in
      subst
        (λ x.
          let (p, s) = queues_recovered num_jfiles (restarted t) x in Listed n (contents odb t) p s)
        (sym (loop_agrees num_jfiles decode (odb.rows t.db) 1 [] named))
        (from_found n (restarted t) (contents odb t) o
          (recover_each-Distinct (decode_name decode) (odb.rows t.db) 1 [] (laws.distinct t.db)
            (Apart-nothing (List ℕ) (odb.rows t.db)) tt)
          (found-Restored odb (decode_name decode) laws n t ahead))
