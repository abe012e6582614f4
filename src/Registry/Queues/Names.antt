-- ===== src/Registry/Queues/Names.antt =====
-- The loop of `recoverQueues` (lib/BdbStoreProvider.cpp) beside that of `recoverExchanges`.
use bdbmsgstore.Prelude.{
  ℕ, ◌≡◌, ◌⊎◌, arith, refl, inl, inr, Bool, true, false, Option, none, some, List, [], ◌∷◌, ◌++◌,
  ◌==◌, if◌then◌else◌, is_some, ap, ◌∙◌, Bool-cases, All,
}
use bdbmsgstore.OrdMap.{OrdMap}
use bdbmsgstore.Journal.{JournalImpl, Outcome, returned, raised, undefined, open_journal}
use bdbmsgstore.Journal.Scan.{Row}
use bdbmsgstore.Provider.Pools.{set_journal}
use bdbmsgstore.Provider.Recovery.{◌>>=◌}
use bdbmsgstore.Provider.Recovery.Rows.{put}
use bdbmsgstore.Registry.{add_found, max, fill, recover_each}
use bdbmsgstore.Registry.Tables.{entry}
use bdbmsgstore.Registry.Queues.{QueuePass, c_str, add_queue, named_queue, recover_queue_rows}

abbrev pub ids_of : List (ℕ × List ℕ) → List ℕ
ids_of [] = []
ids_of ((id, name) ∷ found) = id ∷ ids_of found

fill-append :
    (found : List (ℕ × List ℕ)) (id : ℕ) (name : List ℕ) (m : OrdMap (List ℕ))
    → put id name (fill found m) ≡ fill (found ++ ((id, name) ∷ [])) m
fill-append [] id name m = refl
fill-append ((j, a) ∷ found) id name m = fill-append found id name (put j a m)

ids_of-append :
    (found : List (ℕ × List ℕ)) (id : ℕ) (name : List ℕ)
    → ids_of found ++ (id ∷ []) ≡ ids_of (found ++ ((id, name) ∷ []))
ids_of-append [] id name = refl
ids_of-append ((j, a) ∷ found) id name = ap (◌∷◌ j) (ids_of-append found id name)

abbrev pub nonempty : List ℕ → Bool
nonempty [] = false
nonempty (x ∷ name) = true

-- The broker does not make a queue of the value whose name is empty.
abbrev pub is_named : Outcome (List ℕ) → Bool
is_named (returned name) = nonempty (c_str name)
is_named raised = true
is_named undefined = true

module _ (decode : List ℕ → Outcome (List ℕ)) where
  abbrev pub name_found : List ℕ → Outcome (Option (List ℕ))
  name_found name = returned (some (c_str name))

  abbrev pub decode_name : List ℕ → Outcome (Option (List ℕ))
  decode_name v = decode v >>= name_found

module _ {J : Type 0} (num_jfiles : ℕ) where
  abbrev pub new_journal : JournalImpl J
  new_journal = open_journal num_jfiles true

  abbrev pub listed : List (ℕ × List ℕ) → (ℕ → Option (JournalImpl J)) → ℕ → Option (JournalImpl J)
  listed [] js = js
  listed ((id, name) ∷ found) js = listed found (set_journal id new_journal js)

  -- The loop's state, after it has found these queues.
  abbrev pub pass_of : List (ℕ × List ℕ) → QueuePass J
  pass_of found = record {
    queue_map = fill found [];
    journal_list = listed found (λ i. none);
    recovered_journal = ids_of found;
  }

  listed-append :
      (found : List (ℕ × List ℕ)) (id : ℕ) (name : List ℕ) (js : ℕ → Option (JournalImpl J))
      → set_journal id new_journal (listed found js) ≡ listed (found ++ ((id, name) ∷ [])) js
  listed-append [] id name js = refl
  listed-append ((j, a) ∷ found) id name js =
      listed-append found id name (set_journal j new_journal js)

  abbrev pass : OrdMap (List ℕ) → (ℕ → Option (JournalImpl J)) → List ℕ → QueuePass J
  pass m js ids = record { queue_map = m; journal_list = js; recovered_journal = ids }

  add_queue-pass_of :
      (found : List (ℕ × List ℕ)) (id : ℕ) (name : List ℕ)
      → add_queue num_jfiles id name (pass_of found) ≡ pass_of (found ++ ((id, name) ∷ []))
  add_queue-pass_of found id name =
      ap
        (λ m.
          pass m (set_journal id new_journal (listed found (λ i. none)))
            (ids_of found ++ (id ∷ [])))
        (fill-append found id name [])
      ∙ ap (λ js. pass (fill (found ++ ((id, name) ∷ [])) []) js (ids_of found ++ (id ∷ [])))
          (listed-append found id name (λ i. none))
      ∙ ap
          (pass (fill (found ++ ((id, name) ∷ [])) [])
            (listed (found ++ ((id, name) ∷ [])) (λ i. none)))
          (ids_of-append found id name)

  -- The journals that are listed.
  pub journal_at :
      (k : ℕ) (found : List (ℕ × List ℕ)) (js : ℕ → Option (JournalImpl J))
      → listed found js k ≡ (if is_some (entry k found) then some new_journal else js k)
  journal_at k [] js = refl
  journal_at k ((id, name) ∷ found) js =
      journal_at k found (set_journal id new_journal js)
      ∙ turned (Bool-cases (id == k)) (Bool-cases (is_some (entry k found)))
    where
      turned :
          ((id == k) ≡ true) ⊎ ((id == k) ≡ false)
          → (is_some (entry k found) ≡ true) ⊎ (is_some (entry k found) ≡ false)
          → (if is_some (entry k found)
              then some new_journal
              else (if k == id then some new_journal else js k))
            ≡ (if is_some (if id == k then some name else entry k found)
                then some new_journal
                else js k)
      turned (inl q) (inl r) = let p : (k == id) ≡ true = ground arith in rw (q, r) refl
      turned (inl q) (inr r) = let p : (k == id) ≡ true = ground arith in rw (q, r, p) refl
      turned (inr q) (inl r) = let p : (k == id) ≡ false = ground arith in rw (q, r) refl
      turned (inr q) (inr r) = let p : (k == id) ≡ false = ground arith in rw (q, r, p) refl

  abbrev pub lift : Outcome (ℕ × List (ℕ × List ℕ)) → Outcome (ℕ × QueuePass J)
  lift (returned (max_id, found)) = returned (max_id, pass_of found)
  lift raised = raised
  lift undefined = undefined

  module _ (decode : List ℕ → Outcome (List ℕ)) where
    module _ (rest : List Row) (id max_id : ℕ) (found : List (ℕ × List ℕ))
        (later : (m : ℕ) (f : List (ℕ × List ℕ))
          → recover_queue_rows num_jfiles decode rest m (pass_of f)
            ≡ lift (recover_each (decode_name decode) rest m f)) where
      named_agrees :
          (name : List ℕ)
          → nonempty name ≡ true
          → named_queue num_jfiles
              (recover_queue_rows num_jfiles decode rest)
              id
              max_id
              (pass_of found)
              name
            ≡ lift (
                recover_each (decode_name decode) rest (max id max_id) (found ++ ((id, name) ∷ [])))
      named_agrees [] h = absurd (let x : false ≡ true = h in cc)
      named_agrees (x ∷ name) h =
          ap (recover_queue_rows num_jfiles decode rest (max id max_id))
            (add_queue-pass_of found id (x ∷ name))
          ∙ later (max id max_id) (found ++ ((id, x ∷ name) ∷ []))

      read_agrees :
          (o : Outcome (List ℕ))
          → is_named o ≡ true
          → (o >>= λ (name : List ℕ).
              named_queue num_jfiles
                (recover_queue_rows num_jfiles decode rest)
                id
                max_id
                (pass_of found)
                (c_str name))
            ≡ lift (
                (o >>= name_found decode) >>= λ (a : Option (List ℕ)).
                recover_each (decode_name decode) rest (max id max_id) (add_found id a found))
      read_agrees (returned name) h = named_agrees (c_str name) h
      read_agrees raised h = refl
      read_agrees undefined h = refl

    pub loop_agrees :
        (rows : List Row) (max_id : ℕ) (found : List (ℕ × List ℕ))
        → All (λ r. is_named (decode r.1) ≡ true) rows
        → recover_queue_rows num_jfiles decode rows max_id (pass_of found)
          ≡ lift (recover_each (decode_name decode) rows max_id found)
    unfolding recover_queue_rows recover_each
    loop_agrees [] max_id found h = refl
    loop_agrees ((id, v) ∷ rest) max_id found (h, hs) =
        read_agrees rest id max_id found (λ m f. loop_agrees rest m f hs) (decode v) h
