-- ===== src/Journal/Scan/Whole.antt =====
-- `recoverMessages` of lib/JournalImpl.cpp as a whole.
use mathlib.Core.List.Perm
use mathlib.Core.List.{Perm}
use bdbmsgstore.Prelude.{
  ℕ, zero, suc, ◌+◌, ◌*◌, ◌≡◌, ◌≤◌, refl, true, Option, none, some, List, [], ◌∷◌, ◌++◌, arith,
  length, length-append, if◌then◌else◌, map, ap, sym, ◌∙◌, subst,
}
use bdbmsgstore.Journal.{JournalImpl, returned, init_message_db}
use bdbmsgstore.Journal.Berkeley.{Database}
use bdbmsgstore.Journal.Contents.{Open}
use bdbmsgstore.Journal.Scan.{
  Row, scan_loop, work, fresh, start, open_cursors, scan_cursors, after_init, answer,
  recover_messages,
}
use bdbmsgstore.Journal.Scan.Lap.{ended, at}
use bdbmsgstore.Journal.Scan.Once.{left, scan_loop-Perm}

abbrev concat : List (List Row) → List Row
concat [] = []
concat (rows ∷ cursors) = rows ++ concat cursors

ended-fresh : (cursors : List (List Row)) → ended (map fresh cursors) ≡ 0
ended-fresh [] = refl
ended-fresh (rows ∷ cursors) = ended-fresh cursors

left-fresh : (cursors : List (List Row)) → left (map fresh cursors) ≡ concat cursors
left-fresh [] = refl
left-fresh (rows ∷ cursors) = ap (◌++◌ rows) (left-fresh cursors)

length-fresh : (cursors : List (List Row)) → length (map fresh cursors) ≡ length cursors
length-fresh [] = refl
length-fresh (rows ∷ cursors) = ap suc (length-fresh cursors)

-- A journal with no databases is done at once.
scan-Perm :
    (n k : ℕ) (cursors : List (List Row))
    → length cursors ≡ n
    → work (map fresh cursors) ≤ k
    → (rows : List Row) × (scan_loop n (suc (n * k)) (start cursors) ≡ some rows)
      × Perm (concat cursors) rows
unfolding scan_loop
scan-Perm zero k [] e w = ([], refl, Perm.refl [])
scan-Perm zero k (rows ∷ cursors) e w = absurd (omega arith)
scan-Perm (suc n) k cursors e w =
    let (rows, gives, same) =
      scan_loop-Perm (suc n) k (map fresh cursors) [] (omega arith) (length-fresh cursors ∙ e) w in
    (
      rows,
      ap (λ c. scan_loop (suc n) (suc (suc n * k)) (at (map fresh cursors) 0 c []))
            (sym (ended-fresh cursors))
          ∙ gives,
      subst (λ l. Perm l rows) (left-fresh cursors) same,
    )

module _ {D : Type 0} (db : Database D) (rows : D → List Row) where
  -- All messages of the databases, one database after the other.
  abbrev pub all_rows : List (Option D) → List Row
  all_rows [] = []
  all_rows (none ∷ dbs) = all_rows dbs
  all_rows (some d ∷ dbs) = rows d ++ all_rows dbs

  opened :
      (dbs : List (Option D))
      → Open dbs
      → (cursors : List (List Row)) × (open_cursors db rows dbs ≡ some cursors)
        × (length cursors ≡ length dbs)
        × (concat cursors ≡ all_rows dbs)
        × (work (map fresh cursors) ≡ length (all_rows dbs) + length dbs)
  opened [] o = ([], refl, refl, refl, omega arith)
  opened (none ∷ dbs) o = absurd o
  opened (some d ∷ dbs) o =
      let (cursors, gives, as_many, same, enough) = opened dbs o in
      (
        rows d ∷ cursors,
        rw gives refl,
        ap suc as_many,
        ap (◌++◌ (rows d)) same,
        omega (arith, length-append (rows d) (all_rows dbs)),
      )

  -- Let the databases of a journal, open already or opened by the call, be as many as the journal
  -- counts, and hold at most `k` messages less one for each database. Then with fuel for `k` laps the
  -- loop over the cursors ends, and `recoverMessages` returns each message of each database exactly
  -- once, in some order.
  pub recover_messages-Perm :
      (k : ℕ) (j j' : JournalImpl D)
      → init_message_db db j ≡ (returned tt, j')
      → j'.create_bdb ≡ true
      → Open j'.message_dbs
      → length j'.message_dbs ≡ j'.num_jfiles
      → length (all_rows j'.message_dbs) + j'.num_jfiles ≤ k
      → (recovered : List Row) × (recover_messages db rows (suc (j'.num_jfiles * k)) j
          ≡ some (returned recovered, j'))
        × Perm (all_rows j'.message_dbs) recovered
  unfolding recover_messages
  recover_messages-Perm k j j' i creates o e w =
      let (cursors, gives, as_many, same, enough) = opened j'.message_dbs o in
      let (recovered, ends, once) = scan-Perm j'.num_jfiles k cursors (as_many ∙ e) (omega arith) in
      (
        recovered,
        ap (after_init db rows (suc (j'.num_jfiles * k))) i
            ∙ ap
                (λ b.
                  if b
                  then scan_cursors db rows (suc (j'.num_jfiles * k)) j'
                      (open_cursors db rows j'.message_dbs)
                  else some (returned [], j'))
                creates
            ∙ ap (scan_cursors db rows (suc (j'.num_jfiles * k)) j') gives
            ∙ ap (answer db rows j') ends,
        subst (λ l. Perm l recovered) same once,
      )
