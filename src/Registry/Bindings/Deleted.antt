-- ===== src/Registry/Bindings/Deleted.antt =====
-- The deletion of bindings (`deleteBindingsForQueue` and `deleteBinding` of lib/BdbStoreProvider.cpp).
use bdbmsgstore.Prelude.{
  ◌≡◌, ◌⊎◌, inl, inr, refl, Bool, true, false, not, ◌&&◌, Option, none, some, List, [], ◌∷◌,
  if◌then◌else◌, ap, sym, subst, ◌∙◌, Bool-cases,
}
use bdbmsgstore.Journal.{Outcome, returned, raised, undefined}
use bdbmsgstore.Journal.Scan.{Row}
use bdbmsgstore.TxnCtxt.{Answers, TxnCtxt}
use bdbmsgstore.TxnCtxt.Atomic.{Atomic}
use bdbmsgstore.Provider.Recovery.{◌>>=◌}
use bdbmsgstore.Registry.Bindings.{BindingDb, or_raise, delete_hit, delete_rows}
use bdbmsgstore.Registry.Bindings.Defined.{Defined, Defined-bind, or_raise-Defined}
use bdbmsgstore.Registry.Bindings.Laws.{eq_row, has_row, eq_row-eq, holds, IsBindingDb}

abbrev pub is_true : Outcome Bool → Bool
is_true (returned x) = x
is_true raised = false
is_true undefined = false

module _ {B : Type 0} (bdb : BindingDb B) (laws : IsBindingDb bdb)
    (is_hit : Row → Outcome Bool) where
  abbrev pub ended_at : B → Outcome (Unit {0} × B) → B
  ended_at b (returned (u, b')) = b'
  ended_at b raised = b
  ended_at b undefined = b

  abbrev has_returned : Outcome (Unit {0} × B) → Bool
  has_returned (returned x) = true
  has_returned raised = false
  has_returned undefined = false

  -- What the loop over `rows` leaves of the database `b`.
  abbrev pub Deleted : List Row → B → B → Type 0
  Deleted rows b b' =
      (r : Row)
      → holds bdb b' r ≡ (if has_row r rows && is_true (is_hit r) then false else holds bdb b r)

  pub passed_by :
      (row : Row) (rows : List Row) (b b' : B)
      → is_hit row ≡ returned false
      → Deleted rows b b'
      → Deleted (row ∷ rows) b b'
  passed_by row rows b b' e d r = elim (Bool-cases (eq_row r row)) [
    | inl q ↦
        let h : is_hit r ≡ returned false =
          subst (λ x. is_hit x ≡ returned false) (sym (eq_row-eq r row q)) e in
        d r ∙ rw (h, q) (no_hit (has_row r rows))
    | inr q ↦ rw q (d r)
  ]
    where
      no_hit : (x : Bool) → (if x && false then false else holds bdb b r) ≡ holds bdb b r
      no_hit true = refl
      no_hit false = refl

  pub struck :
      (row : Row) (rows : List Row) (b c b' : B)
      → is_hit row ≡ returned true
      → bdb.del_row row b ≡ some c
      → Deleted rows c b'
      → Deleted (row ∷ rows) b b'
  struck row rows b c b' e p d r = elim (Bool-cases (eq_row r row)) [
    | inl q ↦
        let h : is_hit r ≡ returned true =
          subst (λ x. is_hit x ≡ returned true) (sym (eq_row-eq r row q)) e in
        d r ∙ rw (laws.del_row_done row b c p r, h, q) (both (has_row r rows))
    | inr q ↦ rw q (d r ∙ rw (laws.del_row_done row b c p r, q) refl)
  ]
    where
      both : (x : Bool) → (if x && true then false else false) ≡ false
      both true = refl
      both false = refl

  module _ (row : Row) (rows : List Row) (b : B)
      (later : (c b' : B)
        → delete_rows bdb is_hit rows c ≡ returned (tt, b')
        → Deleted rows c b') where
    Deleted-one :
        (b' : B) (a : Option B)
        → is_hit row ≡ returned true
        → bdb.del_row row b ≡ a
        → (or_raise a >>= delete_rows bdb is_hit rows) ≡ returned (tt, b')
        → Deleted (row ∷ rows) b b'
    Deleted-one b' none e p h = absurd (let x : false ≡ true = ap has_returned h in cc)
    Deleted-one b' (some c) e p h = struck row rows b c b' e p (later c b' h)

    Deleted-next :
        (b' : B) (o : Outcome Bool)
        → is_hit row ≡ o
        → (o >>= delete_hit bdb row (delete_rows bdb is_hit rows) b) ≡ returned (tt, b')
        → Deleted (row ∷ rows) b b'
    Deleted-next b' (returned false) e h = passed_by row rows b b' e (later b b' h)
    Deleted-next b' (returned true) e h = Deleted-one b' (bdb.del_row row b) e refl h
    Deleted-next b' raised e h = absurd (let x : false ≡ true = ap has_returned h in cc)
    Deleted-next b' undefined e h = absurd (let x : false ≡ true = ap has_returned h in cc)

  pub delete_rows-Deleted :
      (rows : List Row) (b b' : B)
      → delete_rows bdb is_hit rows b ≡ returned (tt, b')
      → Deleted rows b b'
  unfolding delete_rows
  delete_rows-Deleted [] b b' h = λ r. ap (λ o. holds bdb (ended_at b o) r) (sym h)
  delete_rows-Deleted (row ∷ rows) b b' h =
      Deleted-next row rows b (delete_rows-Deleted rows) b' (is_hit row) refl h

  pub delete_rows-Defined :
      ((r : Row) → Defined (is_hit r))
      → (rows : List Row) (b : B) → Defined (delete_rows bdb is_hit rows b)
  unfolding delete_rows
  delete_rows-Defined never [] b = tt
  delete_rows-Defined never (row ∷ rows) b =
      Defined-bind (is_hit row) (delete_hit bdb row (delete_rows bdb is_hit rows) b) (never row)
        (hit (delete_rows-Defined never rows))
    where
      hit :
          ((c : B) → Defined (delete_rows bdb is_hit rows c))
          → (x : Bool) → Defined (delete_hit bdb row (delete_rows bdb is_hit rows) b x)
      hit later false = later b
      hit later true =
          Defined-bind (or_raise (bdb.del_row row b)) (delete_rows bdb is_hit rows)
            (or_raise-Defined (bdb.del_row row b)) later

  -- What deleting from all rows of `held` leaves: when it returns, the rows are those that were there
  -- and are not hit; when it throws, the database is as it was. Undefined is only a transaction where
  -- commit or abort throws.
  abbrev pub Left : Answers → (Row → Bool) → B → Outcome (Unit {0}) × B → Type 0
  Left w hit b (returned u, b') = (r : Row) → holds bdb b' r ≡ (holds bdb b r && not (hit r))
  Left w hit b (raised, b') = b' ≡ b
  Left w hit b (undefined, b') = (w.commits ≡ false) ⊎ (w.aborts ≡ false)

  module _ (w : Answers) (hit : Row → Bool) (rows : List Row) (b : B) where
    pub Atomic-Left :
        (o : Outcome (Unit {0})) (c : TxnCtxt B)
        → Defined (delete_rows bdb is_hit rows b)
        → ((r : Row)
            → (b' : B) → Deleted rows b b'
            → holds bdb b' r ≡ (holds bdb b r && not (hit r)))
        → Atomic w (delete_rows bdb is_hit rows b) b o c
        → Left w hit b (o, c.db)
    Atomic-Left (returned u) c defined meant (e, free) =
        λ r. meant r c.db (delete_rows-Deleted rows b c.db e)
    Atomic-Left raised c defined meant (e, free) = e
    Atomic-Left undefined c defined meant (inl e) = absurd (subst Defined e defined)
    Atomic-Left undefined c defined meant (inr h) = h
