-- ===== src/Registry/Destroyed.antt =====
-- Destroying an object (lib/BdbStoreProvider.cpp), by the table read as a map.
use bdbmsgstore.Prelude.{ℕ, suc, ◌≡◌, refl, Option, none, some, List, is_some, arith, ap, sym, ◌∙◌}
use bdbmsgstore.Journal.{Outcome, returned, raised, undefined}
use bdbmsgstore.Journal.Berkeley.{Status}
use bdbmsgstore.Registry.{ObjectDb, Table, answer_destroy, destroy}
use bdbmsgstore.Registry.Tables.{IsObjectDb, contents, IsAhead}
use bdbmsgstore.Registry.Created.{set_at, set_none, less-IsAhead}

module _ {D : Type 0} (odb : ObjectDb D) where
  module _ (laws : IsObjectDb odb) where
    -- What destroying does.
    abbrev pub Gone : ℕ → ℕ → (ℕ → Option (List ℕ)) → Outcome (Unit {0}) → Table D → Type 0
    Gone n id m (returned u) t = ((j : ℕ) → contents odb t j ≡ set_at id none m j) × IsAhead odb n t
    Gone n id m raised t = ((j : ℕ) → contents odb t j ≡ m j) × IsAhead odb n t
    Gone n id m undefined t = ⊥

    destroyed_as :
        (n id : ℕ) (t : Table D) (a : Option (Status × D))
        → IsAhead odb (suc n) t
        → odb.del_object id t.db ≡ a
        → let (o, t') = answer_destroy odb t a in Gone n id (contents odb t) o t'
    destroyed_as n id t none ahead e = (λ j. refl, less-IsAhead odb n t ahead)
    destroyed_as n id t (some (s, d)) ahead e =
        let same = laws.del_done id t.db d s e in
        (
          same,
          record {
            positive = ahead.positive;
            room = omega (arith, ahead.room);
            above = λ k h.
                ahead.above k (set_none id k (contents odb t) (ap is_some (sym (same k)) ∙ h));
          },
        )

    pub destroy-Gone :
        (n id : ℕ) (t : Table D)
        → IsAhead odb (suc n) t
        → let (o, t') = destroy odb id t in Gone n id (contents odb t) o t'
    unfolding destroy
    destroy-Gone n id t ahead = destroyed_as n id t (odb.del_object id t.db) ahead refl
