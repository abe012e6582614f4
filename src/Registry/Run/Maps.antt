-- ===== src/Registry/Run/Maps.antt =====
-- The configuration items and the exchanges of a run (lib/BdbStoreProvider.cpp), beside two maps.
use bdbmsgstore.Prelude.{ℕ, suc, Option, List, [], ◌∷◌, if◌then◌else◌, length}
use bdbmsgstore.OrdMap.{OrdMap}
use bdbmsgstore.Journal.{Outcome}
use bdbmsgstore.Registry.{ObjectDb, Table}
use bdbmsgstore.Registry.Tables.{IsObjectDb, contents, IsAhead}
use bdbmsgstore.Registry.Run.{Objects, Command, Result, goes_on, run, Keeps}

module _ {D A B : Type 0} (odb : ObjectDb D) (read_config : List ℕ → Outcome A)
    (read_exchange : List ℕ → Outcome (Option B)) where
  abbrev Kept : List (Command × Result A B) → (ℕ → Option (List ℕ)) → (ℕ → Option (List ℕ)) → Type 0
  Kept rs g e = Keeps read_config read_exchange rs g e

  abbrev Ahead : ℕ → Objects D → Type 0
  Ahead n s = IsAhead odb n s.general × IsAhead odb n s.exchanges

  -- What is to be shown of the commands after a step to the state `s`.
  abbrev Later : List Command → Objects D → Type 0
  Later cs s =
      Ahead (length cs) s
      → Kept (run odb read_config read_exchange cs s) (contents odb s.general)
          (contents odb s.exchanges)

  abbrev at : Table D → Table D → Objects D
  at g e = record { general = g; exchanges = e }

  module _ (laws : IsObjectDb odb) (cs : List Command) (s : Objects D)
      (ahead : Ahead (suc (length cs)) s) where
    abbrev g : ℕ → Option (List ℕ)
    g = contents odb s.general

    abbrev e : ℕ → Option (List ℕ)
    e = contents odb s.exchanges

    abbrev onward : Command → Result A B → Objects D → List (Command × Result A B)
    onward c r s' = (c, r) ∷ (if goes_on r then run odb read_config read_exchange cs s' else [])
