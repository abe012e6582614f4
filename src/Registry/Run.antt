-- ===== src/Registry/Run.antt =====
-- Calls in a row on the configuration items and the exchanges (lib/BdbStoreProvider.cpp), the broker
-- being started again in between.
pub mod Maps
use bdbmsgstore.Prelude.{
  ℕ, ◌≡◌, ◌≤◌, ◌⊎◌, Bool, true, false, Option, none, some, List, [], ◌∷◌, if◌then◌else◌,
}
use bdbmsgstore.OrdMap.{OrdMap, find}
use bdbmsgstore.Journal.{Outcome, returned, raised, undefined}
use bdbmsgstore.TxnCtxt.{Answers}
use bdbmsgstore.Registry.{
  ObjectDb, Table, create_config, create_exchange, destroy, recover_configs, recover_exchanges,
  restarted,
}
use bdbmsgstore.Registry.Tables.{entry}
use bdbmsgstore.Registry.Created.{set_at}
use bdbmsgstore.Registry.Loop.{Unreadable, decode_config, object_of}

pub record Objects (D : Type 0) : Type 0 where
  pub general : Table D
  pub exchanges : Table D

-- The objects that are created have no persistence id yet, and an encoding.
pub data Command : Type 0 where
  new_config : Answers → List ℕ → Command
  new_exchange : Answers → List ℕ → Command
  drop_config : ℕ → Command
  drop_exchange : ℕ → Command
  restart : Command

pub data Result (A B : Type 0) : Type 0 where
  created : Outcome ℕ → Result A B
  destroyed : Outcome (Unit {0}) → Result A B
  recovered : Outcome (List (ℕ × A) × OrdMap B) → Result A B

-- After a start that fails, and after undefined behaviour, there are no more calls.
abbrev pub goes_on : {A B : Type 0} → Result A B → Bool
goes_on (created (returned id)) = true
goes_on (created raised) = true
goes_on (created undefined) = false
goes_on (destroyed (returned u)) = true
goes_on (destroyed raised) = true
goes_on (destroyed undefined) = false
goes_on (recovered (returned x)) = true
goes_on (recovered raised) = false
goes_on (recovered undefined) = false

module _ {D A B : Type 0} (odb : ObjectDb D) (read_config : List ℕ → Outcome A)
    (read_exchange : List ℕ → Outcome (Option B)) where
  abbrev pub with_exchanges :
      List (ℕ × A) → Table D → Outcome (OrdMap B) × Table D → Result A B × Objects D
  with_exchanges configs g (returned m, e) =
      (recovered (returned (configs, m)), record { general = g; exchanges = e })
  with_exchanges configs g (raised, e) = (recovered raised, record { general = g; exchanges = e })
  with_exchanges configs g (undefined, e) =
      (recovered undefined, record { general = g; exchanges = e })

  abbrev pub with_configs : Objects D → Outcome (List (ℕ × A)) × Table D → Result A B × Objects D
  with_configs s (returned configs, g) =
      with_exchanges configs g (recover_exchanges odb read_exchange (restarted s.exchanges))
  with_configs s (raised, g) = (recovered raised, record s { general = g })
  with_configs s (undefined, g) = (recovered undefined, record s { general = g })

  -- A start recovers the configuration items, and then the exchanges.
  abbrev pub step : Command → Objects D → Result A B × Objects D
  step (new_config w value) s =
      let (o, t) = create_config odb w 0 value s.general in (created o, record s { general = t })
  step (new_exchange w value) s =
      let (o, t) = create_exchange odb w 0 value s.exchanges in
      (created o, record s { exchanges = t })
  step (drop_config id) s =
      let (o, t) = destroy odb id s.general in (destroyed o, record s { general = t })
  step (drop_exchange id) s =
      let (o, t) = destroy odb id s.exchanges in (destroyed o, record s { exchanges = t })
  step restart s = with_configs s (recover_configs odb read_config (restarted s.general))

  unfoldable pub run : List Command → Objects D → List (Command × Result A B)
  run [] s = []
  run (c ∷ cs) s =
      let (r, s') = step c s in let rest = run cs s' in (c, r) ∷ (if goes_on r then rest else [])

-- The results are those of two maps from ids to encodings: an object that is created gets an id that
-- has none, other than 0; what is destroyed has none; a call that throws changes nothing; a start
-- recovers what the broker makes of the encodings, with the ids, and fails only where the broker fails
-- on one. Undefined is only the creation of an object where commit or abort throws.
abbrev pub Keeps :
    {A B : Type 0} (read_config : List ℕ → Outcome A) (read_exchange : List ℕ → Outcome (Option B))
    → List (Command × Result A B)
    → (ℕ → Option (List ℕ))
    → (ℕ → Option (List ℕ))
    → Type 0
Keeps rc re [] g e = Unit {0}
Keeps rc re ((new_config w v, created (returned id)) ∷ rs) g e =
    ((g id ≡ none) × (1 ≤ id)) × Keeps rc re rs (set_at id (some v) g) e
Keeps rc re ((new_config w v, created raised) ∷ rs) g e = Keeps rc re rs g e
Keeps rc re ((new_config w v, created undefined) ∷ rs) g e =
    (w.commits ≡ false) ⊎ (w.aborts ≡ false)
Keeps rc re ((new_exchange w v, created (returned id)) ∷ rs) g e =
    ((e id ≡ none) × (1 ≤ id)) × Keeps rc re rs g (set_at id (some v) e)
Keeps rc re ((new_exchange w v, created raised) ∷ rs) g e = Keeps rc re rs g e
Keeps rc re ((new_exchange w v, created undefined) ∷ rs) g e =
    (w.commits ≡ false) ⊎ (w.aborts ≡ false)
Keeps rc re ((drop_config id, destroyed (returned u)) ∷ rs) g e =
    Keeps rc re rs (set_at id none g) e
Keeps rc re ((drop_config id, destroyed raised) ∷ rs) g e = Keeps rc re rs g e
Keeps rc re ((drop_exchange id, destroyed (returned u)) ∷ rs) g e =
    Keeps rc re rs g (set_at id none e)
Keeps rc re ((drop_exchange id, destroyed raised) ∷ rs) g e = Keeps rc re rs g e
Keeps rc re ((restart, recovered (returned (configs, m))) ∷ rs) g e =
    ((k : ℕ) → entry k configs ≡ object_of (decode_config rc) (g k))
    × (((k : ℕ) → find k m ≡ object_of re (e k)) × Keeps rc re rs g e)
Keeps rc re ((restart, recovered raised) ∷ rs) g e =
    Unreadable (decode_config rc) g raised ⊎ Unreadable re e raised
Keeps rc re ((restart, recovered undefined) ∷ rs) g e =
    Unreadable (decode_config rc) g undefined ⊎ Unreadable re e undefined
Keeps rc re ((c, r) ∷ rs) g e = ⊥
