-- ===== src/IdSequence.antt =====
-- lib/IdSequence.{h,cpp}: the source of persistence ids. Its mutex makes `next` one step; `reset` is
-- called during recovery only.
pub mod Fresh
mod Tests
use bdbmsgstore.Prelude.{ℕ, zero, suc, ◌+◌, List, [], ◌∷◌, ◌==◌, if◌then◌else◌}
use bdbmsgstore.Word.{suc_u64}

pub record IdSequence : Type 0 where
  pub id : ℕ

abbrev pub init : IdSequence
init = record { id = 1 }

-- if (!id) id++; return id++;
unfoldable pub next : IdSequence → ℕ × IdSequence
next s = let i = if s.id == 0 then suc_u64 s.id else s.id in (i, record { id = suc_u64 i })

unfoldable pub reset : ℕ → IdSequence → IdSequence
reset value s = record s { id = value }

-- The ids that `n` calls in a row return.
unfoldable pub next_ids : ℕ → IdSequence → List ℕ
unfolding next
next_ids zero s = []
next_ids (suc n) s = let (i, s') = next s in i ∷ next_ids n s'
