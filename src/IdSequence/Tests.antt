-- ===== src/IdSequence/Tests.antt =====
-- Concrete runs of lib/IdSequence.cpp.
use bdbmsgstore.Prelude.{◌-◌, ◌≡◌, refl, [], ◌∷◌, arith}
use bdbmsgstore.Bytes.{u64_mod}
use bdbmsgstore.IdSequence.{IdSequence, init, reset, next_ids}
use bdbmsgstore.IdSequence.Fresh.{Rises, next_ids-Rises}

-- The counter stands at the largest word, and wraps.
abbrev at_end : IdSequence
at_end = reset (u64_mod - 1) init

at_end_run : next_ids 2 at_end ≡ (u64_mod - 1) ∷ 1 ∷ []
unfolding next_ids reset
at_end_run = refl

next_ids-Rises_example : Rises 1 (next_ids 3 init)
next_ids-Rises_example = next_ids-Rises 3 init (λ e. omega arith) (omega arith)
