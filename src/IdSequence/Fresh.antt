-- ===== src/IdSequence/Fresh.antt =====
-- The ids that a sequence returns.
use bdbmsgstore.Prelude.{ℕ, zero, suc, ◌+◌, ◌≤◌, ◌<◌, ◌≡◌, ◌≢◌, List, [], ◌∷◌, arith, ne→==}
use native.Mathlib.Nat.{le_refl}
use bdbmsgstore.Word.{suc_u64}
use bdbmsgstore.Bytes.{u64_mod}
use bdbmsgstore.IdSequence.{IdSequence, next, next_ids}

-- Whatever the sequence holds, the id returned is a 64-bit word and is not 0, also when the counter
-- wraps around.
pub next-ne_zero :
    (s : IdSequence)
    → s.id < u64_mod
    → ((next s).0 ≢ 0) × ((next s).0 < u64_mod) × ((next s).1.id < u64_mod)
unfolding next
next-ne_zero s h = ground arith

-- Each id is larger than the one before, starting above `lo`.
abbrev pub Rises : ℕ → List ℕ → Type 0
Rises lo [] = Unit {0}
Rises lo (i ∷ ids) = (lo ≤ i) × Rises (suc i) ids

-- As long as the counter does not wrap, the ids of calls in a row rise from the counter on, so no two
-- are the same: `n` calls from a counter that is not 0 and, with `n` added, below 2 ^ 64.
pub next_ids-Rises :
    (n : ℕ) (s : IdSequence) → s.id ≢ 0 → s.id + n < u64_mod → Rises s.id (next_ids n s)
unfolding next_ids
next_ids-Rises zero s nz h = tt
next_ids-Rises (suc n) s nz h =
    let up : suc_u64 s.id ≡ suc s.id = omega arith in
    rw (ne→== s.id 0 nz, up)
      (le_refl s.id, next_ids-Rises n (record { id = suc s.id }) (λ e. omega arith) (omega arith))
