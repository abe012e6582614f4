-- ===== src/Word.antt =====
-- Arithmetic on `uint64_t`, and the conversion of a `uint64_t` to `int`.
use bdbmsgstore.Prelude.{ℕ, ◌+◌, ◌-◌, ◌%◌, ◌^◌, ltb, if◌then◌else◌}
use bdbmsgstore.Prelude.Int.{ℤ, pos, negsuc}
use bdbmsgstore.Bytes.{u64_mod}

-- a - b
abbrev pub sub_u64 : ℕ → ℕ → ℕ
sub_u64 a b = (a + u64_mod - b) % u64_mod

-- a + 1
abbrev pub suc_u64 : ℕ → ℕ
suc_u64 a = (a + 1) % u64_mod

-- The `int` with the bit pattern `w`, below 2 ^ 32.
abbrev pub signed32 : ℕ → ℤ
signed32 w = if ltb w (2 ^ 31) then pos w else negsuc (2 ^ 32 - 1 - w)

-- static_cast<int>(x) keeps the low 32 bits.
abbrev pub to_int : ℕ → ℤ
to_int x = signed32 (x % 2 ^ 32)
