-- ===== src/Journal/Key.antt =====
-- `bt_compare_func` of lib/JournalImpl.cpp: the order that the journal's databases are given for their
-- keys, 64-bit message ids.
use bdbmsgstore.Prelude.{ℕ, ◌+◌, ◌%◌, ◌^◌, ◌<◌, ◌≡◌, Bool, true, false, arith, ltb, ◌==◌}
use bdbmsgstore.Prelude.Int.{ℤ, pos, negsuc, ltb_ℤ}
use bdbmsgstore.Bytes.{u64_mod}
use bdbmsgstore.Word.{sub_u64, to_int}

-- static_cast<int>(first_key - second_key), for keys that are read into 64 bits
unfoldable pub bt_compare : ℕ → ℕ → ℤ
bt_compare first second = to_int (sub_u64 (first % u64_mod) (second % u64_mod))

-- The comparison says that the keys are the same.
abbrev pub is_zero : ℤ → Bool
is_zero (pos n) = n == 0
is_zero (negsuc n) = false

abbrev pub same_key : ℕ → ℕ → Bool
same_key first second = is_zero (bt_compare first second)

pub same_key-low : (a b : ℕ) → same_key a b ≡ (a % 2 ^ 32 == b % 2 ^ 32)
unfolding bt_compare
same_key-low a b = ground arith

-- Of two 64-bit ids that differ by less than 2 ^ 31, the comparison is negative, zero or positive as
-- the first id is smaller than, equal to or larger than the second.
pub bt_compare-orders :
    (a b : ℕ)
    → a < u64_mod
    → b < u64_mod
    → a < b + 2 ^ 31
    → b < a + 2 ^ 31
    → (ltb_ℤ (bt_compare a b) (pos 0) ≡ ltb a b)
      × (same_key a b ≡ (a == b))
      × (ltb_ℤ (pos 0) (bt_compare a b) ≡ ltb b a)
unfolding bt_compare
bt_compare-orders a b ha hb near near' = (ground arith, ground arith, ground arith)

-- Of two 64-bit ids of which the second is larger, by more than 2 ^ 31 and less than 2 ^ 32, the
-- comparison says that the first one is larger.
pub bt_compare-turned :
    (a b : ℕ)
    → a < u64_mod
    → b < u64_mod
    → a + 2 ^ 31 < b
    → b < a + 2 ^ 32
    → ltb_ℤ (pos 0) (bt_compare a b) ≡ true
unfolding bt_compare
bt_compare-turned a b ha hb far near = ground arith
