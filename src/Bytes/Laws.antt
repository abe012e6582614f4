-- ===== src/Bytes/Laws.antt =====
-- Reading a `uint64_t` back from its bytes.
use native.Mathlib.Nat.{pow-suc}
use bdbmsgstore.Prelude.{
  ℕ, zero, suc, ◌*◌, ◌/◌, ◌^◌, ◌<◌, ◌≡◌, refl, List, ◌++◌, arith, drop, length,
}
use bdbmsgstore.Bytes.{u64_mod, bytes_le, from_le, put_u64, get_u64}

div_step : (x p : ℕ) → x < p * 256 → x / 256 < p
div_step x p h = omega arith

from_le-bytes_le : (n x : ℕ) → x < 256 ^ n → from_le (bytes_le n x) ≡ x
unfolding bytes_le from_le
from_le-bytes_le zero x h = omega arith
from_le-bytes_le (suc n) x h =
    let small : x / 256 < 256 ^ n = div_step x (256 ^ n) (rw pow-suc at h) in
    omega (arith, from_le-bytes_le n (x / 256) small)

pub length-put_u64 : (x : ℕ) → length (put_u64 x) ≡ 8
unfolding put_u64
length-put_u64 x = refl

pub drop-put_u64 : (x : ℕ) (rest : List ℕ) → drop 8 (put_u64 x ++ rest) ≡ rest
unfolding put_u64
drop-put_u64 x rest = refl

-- A `uint64_t` is read back as it was written, whatever follows it.
pub get_u64-put_u64 : (x : ℕ) (rest : List ℕ) → x < u64_mod → get_u64 (put_u64 x ++ rest) ≡ x
unfolding put_u64 get_u64
get_u64-put_u64 x rest h = from_le-bytes_le 8 x h
