-- ===== src/Bytes.antt =====
-- `memcpy` of a `uint64_t` to and from a byte buffer, on a little-endian host, as the log records of
-- lib/AsyncOperationLogger.cpp and the keys of lib/JournalImpl.cpp use it. A byte is a number below
-- 256.
pub mod Laws
use bdbmsgstore.Prelude.{ℕ, zero, suc, ◌+◌, ◌*◌, ◌/◌, ◌%◌, ◌^◌, List, [], ◌∷◌, take}

-- The values of a `uint64_t`.
abbrev pub u64_mod : ℕ
u64_mod = 2 ^ 64

-- The `n` low bytes of a number, the lowest first.
unfoldable pub bytes_le : ℕ → ℕ → List ℕ
bytes_le zero x = []
bytes_le (suc n) x = (x % 256) ∷ bytes_le n (x / 256)

unfoldable pub from_le : List ℕ → ℕ
from_le [] = 0
from_le (b ∷ bs) = b + 256 * from_le bs

-- memcpy(&buff[i], &x, sizeof(uint64_t))
unfoldable pub put_u64 : ℕ → List ℕ
unfolding bytes_le
put_u64 x = bytes_le 8 x

-- memcpy(&x, &buff[i], sizeof(uint64_t))
unfoldable pub get_u64 : List ℕ → ℕ
unfolding from_le
get_u64 bs = from_le (take 8 bs)
