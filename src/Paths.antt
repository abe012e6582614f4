-- ===== src/Paths.antt =====
-- The paths of the message databases: `bHash` and `getJrnlHashDir` of lib/BdbStoreProvider.cpp, and
-- `getSubDbPath` of lib/JournalImpl.cpp. A string is a list of bytes, and a character is signed.
pub mod Apart
mod Tests
use bdbmsgstore.Prelude.{
  ℕ, zero, suc, ◌+◌, ◌-◌, ◌*◌, ◌/◌, ◌%◌, ◌^◌, List, [], ◌∷◌, ◌++◌, ltb, if◌then◌else◌, length,
}
use bdbmsgstore.Registry.Queues.{c_str}

-- A char converted to u_int32_t.
abbrev pub widened : ℕ → ℕ
widened c = if ltb c 128 then c else c + 2 ^ 32 - 256

-- h = 33*h + *i
unfoldable pub hash_from : ℕ → List ℕ → ℕ
hash_from h [] = h
hash_from h (c ∷ str) = hash_from ((33 * h + widened c) % 2 ^ 32) str

unfoldable pub b_hash : List ℕ → ℕ
b_hash str = hash_from 0 str

abbrev pub hex_digit : ℕ → ℕ
hex_digit d = if ltb d 10 then 48 + d else 87 + d

-- std::hex, setfill('0') and setw(4), of a number below 2 ^ 16
abbrev pub hex4 : ℕ → List ℕ
hex4 n =
    hex_digit (n / 4096 % 16)
    ∷ (hex_digit (n / 256 % 16) ∷ (hex_digit (n / 16 % 16) ∷ (hex_digit (n % 16) ∷ [])))

-- "jrnl/"
abbrev pub jrnl_base_dir : List ℕ
jrnl_base_dir = 106 ∷ (114 ∷ (110 ∷ (108 ∷ (47 ∷ []))))

unfoldable pub get_jrnl_hash_dir : List ℕ → List ℕ
get_jrnl_hash_dir queue_name =
    jrnl_base_dir ++ (hex4 (b_hash (c_str queue_name) % 29) ++ (47 ∷ (queue_name ++ (47 ∷ []))))

-- The digits of `n`, the last one first, with as many turns as `n` needs.
abbrev pub digits : ℕ → ℕ → List ℕ
digits zero n = []
digits (suc fuel) n =
    let rest = digits fuel (n / 10) in (48 + n % 10) ∷ (if ltb n 10 then [] else rest)

abbrev pub reversed : List ℕ → List ℕ → List ℕ
reversed [] ys = ys
reversed (x ∷ xs) ys = reversed xs (x ∷ ys)

abbrev pub zeros : ℕ → List ℕ
zeros zero = []
zeros (suc n) = 48 ∷ zeros n

-- setfill('0') and setw(3)
abbrev pub pad3 : ℕ → List ℕ
pad3 n = let ds = digits (suc n) n in zeros (3 - length ds) ++ reversed ds []

-- <name>_s<sid>.db
unfoldable pub get_sub_db_name : List ℕ → ℕ → List ℕ
get_sub_db_name journal_name sid =
    journal_name ++ (95 ∷ (115 ∷ (pad3 sid ++ (46 ∷ (100 ∷ (98 ∷ []))))))

unfoldable pub get_sub_db_path : List ℕ → List ℕ → ℕ → List ℕ
get_sub_db_path journal_directory journal_name sid =
    journal_directory ++ get_sub_db_name journal_name sid

-- The path that the journal passes to open or remove a database, as a C string, when the queue is
-- created in this run of the broker, and when the queue is recovered.
unfoldable pub created_path : List ℕ → ℕ → List ℕ
created_path name sid = c_str (get_sub_db_path (get_jrnl_hash_dir (c_str name)) name sid)

unfoldable pub recovered_path : List ℕ → ℕ → List ℕ
recovered_path name sid = c_str (get_sub_db_path (get_jrnl_hash_dir (c_str name)) (c_str name) sid)
