-- ===== src/AsyncLog/Extract/Words.antt =====
-- The words behind an opcode, read from a buffer that goes on.
use bdbmsgstore.Prelude.{
  ℕ, ◌+◌, ◌-◌, ◌≤◌, ◌<◌, ◌≡◌, refl, true, false, List, [], ◌∷◌, ◌++◌, append_assoc, arith, ltb,
  le→ltb, lt→ltb, take, drop, length, length-append, length-take-le, take-append_ge, get_elem?,
  get_or,
}
use bdbmsgstore.Bytes.{u64_mod, put_u64, get_u64}
use bdbmsgstore.Bytes.Laws.{length-put_u64, drop-put_u64, get_u64-put_u64}

-- The two words behind an opcode, read from a buffer that goes on with `rest`.
module _ (pid qid : ℕ) (rest : List ℕ) where
  abbrev pub words : List ℕ
  words = (put_u64 pid ++ put_u64 qid) ++ rest

  pub length-words : length words ≡ 16 + length rest
  length-words = omega (
    arith,
    length-append {0} (put_u64 pid ++ put_u64 qid) rest,
    length-append {0} (put_u64 pid) (put_u64 qid),
    length-put_u64 pid,
    length-put_u64 qid,
  )

  pub enough-words : ltb (length words) 16 ≡ false
  enough-words = le→ltb (length words) 16 (omega (arith, length-words))

  pub drop-words : drop 16 words ≡ rest
  unfolding put_u64
  drop-words = refl

  pub get-words : pid < u64_mod → get_u64 words ≡ pid
  get-words h = rw append_assoc (get_u64-put_u64 pid (put_u64 qid ++ rest) h)

  pub get-words-drop : qid < u64_mod → get_u64 (drop 8 words) ≡ qid
  get-words-drop h =
      rw (append_assoc (put_u64 pid) (put_u64 qid) rest, drop-put_u64 pid (put_u64 qid ++ rest))
        (get_u64-put_u64 qid rest h)

-- Fewer than 16 bytes behind the opcode end the loop.
pub cut_words : (n : ℕ) (bytes : List ℕ) → n < 16 → ltb (length (take n bytes)) 16 ≡ true
cut_words n bytes h = lt→ltb _ 16 (omega (arith, length-take-le n bytes))

-- The preamble of an enqueue start behind its opcode, in a buffer that goes on with `rest`.
module _ (pid qid size flag : ℕ) (rest : List ℕ) where
  abbrev pub preamble : List ℕ
  preamble = put_u64 pid ++ (put_u64 qid ++ (put_u64 size ++ (flag ∷ rest)))

  pub length-preamble : length preamble ≡ 25 + length rest
  length-preamble = omega (
    arith,
    length-append {0} (put_u64 pid) (put_u64 qid ++ (put_u64 size ++ (flag ∷ rest))),
    length-append {0} (put_u64 qid) (put_u64 size ++ (flag ∷ rest)),
    length-append {0} (put_u64 size) (flag ∷ rest),
    length-put_u64 pid,
    length-put_u64 qid,
    length-put_u64 size,
  )

  pub enough-preamble : ltb (length preamble) 25 ≡ false
  enough-preamble = le→ltb (length preamble) 25 (omega (arith, length-preamble))

  pub drop-preamble : drop 25 preamble ≡ rest
  unfolding put_u64
  drop-preamble = refl

  pub flag-preamble : get_or (get_elem? preamble 24) 0 ≡ flag
  unfolding put_u64
  flag-preamble = refl

  pub get-preamble : pid < u64_mod → get_u64 preamble ≡ pid
  get-preamble h = get_u64-put_u64 pid _ h

  pub get-preamble-qid : qid < u64_mod → get_u64 (drop 8 preamble) ≡ qid
  get-preamble-qid h = rw (drop-put_u64 pid) (get_u64-put_u64 qid _ h)

  drop_16 : drop 16 preamble ≡ put_u64 size ++ (flag ∷ rest)
  unfolding put_u64
  drop_16 = refl

  pub get-preamble-size : size < u64_mod → get_u64 (drop 16 preamble) ≡ size
  get-preamble-size h = rw drop_16 (get_u64-put_u64 size _ h)

-- A cut behind the preamble cuts what follows it.
pub preamble-take :
    (pid qid size flag : ℕ) (rest : List ℕ) (n : ℕ)
    → 25 ≤ n
    → take n (preamble pid qid size flag rest) ≡ preamble pid qid size flag (take (n - 25) rest)
unfolding put_u64
preamble-take pid qid size flag rest n h = take-append_ge n (preamble pid qid size flag []) rest h
