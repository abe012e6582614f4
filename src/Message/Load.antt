-- ===== src/Message/Load.antt =====
-- Loading the content of a message that was encoded (`loadMsgContent` of lib/JournalImpl.cpp).
use bdbmsgstore.Prelude.{
  ℕ, suc, ◌+◌, ◌-◌, ◌%◌, ◌^◌, ◌≤◌, ◌<◌, ◌≡◌, refl, inl, inr, Bool, true, false, Option, none, some,
  List, [], ◌∷◌, ◌++◌, arith, ltb, if◌then◌else◌, length, take, drop, length-append, ap, ◌∙◌, sym,
  Bool-cases, le→ltb, lt→ltb, ltb→lt, ltb→le, is_some,
}
use bdbmsgstore.Message.Cuts.{drop_past, drop-drop, take_more, length-drop}
use bdbmsgstore.Bytes.{u64_mod}
use bdbmsgstore.Word.{sub_u64}
use bdbmsgstore.Journal.{returned, raised}
use bdbmsgstore.Message.{
  PersistableMessage, Buffer, IsBuffer, msg_encode, append_bytes, load_value, load_msg_content,
}

value_of : Option (ℕ × List ℕ) → List ℕ
value_of none = []
value_of (some (size, value)) = value

held :
    (had : Bool) (n size : ℕ) (x value : List ℕ)
    → if◌then◌else◌ {A = Option (ℕ × List ℕ)} had (some (n, x)) none ≡ some (size, value)
    → value ≡ x
unfolding value_of
held true n size x value h = sym (ap value_of h)
held false n size x value h = absurd (let r : false ≡ true = ap is_some h in cc)

module _ (b : Buffer) (laws : IsBuffer b) (m : PersistableMessage) where
  abbrev flag : ℕ
  flag = if m.is_persistent then 0 else 1

  -- The bytes behind the transient flag, with the header's size in front.
  abbrev pub encoding : List ℕ
  encoding = flag ∷ (b.put_long m.encoded_header_size ++ m.encoded)

  abbrev pub content : List ℕ
  content = drop m.encoded_header_size m.encoded

  length-encoding : length encoding ≡ 5 + length m.encoded
  length-encoding = omega (
    arith,
    length-append (b.put_long m.encoded_header_size) m.encoded,
    laws.four m.encoded_header_size,
  )

  -- The bytes from an offset into the content on.
  drop-encoding :
      (offset : ℕ) → drop (m.encoded_header_size + 5 + offset) encoding ≡ drop offset content
  drop-encoding offset =
      let from : m.encoded_header_size + 5 + offset ≡ suc (4 + (m.encoded_header_size + offset)) =
        omega arith in
      rw from (
        drop_past (4 + (m.encoded_header_size + offset)) (m.encoded_header_size + offset)
          (b.put_long m.encoded_header_size) m.encoded
          (omega (arith, laws.four m.encoded_header_size))
        ∙ drop-drop (m.encoded_header_size + offset) m.encoded_header_size offset m.encoded refl)

  append-in :
      (max_size : ℕ) (value loaded : List ℕ) (from n : ℕ)
      → length loaded + n ≤ max_size
      → from + n ≤ length value
      → append_bytes b max_size value loaded from n
        ≡ returned (true, loaded ++ take n (drop from value))
  unfolding append_bytes
  append-in max_size value loaded from n h k =
      rw (le→ltb max_size (length loaded + n) h, le→ltb (length value) (from + n) k) refl

  load_value-encoding :
      (max_size : ℕ) (loaded : List ℕ) (len offset : ℕ)
      → m.encoded_header_size ≤ length m.encoded
      → 5 + length m.encoded < 2 ^ 32
      → offset ≤ length content
      → m.encoded_header_size + 5 + offset + len < u64_mod
      → length loaded + length m.encoded ≤ max_size
      → load_value b max_size encoding loaded len offset
        ≡ returned (true, loaded ++ take len (drop offset content))
  unfolding load_value append_bytes
  load_value-encoding max_size loaded len offset hh hl ho hw hm =
      let hs = m.encoded_header_size in
      let long = laws.back hs m.encoded (omega arith) in
      let start : (hs + 5) % 2 ^ 32 ≡ hs + 5 = omega arith in
      let size : (length encoding + 2 ^ 32 - (hs + 5)) % 2 ^ 32 ≡ length m.encoded - hs =
        omega (arith, length-encoding) in
      let left : length content ≡ length m.encoded - hs = length-drop hs m.encoded in
      let rest : sub_u64 (length m.encoded - hs) offset ≡ length m.encoded - hs - offset =
        omega (arith, left) in
      let sum : (hs + 5 + offset + len) % u64_mod ≡ hs + 5 + offset + len = omega arith in
      rw (long, start, size, rest, sum)
        (elim (Bool-cases (ltb (length encoding) (hs + 5 + offset + len))) [
          | inl more ↦ rw more (
              append-in max_size encoding loaded (hs + 5 + offset) (length m.encoded - hs - offset)
                (omega arith) (omega (arith, length-encoding, left))
              ∙ ap (λ xs. returned (true, loaded ++ xs))
                  (ap (take (length m.encoded - hs - offset)) (drop-encoding offset)
                    ∙ (take_more (length m.encoded - hs - offset) (drop offset content)
                          (omega (arith, length-drop offset content, left))
                        ∙ sym (
                            take_more len (drop offset content) (
                              omega (
                                arith,
                                length-drop offset content,
                                left,
                                length-encoding,
                                ltb→lt (length encoding) (hs + 5 + offset + len) more,
                              ))))))
          | inr less ↦
              rw
                (
                  less,
                  le→ltb max_size (length loaded + len) (
                      omega (
                        arith,
                        length-encoding,
                        ltb→le (length encoding) (hs + 5 + offset + len) less,
                      )),
                  drop-encoding offset,
                )
                refl
        ])

  load_value-beyond :
      (max_size : ℕ) (loaded : List ℕ) (len offset : ℕ)
      → m.encoded_header_size ≤ length m.encoded
      → 5 + length m.encoded < 2 ^ 32
      → length content < offset
      → m.encoded_header_size + 5 + offset + len < 2 ^ 63
      → max_size < 2 ^ 63
      → load_value b max_size encoding loaded len offset ≡ raised
  unfolding load_value append_bytes
  load_value-beyond max_size loaded len offset hh hl ho hw hm =
      let hs = m.encoded_header_size in
      let long = laws.back hs m.encoded (omega arith) in
      let start : (hs + 5) % 2 ^ 32 ≡ hs + 5 = omega arith in
      let size : (length encoding + 2 ^ 32 - (hs + 5)) % 2 ^ 32 ≡ length m.encoded - hs =
        omega (arith, length-encoding) in
      let left : length content ≡ length m.encoded - hs = length-drop hs m.encoded in
      let sum : (hs + 5 + offset + len) % u64_mod ≡ hs + 5 + offset + len = omega arith in
      let huge : 2 ^ 63 ≤ sub_u64 (length m.encoded - hs) offset = omega (arith, left) in
      rw
        (
          long,
          start,
          size,
          sum,
          lt→ltb (length encoding) (hs + 5 + offset + len) (omega (arith, length-encoding, left)),
          lt→ltb max_size (length loaded + sub_u64 (length m.encoded - hs) offset)
              (omega (arith, huge)),
        )
        refl

  msg_encode-encoding :
      (can_hold : ℕ → Bool) (size : ℕ) (value : List ℕ)
      → msg_encode b can_hold m ≡ some (size, value)
      → value ≡ encoding
  unfolding msg_encode
  msg_encode-encoding can_hold size value h =
      held (can_hold (length m.encoded + 4 + 1)) (length m.encoded + 4 + 1) size encoding value h

  -- Let a message be encoded with a header within its bytes, all of them fewer than 2 ^ 32, and let the
  -- offset lie within the content. Then loading appends the content from the offset on: as many bytes
  -- as asked for, or those up to the end if there are fewer. The sizes asked for do not wrap around,
  -- and the string has room.
  pub load_msg_content-msg_encode :
      (can_hold : ℕ → Bool) (size : ℕ) (value : List ℕ) (max_size : ℕ) (loaded : List ℕ)
      (len offset : ℕ)
      → msg_encode b can_hold m ≡ some (size, value)
      → m.encoded_header_size ≤ length m.encoded
      → 5 + length m.encoded < 2 ^ 32
      → offset ≤ length content
      → m.encoded_header_size + 5 + offset + len < u64_mod
      → length loaded + length m.encoded ≤ max_size
      → load_msg_content b true max_size (some value) loaded len offset
        ≡ returned (true, loaded ++ take len (drop offset content))
  unfolding load_msg_content
  load_msg_content-msg_encode can_hold size value max_size loaded len offset e hh hl ho hw hm =
      rw (msg_encode-encoding can_hold size value e)
        (load_value-encoding max_size loaded len offset hh hl ho hw hm)

  -- Of a message encoded with a header within its bytes, all of them fewer than 2 ^ 32, loading from an
  -- offset beyond the end of the content throws, whatever number of bytes is asked for: the size of
  -- the rest wraps around to one that no string can have. The other sizes are below 2 ^ 63.
  pub load_msg_content-beyond :
      (can_hold : ℕ → Bool) (size : ℕ) (value : List ℕ) (max_size : ℕ) (loaded : List ℕ)
      (len offset : ℕ)
      → msg_encode b can_hold m ≡ some (size, value)
      → m.encoded_header_size ≤ length m.encoded
      → 5 + length m.encoded < 2 ^ 32
      → length content < offset
      → m.encoded_header_size + 5 + offset + len < 2 ^ 63
      → max_size < 2 ^ 63
      → load_msg_content b true max_size (some value) loaded len offset ≡ raised
  unfolding load_msg_content
  load_msg_content-beyond can_hold size value max_size loaded len offset e hh hl ho hw hm =
      rw (msg_encode-encoding can_hold size value e)
        (load_value-beyond max_size loaded len offset hh hl ho hw hm)
