-- ===== src/Message.antt =====
-- The bytes that the store keeps of a message: `msgEncode` of lib/BdbStoreProvider.cpp and
-- `loadMsgContent` of lib/JournalImpl.cpp. The broker's message and its `Buffer` are not part of the
-- sources: what the message encodes to, and how a `Buffer` writes and reads a 32-bit integer, are
-- parameters.
pub mod Cuts
pub mod Load
mod Tests
use bdbmsgstore.Prelude.{
  ℕ, ◌+◌, ◌-◌, ◌%◌, ◌^◌, ◌<◌, ◌≡◌, Bool, true, false, Option, none, some, List, [], ◌∷◌, ◌++◌, ltb,
  if◌then◌else◌, length, take, drop,
}
use bdbmsgstore.Bytes.{u64_mod}
use bdbmsgstore.Word.{sub_u64}
use bdbmsgstore.Journal.{Outcome, returned, raised, undefined}

-- encodedHeaderSize(), what encode() writes, and isPersistent()
pub record PersistableMessage : Type 0 where
  pub encoded_header_size : ℕ
  pub encoded : List ℕ
  pub is_persistent : Bool

-- putLong and getLong of qpid::framing::Buffer
pub record Buffer : Type 0 where
  pub put_long : ℕ → List ℕ
  pub get_long : List ℕ → ℕ

-- A long takes four bytes, and reads back.
pub record IsBuffer (b : Buffer) : Type 0 where
  pub four : (n : ℕ) → length (b.put_long n) ≡ 4
  pub back : (n : ℕ) (rest : List ℕ) → n < 2 ^ 32 → b.get_long (b.put_long n ++ rest) ≡ n

module _ (b : Buffer) where
  -- `can_hold` says for which sizes a vector can be had; otherwise an exception is thrown.
  unfoldable pub msg_encode : (ℕ → Bool) → PersistableMessage → Option (ℕ × List ℕ)
  msg_encode can_hold m =
      let size = length m.encoded + 4 + 1 in
      if can_hold size
      then some (
        size,
        (if m.is_persistent then 0 else 1) ∷ (b.put_long m.encoded_header_size ++ m.encoded),
      )
      else none

  -- data.append(p + from, n), with `loaded` what `data` holds and `p` the bytes of the value
  unfoldable pub append_bytes : ℕ → List ℕ → List ℕ → ℕ → ℕ → Outcome (Bool × List ℕ)
  append_bytes max_size value loaded from n =
      if ltb max_size (length loaded + n)
      then raised
      else if ltb (length value) (from + n)
      then undefined
      else returned (true, loaded ++ take n (drop from value))

  -- The value has been found. Its size is a 32-bit integer; `headerSize + preambleLength` and
  -- `getSize() - contentOffset` are cut to 32 bits, and the other sums to 64.
  unfoldable pub load_value : ℕ → List ℕ → List ℕ → ℕ → ℕ → Outcome (Bool × List ℕ)
  unfolding append_bytes
  load_value max_size value loaded len offset =
      let content_offset = (b.get_long (drop 1 value) + 5) % 2 ^ 32 in
      let content_size = (length value + 2 ^ 32 - content_offset) % 2 ^ 32 in
      if ltb (length value) ((content_offset + offset + len) % u64_mod)
      then append_bytes max_size value loaded (content_offset + offset)
          (sub_u64 content_size offset)
      else append_bytes max_size value loaded (content_offset + offset) len

  -- `found` is what the database's `get` gives, `none` for a status that is not 0.
  unfoldable pub load_msg_content :
      Bool → ℕ → Option (List ℕ) → List ℕ → ℕ → ℕ → Outcome (Bool × List ℕ)
  unfolding load_value
  load_msg_content false max_size found loaded len offset = returned (false, loaded)
  load_msg_content true max_size none loaded len offset = returned (false, loaded)
  load_msg_content true max_size (some value) loaded len offset =
      load_value max_size value loaded len offset
