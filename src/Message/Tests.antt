-- ===== src/Message/Tests.antt =====
-- Concrete messages, encoded by `msgEncode` of lib/BdbStoreProvider.cpp and loaded by `loadMsgContent`
-- of lib/JournalImpl.cpp.
use bdbmsgstore.Prelude.{
  ℕ, ◌+◌, ◌%◌, ◌/◌, ◌*◌, ◌^◌, ◌≡◌, refl, true, some, List, [], ◌∷◌, ◌++◌, arith, take, drop,
}
use bdbmsgstore.Journal.{returned, raised}
use bdbmsgstore.Message.{PersistableMessage, Buffer, IsBuffer, msg_encode, load_msg_content}
use bdbmsgstore.Message.Load.{
  encoding, content, load_msg_content-msg_encode, load_msg_content-beyond,
}

-- Four bytes, the highest first.
abbrev get_four : List ℕ → ℕ
get_four (p ∷ q ∷ r ∷ s ∷ rest) = p * 2 ^ 24 + q * 2 ^ 16 + r * 2 ^ 8 + s
get_four rest = 0

abbrev network_order : Buffer
network_order = record {
  put_long = λ n. (n / 2 ^ 24) ∷ (n / 2 ^ 16 % 2 ^ 8) ∷ (n / 2 ^ 8 % 2 ^ 8) ∷ (n % 2 ^ 8) ∷ [];
  get_long = get_four;
}

network_order-IsBuffer : IsBuffer network_order
network_order-IsBuffer = record { four = λ n. refl; back = λ n rest h. omega arith }

-- A header of two bytes, and a content of three.
abbrev message : PersistableMessage
message = record {
  encoded_header_size = 2;
  encoded = 1 ∷ 2 ∷ 65 ∷ 66 ∷ 67 ∷ [];
  is_persistent = true;
}

encoding_run :
    msg_encode network_order (λ n. true) message
    ≡ some (10, encoding network_order network_order-IsBuffer message)
unfolding msg_encode
encoding_run = refl

load_msg_content-msg_encode_example :
    load_msg_content network_order true 1000
      (some (encoding network_order network_order-IsBuffer message))
      []
      2
      1
    ≡ returned (true, [] ++ take 2 (drop 1 (content network_order network_order-IsBuffer message)))
unfolding msg_encode
load_msg_content-msg_encode_example =
    load_msg_content-msg_encode network_order network_order-IsBuffer message (λ n. true) 10
      (encoding network_order network_order-IsBuffer message) 1000 [] 2 1 refl (omega arith)
      (omega arith) (omega arith) (omega arith) (omega arith)

load_msg_content-beyond_example :
    load_msg_content network_order true 1000
      (some (encoding network_order network_order-IsBuffer message))
      []
      2
      4
    ≡ raised
unfolding msg_encode
load_msg_content-beyond_example =
    load_msg_content-beyond network_order network_order-IsBuffer message (λ n. true) 10
      (encoding network_order network_order-IsBuffer message) 1000 [] 2 4 refl (omega arith)
      (omega arith) (omega arith) (omega arith) (omega arith)
