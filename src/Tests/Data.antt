-- ===== src/Tests/Data.antt =====
-- An example of the crates sha3 and hmac, and a bus with two processes.
use fabric_os.Base.{ℕ, ◌+◌, ◌%◌, refl, List, [], ◌∷◌, ◌++◌, Option, some, replicate}
use fabric_os.Base.Bytes.{bytes_eq, bytes_eq_iff}
use fabric_os.Bus.Queue
use fabric_os.Bus.Router
use fabric_os.Bus.Router.{BusRouter}
use fabric_os.Crypto.{Crypto, IsCrypto}
use fabric_os.Wire.Header.{MessageHeader, zeroed_header}

abbrev pub sum : List ℕ → ℕ
sum [] = 0
sum (x ∷ xs) = x + sum xs

abbrev pub toy_crypto : Crypto
toy_crypto = record {
  sha3_256 = λ bytes. replicate 32 (sum bytes % 256);
  hmac_sha3 = λ key bytes. replicate 32 (sum (key ++ bytes) % 256);
  verify_slice = λ tag expected. bytes_eq tag expected;
}

pub toy-IsCrypto : IsCrypto toy_crypto
toy-IsCrypto = record {
  length-sha3_256 = λ bytes. refl;
  length-hmac_sha3 = λ key bytes. refl;
  verify_slice_iff = λ tag expected. bytes_eq_iff tag expected;
}

abbrev pub toy_key : List ℕ
toy_key = replicate 32 1

-- Processes 1 and 2 are registered, and the arena has its buffer.
abbrev pub two_ends : BusRouter
two_ends = record (Router.init Router.new) { inboxes = (1, Queue.new) ∷ (2, Queue.new) ∷ [] }

-- From 1 to 2, the first message of 1, with two bytes.
abbrev pub hello : MessageHeader
hello = record zeroed_header {
  version = 1;
  sender = 1;
  receiver = 2;
  sequence = 1;
  payload_len = 2;
}

abbrev pub hello_bytes : Option (List ℕ)
hello_bytes = some (7 ∷ 8 ∷ [])
