-- ===== src/Capability/HmacEngine.antt =====
-- kernel/src/capability/hmac_engine.rs: signing under the key that is fixed at boot.
use fabric_os.Base.{
  ℕ, ◌+◌, ◌%◌, ◌≡◌, ◌↔◌, Bool, true, List, [], ◌∷◌, get_elem?, unwrap_or, bit_xor, sym,
}
use fabric_os.Base.Bytes.{to_le}
use fabric_os.Crypto.{Crypto, IsCrypto}

-- `seed`, "FabricOS_CapKey_Phase1_v1.0!!!!_".
abbrev pub key_seed : List ℕ
key_seed =
    0x46 ∷ 0x61 ∷ 0x62 ∷ 0x72 ∷ 0x69 ∷ 0x63 ∷ 0x4f ∷ 0x53 ∷ 0x5f ∷ 0x43 ∷ 0x61 ∷ 0x70 ∷ 0x4b ∷ 0x65
    ∷ 0x79 ∷ 0x5f ∷ 0x50 ∷ 0x68 ∷ 0x61 ∷ 0x73 ∷ 0x65 ∷ 0x31 ∷ 0x5f ∷ 0x76 ∷ 0x31 ∷ 0x2e ∷ 0x30
    ∷ 0x21 ∷ 0x21 ∷ 0x21 ∷ 0x21 ∷ 0x5f ∷ []

-- `key[i] = seed[i] ^ tsc_bytes[i % 8]`, from index `i` on.
mix : List ℕ → List ℕ → ℕ → List ℕ
mix tsc_bytes [] i = []
mix tsc_bytes (s ∷ seed) i =
    bit_xor s (unwrap_or (get_elem? tsc_bytes (i % 8)) 0) ∷ mix tsc_bytes seed (i + 1)

-- `init`: the key from the value of the timestamp counter.
unfoldable pub init_key : ℕ → List ℕ
unfolding mix
init_key tsc = mix (to_le 8 tsc) key_seed 0

module _ (crypto : Crypto) (key : List ℕ) where
  unfoldable pub sign : List ℕ → List ℕ
  sign data_bytes = crypto.hmac_sha3 key data_bytes

  unfoldable pub verify : List ℕ → List ℕ → Bool
  verify data_bytes expected = crypto.verify_slice (crypto.hmac_sha3 key data_bytes) expected

  -- A tag is accepted for some bytes exactly when it is what signing them gives, if the MAC crate
  -- compares tags as it documents.
  pub verify_iff :
      IsCrypto crypto
      → (data_bytes tag : List ℕ) → (verify data_bytes tag ≡ true) ↔ (tag ≡ sign data_bytes)
  unfolding verify sign
  verify_iff laws data_bytes tag =
      let e = laws.verify_slice_iff (crypto.hmac_sha3 key data_bytes) tag in
      (λ h. sym (e.0 h), λ h. e.1 (sym h))
