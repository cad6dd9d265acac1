-- ===== src/Crypto.antt =====
-- The crates sha3 and hmac, which kernel/src/bus/audit.rs and kernel/src/capability/hmac_engine.rs
-- call: parameters of the model, over byte strings.
use fabric_os.Base.{ℕ, ◌≡◌, ◌↔◌, Bool, true, List, length}

pub record Crypto : Type 0 where
  -- `Sha3_256::new()`, `update`, `finalize`, over the concatenated updates.
  pub sha3_256 : List ℕ → List ℕ
  -- `HmacSha3::new_from_slice(key)`, `update(data)`, `finalize`.
  pub hmac_sha3 : List ℕ → List ℕ → List ℕ
  -- `verify_slice(expected).is_ok()` of a MAC whose tag is the first argument.
  pub verify_slice : List ℕ → List ℕ → Bool

-- What the crates document: 32-byte results, and a comparison that accepts the tag and nothing else.
pub record IsCrypto (c : Crypto) : Type 0 where
  pub length-sha3_256 : (data_bytes : List ℕ) → length (c.sha3_256 data_bytes) ≡ 32
  pub length-hmac_sha3 : (key data_bytes : List ℕ) → length (c.hmac_sha3 key data_bytes) ≡ 32
  pub verify_slice_iff :
      (tag expected : List ℕ) → (c.verify_slice tag expected ≡ true) ↔ (tag ≡ expected)
