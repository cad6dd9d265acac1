-- ===== src/Wire/Token.antt =====
-- fabric_types/src/capability.rs: budgets and the capability token.
use fabric_os.Base.{ℕ, ◌<◌, Bool, List, [], ◌++◌, replicate, ◌==◌}
use fabric_os.Wire.Perm
use fabric_os.Base.Bytes.{to_le}
use fabric_os.Base.Words.{u16_mod, u32_mod, u64_mod}

pub record Budget : Type 0 where
  pub max_uses : ℕ
  pub interval_ticks : ℕ

pub record CapabilityToken : Type 0 where
  pub version : ℕ
  pub permissions : ℕ
  pub owner : ℕ
  pub id : ℕ
  pub resource : ℕ
  pub delegated_from : ℕ
  pub nonce : ℕ
  pub expires : ℕ
  pub extension_ptr : ℕ
  pub reserved : List ℕ

abbrev pub token_version : ℕ
token_version = 1

abbrev pub zeroed_token : CapabilityToken
zeroed_token = record {
  version = 0;
  permissions = Perm.empty_set;
  owner = 0;
  id = 0;
  resource = 0;
  delegated_from = 0;
  nonce = 0;
  expires = 0;
  extension_ptr = 0;
  reserved = replicate 16 0;
}

-- `active_bytes`: the ranges 0..2, 2..4, 4..8, 8..16, 16..24, 24..32, 32..36 and 36..40.
unfoldable pub token_bytes : CapabilityToken → List ℕ
token_bytes t =
    to_le 2 t.version
    ++ (to_le 2 t.permissions
        ++ (to_le 4 t.owner
            ++ (to_le 8 t.id
                ++ (to_le 8 t.resource
                    ++ (to_le 8 t.delegated_from
                        ++ (to_le 4 t.nonce ++ (to_le 4 t.expires ++ [])))))))

unfoldable pub is_root : CapabilityToken → Bool
is_root t = t.delegated_from == 0

-- Each field fits its machine word.
pub record TokenFits (t : CapabilityToken) : Type 0 where
  pub version_fits : t.version < u16_mod
  pub permissions_fits : t.permissions < u16_mod
  pub owner_fits : t.owner < u32_mod
  pub id_fits : t.id < u64_mod
  pub resource_fits : t.resource < u64_mod
  pub delegated_from_fits : t.delegated_from < u64_mod
  pub nonce_fits : t.nonce < u32_mod
  pub expires_fits : t.expires < u32_mod
