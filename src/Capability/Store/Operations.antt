-- ===== src/Capability/Store/Operations.antt =====
-- kernel/src/capability/store.rs: the states that any operations lead to.
use fabric_os.Base.{ℕ, ◌+◌, ◌≤◌, ◌<◌, Option, List, [], ◌∷◌}
use fabric_os.Base.Words.{u16_mod}
use fabric_os.Crypto.{Crypto}
use fabric_os.Wire.Token.{Budget}
use fabric_os.Capability.Slab
use fabric_os.Capability.Store.{CapabilityStore, create, delegate, tick, advance_ticks, clear}
use fabric_os.Capability.Store.Checks.{validate}
use fabric_os.Capability.Store.Links.{revoke}
use fabric_os.Capability.Store.Valid.{StoreValid}
use fabric_os.Capability.Store.Authority.{Attenuated}

-- The calls that change the store.
pub data Operation : Type 0 where
  creating : (resource permissions owner : ℕ) → Option ℕ → Option Budget → Operation
  delegating : (parent_id new_owner permissions : ℕ) → Option ℕ → Option Budget → Operation
  validating : (token_id required_perm presented_nonce : ℕ) → Operation
  revoking : ℕ → Operation
  ticking : Operation
  advancing : ℕ → Operation
  clearing : Operation

-- A permission set has 16 bits.
abbrev pub OperationFits : Operation → Type 0
OperationFits (creating resource permissions owner expires budget) = permissions < u16_mod
OperationFits (delegating parent_id new_owner permissions expires budget) = permissions < u16_mod
OperationFits op = Unit {0}

abbrev pub Sound : CapabilityStore → Type 0
Sound s = StoreValid s [] × Attenuated (Slab.get s.tokens)

-- The invariant after an operation, which gives out one id at most.
abbrev pub Keeps : CapabilityStore → CapabilityStore → Type 0
Keeps s s' = Sound s' × (s'.next_id ≤ s.next_id + 1)

module _ (crypto : Crypto) (key : List ℕ) where
  unfoldable pub step : CapabilityStore → Operation → CapabilityStore
  step s (creating resource permissions owner expires budget) =
      (create crypto key s resource permissions owner expires budget).0
  step s (delegating parent_id new_owner permissions expires budget) =
      (delegate crypto key s parent_id new_owner permissions expires budget).0
  step s (validating token_id required_perm presented_nonce) =
      (validate crypto key s token_id required_perm presented_nonce).0
  step s (revoking token_id) = (revoke s token_id).0
  step s ticking = tick s
  step s (advancing n) = advance_ticks s n
  step s clearing = clear s

  unfoldable pub run : CapabilityStore → List Operation → CapabilityStore
  run s [] = s
  run s (op ∷ ops) = run (step s op) ops
