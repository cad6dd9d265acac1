-- ===== src/Capability/Store/Checks.antt =====
-- kernel/src/capability/store.rs: the six checks of `validate`.
use fabric_os.Base.{
  ℕ, Bool, true, false, ltb, leb, ◌&&◌, not, none, some, Option, if◌then◌else◌, List,
}
use fabric_os.Base.Words.{add64}
use fabric_os.Base.Results.{Result, ok, err, panic}
use fabric_os.Crypto.{Crypto}
use fabric_os.Wire.Token.{Budget, token_bytes}
use fabric_os.Wire.Perm
use fabric_os.Capability.Errors.{
  CapabilityError, not_found, invalid_hmac, expired, insufficient_permission, budget_exhausted,
  nonce_replay,
}
use fabric_os.Capability.HmacEngine.{verify}
use fabric_os.Capability.Slab.{FixedMap}
use fabric_os.Capability.Slab
use fabric_os.Capability.Nonce.{NonceTracker}
use fabric_os.Capability.Nonce
use fabric_os.Capability.Budget.{BudgetTracker}
use fabric_os.Capability.Budget
use fabric_os.Capability.Store.{CapabilityStore, StoredToken}

module _ (crypto : Crypto) (key : List ℕ) where
  -- Checks 2 to 4 of `validate`.
  unfoldable pub refusal : CapabilityStore → StoredToken → ℕ → Option CapabilityError
  refusal s stored required_perm =
      if not (verify crypto key (token_bytes stored.token) stored.hmac)
      then some invalid_hmac
      else if ltb 0 stored.token.expires
          && leb (add64 stored.created_at stored.token.expires) s.current_tick
      then some expired
      else if not (Perm.contains stored.token.permissions required_perm)
      then some insufficient_permission
      else none

  -- Check 6, on what the budget tracker answers.
  unfoldable pub settle :
      CapabilityStore
      → BudgetTracker × Option Bool
      → CapabilityStore × Result (Unit {0}) CapabilityError
  settle s (b, none) = (record s { budget_tracker = b }, panic)
  settle s (b, some true) = (record s { budget_tracker = b }, ok tt)
  settle s (b, some false) = (record s { budget_tracker = b }, err budget_exhausted)

  unfoldable pub spend :
      CapabilityStore → ℕ → Option Budget → CapabilityStore × Result (Unit {0}) CapabilityError
  spend s token_id none = (s, ok tt)
  spend s token_id (some b) =
      settle s (Budget.check_and_consume s.budget_tracker token_id b s.current_tick)

  -- Check 5, on what the nonce tracker answers.
  unfoldable pub after_nonce :
      CapabilityStore
      → ℕ
      → Option Budget
      → NonceTracker × Option Bool
      → CapabilityStore × Result (Unit {0}) CapabilityError
  after_nonce s token_id budget (n, none) = (record s { nonce_tracker = n }, panic)
  after_nonce s token_id budget (n, some true) =
      spend (record s { nonce_tracker = n }) token_id budget
  after_nonce s token_id budget (n, some false) = (record s { nonce_tracker = n }, err nonce_replay)

  unfoldable pub validate_found :
      CapabilityStore
      → ℕ
      → Option StoredToken
      → ℕ
      → ℕ
      → CapabilityStore × Result (Unit {0}) CapabilityError
  validate_found s token_id none required_perm presented_nonce = (s, err not_found)
  validate_found s token_id (some stored) required_perm presented_nonce =
      elim (refusal s stored required_perm) [
        | some e ↦ (s, err e)
        | none ↦
            after_nonce s token_id stored.budget
              (Nonce.check_and_advance s.nonce_tracker token_id presented_nonce)
      ]

  unfoldable pub validate :
      CapabilityStore → ℕ → ℕ → ℕ → CapabilityStore × Result (Unit {0}) CapabilityError
  validate s token_id required_perm presented_nonce =
      validate_found s token_id (Slab.get s.tokens token_id) required_perm presented_nonce
