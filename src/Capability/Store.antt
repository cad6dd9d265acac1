-- ===== src/Capability/Store.antt =====
-- kernel/src/capability/store.rs: the registry of the live capability tokens. The functions of
-- capability/mod.rs take the lock of the store and call these.
pub mod Checks
pub mod Links
pub mod Children
pub mod Forest
pub mod Valid
pub mod Unlink
pub mod Detach
pub mod Severing
pub mod Revocation
pub mod Revoke
pub mod Growth
pub mod Issue
pub mod Delegate
pub mod Expiry
pub mod Validate
pub mod Verdict
pub mod Replay
pub mod Authority
pub mod Operations
pub mod Steps
pub mod Reachable
use fabric_os.Base.{
  ℕ, zero, suc, ◌+◌, Bool, true, false, ◌==◌, ltb, leb, ◌&&◌, not, none, some, Option,
  if◌then◌else◌, unwrap_or, is_some, List, [], ◌∷◌,
}
use fabric_os.Base.Words.{add64}
use fabric_os.Base.Results.{Result, ok, err, panic}
use fabric_os.Crypto.{Crypto}
use fabric_os.Wire.Token.{Budget, CapabilityToken, zeroed_token, token_version, token_bytes}
use fabric_os.Wire.Perm
use fabric_os.Capability.Errors.{
  CapabilityError, not_found, invalid_hmac, expired, insufficient_permission, budget_exhausted,
  nonce_replay, delegation_denied, permission_escalation, store_full,
}
use fabric_os.Capability.HmacEngine.{sign, verify}
use fabric_os.Capability.Slab.{FixedMap}
use fabric_os.Capability.Slab
use fabric_os.Capability.Nonce.{NonceTracker}
use fabric_os.Capability.Nonce
use fabric_os.Capability.Budget.{BudgetTracker}
use fabric_os.Capability.Budget
use mathlib.Core.Option.{map}

abbrev pub max_tokens : ℕ
max_tokens = 12288

pub record StoredToken : Type 0 where
  pub token : CapabilityToken
  pub hmac : List ℕ
  pub budget : Option Budget
  pub created_at : ℕ
  pub first_child : ℕ
  pub next_sibling : ℕ

abbrev pub Tokens : Type 0
Tokens = FixedMap StoredToken

pub record CapabilityStore : Type 0 where
  pub tokens : Tokens
  pub next_id : ℕ
  pub budget_tracker : BudgetTracker
  pub nonce_tracker : NonceTracker
  pub current_tick : ℕ

unfoldable pub new_store : CapabilityStore
new_store = record {
  tokens = Slab.new_map;
  next_id = 1;
  budget_tracker = Budget.new_budgets;
  nonce_tracker = Nonce.new_nonces;
  current_tick = 0;
}

unfoldable pub alloc_id : CapabilityStore → CapabilityStore × ℕ
alloc_id s = (record s { next_id = add64 s.next_id 1 }, s.next_id)

-- The token that `create` and `delegate` fill in.
unfoldable pub make_token : ℕ → ℕ → ℕ → ℕ → ℕ → ℕ → CapabilityToken
make_token permissions owner id resource delegated_from expires = record zeroed_token {
  version = token_version;
  permissions = permissions;
  owner = owner;
  id = id;
  resource = resource;
  delegated_from = delegated_from;
  nonce = 0;
  expires = expires;
}

-- "Child expiration must not exceed parent's"; 0 is no expiration.
unfoldable pub child_expires : Option ℕ → ℕ → ℕ
child_expires (some e) pe = if ltb 0 pe && ltb pe e then pe else e
child_expires none pe = pe

module _ (crypto : Crypto) (key : List ℕ) where
  unfoldable pub create :
      CapabilityStore
      → ℕ
      → ℕ
      → ℕ
      → Option ℕ
      → Option Budget
      → CapabilityStore × Result ℕ CapabilityError
  create s resource permissions owner expires budget =
      if leb max_tokens s.tokens.len
      then (s, err store_full)
      else (let (s1, id) = alloc_id s in
          let token = make_token permissions owner id resource 0 (unwrap_or expires 0) in
          (
            record s1 {
              tokens =
                  (Slab.insert s1.tokens id (record {
                    token = token;
                    hmac = sign crypto key (token_bytes token);
                    budget = budget;
                    created_at = s1.current_tick;
                    first_child = 0;
                    next_sibling = 0;
                  })).0;
            },
            ok id,
          ))

  -- `delegate` from the allocation of the id on.
  unfoldable pub add_child :
      CapabilityStore → ℕ → StoredToken → ℕ → ℕ → Option ℕ → Option Budget → CapabilityStore × ℕ
  add_child s parent_id parent new_owner permissions expires budget =
      let (s1, id) = alloc_id s in
      let token =
        make_token permissions new_owner id parent.token.resource parent_id
          (child_expires expires parent.token.expires) in
      let tokens =
        (Slab.insert s1.tokens id (record {
          token = token;
          hmac = sign crypto key (token_bytes token);
          budget = budget;
          created_at = s1.current_tick;
          first_child = 0;
          next_sibling = parent.first_child;
        })).0 in
      (record s1 { tokens = Slab.modify tokens parent_id (λ p. record p { first_child = id }) }, id)

  -- The checks of `delegate`, once the parent is found.
  unfoldable pub delegate_from :
      CapabilityStore
      → ℕ
      → Option StoredToken
      → ℕ
      → ℕ
      → Option ℕ
      → Option Budget
      → CapabilityStore × Result ℕ CapabilityError
  delegate_from s parent_id none new_owner permissions expires budget = (s, err not_found)
  delegate_from s parent_id (some parent) new_owner permissions expires budget =
      if not (Perm.contains parent.token.permissions Perm.grant)
      then (s, err delegation_denied)
      else if not (Perm.is_subset_of permissions parent.token.permissions)
      then (s, err permission_escalation)
      else (let (s1, id) = add_child s parent_id parent new_owner permissions expires budget in
          (s1, ok id))

  unfoldable pub delegate :
      CapabilityStore
      → ℕ
      → ℕ
      → ℕ
      → Option ℕ
      → Option Budget
      → CapabilityStore × Result ℕ CapabilityError
  delegate s parent_id new_owner permissions expires budget =
      if leb max_tokens s.tokens.len
      then (s, err store_full)
      else delegate_from s parent_id (Slab.get s.tokens parent_id) new_owner permissions expires
          budget

unfoldable pub get : CapabilityStore → ℕ → Option StoredToken
get s token_id = Slab.get s.tokens token_id

unfoldable pub get_token_info : CapabilityStore → ℕ → Option (ℕ × ℕ)
get_token_info s token_id =
    map (λ t. (t.token.owner, t.token.resource)) (Slab.get s.tokens token_id)

unfoldable pub tick : CapabilityStore → CapabilityStore
tick s = record s { current_tick = add64 s.current_tick 1 }

unfoldable pub advance_ticks : CapabilityStore → ℕ → CapabilityStore
advance_ticks s n = record s { current_tick = add64 s.current_tick n }

unfoldable pub current_tick : CapabilityStore → ℕ
current_tick s = s.current_tick

unfoldable pub count : CapabilityStore → ℕ
count s = s.tokens.len

unfoldable pub clear : CapabilityStore → CapabilityStore
clear s = record {
  tokens = Slab.clear s.tokens;
  next_id = 1;
  budget_tracker = Budget.clear s.budget_tracker;
  nonce_tracker = Nonce.clear s.nonce_tracker;
  current_tick = 0;
}
