-- ===== src/Tests/Grants.antt =====
-- Concrete inputs for the capability store: a token, and one delegated from it.
use fabric_os.Base.{
  subst, sym, ◌&&◌, ℕ, ◌<◌, ◌+◌, ◌≡◌, ◌≢◌, ◌↔◌, refl, true, List, [], ◌∷◌, none, some, arith, All,
  if◌then◌else◌, ◌==◌,
}
use fabric_os.Base.Results.{ok, err, panic}
use fabric_os.Wire.Token.{Budget, token_bytes}
use fabric_os.Wire.Perm
use fabric_os.Capability.Errors.{nonce_replay}
use fabric_os.Capability.HmacEngine
use fabric_os.Capability.Slab
use fabric_os.Capability.Slab.{FixedMap, matching, spinning}
use fabric_os.Capability.Nonce
use fabric_os.Capability.Budget
use fabric_os.Capability.Budget.{BudgetTracker, allowed, allowed-le, check_and_consume_lem}
use fabric_os.Capability.Store
use fabric_os.Capability.Store.Links
use fabric_os.Capability.Store.Checks
use fabric_os.Capability.Store.{CapabilityStore, StoredToken, child_expires}
use fabric_os.Capability.Store.Operations.{
  Operation, OperationFits, creating, delegating, Sound, run, step,
}
use fabric_os.Capability.Store.Reachable.{run-Sound, run-Within}
use fabric_os.Capability.Store.Revocation.{Under, itself, delegated}
use fabric_os.Tests.Data.{toy_crypto, toy_key}
use fabric_os.Capability.Store.Valid.{StoreValid}
use fabric_os.Capability.Store.Revoke.{Removes, revoke_lem}
use fabric_os.Capability.Store.Verdict.{Accepts, validate-ok_iff}
use fabric_os.Capability.Store.Replay.{
  validate-replay, validate-error, validate_returns, is_exhausted,
}
use fabric_os.Capability.Store.Delegate.{child_entry, delegate_lem}
use fabric_os.Capability.Store.Authority.{Within}
use fabric_os.Capability.Store.Unlink.{core}
use fabric_os.Capability.Store.Children.{is_child}
use fabric_os.Base.Words.{u64_mod}
use fabric_os.Base.Bytes
use mathlib.Core.Option.{map}

-- Twice for every 100 ticks.
abbrev twice : Budget
twice = record { max_uses = 2; interval_ticks = 100 }

-- Token 1 may read, write and grant; token 2, from it, may read.
abbrev both : List Operation
both = creating 77 11 1 none none ∷ delegating 1 2 1 (some 5) (some twice) ∷ []

both-fits : All OperationFits both
both-fits = (omega arith, (omega arith, tt))

run-Sound_example : Sound (run toy_crypto toy_key Store.new_store both)
run-Sound_example = run-Sound toy_crypto toy_key both (omega arith) both-fits

abbrev first_token : StoredToken
first_token =
    let token = Store.make_token 11 1 1 77 0 0 in
    record {
      token = token;
      hmac = HmacEngine.sign toy_crypto toy_key (token_bytes token);
      budget = none;
      created_at = 0;
      first_child = 2;
      next_sibling = 0;
    }

abbrev second_token : StoredToken
second_token =
    let token = Store.make_token 1 2 2 77 1 5 in
    record {
      token = token;
      hmac = HmacEngine.sign toy_crypto toy_key (token_bytes token);
      budget = some twice;
      created_at = 0;
      first_child = 0;
      next_sibling = 0;
    }

both-first : Slab.get (run toy_crypto toy_key Store.new_store both).tokens 1 ≡ some first_token
unfolding run step Store.new_store Store.create Store.delegate Store.delegate_from Store.add_child
    Store.alloc_id Store.make_token Store.child_expires Perm.contains Perm.is_subset_of
    HmacEngine.sign token_bytes Slab.get Slab.modify Slab.insert Slab.insert_at Slab.new_map
    Slab.ensure_init Slab.alloc_slots Slab.find Slab.probe Slab.fib_hash Slab.following
    Slab.set_slot
both-first = refl

both-second : Slab.get (run toy_crypto toy_key Store.new_store both).tokens 2 ≡ some second_token
unfolding run step Store.new_store Store.create Store.delegate Store.delegate_from Store.add_child
    Store.alloc_id Store.make_token Store.child_expires Perm.contains Perm.is_subset_of
    HmacEngine.sign token_bytes Slab.get Slab.modify Slab.insert Slab.insert_at Slab.new_map
    Slab.ensure_init Slab.alloc_slots Slab.find Slab.probe Slab.fib_hash Slab.following
    Slab.set_slot
both-second = refl

abbrev two_tokens : CapabilityStore
two_tokens = run toy_crypto toy_key Store.new_store both

two_tokens-StoreValid : StoreValid two_tokens []
two_tokens-StoreValid = (run-Sound toy_crypto toy_key both (omega arith) both-fits).0

second-child : is_child (Slab.get two_tokens.tokens) 1 2 ≡ true
unfolding Store.make_token
second-child = rw both-second refl

second-Under : Under (Slab.get two_tokens.tokens) 1 2
second-Under = delegated 1 2 second-child itself

run-Within_example : Within second_token first_token
run-Within_example =
    run-Within toy_crypto toy_key both 1 2 first_token second_token (omega arith) both-fits
      both-first both-second second-Under

revoke_lem_example :
    StoreValid (Links.revoke two_tokens 1).0 []
    × ((n : ℕ) × ((Links.revoke two_tokens 1).1 ≡ ok n)
        × (n + (Links.revoke two_tokens 1).0.tokens.len ≡ two_tokens.tokens.len))
    × Removes two_tokens 1 (Links.revoke two_tokens 1).0
revoke_lem_example = revoke_lem two_tokens 1 first_token two_tokens-StoreValid both-first

validate-ok_iff_example :
    ((Checks.validate toy_crypto toy_key two_tokens 2 1 1).1 ≡ ok tt)
    ↔ Accepts toy_crypto toy_key two_tokens 2 1 1
validate-ok_iff_example = validate-ok_iff toy_crypto toy_key two_tokens 2 1 1 two_tokens-StoreValid

validate_returns_example : (Checks.validate toy_crypto toy_key two_tokens 2 1 1).1 ≢ panic
validate_returns_example =
    validate_returns toy_crypto toy_key two_tokens 2 1 1 two_tokens-StoreValid

accepted_once : (Checks.validate toy_crypto toy_key two_tokens 2 1 6).1 ≡ ok tt
unfolding run step Store.new_store Store.create Store.delegate Store.delegate_from Store.add_child
    Store.alloc_id Store.make_token Store.child_expires Perm.contains Perm.is_subset_of
    HmacEngine.sign token_bytes Slab.get Slab.modify Slab.insert Slab.insert_at Slab.new_map
    Slab.ensure_init Slab.alloc_slots Slab.find Slab.probe Slab.fib_hash Slab.following
    Slab.set_slot Checks.validate Checks.validate_found Checks.refusal Checks.after_nonce
    Checks.spend Checks.settle HmacEngine.verify Nonce.check_and_advance Nonce.check_entry
    Nonce.new_nonces Budget.new_budgets Budget.check_and_consume Budget.consume_entry
    Slab.get_or_insert Slab.contains_key Bytes.bytes_eq Bytes.to_le
accepted_once = refl

validate-replay_example :
    (Checks.validate toy_crypto toy_key
      (Checks.validate toy_crypto toy_key two_tokens 2 1 6).0
      2
      1
      6).1
    ≢ ok tt
validate-replay_example =
    validate-replay toy_crypto toy_key two_tokens 2 1 6 1 6 two_tokens-StoreValid accepted_once
      (omega arith)

refused_nonce : (Checks.validate toy_crypto toy_key two_tokens 2 1 0).1 ≡ err nonce_replay
unfolding run step Store.new_store Store.create Store.delegate Store.delegate_from Store.add_child
    Store.alloc_id Store.make_token Store.child_expires Perm.contains Perm.is_subset_of
    HmacEngine.sign token_bytes Slab.get Slab.modify Slab.insert Slab.insert_at Slab.new_map
    Slab.ensure_init Slab.alloc_slots Slab.find Slab.probe Slab.fib_hash Slab.following
    Slab.set_slot Checks.validate Checks.validate_found Checks.refusal Checks.after_nonce
    Checks.spend Checks.settle HmacEngine.verify Nonce.check_and_advance Nonce.check_entry
    Nonce.new_nonces Budget.new_budgets Budget.check_and_consume Budget.consume_entry
    Slab.get_or_insert Slab.contains_key Bytes.bytes_eq Bytes.to_le
refused_nonce = refl

validate-error_example :
    ((Checks.validate toy_crypto toy_key two_tokens 2 1 0).0.tokens ≡ two_tokens.tokens)
    × ((j : ℕ)
        → Nonce.highest (Checks.validate toy_crypto toy_key two_tokens 2 1 0).0.nonce_tracker j ≡ (
            if (2 == j) && is_exhausted nonce_replay
            then 0
            else Nonce.highest two_tokens.nonce_tracker j))
validate-error_example =
    validate-error toy_crypto toy_key two_tokens 2 1 0 nonce_replay two_tokens-StoreValid
      refused_nonce

grant_held : Perm.contains 11 Perm.grant ≡ true
unfolding Perm.contains
grant_held = refl

write_within : Perm.is_subset_of 2 11 ≡ true
unfolding Perm.is_subset_of
write_within = refl

room_left : two_tokens.tokens.len < 12288
unfolding run step Store.new_store Store.create Store.delegate Store.delegate_from Store.add_child
    Store.alloc_id Store.make_token Store.child_expires Perm.contains Perm.is_subset_of
    HmacEngine.sign token_bytes Slab.get Slab.modify Slab.insert Slab.insert_at Slab.new_map
    Slab.ensure_init Slab.alloc_slots Slab.find Slab.probe Slab.fib_hash Slab.following
    Slab.set_slot
room_left = omega arith

ids_left : two_tokens.next_id + 1 < u64_mod
unfolding run step Store.new_store Store.create Store.delegate Store.delegate_from Store.add_child
    Store.alloc_id Store.make_token Store.child_expires Perm.contains Perm.is_subset_of
    HmacEngine.sign token_bytes Slab.get Slab.modify Slab.insert Slab.insert_at Slab.new_map
    Slab.ensure_init Slab.alloc_slots Slab.find Slab.probe Slab.fib_hash Slab.following
    Slab.set_slot
ids_left = omega arith

first_fields : first_token.token.permissions ≡ 11
unfolding Store.make_token
first_fields = refl

delegate_lem_example :
    let r = Store.delegate toy_crypto toy_key two_tokens 1 3 2 none none in
    (r.1 ≡ ok two_tokens.next_id)
    × StoreValid r.0 []
    × (Slab.get r.0.tokens two_tokens.next_id
        ≡ some (child_entry toy_crypto toy_key two_tokens 1 first_token 3 2 none none))
    × ((j : ℕ)
        → j ≢ two_tokens.next_id
        → map core (Slab.get r.0.tokens j) ≡ map core (Slab.get two_tokens.tokens j))
    × (r.0.next_id ≡ two_tokens.next_id + 1)
    × (let t = (child_entry toy_crypto toy_key two_tokens 1 first_token 3 2 none none).token in
        (t.id ≡ two_tokens.next_id)
        × (t.owner ≡ 3)
        × (t.resource ≡ first_token.token.resource)
        × (t.permissions ≡ 2)
        × (t.delegated_from ≡ 1)
        × (t.expires ≡ child_expires none first_token.token.expires))
delegate_lem_example =
    delegate_lem toy_crypto toy_key two_tokens 1 first_token 3 2 none none two_tokens-StoreValid
      room_left ids_left both-first
      (subst (λ k. Perm.contains k Perm.grant ≡ true) (sym first_fields) grant_held)
      (subst (λ k. Perm.is_subset_of 2 k ≡ true) (sym first_fields) write_within)
