-- ===== src/Tests/Permits.antt =====
-- Concrete inputs for `bus::send`: process 1 writes to process 2 with a token that process 2 lent it.
use fabric_os.Base.{
  ℕ, ◌≡◌, ◌≢◌, ◌↔◌, inr, refl, true, List, [], ◌∷◌, Option, none, some, arith, All,
}
use fabric_os.Base.Bytes
use fabric_os.Base.Results.{ok}
use fabric_os.Bus.Arena
use fabric_os.Bus.Entry
use fabric_os.Bus.Entry.{Kernel}
use fabric_os.Bus.Entry.Accept.{Authorised}
use fabric_os.Bus.Entry.Rights.{send-is_admitted, send-replay, send-Under}
use fabric_os.Bus.Queue
use fabric_os.Bus.Router
use fabric_os.Bus.Router.Send
use fabric_os.Bus.Router.Send.Accept.{Acceptable, send_ok_iff}
use fabric_os.Bus.Sequence
use fabric_os.Capability.Budget
use fabric_os.Capability.HmacEngine
use fabric_os.Capability.Nonce
use fabric_os.Capability.Slab
use fabric_os.Capability.Store
use fabric_os.Capability.Store.Checks
use fabric_os.Capability.Store.{CapabilityStore, StoredToken}
use fabric_os.Capability.Store.Children.{is_child}
use fabric_os.Capability.Store.Operations.{
  Operation, OperationFits, creating, delegating, run, step,
}
use fabric_os.Capability.Store.Reachable.{run-Sound}
use fabric_os.Capability.Store.Revocation.{itself, delegated}
use fabric_os.Capability.Store.Valid.{StoreValid}
use fabric_os.Capability.Store.Verdict.{validate-ok_iff}
use fabric_os.Governance.Engine.Genesis.{is_admitted}
use fabric_os.Governance.Types.{denied}
use fabric_os.Tests.Policy.{governed, governed-ready}
use fabric_os.Tests.Data.{toy_crypto, toy_key, two_ends, hello, hello_bytes}
use fabric_os.Wire.Header.{MessageHeader}
use fabric_os.Wire.Perm
use fabric_os.Wire.Token.{token_bytes}

-- Token 1 of process 2 may read, write and grant; token 2, from it, lets process 1 write.
abbrev lent : List Operation
lent = creating 77 11 2 none none ∷ delegating 1 1 2 none none ∷ []

lent-fits : All OperationFits lent
lent-fits = (omega arith, (omega arith, tt))

abbrev lender : StoredToken
lender =
    let token = Store.make_token 11 2 1 77 0 0 in
    record {
      token = token;
      hmac = HmacEngine.sign toy_crypto toy_key (token_bytes token);
      budget = none;
      created_at = 0;
      first_child = 2;
      next_sibling = 0;
    }

abbrev borrowed : StoredToken
borrowed =
    let token = Store.make_token 2 1 2 77 1 0 in
    record {
      token = token;
      hmac = HmacEngine.sign toy_crypto toy_key (token_bytes token);
      budget = none;
      created_at = 0;
      first_child = 0;
      next_sibling = 0;
    }

abbrev lent_store : CapabilityStore
lent_store = run toy_crypto toy_key Store.new_store lent

lent-lender : Slab.get lent_store.tokens 1 ≡ some lender
unfolding run step Store.new_store Store.create Store.delegate Store.delegate_from Store.add_child
    Store.alloc_id Store.make_token Store.child_expires Perm.contains Perm.is_subset_of
    HmacEngine.sign token_bytes Slab.get Slab.modify Slab.insert Slab.insert_at Slab.new_map
    Slab.ensure_init Slab.alloc_slots Slab.find Slab.probe Slab.fib_hash Slab.following
    Slab.set_slot
lent-lender = refl

lent-borrowed : Slab.get lent_store.tokens 2 ≡ some borrowed
unfolding run step Store.new_store Store.create Store.delegate Store.delegate_from Store.add_child
    Store.alloc_id Store.make_token Store.child_expires Perm.contains Perm.is_subset_of
    HmacEngine.sign token_bytes Slab.get Slab.modify Slab.insert Slab.insert_at Slab.new_map
    Slab.ensure_init Slab.alloc_slots Slab.find Slab.probe Slab.fib_hash Slab.following
    Slab.set_slot
lent-borrowed = refl

borrowed-validated : (Checks.validate toy_crypto toy_key lent_store 2 2 1).1 ≡ ok tt
unfolding run step Store.new_store Store.create Store.delegate Store.delegate_from Store.add_child
    Store.alloc_id Store.make_token Store.child_expires Perm.contains Perm.is_subset_of
    HmacEngine.sign token_bytes Slab.get Slab.modify Slab.insert Slab.insert_at Slab.new_map
    Slab.ensure_init Slab.alloc_slots Slab.find Slab.probe Slab.fib_hash Slab.following
    Slab.set_slot Checks.validate Checks.validate_found Checks.refusal Checks.after_nonce
    Checks.spend Checks.settle HmacEngine.verify Nonce.check_and_advance Nonce.check_entry
    Nonce.new_nonces Budget.new_budgets Budget.check_and_consume Budget.consume_entry
    Slab.get_or_insert Slab.contains_key Bytes.bytes_eq Bytes.to_le
borrowed-validated = refl

abbrev letter : MessageHeader
letter = record hello { capability_id = 2 }

letter-routed : (Send.send toy_crypto toy_key two_ends letter hello_bytes 1).1 ≡ ok tt
unfolding Send.send Send.prechecks Send.payload_data Send.check_sequence Send.store_payload
    Send.deliver Send.push_envelope Send.record_sent Router.init Arena.init Sequence.check
    Router.new Sequence.new Arena.allocate Queue.push Queue.new
letter-routed = refl

abbrev ready : Kernel
ready = record { governance = governed; store = lent_store; bus = two_ends }

-- The sender is Butler, which the table always admits; the process table has its priority.
abbrev priorities : ℕ → Option ℕ
priorities p = some 3

lent-StoreValid : StoreValid lent_store []
lent-StoreValid = (run-Sound toy_crypto toy_key lent (omega arith) lent-fits).0

borrowed-owner : borrowed.token.owner ≡ 1
unfolding Store.make_token
borrowed-owner = refl

letter-Authorised : Authorised toy_crypto toy_key lent_store letter 1
letter-Authorised = inr (
  (validate-ok_iff toy_crypto toy_key lent_store 2 Perm.write 1 lent-StoreValid).0
      borrowed-validated,
  (borrowed, lent-borrowed, borrowed-owner),
)

letter-Acceptable : Acceptable toy_crypto toy_key two_ends letter hello_bytes
letter-Acceptable = (send_ok_iff toy_crypto toy_key two_ends letter hello_bytes 1).0 letter-routed

send-is_admitted_example :
    ((Entry.send toy_crypto toy_key priorities (λ ctx. denied) ready letter hello_bytes 1).1
      ≡ ok tt)
    ↔ ((is_admitted 1 3 governed.safety.state governed.acs.state ≡ true)
        × Authorised toy_crypto toy_key lent_store letter 1
        × Acceptable toy_crypto toy_key two_ends letter hello_bytes)
send-is_admitted_example =
    send-is_admitted toy_crypto toy_key priorities (λ ctx. denied) ready letter hello_bytes 1
      governed-ready.0 governed-ready.1 governed-ready.2 lent-StoreValid

letter-sent :
    (Entry.send toy_crypto toy_key priorities (λ ctx. denied) ready letter hello_bytes 1).1 ≡ ok tt
letter-sent =
    (send-is_admitted toy_crypto toy_key priorities (λ ctx. denied) ready letter hello_bytes 1
        governed-ready.0 governed-ready.1 governed-ready.2 lent-StoreValid).1
      (refl, letter-Authorised, letter-Acceptable)

send-replay_example :
    (Entry.send toy_crypto toy_key priorities
      (λ ctx. denied)
      (Entry.send toy_crypto toy_key priorities (λ ctx. denied) ready letter hello_bytes 1).0
      letter
      hello_bytes
      1).1
    ≢ ok tt
send-replay_example =
    send-replay toy_crypto toy_key priorities (λ ctx. denied) ready letter letter hello_bytes
      hello_bytes 1 1 lent-StoreValid (omega arith) letter-sent refl (omega arith)

borrowed-child : is_child (Slab.get lent_store.tokens) 1 2 ≡ true
unfolding Store.make_token
borrowed-child = rw lent-borrowed refl

send-Under_example : Perm.contains lender.token.permissions Perm.write ≡ true
send-Under_example =
    send-Under toy_crypto toy_key priorities (λ ctx. denied) ready lent letter hello_bytes 1 1
      lender refl (omega arith) lent-fits (omega arith) letter-sent lent-lender
      (delegated 1 2 borrowed-child itself)
