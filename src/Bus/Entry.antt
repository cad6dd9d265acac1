-- ===== src/Bus/Entry.antt =====
-- kernel/src/bus/mod.rs: the functions that the rest of the kernel calls, which join governance, the
-- capability store and the router. Each lock is held for one call, and no other call comes between.
pub mod Accept
pub mod Rights
use fabric_os.Base.{ℕ, ◌/◌, ◌%◌, List, Option, none, some, ◌==◌, if◌then◌else◌}
use fabric_os.Base.Results.{Result, ok, err, panic}
use fabric_os.Base.Words.{u16_mod}
use fabric_os.Bus.Monitor.{MonitorFilter}
use fabric_os.Bus.Queue.{Envelope}
use fabric_os.Bus.Router
use fabric_os.Bus.Router.{BusRouter, BusError, capability_invalid, owner_mismatch}
use fabric_os.Bus.Router.Send
use fabric_os.Capability.Errors.{CapabilityError, not_found}
use fabric_os.Capability.Store
use fabric_os.Capability.Store.Checks
use fabric_os.Capability.Store.{CapabilityStore}
use fabric_os.Crypto.{Crypto}
use fabric_os.Governance.Engine
use fabric_os.Governance.Engine.{GovernanceEngine}
use fabric_os.Governance.Rules.{EvalContext}
use fabric_os.Governance.Types.{PolicyVerdict}
use fabric_os.Wire.Header.{MessageHeader}
use fabric_os.Wire.Perm
use mathlib.Core.Option.{map}

-- What the statics GOVERNANCE, STORE and BUS hold.
pub record Kernel : Type 0 where
  pub governance : GovernanceEngine
  pub store : CapabilityStore
  pub bus : BusRouter

-- The upper 16 bits of a resource id.
unfoldable pub resource_kind : ℕ → ℕ
resource_kind resource = (resource / 281474976710656) % u16_mod

-- "cap owner must match sender"
unfoldable pub check_owner : CapabilityStore → MessageHeader → Result (Unit {0}) BusError
check_owner s h = elim (Store.get_token_info s h.capability_id) [
  | none ↦ err (capability_invalid not_found)
  | some info ↦ if info.0 == h.sender then ok tt else err owner_mismatch
]

-- The answer of `validate`, and the check of the owner after it.
unfoldable pub owned :
    MessageHeader
    → CapabilityStore × Result (Unit {0}) CapabilityError
    → CapabilityStore × Result (Unit {0}) BusError
owned h (s, ok u) = (s, check_owner s h)
owned h (s, err e) = (s, err (capability_invalid e))
owned h (s, panic) = (s, panic)

module _ (crypto : Crypto) (key : List ℕ) where
  unfoldable pub check_capability :
      CapabilityStore → MessageHeader → ℕ → CapabilityStore × Result (Unit {0}) BusError
  check_capability s h nonce =
      if h.capability_id == 0
      then (s, ok tt)
      else owned h (Checks.validate crypto key s h.capability_id Perm.write nonce)

-- The context's priority and the council's verdict come from the process table and the council.
module _ (crypto : Crypto) (key : List ℕ) (priority : ℕ → Option ℕ)
    (council : EvalContext → PolicyVerdict) where
  unfoldable pub check_policy :
      Kernel → MessageHeader → GovernanceEngine × Result (Unit {0}) BusError
  check_policy k h =
      Engine.evaluate_policy council k.governance h (priority h.sender)
        (map (λ info. resource_kind info.1) (Store.get_token_info k.store h.capability_id))

  -- "All pre-checks passed": the router's `send`.
  unfoldable pub routed :
      Kernel
      → MessageHeader
      → Option (List ℕ)
      → ℕ
      → CapabilityStore × Result (Unit {0}) BusError
      → Kernel × Result (Unit {0}) BusError
  routed k h payload nonce (s, ok u) =
      let (bus, result) = Send.send crypto key k.bus h payload nonce in
      (record k { store = s; bus = bus }, result)
  routed k h payload nonce (s, err e) = (record k { store = s }, err e)
  routed k h payload nonce (s, panic) = (record k { store = s }, panic)

  unfoldable pub governed :
      Kernel
      → MessageHeader
      → Option (List ℕ)
      → ℕ
      → GovernanceEngine × Result (Unit {0}) BusError
      → Kernel × Result (Unit {0}) BusError
  governed k h payload nonce (g, ok u) =
      routed (record k { governance = g }) h payload nonce
        (check_capability crypto key k.store h nonce)
  governed k h payload nonce (g, err e) = (record k { governance = g }, err e)
  governed k h payload nonce (g, panic) = (record k { governance = g }, panic)

  unfoldable pub send :
      Kernel → MessageHeader → Option (List ℕ) → ℕ → Kernel × Result (Unit {0}) BusError
  send k h payload nonce = governed k h payload nonce (check_policy k h)

unfoldable pub init : Kernel → Kernel
init k = record k { bus = Router.init k.bus }

unfoldable pub register_process : Kernel → ℕ → Kernel × Result (Unit {0}) BusError
register_process k pid =
    let (bus, result) = Router.register_process k.bus pid in (record k { bus = bus }, result)

unfoldable pub receive : Kernel → ℕ → Kernel × Option Envelope
receive k pid = let (bus, env) = Router.receive k.bus pid in (record k { bus = bus }, env)

unfoldable pub register_monitor : Kernel → MonitorFilter → Kernel × Result ℕ BusError
register_monitor k filter =
    let (bus, result) = Router.register_monitor k.bus filter in (record k { bus = bus }, result)
