-- ===== src/Governance/Engine.antt =====
-- kernel/src/governance/mod.rs: the engine that joins the rules, the states and the bypass.
pub mod Bypass
pub mod Genesis
pub mod Lockdown
use fabric_os.Base.{
  ℕ, ◌≡◌, Bool, true, false, List, Option, none, some, if◌then◌else◌, replicate, unwrap_or,
}
use fabric_os.Base.Bytes.{bytes_eq}
use fabric_os.Base.Results.{Result, ok, err, panic}
use fabric_os.Base.Words.{add64}
use fabric_os.Bus.Router.{BusError, policy_denied}
use fabric_os.Crypto.{Crypto}
use fabric_os.Governance.Acs
use fabric_os.Governance.Acs.{AcsStateMachine}
use fabric_os.Governance.BreakGlass
use fabric_os.Governance.BreakGlass.{BreakGlass}
use fabric_os.Governance.Constitution
use fabric_os.Governance.Constitution.{AmendmentTracker, genesis_rules, compute_constitution_hash}
use fabric_os.Governance.Rules
use fabric_os.Governance.Rules.{RuleEngine, EvalContext, evaluate, evaluate_with_action}
use fabric_os.Governance.Safety
use fabric_os.Governance.Safety.{SafetyStateMachine}
use fabric_os.Governance.Types
use fabric_os.Governance.Types.{RuleAction, PolicyVerdict, SafetyState}
use fabric_os.Wire.Header.{MessageHeader}

pub record GovernanceEngine : Type 0 where
  pub rules : RuleEngine
  pub safety : SafetyStateMachine
  pub acs : AcsStateMachine
  pub amendments : AmendmentTracker
  pub break_glass : BreakGlass
  pub constitution_hash : List ℕ
  pub current_tick : ℕ
  pub total_evaluations : ℕ
  pub total_denials : ℕ
  pub total_break_glass_bypasses : ℕ
  pub initialized : Bool

unfoldable pub new : GovernanceEngine
new = record {
  rules = Rules.new;
  safety = Safety.new;
  acs = Acs.new;
  amendments = Constitution.new;
  break_glass = BreakGlass.new;
  constitution_hash = replicate 32 0;
  current_tick = 0;
  total_evaluations = 0;
  total_denials = 0;
  total_break_glass_bypasses = 0;
  initialized = false;
}

unfoldable pub init : Crypto → GovernanceEngine → GovernanceEngine
init crypto g = record g {
  rules = Rules.load_rules g.rules genesis_rules;
  constitution_hash = compute_constitution_hash crypto genesis_rules;
  initialized = true;
}

-- The part of `tick` that moves the two state machines: the trigger is taken, and locks down.
unfoldable pub tick_states :
    SafetyStateMachine → AcsStateMachine → ℕ → SafetyStateMachine × AcsStateMachine
tick_states safety acs now =
    let taken = Acs.take_emergency_trigger (Acs.tick acs now) in
    let ticked = Safety.tick safety now in
    (if taken.1 then Safety.force_lockdown ticked now else ticked, taken.0)

-- The part that looks after the bypass.
unfoldable pub tick_break_glass : BreakGlass → SafetyStateMachine → AcsStateMachine → ℕ → BreakGlass
tick_break_glass glass safety acs now =
    let checked = (BreakGlass.check_and_activate glass safety.state acs.state now).0 in
    BreakGlass.check_recovery (BreakGlass.check_expiry checked now) safety.state

unfoldable pub tick : GovernanceEngine → GovernanceEngine
tick g =
    let now = add64 g.current_tick 1 in
    let states = tick_states g.safety g.acs now in
    record g {
      current_tick = now;
      safety = states.0;
      acs = states.1;
      break_glass = tick_break_glass g.break_glass states.0 states.1 now;
    }

unfoldable pub verify_constitution : Crypto → GovernanceEngine → Bool
verify_constitution crypto g =
    bytes_eq (compute_constitution_hash crypto genesis_rules) g.constitution_hash

unfoldable pub clear : Crypto → GovernanceEngine → GovernanceEngine
clear crypto g = record g {
  safety = Safety.reset g.safety;
  acs = Acs.reset g.acs;
  amendments = Constitution.reset g.amendments;
  break_glass = BreakGlass.reset g.break_glass;
  current_tick = 0;
  total_evaluations = 0;
  total_denials = 0;
  total_break_glass_bypasses = 0;
  rules = Rules.load_rules g.rules genesis_rules;
  constitution_hash = compute_constitution_hash crypto genesis_rules;
}

-- The context of a message: `priority` is the sender's effective priority in the process table, and
-- `kind` the kind of the resource that its capability names, if they are found.
unfoldable pub context_of : GovernanceEngine → MessageHeader → Option ℕ → Option ℕ → EvalContext
context_of g header priority kind = record {
  sender_pid = header.sender;
  receiver_pid = header.receiver;
  msg_type = header.msg_type;
  capability_id = header.capability_id;
  resource_kind = unwrap_or kind 0;
  sender_priority = unwrap_or priority 0;
  safety_state = g.safety.state;
  acs_state = g.acs.state;
  escalated = false;
}

-- A refusal, counted.
unfoldable pub refuse : GovernanceEngine → GovernanceEngine × Result Unit BusError
refuse g = (record g { total_denials = add64 g.total_denials 1 }, err policy_denied)

unfoldable pub settle : GovernanceEngine → PolicyVerdict → GovernanceEngine × Result Unit BusError
settle g PolicyVerdict.allowed = (g, ok tt)
settle g PolicyVerdict.denied = refuse g
settle g (PolicyVerdict.escalate s) = refuse g

-- The branch of `escalate_to_chaos`: the rules are evaluated again in the new state.
unfoldable pub escalate_chaos :
    GovernanceEngine → EvalContext → GovernanceEngine × Result Unit BusError
escalate_chaos g ctx =
    let up : GovernanceEngine = record g {
      safety = Safety.force_state g.safety SafetyState.chaos g.current_tick;
    } in
    let again : EvalContext = record ctx { safety_state = up.safety.state; escalated = false } in
    elim (evaluate up.rules again) [ none ↦ (up, panic) | some v ↦ settle up v.0 ]

-- What each action leads to. `council` is the verdict of the council's second tier.
unfoldable pub act :
    GovernanceEngine
    → EvalContext
    → PolicyVerdict
    → RuleAction
    → GovernanceEngine × Result Unit BusError
act g ctx council RuleAction.allow = (g, ok tt)
act g ctx council RuleAction.allow_if_cap_valid = (g, ok tt)
act g ctx council RuleAction.deny = refuse g
act g ctx council RuleAction.deny_and_log = refuse g
act g ctx council RuleAction.escalate_to_chaos = escalate_chaos g ctx
act g ctx council RuleAction.escalate_to_tier2 = settle g council

unfoldable pub evaluate_policy :
    (EvalContext → PolicyVerdict)
    → GovernanceEngine
    → MessageHeader
    → Option ℕ
    → Option ℕ
    → GovernanceEngine × Result Unit BusError
evaluate_policy council g header priority kind =
    let counted : GovernanceEngine = record g { total_evaluations = add64 g.total_evaluations 1 } in
    let ctx = context_of g header priority kind in
    if g.initialized
    then (if g.break_glass.active
        then (
          record counted {
            break_glass = BreakGlass.log_operation g.break_glass;
            total_break_glass_bypasses = add64 g.total_break_glass_bypasses 1;
          },
          ok tt,
        )
        else elim (evaluate_with_action g.rules ctx) [
          | none ↦ (g, panic)
          | some a ↦ act counted ctx (council ctx) a.0
        ])
    else (g, ok tt)

unfoldable pub heartbeat : GovernanceEngine → GovernanceEngine
heartbeat g = record g { acs = Acs.heartbeat g.acs g.current_tick }
