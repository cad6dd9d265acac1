-- ===== src/Governance/Engine/Genesis.antt =====
-- kernel/src/governance: what the genesis rules decide.
use fabric_os.Base.{
  ℕ, ◌≡◌, ◌≢◌, refl, ap, ◌∙◌, Bool, true, false, List, [], ◌∷◌, Option, some, arith, ◌==◌, ◌&&◌,
  ◌||◌, not, ltb, leb, if◌then◌else◌, unwrap_or,
}
use fabric_os.Base.Results.{ok, err}
use fabric_os.Base.Words.{add64}
use fabric_os.Bus.Router.{policy_denied}
use fabric_os.Governance.Constitution.{
  genesis_rules, butler_unrestricted, lockdown_deny_all, chaos_critical_only, elevated_throttle_low,
  deny_kernel_spoof, acs_emergency_escalate, device_access_gated, normal_default_allow,
  safe_state_allow, council_escalation,
}
use fabric_os.Governance.Engine.{
  GovernanceEngine, evaluate_policy, act, refuse, settle, escalate_chaos, context_of,
}
use fabric_os.Governance.Rules
use fabric_os.Governance.Rules.{
  EvalContext, PolicyRule, RuleEngine, first_match, evaluate, evaluate_with_action, matches,
  all_hold, evaluate_condition, verdict, load_rules, sort_from, sift,
}
use fabric_os.Governance.Safety
use fabric_os.Governance.Types.{
  SafetyState, AcsState, PolicyVerdict, RuleAction, safety_code, acs_code, is_action,
}
use fabric_os.Wire.Header.{MessageHeader}

-- The rules in the order in which they are tried.
abbrev pub by_priority : List PolicyRule
by_priority =
    butler_unrestricted ∷ deny_kernel_spoof ∷ lockdown_deny_all ∷ acs_emergency_escalate
    ∷ chaos_critical_only ∷ elevated_throttle_low ∷ safe_state_allow ∷ device_access_gated
    ∷ council_escalation ∷ normal_default_allow ∷ []

pub loaded : (e : RuleEngine) → (load_rules e genesis_rules).rules ≡ by_priority
unfolding load_rules genesis_rules sort_from sift
loaded e = refl

-- The first rule of the constitution that matches.
abbrev pub deciding : EvalContext → PolicyRule
deciding ctx =
    if ctx.sender_pid == 1
    then butler_unrestricted
    else if ctx.sender_pid == 0
    then deny_kernel_spoof
    else if leb 4 (safety_code ctx.safety_state)
    then lockdown_deny_all
    else if acs_code ctx.acs_state == 3
    then acs_emergency_escalate
    else if leb 3 (safety_code ctx.safety_state) && ltb ctx.sender_priority 4
    then chaos_critical_only
    else if leb 1 (safety_code ctx.safety_state) && ltb ctx.sender_priority 2
    then elevated_throttle_low
    else if leb 2 (safety_code ctx.safety_state)
    then safe_state_allow
    else if ctx.resource_kind == 3
    then device_access_gated
    else if ctx.resource_kind == 6
    then council_escalation
    else normal_default_allow

pub first_match-deciding :
    (ctx : EvalContext) → first_match ctx by_priority ≡ some (some (deciding ctx))
unfolding first_match matches all_hold evaluate_condition
first_match-deciding ctx = ground arith

-- The constitution in words: Butler is always admitted, the kernel's own number never; in Lockdown
-- and in Emergency no one else is; from Chaos on a priority of 4 is wanted, and outside Normal one
-- of 2.
abbrev pub is_admitted : ℕ → ℕ → SafetyState → AcsState → Bool
is_admitted sender priority safety acs =
    if sender == 1
    then true
    else not (
        sender == 0
        || leb 4 (safety_code safety)
        || acs_code acs == 3
        || (leb 3 (safety_code safety) && ltb priority 4)
        || (leb 1 (safety_code safety) && ltb priority 2))

-- In Chaos, Emergency escalates again, which is a refusal.
deciding-chaos :
    (ctx : EvalContext)
    → ctx.safety_state ≡ SafetyState.chaos
    → acs_code ctx.acs_state ≡ 3
    → ctx.sender_pid ≢ 0
    → ctx.sender_pid ≢ 1
    → deciding ctx ≡ acs_emergency_escalate
deciding-chaos ctx c a z b = ground arith

evaluate-deciding :
    (e : RuleEngine) (ctx : EvalContext)
    → e.rules ≡ by_priority
    → evaluate e ctx
      ≡ some (
        verdict (deciding ctx),
        (deciding ctx).name,
        is_action (deciding ctx).action RuleAction.deny_and_log,
      )
unfolding evaluate verdict
evaluate-deciding e ctx h =
    let m : first_match ctx e.rules ≡ some (some (deciding ctx)) =
      rw h (first_match-deciding ctx) in
    rw (m, evaluate) refl

escalate_chaos-denied :
    (g : GovernanceEngine) (ctx : EvalContext)
    → g.rules.rules ≡ by_priority
    → acs_code ctx.acs_state ≡ 3
    → ctx.sender_pid ≢ 0
    → ctx.sender_pid ≢ 1
    → (escalate_chaos g ctx).1 ≡ err policy_denied
unfolding settle refuse verdict escalate_chaos
escalate_chaos-denied g ctx e a z b =
    let forced = Safety.force_state g.safety SafetyState.chaos g.current_tick in
    let again : EvalContext = record ctx { safety_state = forced.state; escalated = false } in
    rw
      (
        evaluate-deciding g.rules again e,
        escalate_chaos,
        deciding-chaos again (forced_chaos g.safety g.current_tick) a z b,
      )
      refl
  where
    forced_chaos :
        (m : Safety.SafetyStateMachine) (t : ℕ)
        → (Safety.force_state m SafetyState.chaos t).state ≡ SafetyState.chaos
    forced_chaos m t = unfold Safety.force_state Safety.transition_to in ground arith

act-deciding :
    (g : GovernanceEngine) (ctx : EvalContext) (council : PolicyVerdict)
    → g.rules.rules ≡ by_priority
    → (act g ctx council (deciding ctx).action).1 ≡ (
        if is_admitted ctx.sender_pid ctx.sender_priority ctx.safety_state ctx.acs_state
        then ok tt
        else err policy_denied)
unfolding act refuse
act-deciding g ctx council e = ground (arith, escalate_chaos-denied g ctx e)

-- With the genesis rules loaded and the bypass shut, a message is allowed or refused as a short
-- decision table over the sender, its priority and the two states says, whatever its receiver,
-- type and resource and the council.
pub evaluate_policy-genesis :
    (council : EvalContext → PolicyVerdict) (g : GovernanceEngine) (header : MessageHeader)
    (priority kind : Option ℕ)
    → g.initialized ≡ true
    → g.break_glass.active ≡ false
    → g.rules ≡ load_rules Rules.new genesis_rules
    → (evaluate_policy council g header priority kind).1 ≡ (
        if is_admitted header.sender (unwrap_or priority 0) g.safety.state g.acs.state
        then ok tt
        else err policy_denied)
unfolding evaluate_policy evaluate_with_action context_of
evaluate_policy-genesis council g header priority kind i b r =
    let ctx = context_of g header priority kind in
    let rules = ap (λ e. e.rules) r ∙ loaded Rules.new in
    let counted : GovernanceEngine = record g { total_evaluations = add64 g.total_evaluations 1 } in
    rw (i, b, rules, first_match-deciding ctx) (act-deciding counted ctx (council ctx) rules)
