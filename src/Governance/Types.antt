-- ===== src/Governance/Types.antt =====
-- fabric_types/src/governance.rs: the states, conditions, actions and verdicts of governance.
use fabric_os.Base.{ℕ, Bool, ◌==◌}

pub data SafetyState : Type 0 where
  normal elevated safe chaos lockdown : SafetyState

pub data AcsState : Type 0 where
  active degraded contingency emergency : AcsState

pub data RuleCondition : Type 0 where
  sender_equals receiver_equals msg_type_equals resource_kind_equals : RuleCondition
  priority_below always safety_state_at_least acs_state_equals : RuleCondition
  sender_not_butler tier_escalated : RuleCondition

pub data RuleAction : Type 0 where
  allow deny deny_and_log allow_if_cap_valid escalate_to_chaos escalate_to_tier2 : RuleAction

pub data PolicyVerdict : Type 0 where
  allowed denied : PolicyVerdict
  escalate : SafetyState → PolicyVerdict

pub data BreakGlassReason : Type 0 where
  governance_panic acs_succession_failed safety_lockdown : BreakGlassReason

-- `as u8`.
abbrev pub safety_code : SafetyState → ℕ
safety_code normal = 0
safety_code elevated = 1
safety_code safe = 2
safety_code chaos = 3
safety_code lockdown = 4

abbrev pub acs_code : AcsState → ℕ
acs_code active = 0
acs_code degraded = 1
acs_code contingency = 2
acs_code emergency = 3

abbrev pub condition_code : RuleCondition → ℕ
condition_code sender_equals = 0
condition_code receiver_equals = 1
condition_code msg_type_equals = 2
condition_code resource_kind_equals = 3
condition_code priority_below = 4
condition_code always = 5
condition_code safety_state_at_least = 6
condition_code acs_state_equals = 7
condition_code sender_not_butler = 8
condition_code tier_escalated = 9

abbrev pub rule_action_code : RuleAction → ℕ
rule_action_code allow = 0
rule_action_code deny = 1
rule_action_code deny_and_log = 2
rule_action_code allow_if_cap_valid = 3
rule_action_code escalate_to_chaos = 4
rule_action_code escalate_to_tier2 = 5

-- `==` on the states and the actions.
abbrev pub is_state : SafetyState → SafetyState → Bool
is_state a b = safety_code a == safety_code b

abbrev pub is_acs : AcsState → AcsState → Bool
is_acs a b = acs_code a == acs_code b

abbrev pub is_action : RuleAction → RuleAction → Bool
is_action a b = rule_action_code a == rule_action_code b
