-- ===== src/Governance/Constitution.antt =====
-- kernel/src/governance/constitution.rs: the genesis rules, their hash and the amendments.
pub mod Amendments
use fabric_os.Base.{
  ℕ, zero, suc, Bool, true, false, not, List, [], ◌∷◌, ◌++◌, ltb, if◌then◌else◌, ◌&&◌,
}
use fabric_os.Base.Bytes.{to_le}
use fabric_os.Base.Words.{add32, saturating_sub}
use fabric_os.Crypto.{Crypto}
use fabric_os.Governance.Types
use fabric_os.Governance.Types.{
  SafetyState, RuleCondition, RuleAction, normal, is_state, condition_code, rule_action_code,
}
use fabric_os.Governance.Rules.{Condition, PolicyRule}

abbrev pub amendment_cooling_ticks : ℕ
amendment_cooling_ticks = 86400000

abbrev pub condition : RuleCondition → ℕ → Condition
condition kind value = record { kind = kind; value = value }

abbrev pub empty_cond : Condition
empty_cond = condition RuleCondition.always 0

-- "butler-unrestricted"
abbrev pub butler_unrestricted : PolicyRule
butler_unrestricted = record {
  name =
      98 ∷ 117 ∷ 116 ∷ 108 ∷ 101 ∷ 114 ∷ 45 ∷ 117 ∷ 110 ∷ 114 ∷ 101 ∷ 115 ∷ 116 ∷ 114 ∷ 105 ∷ 99
      ∷ 116 ∷ 101 ∷ 100 ∷ [];
  priority = 1000;
  condition_count = 1;
  conditions = condition RuleCondition.sender_equals 1 ∷ empty_cond ∷ empty_cond ∷ empty_cond ∷ [];
  action = RuleAction.allow;
}

-- "lockdown-deny-all"
abbrev pub lockdown_deny_all : PolicyRule
lockdown_deny_all = record {
  name =
      108 ∷ 111 ∷ 99 ∷ 107 ∷ 100 ∷ 111 ∷ 119 ∷ 110 ∷ 45 ∷ 100 ∷ 101 ∷ 110 ∷ 121 ∷ 45 ∷ 97 ∷ 108
      ∷ 108 ∷ [];
  priority = 900;
  condition_count = 2;
  conditions =
      condition RuleCondition.safety_state_at_least 4
      ∷ condition RuleCondition.sender_not_butler 0
      ∷ empty_cond
      ∷ empty_cond
      ∷ [];
  action = RuleAction.deny_and_log;
}

-- "chaos-critical-only"
abbrev pub chaos_critical_only : PolicyRule
chaos_critical_only = record {
  name =
      99 ∷ 104 ∷ 97 ∷ 111 ∷ 115 ∷ 45 ∷ 99 ∷ 114 ∷ 105 ∷ 116 ∷ 105 ∷ 99 ∷ 97 ∷ 108 ∷ 45 ∷ 111 ∷ 110
      ∷ 108 ∷ 121 ∷ [];
  priority = 800;
  condition_count = 3;
  conditions =
      condition RuleCondition.safety_state_at_least 3
      ∷ condition RuleCondition.sender_not_butler 0
      ∷ condition RuleCondition.priority_below 4
      ∷ empty_cond
      ∷ [];
  action = RuleAction.deny_and_log;
}

-- "elevated-throttle-low"
abbrev pub elevated_throttle_low : PolicyRule
elevated_throttle_low = record {
  name =
      101 ∷ 108 ∷ 101 ∷ 118 ∷ 97 ∷ 116 ∷ 101 ∷ 100 ∷ 45 ∷ 116 ∷ 104 ∷ 114 ∷ 111 ∷ 116 ∷ 116 ∷ 108
      ∷ 101 ∷ 45 ∷ 108 ∷ 111 ∷ 119 ∷ [];
  priority = 700;
  condition_count = 2;
  conditions =
      condition RuleCondition.safety_state_at_least 1
      ∷ condition RuleCondition.priority_below 2
      ∷ empty_cond
      ∷ empty_cond
      ∷ [];
  action = RuleAction.deny;
}

-- "deny-kernel-spoof"
abbrev pub deny_kernel_spoof : PolicyRule
deny_kernel_spoof = record {
  name =
      100 ∷ 101 ∷ 110 ∷ 121 ∷ 45 ∷ 107 ∷ 101 ∷ 114 ∷ 110 ∷ 101 ∷ 108 ∷ 45 ∷ 115 ∷ 112 ∷ 111 ∷ 111
      ∷ 102 ∷ [];
  priority = 950;
  condition_count = 1;
  conditions = condition RuleCondition.sender_equals 0 ∷ empty_cond ∷ empty_cond ∷ empty_cond ∷ [];
  action = RuleAction.deny_and_log;
}

-- "acs-emergency-escalate"
abbrev pub acs_emergency_escalate : PolicyRule
acs_emergency_escalate = record {
  name =
      97 ∷ 99 ∷ 115 ∷ 45 ∷ 101 ∷ 109 ∷ 101 ∷ 114 ∷ 103 ∷ 101 ∷ 110 ∷ 99 ∷ 121 ∷ 45 ∷ 101 ∷ 115 ∷ 99
      ∷ 97 ∷ 108 ∷ 97 ∷ 116 ∷ 101 ∷ [];
  priority = 850;
  condition_count = 1;
  conditions =
      condition RuleCondition.acs_state_equals 3 ∷ empty_cond ∷ empty_cond ∷ empty_cond ∷ [];
  action = RuleAction.escalate_to_chaos;
}

-- "device-access-gated"
abbrev pub device_access_gated : PolicyRule
device_access_gated = record {
  name =
      100 ∷ 101 ∷ 118 ∷ 105 ∷ 99 ∷ 101 ∷ 45 ∷ 97 ∷ 99 ∷ 99 ∷ 101 ∷ 115 ∷ 115 ∷ 45 ∷ 103 ∷ 97 ∷ 116
      ∷ 101 ∷ 100 ∷ [];
  priority = 600;
  condition_count = 2;
  conditions =
      condition RuleCondition.resource_kind_equals 3
      ∷ condition RuleCondition.sender_not_butler 0
      ∷ empty_cond
      ∷ empty_cond
      ∷ [];
  action = RuleAction.allow_if_cap_valid;
}

-- "normal-default-allow"
abbrev pub normal_default_allow : PolicyRule
normal_default_allow = record {
  name =
      110 ∷ 111 ∷ 114 ∷ 109 ∷ 97 ∷ 108 ∷ 45 ∷ 100 ∷ 101 ∷ 102 ∷ 97 ∷ 117 ∷ 108 ∷ 116 ∷ 45 ∷ 97 ∷ 108
      ∷ 108 ∷ 111 ∷ 119 ∷ [];
  priority = 100;
  condition_count = 1;
  conditions = condition RuleCondition.always 0 ∷ empty_cond ∷ empty_cond ∷ empty_cond ∷ [];
  action = RuleAction.allow;
}

-- "safe-state-allow"
abbrev pub safe_state_allow : PolicyRule
safe_state_allow = record {
  name =
      115 ∷ 97 ∷ 102 ∷ 101 ∷ 45 ∷ 115 ∷ 116 ∷ 97 ∷ 116 ∷ 101 ∷ 45 ∷ 97 ∷ 108 ∷ 108 ∷ 111 ∷ 119 ∷ [];
  priority = 650;
  condition_count = 2;
  conditions =
      condition RuleCondition.safety_state_at_least 2
      ∷ condition RuleCondition.sender_not_butler 0
      ∷ empty_cond
      ∷ empty_cond
      ∷ [];
  action = RuleAction.allow_if_cap_valid;
}

-- "council-escalation"
abbrev pub council_escalation : PolicyRule
council_escalation = record {
  name =
      99 ∷ 111 ∷ 117 ∷ 110 ∷ 99 ∷ 105 ∷ 108 ∷ 45 ∷ 101 ∷ 115 ∷ 99 ∷ 97 ∷ 108 ∷ 97 ∷ 116 ∷ 105 ∷ 111
      ∷ 110 ∷ [];
  priority = 550;
  condition_count = 2;
  conditions =
      condition RuleCondition.resource_kind_equals 6
      ∷ condition RuleCondition.sender_not_butler 0
      ∷ empty_cond
      ∷ empty_cond
      ∷ [];
  action = RuleAction.allow_if_cap_valid;
}

unfoldable pub genesis_rules : List PolicyRule
genesis_rules =
    butler_unrestricted ∷ lockdown_deny_all ∷ chaos_critical_only ∷ elevated_throttle_low
    ∷ deny_kernel_spoof ∷ acs_emergency_escalate ∷ device_access_gated ∷ normal_default_allow
    ∷ safe_state_allow ∷ council_escalation ∷ []

-- The bytes of the first `n` conditions. The source panics on a count past the array; it hashes
-- the genesis rules only, whose counts are within it.
unfoldable pub condition_bytes : ℕ → List Condition → List ℕ
condition_bytes zero cs = []
condition_bytes (suc n) [] = []
condition_bytes (suc n) (c ∷ cs) =
    condition_code c.kind ∷ [] ++ (to_le 8 c.value ++ condition_bytes n cs)

unfoldable pub rule_bytes : PolicyRule → List ℕ
rule_bytes r =
    r.name
    ++ (to_le 2 r.priority
        ++ (to_le 1 r.condition_count
            ++ (condition_bytes r.condition_count r.conditions
                ++ (rule_action_code r.action ∷ []))))

unfoldable pub rules_bytes : List PolicyRule → List ℕ
rules_bytes [] = []
rules_bytes (r ∷ rs) = rule_bytes r ++ rules_bytes rs

unfoldable pub compute_constitution_hash : Crypto → List PolicyRule → List ℕ
compute_constitution_hash crypto rs = crypto.sha3_256 (rules_bytes rs)

pub record AmendmentTracker : Type 0 where
  pub last_proposal_tick : ℕ
  pub total_amendments : ℕ
  pub cooling : Bool

unfoldable pub new : AmendmentTracker
new = record { last_proposal_tick = 0; total_amendments = 0; cooling = false }

abbrev pub is_early : AmendmentTracker → ℕ → Bool
is_early a current_tick =
    ltb (saturating_sub current_tick a.last_proposal_tick) amendment_cooling_ticks

unfoldable pub propose : AmendmentTracker → SafetyState → ℕ → AmendmentTracker × Bool
propose a safety_state current_tick =
    if not (is_state safety_state normal)
    then (a, false)
    else if a.cooling && is_early a current_tick
    then (a, false)
    else (record a { last_proposal_tick = current_tick; cooling = true }, true)

unfoldable pub apply : AmendmentTracker → ℕ → AmendmentTracker × Bool
apply a current_tick =
    if not a.cooling
    then (a, false)
    else if is_early a current_tick
    then (a, false)
    else (record a { total_amendments = add32 a.total_amendments 1; cooling = false }, true)

unfoldable pub reset : AmendmentTracker → AmendmentTracker
reset a = record { last_proposal_tick = 0; total_amendments = 0; cooling = false }
