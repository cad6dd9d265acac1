-- ===== src/Governance/Rules.antt =====
-- kernel/src/governance/rules.rs: conditions, rules and the engine that finds the first match.
pub mod Order
pub mod Match
use fabric_os.Base.{
  ℕ, ◌+◌, ◌%◌, zero, suc, Bool, true, false, not, List, [], ◌∷◌, ◌++◌, Option, none, some, ltb, leb,
  ◌==◌, if◌then◌else◌, length, take, replicate, get_elem?,
}
use fabric_os.Base.Bytes.{bytes_eq}
use fabric_os.Base.Words.{u8_mod, u16_mod, u32_mod}
use fabric_os.Governance.Types
use fabric_os.Governance.Types.{
  SafetyState, AcsState, RuleCondition, RuleAction, PolicyVerdict, safety_code, acs_code, is_action,
}

abbrev pub max_conditions : ℕ
max_conditions = 4

abbrev pub max_rules : ℕ
max_rules = 64

pub record Condition : Type 0 where
  pub kind : RuleCondition
  pub value : ℕ

pub record EvalContext : Type 0 where
  pub sender_pid : ℕ
  pub receiver_pid : ℕ
  pub msg_type : ℕ
  pub capability_id : ℕ
  pub resource_kind : ℕ
  pub sender_priority : ℕ
  pub safety_state : SafetyState
  pub acs_state : AcsState
  pub escalated : Bool

-- The name is its bytes; `conditions` is the array of `max_conditions`.
pub record PolicyRule : Type 0 where
  pub name : List ℕ
  pub priority : ℕ
  pub condition_count : ℕ
  pub conditions : List Condition
  pub action : RuleAction

unfoldable pub evaluate_condition : Condition → EvalContext → Bool
evaluate_condition c ctx = elim c.kind [
  | RuleCondition.sender_equals ↦ ctx.sender_pid == c.value % u32_mod
  | RuleCondition.receiver_equals ↦ ctx.receiver_pid == c.value % u32_mod
  | RuleCondition.msg_type_equals ↦ ctx.msg_type == c.value % u16_mod
  | RuleCondition.resource_kind_equals ↦ ctx.resource_kind == c.value % u16_mod
  | RuleCondition.priority_below ↦ ltb ctx.sender_priority (c.value % u8_mod)
  | RuleCondition.always ↦ true
  | RuleCondition.safety_state_at_least ↦ leb (c.value % u8_mod) (safety_code ctx.safety_state)
  | RuleCondition.acs_state_equals ↦ acs_code ctx.acs_state == c.value % u8_mod
  | RuleCondition.sender_not_butler ↦ not (ctx.sender_pid == 1)
  | RuleCondition.tier_escalated ↦ ctx.escalated
]

-- The loop of `matches` over the first `n` conditions; `none` is the panic of an index past the
-- array.
unfoldable pub all_hold : ℕ → List Condition → EvalContext → Option Bool
all_hold zero cs ctx = some true
all_hold (suc n) [] ctx = none
all_hold (suc n) (c ∷ cs) ctx =
    let rest = all_hold n cs ctx in if evaluate_condition c ctx then rest else some false

unfoldable pub matches : PolicyRule → EvalContext → Option Bool
matches r ctx = all_hold r.condition_count r.conditions ctx

unfoldable pub verdict : PolicyRule → PolicyVerdict
verdict r = elim r.action [
  | RuleAction.allow ↦ PolicyVerdict.allowed
  | RuleAction.allow_if_cap_valid ↦ PolicyVerdict.allowed
  | RuleAction.deny ↦ PolicyVerdict.denied
  | RuleAction.deny_and_log ↦ PolicyVerdict.denied
  | RuleAction.escalate_to_chaos ↦ PolicyVerdict.escalate SafetyState.chaos
  | RuleAction.escalate_to_tier2 ↦ PolicyVerdict.denied
]

unfoldable pub is_tier2_escalation : PolicyRule → Bool
is_tier2_escalation r = is_action r.action RuleAction.escalate_to_tier2

-- `rules[..count]`; the slots from `count` on are not read.
pub record RuleEngine : Type 0 where
  pub rules : List PolicyRule

unfoldable pub new : RuleEngine
new = record { rules = [] }

-- The inner loop of the sort: the new rule goes left past the rules of a lower priority. The list
-- is the sorted part from its right end.
unfoldable pub sift : PolicyRule → List PolicyRule → List PolicyRule
sift r [] = r ∷ []
sift r (q ∷ qs) = if ltb q.priority r.priority then q ∷ sift r qs else r ∷ q ∷ qs

abbrev pub reverse_onto : List PolicyRule → List PolicyRule → List PolicyRule
reverse_onto [] ys = ys
reverse_onto (x ∷ xs) ys = reverse_onto xs (x ∷ ys)

-- The outer loop: `done` is the sorted part from its right end.
unfoldable pub sort_from : List PolicyRule → List PolicyRule → List PolicyRule
sort_from done [] = reverse_onto done []
sort_from done (r ∷ rs) = sort_from (sift r done) rs

unfoldable pub load_rules : RuleEngine → List PolicyRule → RuleEngine
load_rules e rs = record { rules = sort_from [] (take max_rules rs) }

-- The loop of both evaluations: the first rule that matches, if any; the outer `none` is a panic.
unfoldable pub first_match : EvalContext → List PolicyRule → Option (Option PolicyRule)
first_match ctx [] = some none
first_match ctx (r ∷ rs) =
    let rest = first_match ctx rs in
    elim (matches r ctx) [ none ↦ none | some b ↦ if b then some (some r) else rest ]

abbrev pub default_allow : List ℕ
default_allow = 100 ∷ 101 ∷ 102 ∷ 97 ∷ 117 ∷ 108 ∷ 116 ∷ 45 ∷ 97 ∷ 108 ∷ 108 ∷ 111 ∷ 119 ∷ []

unfoldable pub evaluate : RuleEngine → EvalContext → Option (PolicyVerdict × List ℕ × Bool)
evaluate e ctx = elim (first_match ctx e.rules) [
  | none ↦ none
  | some none ↦ some (PolicyVerdict.allowed, default_allow, false)
  | some (some r) ↦ some (verdict r, r.name, is_action r.action RuleAction.deny_and_log)
]

unfoldable pub evaluate_with_action : RuleEngine → EvalContext → Option (RuleAction × List ℕ)
evaluate_with_action e ctx = elim (first_match ctx e.rules) [
  | none ↦ none
  | some none ↦ some (RuleAction.allow, default_allow)
  | some (some r) ↦ some (r.action, r.name)
]

unfoldable pub rule_count : RuleEngine → ℕ
rule_count e = length e.rules

unfoldable pub get_rule : RuleEngine → ℕ → Option PolicyRule
get_rule e i = get_elem? e.rules i

unfoldable pub add_rule : RuleEngine → PolicyRule → RuleEngine × Bool
add_rule e r =
    if leb max_rules (length e.rules)
    then (e, false)
    else (record { rules = sort_from [] (e.rules ++ r ∷ []) }, true)

-- The first rule of the name goes, and those after it move down.
unfoldable pub remove_named : List ℕ → List PolicyRule → Option (List PolicyRule)
remove_named name [] = none
remove_named name (r ∷ rs) =
    let rest = remove_named name rs in
    if bytes_eq r.name name then some rs else elim rest [ none ↦ none | some qs ↦ some (r ∷ qs) ]

unfoldable pub remove_rule : RuleEngine → List ℕ → RuleEngine × Bool
remove_rule e name = elim (remove_named name e.rules) [
  | none ↦ (e, false)
  | some rs ↦ (record { rules = rs }, true)
]

unfoldable pub replace_named : List ℕ → PolicyRule → List PolicyRule → Option (List PolicyRule)
replace_named name new_rule [] = none
replace_named name new_rule (r ∷ rs) =
    let rest = replace_named name new_rule rs in
    if bytes_eq r.name name
    then some (new_rule ∷ rs)
    else elim rest [ none ↦ none | some qs ↦ some (r ∷ qs) ]

unfoldable pub replace_rule : RuleEngine → List ℕ → PolicyRule → RuleEngine × Bool
replace_rule e name new_rule = elim (replace_named name new_rule e.rules) [
  | none ↦ (e, false)
  | some rs ↦ (record { rules = sort_from [] rs }, true)
]
