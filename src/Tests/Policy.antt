-- ===== src/Tests/Policy.antt =====
-- The theorems on the rules, at the genesis rules.
use fabric_os.Base.{◌≡◌, refl, true, false, none, some, All, arith, if◌then◌else◌}
use fabric_os.Base.Results.{ok, err}
use fabric_os.Bus.Router.{policy_denied}
use fabric_os.Governance.BreakGlass
use fabric_os.Governance.Constitution.{genesis_rules}
use fabric_os.Governance.Engine
use fabric_os.Governance.Engine.{GovernanceEngine, evaluate_policy}
use fabric_os.Governance.Engine.Genesis.{is_admitted, evaluate_policy-genesis}
use fabric_os.Governance.Rules
use fabric_os.Governance.Rules.{
  EvalContext, first_match, load_rules, add_rule, remove_rule, replace_rule,
}
use fabric_os.Governance.Rules.Match.{best, first_match-load_rules}
use fabric_os.Governance.Rules.Order.{IsSound, IsWellFormed}
use fabric_os.Governance.Types.{denied, elevated, active}
use fabric_os.Tests.Data.{toy_crypto, hello}

abbrev waiting : EvalContext
waiting = record {
  sender_pid = 5;
  receiver_pid = 2;
  msg_type = 0;
  capability_id = 0;
  resource_kind = 3;
  sender_priority = 1;
  safety_state = elevated;
  acs_state = active;
  escalated = true;
}

genesis-IsWellFormed : All IsWellFormed genesis_rules
unfolding genesis_rules
genesis-IsWellFormed = ground arith

first_match-load_rules_example :
    first_match waiting (load_rules Rules.new genesis_rules).rules
    ≡ some (best waiting none genesis_rules)
first_match-load_rules_example =
    first_match-load_rules waiting Rules.new genesis_rules (unfold genesis_rules in omega arith)
      genesis-IsWellFormed

new-IsSound : IsSound Rules.new
unfolding Rules.new
new-IsSound = (tt, omega arith)

abbrev pub governed : GovernanceEngine
governed = Engine.init toy_crypto Engine.new

pub governed-ready :
    (governed.initialized ≡ true)
    × (governed.break_glass.active ≡ false)
    × (governed.rules ≡ load_rules Rules.new genesis_rules)
unfolding Engine.init Engine.new BreakGlass.new
governed-ready = (refl, refl, refl)

evaluate_policy-genesis_example :
    (evaluate_policy (λ ctx. denied) governed hello (some 3) none).1 ≡ (
      if is_admitted 1 3 governed.safety.state governed.acs.state then ok tt else err policy_denied)
evaluate_policy-genesis_example =
    evaluate_policy-genesis (λ ctx. denied) governed hello (some 3) none governed-ready.0
      governed-ready.1 governed-ready.2
