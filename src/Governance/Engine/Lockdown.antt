-- ===== src/Governance/Engine/Lockdown.antt =====
-- kernel/src/governance: what opens Lockdown.
use fabric_os.Base.{
  ℕ, ◌≡◌, refl, ap, sym, ◌∙◌, Bool, true, false, List, [], ◌∷◌, Option, some, All, arith, not,
}
use fabric_os.Crypto.{Crypto}
use fabric_os.Governance.Constitution.{genesis_rules}
use fabric_os.Governance.Engine.{
  GovernanceEngine, init, tick, tick_states, heartbeat, clear, evaluate_policy, act, refuse,
  context_of,
}
use fabric_os.Governance.Engine.Genesis.{by_priority, loaded, deciding, first_match-deciding}
use fabric_os.Governance.Rules
use fabric_os.Governance.Rules.{EvalContext, load_rules, evaluate_with_action, first_match}
use fabric_os.Base.Words.{add64}
use fabric_os.Governance.Acs.{AcsStateMachine}
use fabric_os.Governance.Safety
use fabric_os.Governance.Safety.{SafetyStateMachine}
use fabric_os.Governance.Safety.Moves.{Call, run_call, is_opening, run_call-lockdown, is_lockdown}
use fabric_os.Governance.Types.{PolicyVerdict, lockdown, is_state, safety_code}
use fabric_os.Wire.Header.{MessageHeader}

-- A call of the engine, or of its safety machine, which is a public field.
pub data EngineCall : Type 0 where
  initialising ticking beating clearing : EngineCall
  evaluating :
      (EvalContext → PolicyVerdict) → MessageHeader → (priority kind : Option ℕ) → EngineCall
  machine : Call → EngineCall

unfoldable pub run_engine_call : Crypto → GovernanceEngine → EngineCall → GovernanceEngine
run_engine_call crypto g initialising = init crypto g
run_engine_call crypto g ticking = tick g
run_engine_call crypto g beating = heartbeat g
run_engine_call crypto g clearing = clear crypto g
run_engine_call crypto g (evaluating council header priority kind) =
    (evaluate_policy council g header priority kind).0
run_engine_call crypto g (machine c) = record g { safety = run_call g.safety c }

unfoldable pub run_engine : Crypto → GovernanceEngine → List EngineCall → GovernanceEngine
run_engine crypto g [] = g
run_engine crypto g (c ∷ cs) = run_engine crypto (run_engine_call crypto g c) cs

-- The calls that open Lockdown: `clear`, and of the machine the human's confirmation, a forced other
-- state and the reset.
abbrev pub is_engine_opening : EngineCall → Bool
is_engine_opening clearing = true
is_engine_opening (machine c) = is_opening c
is_engine_opening _ = false

abbrev HasGenesis : GovernanceEngine → Type 0
HasGenesis g = g.rules.rules ≡ by_priority

-- The rule that decides in Lockdown does not escalate.
act-lockdown :
    (g : GovernanceEngine) (ctx : EvalContext) (council : PolicyVerdict)
    → safety_code ctx.safety_state ≡ 4
    → ((act g ctx council (deciding ctx).action).0.safety ≡ g.safety)
      × ((act g ctx council (deciding ctx).action).0.rules ≡ g.rules)
unfolding act refuse
act-lockdown g ctx council e = ground arith

evaluate_policy-lockdown :
    (council : EvalContext → PolicyVerdict) (g : GovernanceEngine) (header : MessageHeader)
    (priority kind : Option ℕ)
    → HasGenesis g
    → g.safety.state ≡ lockdown
    → ((evaluate_policy council g header priority kind).0.safety ≡ g.safety)
      × ((evaluate_policy council g header priority kind).0.rules ≡ g.rules)
unfolding evaluate_policy evaluate_with_action context_of
evaluate_policy-lockdown council g header priority kind r e =
    let ctx = context_of g header priority kind in
    let counted : GovernanceEngine = record g { total_evaluations = add64 g.total_evaluations 1 } in
    let decides : first_match ctx g.rules.rules ≡ some (some (deciding ctx)) =
      rw r (first_match-deciding ctx) in
    let code : safety_code g.safety.state ≡ 4 = ground (arith, e) in
    ground (arith, decides, act-lockdown counted ctx (council ctx) code)

tick_states-lockdown :
    (safety : SafetyStateMachine) (acs : AcsStateMachine) (now : ℕ)
    → safety.state ≡ lockdown
    → (tick_states safety acs now).0.state ≡ lockdown
unfolding tick_states Safety.tick Safety.force_lockdown Safety.transition_to
tick_states-lockdown safety acs now e = ground (arith, e)

-- What a call of the engine keeps, in Lockdown under the genesis rules.
engine_call-lockdown :
    (crypto : Crypto) (g : GovernanceEngine) (c : EngineCall)
    → HasGenesis g
    → g.safety.state ≡ lockdown
    → HasGenesis (run_engine_call crypto g c)
      × (is_state (run_engine_call crypto g c).safety.state lockdown ≡ not (is_engine_opening c))
unfolding run_engine_call init tick heartbeat clear Safety.reset Safety.new
engine_call-lockdown crypto g initialising r e = (loaded g.rules, ground (arith, e))
engine_call-lockdown crypto g ticking r e =
    (r, ground (arith, tick_states-lockdown g.safety g.acs (add64 g.current_tick 1) e))
engine_call-lockdown crypto g beating r e = (r, ground (arith, e))
engine_call-lockdown crypto g clearing r e = (loaded g.rules, refl)
engine_call-lockdown crypto g (evaluating council header priority kind) r e =
    let kept = evaluate_policy-lockdown council g header priority kind r e in
    (ap (λ k. k.rules) kept.1 ∙ r, ap (λ m. is_state m.state lockdown) kept.0 ∙ (rw e refl))
engine_call-lockdown crypto g (machine c) r e = (r, run_call-lockdown g.safety c e)

-- In Lockdown under the genesis rules, the engine stays so through any ticks, heartbeats,
-- initialisations, messages to decide on, whatever the council says, and calls of the safety
-- machine's methods, of which none is a human's confirmation, `force_state` to another state or
-- `reset`; and the next call leaves Lockdown exactly when it is one of these or the engine's
-- `clear`.
pub run_engine-lockdown :
    (crypto : Crypto) (g : GovernanceEngine) (cs : List EngineCall) (c : EngineCall)
    → g.rules.rules ≡ (load_rules Rules.new genesis_rules).rules
    → g.safety.state ≡ lockdown
    → All (λ d. is_engine_opening d ≡ false) cs
    → ((run_engine crypto g cs).safety.state ≡ lockdown)
      × (is_state (run_engine_call crypto (run_engine crypto g cs) c).safety.state lockdown
          ≡ not (is_engine_opening c))
unfolding run_engine
run_engine-lockdown crypto g [] c r e u =
    (e, (engine_call-lockdown crypto g c (r ∙ loaded Rules.new) e).1)
run_engine-lockdown crypto g (d ∷ cs) c r e u =
    let (rules, state) = engine_call-lockdown crypto g d (r ∙ loaded Rules.new) e in
    run_engine-lockdown crypto (run_engine_call crypto g d) cs c (rules ∙ sym (loaded Rules.new))
      (is_lockdown (run_engine_call crypto g d).safety.state (ground (arith, state, u.0))) u.1
