-- ===== src/Tests/States.antt =====
-- The theorems on the state machines of governance, at concrete states and ticks.
use fabric_os.Base.{List, some, ap, ◌≡◌, refl, [], ◌∷◌, none, true, false, arith}
use fabric_os.Base.Results.{ok}
use fabric_os.Governance.Acs
use fabric_os.Governance.Acs.{AcsStateMachine}
use fabric_os.Governance.Acs.DeadMan.{run_ticks, run_ticks-Emergency}
use fabric_os.Governance.BreakGlass
use fabric_os.Governance.Constitution
use fabric_os.Governance.Constitution.Amendments.{proposing, applying, attempts, attempts-propose}
use fabric_os.Governance.Engine
use fabric_os.Governance.Engine.{GovernanceEngine, evaluate_policy}
use fabric_os.Governance.Engine.Bypass.{evaluate_policy-tick_emergency}
use fabric_os.Governance.Safety
use fabric_os.Governance.Safety.{SafetyStateMachine, io_anomaly, hysteresis_window_ticks}
use fabric_os.Governance.Safety.Moves.{alarm, confirming}
use fabric_os.Governance.Engine.Lockdown.{
  EngineCall, ticking, evaluating, machine, run_engine_call, run_engine, run_engine-lockdown,
}
use fabric_os.Tests.Policy.{governed, governed-ready}
use fabric_os.Governance.Types.{emergency, contingency, normal, lockdown, denied, is_state}
use fabric_os.Tests.Data.{toy_crypto, hello}

run_ticks-Emergency_example :
    (run_ticks Acs.new (14400000 ∷ 14400001 ∷ 14400002 ∷ [])).state ≡ emergency
unfolding Acs.new
run_ticks-Emergency_example =
    run_ticks-Emergency Acs.new 14400000 14400001 14400002 (omega arith) (omega arith) (omega arith)

abbrev locked : SafetyStateMachine
locked = record Safety.new { state = lockdown }

-- The engine after its boot, locked down.
abbrev locked_engine : GovernanceEngine
locked_engine = record governed { safety = locked }

-- A tick, a message to decide on, and an alarm.
abbrev busy : List EngineCall
busy = ticking ∷ evaluating (λ ctx. denied) hello (some 3) none ∷ machine (alarm 3000001) ∷ []

run_engine-lockdown_example :
    ((run_engine toy_crypto locked_engine busy).safety.state ≡ lockdown)
    × (is_state
          (run_engine_call toy_crypto
            (run_engine toy_crypto locked_engine busy)
            (machine (confirming 3000002))).safety.state
          lockdown
        ≡ false)
run_engine-lockdown_example =
    run_engine-lockdown toy_crypto locked_engine busy (machine (confirming 3000002))
      (ap (λ e. e.rules) governed-ready.2) refl (refl, (refl, (refl, tt)))

accepted_proposal : (Constitution.propose Constitution.new normal 10).1 ≡ true
unfolding Constitution.propose Constitution.new
accepted_proposal = refl

attempts-propose_example :
    attempts
      (Constitution.propose Constitution.new normal 10).0
      (applying 11 ∷ proposing normal 86400009 ∷ [])
    ≡ (Constitution.propose Constitution.new normal 10).0
attempts-propose_example =
    attempts-propose Constitution.new normal 10 (applying 11 ∷ proposing normal 86400009 ∷ [])
      accepted_proposal (omega arith, (omega arith, tt))

-- Four hours after the last heartbeat, one tick before Emergency.
abbrev silent : GovernanceEngine
silent = record Engine.new { current_tick = 14400000; acs = record Acs.new { state = contingency } }

silent-shut : silent.break_glass.active ≡ false
unfolding Engine.new BreakGlass.new
silent-shut = refl

silent-Emergency : (Engine.tick silent).acs.state ≡ emergency
unfolding Engine.tick Engine.new Engine.tick_states Acs.new Acs.tick Acs.take_emergency_trigger
    Acs.enter_emergency Acs.transition_to
silent-Emergency = refl

evaluate_policy-tick_emergency_example :
    (evaluate_policy (λ ctx. denied) (Engine.tick silent) hello none none).1 ≡ ok tt
unfolding Acs.new
evaluate_policy-tick_emergency_example =
    evaluate_policy-tick_emergency (λ ctx. denied) silent hello none none refl silent-shut
      (omega arith) (ground arith) silent-Emergency
