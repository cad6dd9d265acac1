-- ===== src/Governance/Engine/Bypass.antt =====
-- kernel/src/governance/mod.rs: when the emergency bypass opens and how long it stays open.
use fabric_os.Base.{ℕ, ◌+◌, ◌≤◌, ◌<◌, ◌≡◌, ◌≢◌, ◌↔◌, ◌⊎◌, true, false, Option, arith}
use fabric_os.Base.Results.{ok}
use fabric_os.Base.Words.{u64_mod}
use fabric_os.Governance.Acs
use fabric_os.Governance.Acs.{AcsStateMachine}
use fabric_os.Governance.BreakGlass
use fabric_os.Governance.BreakGlass.{BreakGlass, break_glass_expiry_ticks}
use fabric_os.Governance.Engine.{
  GovernanceEngine, tick, tick_states, tick_break_glass, evaluate_policy,
}
use fabric_os.Governance.Rules.{EvalContext}
use fabric_os.Governance.Safety
use fabric_os.Governance.Safety.{SafetyStateMachine}
use fabric_os.Governance.Types.{PolicyVerdict, emergency, lockdown}
use fabric_os.Wire.Header.{MessageHeader}

-- An open bypass ends within `break_glass_expiry_ticks` of the present tick.
abbrev pub IsTimed : BreakGlass → ℕ → Type 0
IsTimed glass now =
    (glass.active ≡ false)
    ⊎ ((now < glass.expiry_tick) × (glass.expiry_tick ≤ now + break_glass_expiry_ticks))

glass-opens :
    (glass : BreakGlass) (safety : SafetyStateMachine) (acs : AcsStateMachine) (now : ℕ)
    → glass.active ≡ false
    → now + break_glass_expiry_ticks < u64_mod
    → ((tick_break_glass glass safety acs now).active ≡ true)
      ↔ ((safety.state ≡ lockdown) × (acs.state ≡ emergency))
unfolding tick_break_glass BreakGlass.check_and_activate BreakGlass.check_expiry
    BreakGlass.check_recovery BreakGlass.activate BreakGlass.deactivate
glass-opens glass safety acs now e fits = ground arith

glass-IsTimed :
    (glass : BreakGlass) (safety : SafetyStateMachine) (acs : AcsStateMachine) (now : ℕ)
    → IsTimed glass now
    → now + 1 + break_glass_expiry_ticks < u64_mod
    → IsTimed (tick_break_glass glass safety acs (now + 1)) (now + 1)
unfolding tick_break_glass BreakGlass.check_and_activate BreakGlass.check_expiry
    BreakGlass.check_recovery BreakGlass.activate BreakGlass.deactivate
glass-IsTimed glass safety acs now t fits = ground arith

-- A tick opens a closed bypass exactly when it leaves the engine in Lockdown and in Emergency, as
-- long as the end of a bypass fits 64 bits.
pub tick-opens :
    (g : GovernanceEngine)
    → g.break_glass.active ≡ false
    → g.current_tick + 1 + break_glass_expiry_ticks < u64_mod
    → ((tick g).break_glass.active ≡ true)
      ↔ (((tick g).safety.state ≡ lockdown) × ((tick g).acs.state ≡ emergency))
unfolding tick
tick-opens g e fits =
    let now = g.current_tick + 1 in
    let states = tick_states g.safety g.acs now in
    ground (arith, glass-opens g.break_glass states.0 states.1 now e)

-- A tick keeps this true: the bypass is closed, or its end is ahead and at most 60000 ticks away;
-- as long as the end of a bypass fits 64 bits.
pub tick-IsTimed :
    (g : GovernanceEngine)
    → IsTimed g.break_glass g.current_tick
    → g.current_tick + 1 + break_glass_expiry_ticks < u64_mod
    → IsTimed (tick g).break_glass (tick g).current_tick
unfolding tick
tick-IsTimed g t fits =
    let now = g.current_tick + 1 in
    let states = tick_states g.safety g.acs now in
    ground (arith, glass-IsTimed g.break_glass states.0 states.1 g.current_tick t fits)

-- The tick that finds the authority silent for too long, and so enters Emergency, locks down.
tick-lockdown :
    (g : GovernanceEngine)
    → g.acs.emergency_triggered ≡ false
    → g.acs.state ≢ emergency
    → (tick g).acs.state ≡ emergency
    → (tick g).safety.state ≡ lockdown
unfolding tick tick_states Acs.take_emergency_trigger Acs.tick Acs.enter_emergency Acs.transition_to
    Safety.force_lockdown Safety.transition_to
tick-lockdown g f s e = ground arith

-- After the tick that enters Emergency, with the bypass shut and no trigger pending before, every
-- message is allowed, whatever the rules say, as long as the end of a bypass fits 64 bits.
pub evaluate_policy-tick_emergency :
    (council : EvalContext → PolicyVerdict) (g : GovernanceEngine) (header : MessageHeader)
    (priority kind : Option ℕ)
    → g.acs.emergency_triggered ≡ false
    → g.break_glass.active ≡ false
    → g.current_tick + 1 + break_glass_expiry_ticks < u64_mod
    → g.acs.state ≢ emergency
    → (tick g).acs.state ≡ emergency
    → (evaluate_policy council (tick g) header priority kind).1 ≡ ok tt
unfolding evaluate_policy
evaluate_policy-tick_emergency council g header priority kind f b fits s e =
    let opens = tick-opens g b fits in
    let shut = tick-lockdown g f s e in ground (arith, opens, shut)
