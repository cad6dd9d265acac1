-- ===== src/Governance/BreakGlass.antt =====
-- kernel/src/governance/break_glass.rs: the emergency bypass of governance.
use fabric_os.Base.{ℕ, ◌-◌, Bool, true, false, ◌&&◌, ◌||◌, ltb, leb, if◌then◌else◌}
use fabric_os.Base.Words.{add32, add64}
use fabric_os.Governance.Types.{
  SafetyState, AcsState, BreakGlassReason, normal, elevated, lockdown, emergency, safety_lockdown,
  is_state, is_acs,
}

abbrev pub break_glass_expiry_ticks : ℕ
break_glass_expiry_ticks = 60000

pub record BreakGlass : Type 0 where
  pub active : Bool
  pub activated_tick : ℕ
  pub expiry_tick : ℕ
  pub reason : BreakGlassReason
  pub operations_logged : ℕ
  pub total_activations : ℕ

unfoldable pub new : BreakGlass
new = record {
  active = false;
  activated_tick = 0;
  expiry_tick = 0;
  reason = safety_lockdown;
  operations_logged = 0;
  total_activations = 0;
}

unfoldable pub activate : BreakGlass → BreakGlassReason → ℕ → BreakGlass
activate g reason current_tick = record g {
  active = true;
  activated_tick = current_tick;
  expiry_tick = add64 current_tick break_glass_expiry_ticks;
  reason = reason;
  operations_logged = 0;
  total_activations = add32 g.total_activations 1;
}

unfoldable pub deactivate : BreakGlass → BreakGlass
deactivate g = record g { active = false }

unfoldable pub check_and_activate : BreakGlass → SafetyState → AcsState → ℕ → BreakGlass × Bool
check_and_activate g safety acs current_tick =
    if g.active
    then (if leb g.expiry_tick current_tick then deactivate g else g, false)
    else if is_state safety lockdown && is_acs acs emergency
    then (activate g safety_lockdown current_tick, true)
    else (g, false)

unfoldable pub log_operation : BreakGlass → BreakGlass
log_operation g = record g { operations_logged = add32 g.operations_logged 1 }

unfoldable pub check_expiry : BreakGlass → ℕ → BreakGlass
check_expiry g current_tick = if g.active && leb g.expiry_tick current_tick then deactivate g else g

unfoldable pub check_recovery : BreakGlass → SafetyState → BreakGlass
check_recovery g safety =
    if g.active && (is_state safety normal || is_state safety elevated) then deactivate g else g

unfoldable pub remaining_ticks : BreakGlass → ℕ → ℕ
remaining_ticks g current_tick =
    if g.active && ltb current_tick g.expiry_tick then g.expiry_tick - current_tick else 0

unfoldable pub reset : BreakGlass → BreakGlass
unfolding new
reset g = new
