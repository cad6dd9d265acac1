-- ===== src/Governance/Acs.antt =====
-- kernel/src/governance/acs.rs: the lifecycle of the primary authority.
pub mod DeadMan
use fabric_os.Base.{ℕ, Bool, true, false, ◌&&◌, leb, if◌then◌else◌}
use fabric_os.Base.Words.{add64, saturating_sub}
use fabric_os.Governance.Types.{AcsState, active, degraded, contingency, emergency, is_acs}

abbrev pub degraded_threshold_ticks : ℕ
degraded_threshold_ticks = 3600000

abbrev pub contingency_threshold_ticks : ℕ
contingency_threshold_ticks = 7200000

abbrev pub emergency_threshold_ticks : ℕ
emergency_threshold_ticks = 14400000

pub record AcsStateMachine : Type 0 where
  pub state : AcsState
  pub last_heartbeat_tick : ℕ
  pub alternate_exists : Bool
  pub total_transitions : ℕ
  pub emergency_triggered : Bool

unfoldable pub new : AcsStateMachine
new = record {
  state = active;
  last_heartbeat_tick = 0;
  alternate_exists = false;
  total_transitions = 0;
  emergency_triggered = false;
}

unfoldable pub transition_to : AcsStateMachine → AcsState → AcsStateMachine
transition_to m new_state =
    if is_acs m.state new_state
    then m
    else record m { state = new_state; total_transitions = add64 m.total_transitions 1 }

unfoldable pub take_emergency_trigger : AcsStateMachine → AcsStateMachine × Bool
take_emergency_trigger m = (record m { emergency_triggered = false }, m.emergency_triggered)

unfoldable pub set_alternate_exists : AcsStateMachine → Bool → AcsStateMachine
set_alternate_exists m exists = record m { alternate_exists = exists }

-- The transition to Emergency, with its trigger.
unfoldable pub enter_emergency : AcsStateMachine → AcsStateMachine
enter_emergency m = let t = transition_to m emergency in record t { emergency_triggered = true }

unfoldable pub tick : AcsStateMachine → ℕ → AcsStateMachine
tick m current_tick =
    let elapsed = saturating_sub current_tick m.last_heartbeat_tick in
    elim m.state [
      | active ↦ if leb degraded_threshold_ticks elapsed then transition_to m degraded else m
      | degraded ↦
          if leb contingency_threshold_ticks elapsed && m.alternate_exists
          then transition_to m contingency
          else if leb emergency_threshold_ticks elapsed
          then enter_emergency m
          else m
      | contingency ↦ if leb emergency_threshold_ticks elapsed then enter_emergency m else m
      | emergency ↦ m
    ]

unfoldable pub heartbeat : AcsStateMachine → ℕ → AcsStateMachine
heartbeat m current_tick =
    let n : AcsStateMachine = record m { last_heartbeat_tick = current_tick } in
    if is_acs n.state active then n else transition_to n active

unfoldable pub force_state : AcsStateMachine → AcsState → AcsStateMachine
force_state m state = transition_to m state

unfoldable pub reset : AcsStateMachine → AcsStateMachine
unfolding new
reset m = new
