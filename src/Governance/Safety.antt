-- ===== src/Governance/Safety.antt =====
-- kernel/src/governance/safety.rs: the safety state machine.
pub mod Moves
pub mod Signals
use fabric_os.Base.{
  ℕ, ◌+◌, min, Bool, true, false, ◌&&◌, List, [], ◌∷◌, ◌++◌, ltb, leb, ◌==◌, if◌then◌else◌, length,
  ◌-◌,
}
use fabric_os.Base.Words.{add32, add64, saturating_sub, u32_mod}
use fabric_os.Governance.Types.{
  SafetyState, normal, elevated, safe, chaos, lockdown, safety_code, is_state,
}

abbrev pub elevated_clear_ticks : ℕ
elevated_clear_ticks = 300000

abbrev pub safe_burndown_ticks : ℕ
safe_burndown_ticks = 1800000

abbrev pub anomaly_window_ticks : ℕ
anomaly_window_ticks = 60000

abbrev pub anomaly_burst_threshold : ℕ
anomaly_burst_threshold = 3

abbrev pub alarm_burst_threshold : ℕ
alarm_burst_threshold = 3

abbrev pub hysteresis_window_ticks : ℕ
hysteresis_window_ticks = 1000

abbrev pub hysteresis_elevated_threshold : ℕ
hysteresis_elevated_threshold = 150

abbrev pub hysteresis_chaos_threshold : ℕ
hysteresis_chaos_threshold = 300

abbrev pub hysteresis_instant_threshold : ℕ
hysteresis_instant_threshold = 80

abbrev pub transition_cooldown_ticks : ℕ
transition_cooldown_ticks = 5000

abbrev pub max_signals : ℕ
max_signals = 32

pub data SafetySignal : Type 0 where
  memory_integrity instruction_pointer acs_timeout : SafetySignal
  capability_failure council_drift io_anomaly : SafetySignal

unfoldable pub weight : SafetySignal → ℕ
weight memory_integrity = 100
weight instruction_pointer = 90
weight acs_timeout = 80
weight capability_failure = 60
weight council_drift = 40
weight io_anomaly = 20

-- `signal_buffer[..signal_count]`, pairs of a tick and a weight; the rest of the array is not read.
pub record SafetyStateMachine : Type 0 where
  pub state : SafetyState
  pub state_entered_tick : ℕ
  pub anomaly_count : ℕ
  pub anomaly_window_start : ℕ
  pub alarm_count : ℕ
  pub total_transitions : ℕ
  pub signal_buffer : List (ℕ × ℕ)
  pub last_escalation_tick : ℕ

unfoldable pub new : SafetyStateMachine
new = record {
  state = normal;
  state_entered_tick = 0;
  anomaly_count = 0;
  anomaly_window_start = 0;
  alarm_count = 0;
  total_transitions = 0;
  signal_buffer = [];
  last_escalation_tick = 0;
}

unfoldable pub transition_to : SafetyStateMachine → SafetyState → ℕ → SafetyStateMachine
transition_to m new_state current_tick = if is_state m.state new_state then m else record m {
  state = new_state;
  state_entered_tick = current_tick;
  total_transitions = add64 m.total_transitions 1;
}

unfoldable pub tick : SafetyStateMachine → ℕ → SafetyStateMachine
tick m current_tick = elim m.state [
  | elevated ↦
      if leb elevated_clear_ticks (saturating_sub current_tick m.state_entered_tick)
      then transition_to m normal current_tick
      else m
  | safe ↦
      if leb safe_burndown_ticks (saturating_sub current_tick m.state_entered_tick)
      then transition_to m normal current_tick
      else m
  | _ ↦ m
]

-- The window is started again when it is over, and the anomaly is counted.
unfoldable pub count_anomaly : SafetyStateMachine → ℕ → SafetyStateMachine
count_anomaly m current_tick =
    if leb anomaly_window_ticks (saturating_sub current_tick m.anomaly_window_start)
    then record m { anomaly_count = 1; anomaly_window_start = current_tick }
    else record m { anomaly_count = add32 m.anomaly_count 1 }

unfoldable pub report_anomaly : SafetyStateMachine → ℕ → SafetyStateMachine
report_anomaly m current_tick =
    let n = count_anomaly m current_tick in
    let t = transition_to n elevated current_tick in
    if is_state n.state normal && leb anomaly_burst_threshold n.anomaly_count
    then record t { anomaly_count = 0 }
    else n

unfoldable pub report_alarm : SafetyStateMachine → ℕ → SafetyStateMachine
report_alarm m current_tick =
    let n : SafetyStateMachine = record m { alarm_count = add32 m.alarm_count 1 } in
    let t = transition_to n chaos current_tick in
    if is_state n.state elevated && leb alarm_burst_threshold n.alarm_count
    then record t { alarm_count = 0 }
    else n

unfoldable pub force_lockdown : SafetyStateMachine → ℕ → SafetyStateMachine
force_lockdown m current_tick = transition_to m lockdown current_tick

unfoldable pub human_confirm : SafetyStateMachine → ℕ → SafetyStateMachine × Bool
human_confirm m current_tick =
    if is_state m.state lockdown then (transition_to m safe current_tick, true) else (m, false)

-- The loop that keeps the signals of the window.
unfoldable pub evict : ℕ → List (ℕ × ℕ) → List (ℕ × ℕ)
evict window_start [] = []
evict window_start (s ∷ ss) =
    let rest = evict window_start ss in if leb window_start s.0 then s ∷ rest else rest

abbrev pub saturating_add32 : ℕ → ℕ → ℕ
saturating_add32 a b = min (a + b) (u32_mod - 1)

unfoldable pub sum_from : ℕ → List (ℕ × ℕ) → ℕ
sum_from sum [] = sum
sum_from sum (s ∷ ss) = sum_from (saturating_add32 sum s.1) ss

-- An escalation of `report_signal`.
unfoldable pub escalate_to : SafetyStateMachine → SafetyState → ℕ → SafetyStateMachine
escalate_to m new_state current_tick =
    let t = transition_to m new_state current_tick in
    record t { last_escalation_tick = current_tick }

abbrev pub is_cooled_down : SafetyStateMachine → ℕ → Bool
is_cooled_down m current_tick =
    leb transition_cooldown_ticks (saturating_sub current_tick m.last_escalation_tick)

-- The branch for a signal whose weight alone escalates.
unfoldable pub report_instant : SafetyStateMachine → ℕ → SafetyStateMachine
report_instant m current_tick =
    if is_state m.state normal
    then (if is_cooled_down m current_tick then escalate_to m elevated current_tick else m)
    else if is_state m.state elevated
    then (if is_cooled_down m current_tick then escalate_to m chaos current_tick else m)
    else m

-- The window without the signals that have expired, and with the new one if there is room.
unfoldable pub add_signal : List (ℕ × ℕ) → ℕ → ℕ → List (ℕ × ℕ)
add_signal buffer signal_weight current_tick =
    let kept = evict (saturating_sub current_tick hysteresis_window_ticks) buffer in
    if ltb (length kept) max_signals then kept ++ (current_tick, signal_weight) ∷ [] else kept

unfoldable pub report_weighted : SafetyStateMachine → ℕ → ℕ → SafetyStateMachine
report_weighted m signal_weight current_tick =
    let n : SafetyStateMachine = record m {
      signal_buffer = add_signal m.signal_buffer signal_weight current_tick;
    } in
    let weighted_sum = sum_from 0 n.signal_buffer in
    let up = escalate_to n elevated current_tick in
    let top = escalate_to n chaos current_tick in
    if is_cooled_down n current_tick
    then (if is_state n.state normal && leb hysteresis_elevated_threshold weighted_sum
        then record up { signal_buffer = [] }
        else if is_state n.state elevated && leb hysteresis_chaos_threshold weighted_sum
        then record top { signal_buffer = [] }
        else n)
    else n

unfoldable pub report_signal : SafetyStateMachine → SafetySignal → ℕ → SafetyStateMachine
report_signal m signal current_tick =
    if leb hysteresis_instant_threshold (weight signal)
    then report_instant m current_tick
    else report_weighted m (weight signal) current_tick

unfoldable pub signal_weighted_sum : SafetyStateMachine → ℕ → ℕ
signal_weighted_sum m current_tick =
    sum_from 0 (evict (saturating_sub current_tick hysteresis_window_ticks) m.signal_buffer)

unfoldable pub force_state : SafetyStateMachine → SafetyState → ℕ → SafetyStateMachine
force_state m state current_tick = transition_to m state current_tick

unfoldable pub reset : SafetyStateMachine → SafetyStateMachine
unfolding new
reset m = new
