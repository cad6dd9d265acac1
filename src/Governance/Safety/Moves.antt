-- ===== src/Governance/Safety/Moves.antt =====
-- kernel/src/governance/safety.rs: the moves between the states.
use fabric_os.Base.{ℕ, ◌≡◌, Bool, true, false, List, [], ◌∷◌, All, arith, not, refl}
use fabric_os.Governance.Types.{SafetyState, normal, elevated, safe, chaos, lockdown, is_state}
use fabric_os.Governance.Safety.{
  SafetyStateMachine, SafetySignal, tick, report_anomaly, report_alarm, report_signal,
  report_instant, report_weighted, force_lockdown, human_confirm, transition_to, count_anomaly,
  force_state, reset, new, escalate_to, weight,
}

-- The moves that the head of the file lists: up by one grave step, Lockdown from everywhere, and
-- down only from Elevated, from Lockdown to Safe and from Safe.
abbrev pub is_move : SafetyState → SafetyState → Bool
is_move s lockdown = true
is_move normal normal = true
is_move normal elevated = true
is_move normal safe = false
is_move normal chaos = false
is_move elevated normal = true
is_move elevated elevated = true
is_move elevated safe = false
is_move elevated chaos = true
is_move safe normal = true
is_move safe elevated = false
is_move safe safe = true
is_move safe chaos = false
is_move chaos normal = false
is_move chaos elevated = false
is_move chaos safe = false
is_move chaos chaos = true
is_move lockdown normal = false
is_move lockdown elevated = false
is_move lockdown safe = true
is_move lockdown chaos = false

-- A call of a method that changes the machine: all of them, those for testing too.
pub data Call : Type 0 where
  ticks anomaly alarm locking confirming : ℕ → Call
  signals : SafetySignal → ℕ → Call
  forcing : SafetyState → ℕ → Call
  resetting : Call

unfoldable pub run_call : SafetyStateMachine → Call → SafetyStateMachine
run_call m (ticks t) = tick m t
run_call m (anomaly t) = report_anomaly m t
run_call m (alarm t) = report_alarm m t
run_call m (locking t) = force_lockdown m t
run_call m (confirming t) = (human_confirm m t).0
run_call m (signals s t) = report_signal m s t
run_call m (forcing s t) = force_state m s t
run_call m resetting = reset m

-- The calls that the head of the file lists: `force_state` and `reset` are not among them.
abbrev pub IsListed : Call → Type 0
IsListed (forcing s t) = ⊥
IsListed resetting = ⊥
IsListed _ = Unit

-- The calls that open Lockdown: the human's confirmation, a forced other state, and the reset.
abbrev pub is_opening : Call → Bool
is_opening (confirming t) = true
is_opening (forcing s t) = not (is_state s lockdown)
is_opening resetting = true
is_opening _ = false

unfoldable pub run_calls : SafetyStateMachine → List Call → SafetyStateMachine
run_calls m [] = m
run_calls m (c ∷ cs) = run_calls (run_call m c) cs

tick-move : (m : SafetyStateMachine) (t : ℕ) → is_move m.state (tick m t).state ≡ true
unfolding tick transition_to
tick-move m t = ground arith

anomaly-move : (m : SafetyStateMachine) (t : ℕ) → is_move m.state (report_anomaly m t).state ≡ true
unfolding report_anomaly count_anomaly transition_to
anomaly-move m t = ground arith

alarm-move : (m : SafetyStateMachine) (t : ℕ) → is_move m.state (report_alarm m t).state ≡ true
unfolding report_alarm transition_to
alarm-move m t = ground arith

instant-move : (m : SafetyStateMachine) (t : ℕ) → is_move m.state (report_instant m t).state ≡ true
unfolding report_instant escalate_to transition_to
instant-move m t = ground arith

weighted-move :
    (m : SafetyStateMachine) (w t : ℕ) → is_move m.state (report_weighted m w t).state ≡ true
unfolding report_weighted escalate_to transition_to
weighted-move m w t = ground arith

lock-move : (m : SafetyStateMachine) (t : ℕ) → is_move m.state (force_lockdown m t).state ≡ true
unfolding force_lockdown transition_to
lock-move m t = ground arith

confirm-move : (m : SafetyStateMachine) (t : ℕ) → is_move m.state (human_confirm m t).0.state ≡ true
unfolding human_confirm transition_to
confirm-move m t = ground arith

-- Every call but `force_state` and `reset` moves the safety machine along the listed moves, or leaves
-- its state.
pub run_call-move :
    (m : SafetyStateMachine) (c : Call) → IsListed c → is_move m.state (run_call m c).state ≡ true
unfolding run_call report_signal
run_call-move m (ticks t) l = tick-move m t
run_call-move m (anomaly t) l = anomaly-move m t
run_call-move m (alarm t) l = alarm-move m t
run_call-move m (locking t) l = lock-move m t
run_call-move m (confirming t) l = confirm-move m t
run_call-move m (signals s t) l = ground (arith, instant-move m t, weighted-move m (weight s) t)
run_call-move m (forcing s t) l = elim l [ ]
run_call-move m resetting l = elim l [ ]

-- A call keeps Lockdown exactly when it is not one of those that open it.
pub run_call-lockdown :
    (m : SafetyStateMachine) (c : Call)
    → m.state ≡ lockdown
    → is_state (run_call m c).state lockdown ≡ not (is_opening c)
unfolding run_call report_signal tick report_anomaly report_alarm report_instant report_weighted
    force_lockdown escalate_to transition_to count_anomaly human_confirm force_state reset new
run_call-lockdown m (ticks t) e = ground arith
run_call-lockdown m (anomaly t) e = ground arith
run_call-lockdown m (alarm t) e = ground arith
run_call-lockdown m (locking t) e = ground arith
run_call-lockdown m (confirming t) e = ground arith
run_call-lockdown m (signals s t) e = ground arith
run_call-lockdown m (forcing s t) e = ground arith
run_call-lockdown m resetting e = refl

pub is_lockdown : (s : SafetyState) → is_state s lockdown ≡ true → s ≡ lockdown
is_lockdown s e = ground arith

-- In Lockdown the safety machine stays through any calls, of which none is a human's confirmation,
-- `force_state` to another state or `reset`; and the next call leaves Lockdown exactly when it is
-- one of these.
pub run_calls-lockdown :
    (m : SafetyStateMachine) (cs : List Call) (c : Call)
    → m.state ≡ lockdown
    → All (λ d. is_opening d ≡ false) cs
    → ((run_calls m cs).state ≡ lockdown)
      × (is_state (run_call (run_calls m cs) c).state lockdown ≡ not (is_opening c))
unfolding run_calls
run_calls-lockdown m [] c e u = (e, run_call-lockdown m c e)
run_calls-lockdown m (d ∷ cs) c e u =
    run_calls-lockdown (run_call m d) cs c
      (is_lockdown (run_call m d).state (ground (arith, run_call-lockdown m d e, u.0))) u.1
