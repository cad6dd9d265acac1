-- ===== src/Governance/Safety/Signals.antt =====
-- kernel/src/governance/safety.rs: the window of weighted signals and the pause between escalations.
use fabric_os.Base.{
  ℕ, ◌-◌, ◌≤◌, ◌<◌, List, [], ◌∷◌, All, All-append, arith, ltb, ltb→lt, length, length-append,
  Bool-cases, inl, inr,
}
use fabric_os.Governance.Safety.{
  SafetyStateMachine, SafetySignal, report_signal, report_weighted, transition_to, escalate_to,
  add_signal, evict, max_signals, weight, hysteresis_instant_threshold, hysteresis_window_ticks,
}

-- The signals are at most `max_signals` and none is from before `start`.
abbrev pub IsWindow : ℕ → List (ℕ × ℕ) → Type 0
IsWindow start ss = (length ss ≤ max_signals) × All (λ s. start ≤ s.0) ss

evict-All : (start : ℕ) (ss : List (ℕ × ℕ)) → All (λ s. start ≤ s.0) (evict start ss)
unfolding evict
evict-All start [] = tt
evict-All start (s ∷ ss) = ground (arith, evict-All start ss)

length-evict : (start : ℕ) (ss : List (ℕ × ℕ)) → length (evict start ss) ≤ length ss
unfolding evict
length-evict start [] = omega arith
length-evict start (s ∷ ss) = ground (arith, length-evict start ss)

add_signal-IsWindow :
    (ss : List (ℕ × ℕ)) (w t : ℕ)
    → length ss ≤ max_signals
    → IsWindow (t - hysteresis_window_ticks) (add_signal ss w t)
unfolding add_signal
add_signal-IsWindow ss w t h =
    let start = t - hysteresis_window_ticks in
    let kept = evict start ss in
    let short = length-evict start ss in
    elim (Bool-cases (ltb (length kept) max_signals)) [
      | inl e ↦ rw e (
        omega (arith, length-append kept ((t, w) ∷ []), ltb→lt (length kept) max_signals e),
        All-append (λ s. start ≤ s.0) kept ((t, w) ∷ []) (evict-All start ss) (omega arith, tt),
      )
      | inr e ↦ rw e (omega arith, evict-All start ss)
    ]

-- In a window of at most 32 signals, a signal below the instant threshold leaves at most 32, all
-- of the last 1000 ticks.
pub report_signal-IsWindow :
    (m : SafetyStateMachine) (s : SafetySignal) (t : ℕ)
    → length m.signal_buffer ≤ max_signals
    → weight s < hysteresis_instant_threshold
    → IsWindow (t - hysteresis_window_ticks) (report_signal m s t).signal_buffer
unfolding report_signal report_weighted escalate_to transition_to
report_signal-IsWindow m s t h w =
    ground (arith, add_signal-IsWindow m.signal_buffer (weight s) t h)
