-- ===== src/Governance/Acs/DeadMan.antt =====
-- kernel/src/governance/acs.rs: silence of the primary authority leads to Emergency.
use fabric_os.Base.{ℕ, ◌+◌, ◌≤◌, ◌<◌, ◌≡◌, ◌≢◌, ◌⊎◌, ◌∙◌, true, List, [], ◌∷◌, All, arith}
use fabric_os.Governance.Types.{active, emergency, acs_code}
use fabric_os.Governance.Acs.{
  AcsStateMachine, tick, heartbeat, transition_to, enter_emergency, degraded_threshold_ticks,
  emergency_threshold_ticks,
}

-- A series of ticks.
unfoldable pub run_ticks : AcsStateMachine → List ℕ → AcsStateMachine
run_ticks m [] = m
run_ticks m (t ∷ ts) = run_ticks (tick m t) ts

-- How far one tick goes: it leaves the time of the heartbeat and the alternate alone, and moves to
-- a graver state only, for which the silence is long enough.
tick-silence :
    (m : AcsStateMachine) (t : ℕ)
    → ((tick m t).last_heartbeat_tick ≡ m.last_heartbeat_tick)
      × (acs_code m.state ≤ acs_code (tick m t).state)
      × ((tick m t).state ≢ m.state → m.last_heartbeat_tick + degraded_threshold_ticks ≤ t)
      × ((tick m t).state ≢ m.state
          → (tick m t).state ≡ emergency
          → (m.last_heartbeat_tick + emergency_threshold_ticks ≤ t)
            × ((tick m t).emergency_triggered ≡ true))
unfolding tick transition_to enter_emergency
tick-silence m t = ground (arith, m.state)

quiet :
    (n : AcsStateMachine) (t : ℕ) (ts : List ℕ)
    → n.last_heartbeat_tick ≡ t
    → n.state ≡ active
    → All (λ u. u < t + degraded_threshold_ticks) ts
    → (run_ticks n ts).state ≡ active
unfolding run_ticks
quiet n t [] a s h = s
quiet n t (u ∷ ts) a s h =
    let k = tick-silence n u in quiet (tick n u) t ts (k.0 ∙ a) (still k.2) h.1
  where
    still :
        ((tick n u).state ≢ n.state → n.last_heartbeat_tick + degraded_threshold_ticks ≤ u)
        → (tick n u).state ≡ active
    still k = ground arith

heartbeat_lem :
    (m : AcsStateMachine) (t : ℕ)
    → ((heartbeat m t).last_heartbeat_tick ≡ t) × ((heartbeat m t).state ≡ active)
unfolding heartbeat transition_to
heartbeat_lem m t = ground arith

-- After a heartbeat, the authority is Active through every tick that comes less than an hour
-- later.
pub run_ticks-heartbeat :
    (m : AcsStateMachine) (t : ℕ) (ts : List ℕ)
    → All (λ u. u < t + degraded_threshold_ticks) ts
    → (run_ticks (heartbeat m t) ts).state ≡ active
run_ticks-heartbeat m t ts h = let b = heartbeat_lem m t in quiet (heartbeat m t) t ts b.0 b.1 h

-- Towards Emergency by one state or two.
graver :
    (n : AcsStateMachine) (t : ℕ)
    → n.last_heartbeat_tick + emergency_threshold_ticks ≤ t
    → ((tick n t).last_heartbeat_tick ≡ n.last_heartbeat_tick)
      × (((tick n t).state ≡ emergency) ⊎ (acs_code n.state < acs_code (tick n t).state))
unfolding tick transition_to enter_emergency
graver n t h = ground arith

-- Three ticks that each come four hours or more after the last heartbeat reach Emergency from
-- every state.
pub run_ticks-Emergency :
    (m : AcsStateMachine) (a b c : ℕ)
    → m.last_heartbeat_tick + emergency_threshold_ticks ≤ a
    → m.last_heartbeat_tick + emergency_threshold_ticks ≤ b
    → m.last_heartbeat_tick + emergency_threshold_ticks ≤ c
    → (run_ticks m (a ∷ b ∷ c ∷ [])).state ≡ emergency
unfolding run_ticks
run_ticks-Emergency m a b c ha hb hc =
    let x = graver m a ha in
    let y = graver (tick m a) b (ground arith) in
    let z = graver (tick (tick m a) b) c (ground arith) in ground (arith, x, y, z)
