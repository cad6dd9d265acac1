-- ===== src/Governance/Constitution/Amendments.antt =====
-- kernel/src/governance/constitution.rs: an amendment waits for its cooling period.
use fabric_os.Base.{ℕ, ◌+◌, ◌<◌, ◌≡◌, refl, Bool, true, List, [], ◌∷◌, All, arith}
use fabric_os.Governance.Types.{SafetyState}
use fabric_os.Governance.Constitution.{AmendmentTracker, propose, apply, amendment_cooling_ticks}

-- The calls of the tracker, each at its tick.
pub data Attempt : Type 0 where
  proposing : SafetyState → ℕ → Attempt
  applying : ℕ → Attempt

unfoldable pub attempt : AmendmentTracker → Attempt → AmendmentTracker × Bool
attempt a (proposing s t) = propose a s t
attempt a (applying t) = apply a t

unfoldable pub attempts : AmendmentTracker → List Attempt → AmendmentTracker
attempts a [] = a
attempts a (x ∷ xs) = attempts (attempt a x).0 xs

abbrev pub attempt_tick : Attempt → ℕ
attempt_tick (proposing s t) = t
attempt_tick (applying t) = t

still :
    (a : AmendmentTracker) (s : SafetyState) (t : ℕ) (x : Attempt)
    → (propose a s t).1 ≡ true
    → attempt_tick x < t + amendment_cooling_ticks
    → (attempt (propose a s t).0 x).0 ≡ (propose a s t).0
unfolding attempt propose apply
still a s t (proposing r u) e h = ground arith
still a s t (applying u) e h = ground arith

-- After an accepted proposal, no attempt that comes before its cooling period is over changes the
-- tracker.
pub attempts-propose :
    (a : AmendmentTracker) (s : SafetyState) (t : ℕ) (xs : List Attempt)
    → (propose a s t).1 ≡ true
    → All (λ x. attempt_tick x < t + amendment_cooling_ticks) xs
    → attempts (propose a s t).0 xs ≡ (propose a s t).0
unfolding attempts
attempts-propose a s t [] e h = refl
attempts-propose a s t (x ∷ xs) e h = rw (still a s t x e h.0) (attempts-propose a s t xs e h.1)
