-- ===== src/Sync/Levels.antt =====
-- kernel/src/sync/mod.rs: locks that are tracked are held in ascending order of their levels.
use fabric_os.Base.{
  ℕ, ◌≤◌, ◌<◌, ◌≡◌, ◌↔◌, ◌⊎◌, refl, false, sym, ap, subst, ◌∙◌, ◌&&◌, not, ◌==◌, List, [], ◌∷◌,
  ◌++◌, none, some, length, length-append, All, arith, leb, Bool-cases, inl, inr,
}
use fabric_os.Base.Members.{elem}
use fabric_os.Sync.{max_held, is_violation, push_level, pop_level}
use mathlib.Core.Option.{some-injective}

-- Each level is below those that come after it.
abbrev pub IsAscending : List ℕ → Type 0
IsAscending [] = Unit {0}
IsAscending (held ∷ rest) = All (λ l. held < l) rest × IsAscending rest

abbrev pub IsTracked : List ℕ → Type 0
IsTracked stack = IsAscending stack × (length stack ≤ max_held)

is_violation_iff :
    (level : ℕ) (stack : List ℕ) → (is_violation level stack ≡ false) ↔ All (λ l. l < level) stack
unfolding is_violation
is_violation_iff level [] = (λ e. tt, λ a. refl)
is_violation_iff level (held ∷ rest) = ground (arith, is_violation_iff level rest)

All-snoc :
    (n level : ℕ) (stack : List ℕ)
    → All (λ l. n < l) stack
    → n < level
    → All (λ l. n < l) (stack ++ level ∷ [])
All-snoc n level [] a h = (h, tt)
All-snoc n level (held ∷ rest) a h = (a.0, All-snoc n level rest a.1 h)

IsAscending-snoc :
    (level : ℕ) (stack : List ℕ)
    → IsAscending stack
    → All (λ l. l < level) stack
    → IsAscending (stack ++ level ∷ [])
IsAscending-snoc level [] s a = (tt, tt)
IsAscending-snoc level (held ∷ rest) s a =
    (All-snoc held level rest s.0 a.0, IsAscending-snoc level rest s.1 a.1)

pop_level-All :
    (n level : ℕ) (stack : List ℕ)
    → All (λ l. n < l) stack
    → All (λ l. n < l) (pop_level stack level)
unfolding pop_level
pop_level-All n level [] a = tt
pop_level-All n level (held ∷ rest) a = ground (arith, pop_level-All n level rest a.1)

pop_level-IsTracked :
    (level : ℕ) (stack : List ℕ)
    → IsAscending stack
    → IsAscending (pop_level stack level) × (length (pop_level stack level) ≤ length stack)
unfolding pop_level
pop_level-IsTracked level [] s = (tt, omega arith)
pop_level-IsTracked level (held ∷ rest) s =
    ground (arith, pop_level-IsTracked level rest s.1, pop_level-All held level rest s.0)

push_level_cases :
    (level : ℕ) (stack : List ℕ)
    → ((push_level stack level ≡ some (stack ++ level ∷ []))
        × All (λ l. l < level) stack
        × (length stack < max_held))
      ⊎ ((push_level stack level ≡ none)
          × ¬ (All (λ l. l < level) stack × (length stack < max_held)))
unfolding push_level
push_level_cases level stack = elim (Bool-cases (is_violation level stack)) [
  | inl bad ↦
      inr (rw (bad, push_level) refl, λ a. ground (arith, bad, is_violation_iff level stack, a))
  | inr fine ↦ elim (Bool-cases (leb max_held (length stack))) [
    | inl full ↦ inr (rw (fine, full, push_level) refl, λ a. ground (arith, full, a))
    | inr room ↦ inl (
      rw (fine, room, push_level) refl,
      (is_violation_iff level stack).0 fine,
      ground (arith, room),
    )
  ]
]

elem-above :
    (level m : ℕ) (stack : List ℕ) → All (λ l. level < l) stack → m ≤ level → elem m stack ≡ false
elem-above level m [] a h = refl
elem-above level m (held ∷ rest) a h = ground (arith, elem-above level m rest a.1 h)

-- With each level held once, letting go of one takes it out.
elem-pop_level :
    (level m : ℕ) (stack : List ℕ)
    → IsAscending stack
    → elem m (pop_level stack level) ≡ (elem m stack && not (level == m))
unfolding pop_level
elem-pop_level level m [] s = refl
elem-pop_level level m (held ∷ rest) s =
    ground (arith, elem-pop_level level m rest s.1, elem-above held m rest s.0)

-- While the levels held ascend and are at most 8, a lock is let through exactly when its level is
-- above all that are held and fewer than 8 are held, and its level is then the last of those held,
-- which still ascend and are at most 8; letting go of any lock leaves exactly the other levels
-- that were held, still so.
pub push_level-IsTracked :
    (level : ℕ) (stack : List ℕ)
    → IsTracked stack
    → ((s : List ℕ)
        → (push_level stack level ≡ some s)
          ↔ ((s ≡ stack ++ level ∷ []) × All (λ l. l < level) stack × (length stack < max_held)))
      × ((s : List ℕ) → push_level stack level ≡ some s → IsTracked s)
      × IsTracked (pop_level stack level)
      × ((m : ℕ) → elem m (pop_level stack level) ≡ (elem m stack && not (level == m)))
push_level-IsTracked level stack t =
    let popped = pop_level-IsTracked level stack t.0 in
    (
      λ s. elim (push_level_cases level stack) [
        | inl (e, a, room) ↦
            (λ r. (some-injective _ _ (sym r ∙ e), a, room), λ r. e ∙ ap some (sym r.0))
        | inr (e, shut) ↦ (λ r. absurd (ground (arith, e, r)), λ r. absurd (shut (r.1, r.2)))
      ],
      λ s r. elim (push_level_cases level stack) [
        | inl (e, a, room) ↦ subst IsTracked (some-injective _ _ (sym e ∙ r)) (
          IsAscending-snoc level stack t.0 a,
          omega (arith, room, length-append stack (level ∷ [])),
        )
        | inr (e, shut) ↦ absurd (ground (arith, e, r))
      ],
      (popped.0, omega (arith, popped.1)),
      λ m. elem-pop_level level m stack t.0,
    )
