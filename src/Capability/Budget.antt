-- ===== src/Capability/Budget.antt =====
-- kernel/src/capability/budget.rs: how often a capability was used in the current interval.
use fabric_os.Base.{
  ℕ, ◌+◌, ◌-◌, ◌≤◌, ◌<◌, ◌≡◌, refl, ap, ◌∙◌, Bool, true, false, ◌==◌, ltb, leb, none, some, Option,
  arith, if◌then◌else◌, unwrap_or, Bool-cases, inl, inr, List, [], ◌∷◌, Option-cases, All, ==_refl,
}
use fabric_os.Base.Words.{add32, u32_mod, saturating_sub}
use fabric_os.Wire.Token.{Budget}
use fabric_os.Capability.Slab.{FixedMap}
use fabric_os.Capability.Slab
use fabric_os.Capability.Slab.Ready.{IsValid}
use fabric_os.Capability.Slab.Reuse.{get_or_insert_lem, get_or_insert-modify}
use fabric_os.Capability.Nonce.{HasRoom}

-- The uses in the interval, and the tick at which it started.
pub record BudgetTracker : Type 0 where
  pub usage : FixedMap (ℕ × ℕ)

unfoldable pub new_budgets : BudgetTracker
new_budgets = record { usage = Slab.new_map }

-- "Reset if interval has elapsed".
abbrev pub reset_elapsed : Budget → ℕ → ℕ × ℕ → ℕ × ℕ
reset_elapsed budget current_tick entry =
    if leb budget.interval_ticks (saturating_sub current_tick entry.1)
    then (0, current_tick)
    else entry

-- The reference that `get_or_insert` returns, none where it panics.
unfoldable pub consume_entry :
    FixedMap (ℕ × ℕ) → ℕ → Budget → ℕ → Option (ℕ × ℕ) → BudgetTracker × Option Bool
consume_entry usage cap_id budget current_tick none = (record { usage = usage }, none)
consume_entry usage cap_id budget current_tick (some entry) =
    let now = reset_elapsed budget current_tick entry in
    if ltb now.0 budget.max_uses
    then (record { usage = Slab.modify usage cap_id (λ e. (add32 now.0 1, now.1)) }, some true)
    else (record { usage = Slab.modify usage cap_id (λ e. now) }, some false)

unfoldable pub check_and_consume : BudgetTracker → ℕ → Budget → ℕ → BudgetTracker × Option Bool
check_and_consume t cap_id budget current_tick =
    let (usage, entry) = Slab.get_or_insert t.usage cap_id (0, current_tick) in
    consume_entry usage cap_id budget current_tick entry

abbrev remaining_of : Budget → ℕ → Option (ℕ × ℕ) → ℕ
remaining_of budget current_tick none = budget.max_uses
remaining_of budget current_tick (some (used, start)) =
    if leb budget.interval_ticks (saturating_sub current_tick start)
    then budget.max_uses
    else saturating_sub budget.max_uses used

unfoldable pub remaining : BudgetTracker → ℕ → Budget → ℕ → ℕ
remaining t cap_id budget current_tick = remaining_of budget current_tick (Slab.get t.usage cap_id)

unfoldable pub remove : BudgetTracker → ℕ → BudgetTracker
remove t cap_id = record { usage = (Slab.remove t.usage cap_id).0 }

unfoldable pub clear : BudgetTracker → BudgetTracker
clear t = record { usage = Slab.clear t.usage }

-- The entry of the capability, with the interval that the tick falls in.
abbrev pub current : BudgetTracker → ℕ → Budget → ℕ → ℕ × ℕ
current t cap_id budget tick =
    reset_elapsed budget tick (unwrap_or (Slab.get t.usage cap_id) (0, tick))

-- The entry after one more use of it, if the budget allows one.
abbrev pub entry_after : BudgetTracker → ℕ → Budget → ℕ → ℕ × ℕ
entry_after t cap_id budget tick =
    let now = current t cap_id budget tick in
    if ltb now.0 budget.max_uses then (add32 now.0 1, now.1) else now

abbrev pub Consumes : BudgetTracker → ℕ → Budget → ℕ → BudgetTracker × Option Bool → Type 0
Consumes t cap_id budget tick r =
    IsValid r.0.usage
    × (r.1 ≡ some (ltb (current t cap_id budget tick).0 budget.max_uses))
    × ((j : ℕ)
        → Slab.get r.0.usage j
          ≡ (if cap_id == j then some (entry_after t cap_id budget tick) else Slab.get t.usage j))

pub check_and_consume_lem :
    (t : BudgetTracker) (cap_id : ℕ) (budget : Budget) (tick : ℕ)
    → IsValid t.usage
    → HasRoom t.usage cap_id
    → Consumes t cap_id budget tick (check_and_consume t cap_id budget tick)
unfolding check_and_consume consume_entry
check_and_consume_lem t cap_id budget tick valid room =
    let (ok, entry, all, size) = get_or_insert_lem t.usage cap_id (0, tick) valid room in
    let now = current t cap_id budget tick in
    elim (Bool-cases (ltb (current t cap_id budget tick).0 budget.max_uses)) [
      | inl y ↦
          let (ok2, all2, size2) =
            get_or_insert-modify t.usage cap_id (0, tick) (add32 now.0 1, now.1) valid room in
          rw (check_and_consume, entry, consume_entry, y) (ok2, refl, all2)
      | inr y ↦
          let (ok2, all2, size2) = get_or_insert-modify t.usage cap_id (0, tick) now valid room in
          rw (check_and_consume, entry, consume_entry, y) (ok2, refl, all2)
    ]

-- `remaining` is what the next uses in the interval of the tick find.
pub remaining-current :
    (t : BudgetTracker) (cap_id : ℕ) (budget : Budget) (tick : ℕ)
    → remaining t cap_id budget tick ≡ budget.max_uses - (current t cap_id budget tick).0
unfolding remaining
remaining-current t cap_id budget tick = elim (Option-cases (Slab.get t.usage cap_id)) [
  | inl e ↦ rw (remaining, e) (ground arith)
  | inr ((used, start), e) ↦ rw (remaining, e) (ground arith)
]

-- How many of the uses at the ticks of a list are allowed.
unfoldable pub allowed : BudgetTracker → ℕ → Budget → List ℕ → ℕ
allowed t cap_id budget [] = 0
allowed t cap_id budget (tick ∷ ticks) =
    let (t1, answer) = check_and_consume t cap_id budget tick in
    let rest = allowed t1 cap_id budget ticks in if unwrap_or answer false then rest + 1 else rest

current_known :
    (t : BudgetTracker) (cap_id : ℕ) (budget : Budget) (used start tick : ℕ)
    → Slab.get t.usage cap_id ≡ some (used, start)
    → 0 < budget.interval_ticks
    → tick < start + budget.interval_ticks
    → current t cap_id budget tick ≡ (used, start)
current_known t cap_id budget used start tick e long early = rw e (ground arith)

-- Of any uses of a capability before the interval of its entry is over, the budget allows no more
-- than are left in the interval, for a positive interval and a maximum of 32 bits.
pub allowed-le :
    (t : BudgetTracker) (cap_id : ℕ) (budget : Budget) (used start : ℕ) (ticks : List ℕ)
    → IsValid t.usage
    → Slab.get t.usage cap_id ≡ some (used, start)
    → budget.max_uses < u32_mod
    → 0 < budget.interval_ticks
    → All (λ tick. tick < start + budget.interval_ticks) ticks
    → allowed t cap_id budget ticks ≤ budget.max_uses - used
unfolding allowed Slab.contains_key
allowed-le t cap_id budget used start [] valid e fits long early = omega arith
allowed-le t cap_id budget used start (tick ∷ ticks) valid e fits long early =
    let room : HasRoom t.usage cap_id = rw (Slab.contains_key, e) refl in
    let (ok, answer, all) = check_and_consume_lem t cap_id budget tick valid room in
    let same : current t cap_id budget tick ≡ (used, start) =
      current_known t cap_id budget used start tick e long early.0 in
    let next : Slab.get (check_and_consume t cap_id budget tick).0.usage cap_id
        ≡ some (entry_after t cap_id budget tick) =
      all cap_id
      ∙ ap (λ b. if b then some (entry_after t cap_id budget tick) else Slab.get t.usage cap_id)
          (==_refl cap_id) in
    elim (Bool-cases (ltb used budget.max_uses)) [
      | inl y ↦
          let spent : entry_after t cap_id budget tick ≡ (used + 1, start) =
            rw (same, y) (ground (arith, fits, y)) in
          let left =
            allowed-le (check_and_consume t cap_id budget tick).0 cap_id budget (used + 1) start
              ticks ok (next ∙ ap some spent) fits long early.1 in
          rw (answer, same, y) (ground (arith, left, y))
      | inr y ↦
          let kept : entry_after t cap_id budget tick ≡ (used, start) = rw (same, y) refl in
          let left =
            allowed-le (check_and_consume t cap_id budget tick).0 cap_id budget used start ticks ok
              (next ∙ ap some kept) fits long early.1 in
          rw (answer, same, y) left
    ]
