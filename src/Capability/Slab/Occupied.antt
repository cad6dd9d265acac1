-- ===== src/Capability/Slab/Occupied.antt =====
-- kernel/src/capability/slab.rs: how many slots hold an entry, which `len` counts.
use fabric_os.Base.{
  ℕ, zero, suc, ◌+◌, ◌≤◌, ◌<◌, ◌≡◌, ◌≢◌, ap, Bool-cases, if◌then◌else◌, ◌==◌, none, Option,
  Option-cases, is_some, arith, inl, inr, refl,
}
use fabric_os.Base.Slots.{update, update_self, update_ne}
use fabric_os.Capability.Slab.{Slots}

module _ {V : Type 0} where
  abbrev pub one : Option (ℕ × V) → ℕ
  one o = if is_some o then 1 else 0

  unfoldable pub occupied : ℕ → Slots V → ℕ
  occupied zero slots = 0
  occupied (suc n) slots = occupied n slots + one (slots n)

  occupied-outside :
      (n i : ℕ) (slots : Slots V) (o : Option (ℕ × V))
      → n ≤ i
      → occupied n (update slots i o) ≡ occupied n slots
  unfolding occupied
  occupied-outside zero i slots o h = refl
  occupied-outside (suc n) i slots o h =
      let there : i ≢ n = ground arith in
      omega
        (arith, occupied-outside n i slots o (omega arith), ap one (update_ne slots i n o there))

  -- A write changes the count by what it takes away and what it puts.
  pub occupied-update :
      (n i : ℕ) (slots : Slots V) (o : Option (ℕ × V))
      → i < n
      → occupied n (update slots i o) + one (slots i) ≡ occupied n slots + one o
  unfolding occupied
  occupied-update zero i slots o h = absurd (omega arith)
  occupied-update (suc n) i slots o h = elim (Bool-cases (i == n)) [
    | inl y ↦
        let at : i ≡ n = ground arith in
        rw at omega
          (arith, occupied-outside n n slots o (omega arith), ap one (update_self slots n o))
    | inr y ↦
        let there : i ≢ n = ground arith in
        omega
          (arith, occupied-update n i slots o (ground arith), ap one (update_ne slots i n o there))
  ]

  -- With fewer entries than slots, one is empty.
  pub occupied-room :
      (n : ℕ) (slots : Slots V) → occupied n slots < n → (e : ℕ) × (e < n) × (slots e ≡ none)
  unfolding occupied
  occupied-room zero slots h = absurd (omega arith)
  occupied-room (suc n) slots h = elim (Option-cases (slots n)) [
    | inl e ↦ (n, omega arith, e)
    | inr (x, e) ↦
        let rest = occupied-room n slots (omega (arith, ap one e)) in
        (rest.0, omega (arith, rest.1), rest.2)
  ]

  pub occupied-none : (n : ℕ) (slots : Slots V) → ((i : ℕ) → slots i ≡ none) → occupied n slots ≡ 0
  unfolding occupied
  occupied-none zero slots h = refl
  occupied-none (suc n) slots h = omega (arith, occupied-none n slots h, ap one (h n))
