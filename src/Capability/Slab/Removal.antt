-- ===== src/Capability/Slab/Removal.antt =====
-- kernel/src/capability/slab.rs: the backward shift of `remove` as a whole.
use fabric_os.Base.{
  ℕ, zero, suc, ◌<◌, ◌≡◌, ◌≢◌, ◌↔◌, if◌then◌else◌, inl, inr, refl, sym, ap, ◌∙◌, true, false, ◌==◌,
  none, some, arith, Bool-cases, Option-cases,
}
use fabric_os.Base.Slots.{update}
use fabric_os.Capability.Slab.{Slots, fib_hash, should_move, shift, shift_ends}
use fabric_os.Capability.Slab.Probing.{differ}
use fabric_os.Capability.Slab.Shifting.{
  moved_from, Table, Gap, Gap-Table, Gap-next, Gap-move, swap, swap-some,
}
use fabric_os.Capability.Slab.Occupied.{one, occupied, occupied-update}
use fabric_os.Capability.Slab.Cyclic.{
  table_mask, after, distance, following_lem, distance-after, fib_hash-lt, should_move_lem,
}

module _ {V : Type 0} where
  -- Some slot holds the entry.
  abbrev pub Has : Slots V → ℕ → V → Type 0
  Has slots k v = (i : ℕ) × (i < 16384) × (slots i ≡ some (k, v))

  -- The same entries, as many of them.
  abbrev pub Rearranged : Slots V → Slots V → Type 0
  Rearranged s t = ((k : ℕ) (v : V) → Has t k v ↔ Has s k v) × (occupied 16384 t ≡ occupied 16384 s)

  swap-has :
      (slots : Slots V) (e c i : ℕ) (x : ℕ × V)
      → slots e ≡ none
      → e ≢ c
      → slots i ≡ some x
      → swap slots e c (if i == c then e else i) ≡ some x
  swap-has slots e c i x n d s = ground arith

  swap-Rearranged :
      (slots : Slots V) (e c : ℕ) (x : ℕ × V)
      → e < 16384
      → c < 16384
      → slots e ≡ none
      → slots c ≡ some x
      → Rearranged slots (swap slots e c)
  swap-Rearranged slots e c x p q n s = (
    λ k v. (
      λ h. (moved_from e c h.0, ground (arith, h.1), (swap-some slots e c h.0 (k, v) n h.2).1),
      λ h. (
        if h.0 == c then e else h.0,
        ground (arith, h.1),
        swap-has slots e c h.0 (k, v) n apart h.2,
      ),
    ),
    omega (
      arith,
      occupied-update 16384 e slots (slots c) p,
      occupied-update 16384 c (update slots e (slots c)) (slots e) q,
      ap one n,
      ap one s,
      ap one there,
    ),
  )
    where
      apart : e ≢ c
      apart y = differ (sym s ∙ (ap slots (sym y) ∙ n))

      there : update slots e (slots c) c ≡ some x
      there = ground arith

  Rearranged-trans : (s t u : Slots V) → Rearranged s t → Rearranged t u → Rearranged s u
  Rearranged-trans s t u a b =
      (λ k v. (λ h. (a.0 k v).0 ((b.0 k v).0 h), λ h. (b.0 k v).1 ((a.0 k v).1 h)), b.1 ∙ a.1)

  shift_moved :
      (fuel : ℕ) (slots : Slots V) (e c : ℕ) (x : ℕ × V)
      → c < 16384
      → slots c ≡ some x
      → should_move (fib_hash x.0 table_mask) e c ≡ true
      → shift (suc fuel) table_mask slots e c ≡ shift fuel table_mask (swap slots e c) c (after c)
  unfolding shift
  shift_moved fuel slots e c x p s y =
      rw (shift, s, y, following_lem c p)
        (ap (λ o. shift fuel table_mask (update (update slots e o) c (slots e)) c (after c)) s)

  shift_ends_moved :
      (fuel : ℕ) (slots : Slots V) (e c : ℕ) (x : ℕ × V)
      → c < 16384
      → slots c ≡ some x
      → should_move (fib_hash x.0 table_mask) e c ≡ true
      → shift_ends (suc fuel) table_mask slots e c
        ≡ shift_ends fuel table_mask (swap slots e c) c (after c)
  unfolding shift_ends
  shift_ends_moved fuel slots e c x p s y =
      rw (shift_ends, s, y, following_lem c p)
        (ap (λ o. shift_ends fuel table_mask (update (update slots e o) c (slots e)) c (after c)) s)

  shift_kept :
      (fuel : ℕ) (slots : Slots V) (e c : ℕ) (x : ℕ × V)
      → c < 16384
      → slots c ≡ some x
      → should_move (fib_hash x.0 table_mask) e c ≡ false
      → shift (suc fuel) table_mask slots e c ≡ shift fuel table_mask slots e (after c)
  unfolding shift
  shift_kept fuel slots e c x p s y = rw (shift, s, y, following_lem c p) refl

  shift_ends_kept :
      (fuel : ℕ) (slots : Slots V) (e c : ℕ) (x : ℕ × V)
      → c < 16384
      → slots c ≡ some x
      → should_move (fib_hash x.0 table_mask) e c ≡ false
      → shift_ends (suc fuel) table_mask slots e c ≡ shift_ends fuel table_mask slots e (after c)
  unfolding shift_ends
  shift_ends_kept fuel slots e c x p s y = rw (shift_ends, s, y, following_lem c p) refl

  -- The loop of `remove` ends within the fuel, and what it leaves.
  pub shift-Table :
      (fuel : ℕ) (slots : Slots V) (e c z : ℕ)
      → Gap slots e c z
      → distance c z < fuel
      → (shift_ends fuel table_mask slots e c ≡ true)
        × Table (shift fuel table_mask slots e c)
        × Rearranged slots (shift fuel table_mask slots e c)
  unfolding shift shift_ends
  shift-Table zero slots e c z g f = absurd (omega arith)
  shift-Table (suc fuel) slots e c z g f = elim (Option-cases (slots c)) [
    | inl n ↦
        rw (shift, shift_ends, n) (refl, Gap-Table slots e c z g n, (λ k v. (λ h. h, λ h. h), refl))
    | inr ((k, v), s) ↦
        let behind : c ≢ z = λ y. differ (sym s ∙ (ap slots y ∙ g.end_empty)) in
        let fuel_left : distance (after c) z < fuel =
          omega (arith, distance-after c z g.scan_lt g.end_lt behind) in
        let test =
          should_move_lem (fib_hash k table_mask) e c (fib_hash-lt k) g.gap_lt g.scan_lt
            (λ y. ground (arith, y)) in
        elim (Bool-cases (should_move (fib_hash k table_mask) e c)) [
          | inl y ↦
              let rest =
                shift-Table fuel (swap slots e c) c (after c) z
                  (Gap-move slots e c z k v g s (test.0 y)) fuel_left in
              rw
                (
                  shift_moved fuel slots e c (k, v) g.scan_lt s y,
                  shift_ends_moved fuel slots e c (k, v) g.scan_lt s y,
                )
                (
                  rest.0,
                  rest.1,
                  Rearranged-trans slots (swap slots e c) _
                      (swap-Rearranged slots e c (k, v) g.gap_lt g.scan_lt g.gap_empty s) rest.2,
                )
          | inr y ↦
              let rest =
                shift-Table fuel slots e (after c) z (Gap-next slots e c z k v g s (ground arith))
                  fuel_left in
              rw
                (
                  shift_kept fuel slots e c (k, v) g.scan_lt s y,
                  shift_ends_kept fuel slots e c (k, v) g.scan_lt s y,
                )
                rest
        ]
  ]
