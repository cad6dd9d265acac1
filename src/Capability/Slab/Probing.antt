-- ===== src/Capability/Slab/Probing.antt =====
-- kernel/src/capability/slab.rs: the scan for a key ends, at the key or at an empty slot.
use fabric_os.Base.{
  ℕ, zero, suc, ◌+◌, ◌<◌, ◌≡◌, ◌≢◌, inl, inr, refl, sym, ap, ◌∙◌, true, false, ◌==◌, none, some,
  Option, arith, Bool-cases, Option-cases,
}
use fabric_os.Capability.Slab.{Slots, vacant, matching, probe, following}
use fabric_os.Capability.Slab.Cyclic.{
  table_mask, after, distance, following_lem, after-lt, distance-after, distance_self,
}

farther :
    (a m i : ℕ)
    → a < 16384
    → m < 16384
    → i < 16384
    → a ≢ i
    → distance (after a) m < distance (after a) i
    → distance a m < distance a i
farther a m i p h q n d = ground arith

nearer :
    (a m i : ℕ)
    → a < 16384
    → m < 16384
    → i < 16384
    → a ≢ m
    → a ≢ i
    → distance a m < distance a i
    → distance (after a) m < distance (after a) i
nearer a m i p h q n o d = ground arith

pub differ {ℓ} : {A : Type ℓ} {x : A} → some x ≢ none
differ e = ground arith

module _ {V : Type 0} where
  -- The slot holds an entry of another key.
  abbrev pub Blocks : ℕ → Option (ℕ × V) → Type 0
  Blocks key o = (e : ℕ × V) × (o ≡ some e) × (e.0 ≢ key)

  probe-blocked :
      (fuel : ℕ) (slots : Slots V) (key a : ℕ)
      → Blocks key (slots a)
      → probe (suc fuel) table_mask slots key a
        ≡ probe fuel table_mask slots key (following table_mask a)
  unfolding probe
  probe-blocked fuel slots key a ((k, w), e, n) = rw (probe, e, test) refl
    where
      test : (k == key) ≡ false
      test = ground arith

  probe-found :
      (fuel : ℕ) (slots : Slots V) (key a : ℕ) (v : V)
      → slots a ≡ some (key, v)
      → probe (suc fuel) table_mask slots key a ≡ matching a v
  unfolding probe
  probe-found fuel slots key a v e = rw (probe, e, test) refl
    where
      test : (key == key) ≡ true
      test = ground arith

  probe-empty :
      (fuel : ℕ) (slots : Slots V) (key a : ℕ)
      → slots a ≡ none
      → probe (suc fuel) table_mask slots key a ≡ vacant a
  unfolding probe
  probe-empty fuel slots key a e = rw (probe, e) refl

  -- From any slot, if all up to the key's are of other keys.
  pub probe-matching :
      (fuel : ℕ) (slots : Slots V) (key a i : ℕ) (v : V)
      → a < 16384
      → i < 16384
      → slots i ≡ some (key, v)
      → ((m : ℕ) → m < 16384 → distance a m < distance a i → Blocks key (slots m))
      → distance a i < fuel
      → probe fuel table_mask slots key a ≡ matching i v
  probe-matching zero slots key a i v p q e b f = absurd (omega arith)
  probe-matching (suc fuel) slots key a i v p q e b f = elim (Bool-cases (a == i)) [
    | inl y ↦ let same : a ≡ i = ground arith in rw same (probe-found fuel slots key i v e)
    | inr n ↦
        let ne : a ≢ i = ground arith in
        let near : distance (after a) i + 1 ≡ distance a i = distance-after a i p q ne in
        probe-blocked fuel slots key a (b a p (omega (arith, distance_self a)))
        ∙ (ap (probe fuel table_mask slots key) (following_lem a p)
            ∙ probe-matching fuel slots key (after a) i v (after-lt a p) q e
                (λ m h d. b m h (farther a m i p h q ne d)) (omega arith))
  ]

  -- From any slot, if no slot is of the key.
  pub probe-vacant :
      (fuel : ℕ) (slots : Slots V) (key a e : ℕ)
      → a < 16384
      → e < 16384
      → slots e ≡ none
      → ((m : ℕ) (w : V) → m < 16384 → slots m ≢ some (key, w))
      → distance a e < fuel
      → (j : ℕ) × (probe fuel table_mask slots key a ≡ vacant j)
        × (j < 16384)
        × (slots j ≡ none)
        × ((m : ℕ) → m < 16384 → distance a m < distance a j → slots m ≢ none)
  probe-vacant zero slots key a e p q z b f = absurd (omega arith)
  probe-vacant (suc fuel) slots key a e p q z b f = elim (Option-cases (slots a)) [
    | inl n ↦
        (a, probe-empty fuel slots key a n, p, n, λ m h d. absurd (omega (arith, distance_self a)))
    | inr ((k, w), y) ↦
        let full : slots a ≢ none = λ n. differ (sym y ∙ n) in
        let other : k ≢ key = λ s. b a w p (y ∙ ap (λ x. some (x, w)) s) in
        let ne : a ≢ e = λ s. full (ap slots s ∙ z) in
        let apart : (j : ℕ) → slots j ≡ none → a ≢ j = λ j n s. full (ap slots s ∙ n) in
        let near : distance (after a) e + 1 ≡ distance a e = distance-after a e p q ne in
        let rest = probe-vacant fuel slots key (after a) e (after-lt a p) q z b (omega arith) in
        (
          rest.0,
          probe-blocked fuel slots key a ((k, w), y, other)
              ∙ (ap (probe fuel table_mask slots key) (following_lem a p) ∙ rest.1),
          rest.2,
          rest.3,
          λ m h d.
              λ n. rest.4 m h (nearer a m rest.0 p h rest.2 (apart m n) (apart rest.0 rest.3) d) n,
        )
  ]
