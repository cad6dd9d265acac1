-- ===== src/Capability/Slab/Tables.antt =====
-- kernel/src/capability/slab.rs: what a write to one slot does to a table.
use fabric_os.Base.{
  ℕ, zero, suc, ◌<◌, ◌≡◌, ◌≢◌, ◌↔◌, ◌⊎◌, inl, inr, sym, ap, ◌∙◌, ◌==◌, none, some, Option, arith,
  Bool-cases, Option-cases,
}
use fabric_os.Base.Slots.{update, update_self}
use fabric_os.Capability.Slab.{Slots, fib_hash}
use fabric_os.Capability.Slab.Probing.{differ}
use fabric_os.Capability.Slab.Shifting.{Table, Gap}
use fabric_os.Capability.Slab.Removal.{Has}
use fabric_os.Capability.Slab.Cyclic.{table_mask, after, distance, after-lt, distance-zero}

module _ {V : Type 0} where
  -- No slot holds an entry of the key.
  abbrev pub Absent : Slots V → ℕ → Type 0
  Absent slots k = (i : ℕ) (v : V) → i < 16384 → slots i ≢ some (k, v)

  pub holds? :
      (n : ℕ) (slots : Slots V) (k : ℕ)
      → ((i : ℕ) × (v : V) × (i < n) × (slots i ≡ some (k, v)))
        ⊎ ((i : ℕ) (v : V) → i < n → slots i ≢ some (k, v))
  holds? zero slots k = inr (λ i v h. absurd (omega arith))
  holds? (suc n) slots k = elim (holds? n slots k) [
    | inl (i, v, h, s) ↦ inl (i, v, omega arith, s)
    | inr apart ↦ elim (Option-cases (slots n)) [
      | inl e ↦ inr (λ i v h s. ground (arith, apart i v))
      | inr ((j, w), e) ↦ elim (Bool-cases (j == k)) [
        | inl y ↦ inl (n, w, omega arith, ground arith)
        | inr y ↦ inr (λ i v h s. ground (arith, apart i v))
      ]
    ]
  ]

  pub update-Has :
      (slots : Slots V) (i k : ℕ) (v : V) → i < 16384 → Has (update slots i (some (k, v))) k v
  update-Has slots i k v p = (i, p, update_self slots i (some (k, v)))

  pub update_ne-Has :
      (slots : Slots V) (i k j : ℕ) (o : Option (ℕ × V)) (w : V)
      → k ≢ j
      → ((v : V) → o ≢ some (j, v))
      → (slots i ≡ none) ⊎ ((v : V) × (slots i ≡ some (k, v)))
      → Has (update slots i o) j w ↔ Has slots j w
  update_ne-Has slots i k j o w d new old =
      (λ h. (h.0, h.1, ground (arith, new w, h.2)), λ h. (h.0, h.1, ground (arith, old, h.2)))

  -- An entry of a new key, at the end of its scan.
  pub insert-Table :
      (slots : Slots V) (j k : ℕ) (v : V)
      → Table slots
      → j < 16384
      → slots j ≡ none
      → Absent slots k
      → ((m : ℕ)
          → m < 16384
          → distance (fib_hash k table_mask) m < distance (fib_hash k table_mask) j
          → slots m ≢ none)
      → Table (update slots j (some (k, v)))
  insert-Table slots j k v t p n apart path = record {
    chained = λ i k1 m w q s r d. elim (Bool-cases (j == i)) [
      | inl y ↦
          let same : k ≡ k1 = ground arith in
          let at : j ≡ i = ground arith in
          let hash : fib_hash k table_mask ≡ fib_hash k1 table_mask =
            ap (λ x. fib_hash x table_mask) same in
          ground (arith, path m r (ground (arith, hash, at, d)))
      | inr y ↦ ground (arith, t.chained i k1 m w q (ground (arith, s)) r d)
    ];
    single = λ i i2 k1 w u q r s x. elim (Bool-cases (j == i)) [
      | inl y ↦ elim (Bool-cases (j == i2)) [
        | inl z ↦ ground arith
        | inr z ↦ absurd (apart i2 u r (ground arith))
      ]
      | inr y ↦ elim (Bool-cases (j == i2)) [
        | inl z ↦ absurd (apart i w q (ground arith))
        | inr z ↦ t.single i i2 k1 w u q r (ground arith) (ground arith)
      ]
    ];
  }

  set_was :
      (slots : Slots V) (j k : ℕ) (v old : V) (i k1 : ℕ) (w : V)
      → slots j ≡ some (k, old)
      → update slots j (some (k, v)) i ≡ some (k1, w)
      → (u : V) × (slots i ≡ some (k1, u))
  set_was slots j k v old i k1 w n s = elim (Bool-cases (j == i)) [
    | inl y ↦ (old, ground arith)
    | inr y ↦ (w, ground arith)
  ]

  -- Another value for a key.
  pub set-Table :
      (slots : Slots V) (j k : ℕ) (v old : V)
      → Table slots
      → slots j ≡ some (k, old)
      → Table (update slots j (some (k, v)))
  set-Table slots j k v old t n = record {
    chained = λ i k1 m w q s r d.
        let was = set_was slots j k v old i k1 w n s in
        ground (arith, t.chained i k1 m was.0 q was.1 r d);
    single = λ i i2 k1 w u q r s x.
        let was = set_was slots j k v old i k1 w n s in
        let was2 = set_was slots j k v old i2 k1 u n x in
        t.single i i2 k1 was.0 was2.0 q r was.1 was2.1;
  }

  -- An entry taken out leaves a gap.
  pub remove-Gap :
      (slots : Slots V) (i k z : ℕ) (v : V)
      → Table slots
      → i < 16384
      → slots i ≡ some (k, v)
      → z < 16384
      → slots z ≡ none
      → Gap (update slots i none) i (after i) z
  remove-Gap slots i k z v t p s q n =
      let apart : i ≢ z = λ y. differ (sym s ∙ (ap slots y ∙ n)) in
      record {
        gap_lt = p;
        scan_lt = after-lt i p;
        end_lt = q;
        gap_empty = update_self slots i none;
        end_empty = ground arith;
        ahead = ground arith;
        before_end = ground arith;
        filled = λ m r l d. ground arith;
        chained =
            λ j k1 m w r x l o d. ground (arith, t.chained j k1 m w r (ground (arith, x)) l d);
        settled = λ j k1 w r x d. absurd (differ (sym x ∙ ground (arith, distance-zero i j p r)));
        single =
            λ j j2 k1 w u r l x y. t.single j j2 k1 w u r l (ground (arith, x)) (ground (arith, y));
      }
