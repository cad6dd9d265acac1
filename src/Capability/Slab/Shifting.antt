-- ===== src/Capability/Slab/Shifting.antt =====
-- kernel/src/capability/slab.rs: the backward shift of `remove` ends, and leaves every key where a
-- scan finds it.
use fabric_os.Base.{
  ℕ, ◌≤◌, ◌<◌, ◌≡◌, ◌≢◌, inl, inr, refl, sym, ap, ◌∙◌, ◌==◌, none, some, Option, arith,
  if◌then◌else◌, ltb, Bool-cases,
}
use fabric_os.Base.Slots.{update}
use fabric_os.Capability.Slab.{Slots, fib_hash}
use fabric_os.Capability.Slab.Probing.{differ}
use fabric_os.Capability.Slab.Cyclic.{
  table_mask, after, distance, after-lt, distance-zero, fib_hash-lt,
}

-- The gap at `e`, what was scanned up to `c`, an entry of hash `h` at `i` behind `c`.
passes-gap :
    (h e c i : ℕ)
    → h < 16384
    → e < 16384
    → c < 16384
    → i < 16384
    → distance h e < distance h i
    → distance e c < distance e i
    → distance h c < distance h i
passes-gap h e c i p q r s d g = ground arith

pub entry_key :
    {V : Type 0} {k j : ℕ} {v w : V} → ◌≡◌ {A = Option (ℕ × V)} (some (k, v)) (some (j, w)) → k ≡ j
entry_key e = ground arith

-- The slot that the entry at `i` came from in a move from `c` to `e`.
abbrev pub moved_from : ℕ → ℕ → ℕ → ℕ
moved_from e c i = if i == e then c else i

came_apart : (e c i j : ℕ) → i ≢ c → j ≢ c → moved_from e c i ≡ moved_from e c j → i ≡ j
came_apart e c i j p q m = ground arith

module _ {V : Type 0} where
  pub record Table (slots : Slots V) : Type 0 where
    -- No slot is empty between a key's hash and its entry, and no key has two entries.
    pub chained :
        (i k m : ℕ) (v : V)
        → i < 16384
        → slots i ≡ some (k, v)
        → m < 16384
        → distance (fib_hash k table_mask) m < distance (fib_hash k table_mask) i
        → slots m ≢ none
    pub single :
        (i j k : ℕ) (v w : V)
        → i < 16384
        → j < 16384
        → slots i ≡ some (k, v)
        → slots j ≡ some (k, w)
        → i ≡ j

  pub record Gap (slots : Slots V) (e c z : ℕ) : Type 0 where
    pub gap_lt : e < 16384
    pub scan_lt : c < 16384
    pub end_lt : z < 16384
    pub gap_empty : slots e ≡ none
    pub end_empty : slots z ≡ none
    pub ahead : 0 < distance e c
    pub before_end : distance e c ≤ distance e z
    pub filled :
        (m : ℕ) → m < 16384 → 0 < distance e m → distance e m < distance e c → slots m ≢ none
    pub chained :
        (i k m : ℕ) (v : V)
        → i < 16384
        → slots i ≡ some (k, v)
        → m < 16384
        → m ≢ e
        → distance (fib_hash k table_mask) m < distance (fib_hash k table_mask) i
        → slots m ≢ none
    pub settled :
        (i k : ℕ) (v : V)
        → i < 16384
        → slots i ≡ some (k, v)
        → distance e i < distance e c
        → distance (fib_hash k table_mask) i ≤ distance (fib_hash k table_mask) e
    pub single :
        (i j k : ℕ) (v w : V)
        → i < 16384
        → j < 16384
        → slots i ≡ some (k, v)
        → slots j ≡ some (k, w)
        → i ≡ j

  pub Gap-Table : (slots : Slots V) (e c z : ℕ) → Gap slots e c z → slots c ≡ none → Table slots
  Gap-Table slots e c z g n = record {
    chained = λ i k m v p s q d x. elim (Bool-cases (m == e)) [
      | inr o ↦ g.chained i k m v p s q (ground arith) d x
      | inl o ↦
          let same : m ≡ e = ground arith in
          let apart : i ≢ c = λ y. differ (sym s ∙ (ap slots y ∙ n)) in
          elim (Bool-cases (ltb (distance e i) (distance e c))) [
            | inl l ↦ ground (arith, g.settled i k v p s)
            | inr l ↦
                g.chained i k c v p s g.scan_lt (ground (arith, g.ahead, g.gap_lt))
                  (passes-gap (fib_hash k table_mask) e c i (fib_hash-lt k) g.gap_lt g.scan_lt p
                    (ground arith) (ground (arith, g.gap_lt, g.scan_lt, g.ahead)))
                  n
          ]
    ];
    single = g.single;
  }

  pub Gap-next :
      (slots : Slots V) (e c z k0 : ℕ) (v0 : V)
      → Gap slots e c z
      → slots c ≡ some (k0, v0)
      → distance (fib_hash k0 table_mask) c ≤ distance (fib_hash k0 table_mask) e
      → Gap slots e (after c) z
  Gap-next slots e c z k0 v0 g s far =
      let behind : c ≢ z = λ y. differ (sym s ∙ (ap slots y ∙ g.end_empty)) in
      record {
        gap_lt = g.gap_lt;
        scan_lt = after-lt c g.scan_lt;
        end_lt = g.end_lt;
        gap_empty = g.gap_empty;
        end_empty = g.end_empty;
        ahead = ground (arith, g.gap_lt, g.scan_lt, g.end_lt, g.ahead, g.before_end);
        before_end = ground (arith, g.gap_lt, g.scan_lt, g.end_lt, g.ahead, g.before_end);
        filled = λ m p l d x. elim (Bool-cases (m == c)) [
          | inl y ↦ differ (sym s ∙ (ap slots (sym (ground arith)) ∙ x))
          | inr y ↦
              g.filled m p l (ground (arith, g.gap_lt, g.scan_lt, g.end_lt, g.ahead, g.before_end))
                x
        ];
        chained = g.chained;
        settled = λ i k v p t d. elim (Bool-cases (i == c)) [
          | inl y ↦
              let at : i ≡ c = ground arith in
              let same : fib_hash k table_mask ≡ fib_hash k0 table_mask =
                ap (λ x. fib_hash x table_mask) (entry_key (sym t ∙ (ap slots at ∙ s))) in
              ground (arith, far, same, at)
          | inr y ↦
              g.settled i k v p t
                (ground (arith, g.gap_lt, g.scan_lt, g.end_lt, g.ahead, g.before_end))
        ];
        single = g.single;
      }

  abbrev pub swap : Slots V → ℕ → ℕ → Slots V
  swap slots e c = update (update slots e (slots c)) c (slots e)

  pub swap-some :
      (slots : Slots V) (e c i : ℕ) (x : ℕ × V)
      → slots e ≡ none
      → swap slots e c i ≡ some x
      → (i ≢ c) × (slots (moved_from e c i) ≡ some x)
  swap-some slots e c i x n s = ground arith

  swap-filled :
      (slots : Slots V) (e c m : ℕ) (x : ℕ × V)
      → slots c ≡ some x
      → m ≢ c
      → m ≢ e
      → slots m ≢ none
      → swap slots e c m ≢ none
  swap-filled slots e c m x s o p q = ground arith

  moved-farther :
      (slots : Slots V) (e c i k k0 m : ℕ) (v v0 : V)
      → slots c ≡ some (k0, v0)
      → distance (fib_hash k0 table_mask) e < distance (fib_hash k0 table_mask) c
      → slots (moved_from e c i) ≡ some (k, v)
      → distance (fib_hash k table_mask) m < distance (fib_hash k table_mask) i
      → distance (fib_hash k table_mask) m < distance (fib_hash k table_mask) (moved_from e c i)
  moved-farther slots e c i k k0 m v v0 s near t d = elim (Bool-cases (i == e)) [
    | inr n ↦ rw n d
    | inl y ↦
        let back : moved_from e c i ≡ c = rw y refl in
        let same : fib_hash k table_mask ≡ fib_hash k0 table_mask =
          ap (λ x. fib_hash x table_mask) (entry_key (sym t ∙ (ap slots back ∙ s))) in
        let at : i ≡ e = ground arith in ground (arith, near, same, d, back, at)
  ]

  pub Gap-move :
      (slots : Slots V) (e c z k0 : ℕ) (v0 : V)
      → Gap slots e c z
      → slots c ≡ some (k0, v0)
      → distance (fib_hash k0 table_mask) e < distance (fib_hash k0 table_mask) c
      → Gap (swap slots e c) c (after c) z
  Gap-move slots e c z k0 v0 g s near =
      let behind : c ≢ z = λ y. differ (sym s ∙ (ap slots y ∙ g.end_empty)) in
      let beyond : e ≢ z = λ y. ground (arith, y) in
      record {
        gap_lt = g.scan_lt;
        scan_lt = after-lt c g.scan_lt;
        end_lt = g.end_lt;
        gap_empty = ground arith;
        end_empty = ground arith;
        ahead = ground (arith, g.scan_lt, g.end_lt);
        before_end = ground (arith, g.scan_lt, g.end_lt);
        filled = λ m p l d. ground (arith, g.scan_lt);
        chained = λ i k m v p t q o d.
            let came = swap-some slots e c i (k, v) g.gap_empty t in
            let on_the_way : distance (fib_hash k table_mask) m
                < distance (fib_hash k table_mask) (moved_from e c i) =
              moved-farther slots e c i k k0 m v v0 s near came.1 d in
            elim (Bool-cases (m == e)) [
              | inl y ↦ λ n. ground arith
              | inr y ↦
                  swap-filled slots e c m (k0, v0) s o (ground arith)
                    (g.chained (moved_from e c i) k m v (ground arith) came.1 q (ground arith)
                      on_the_way)
            ];
        settled = λ i k v p t d. absurd (
            (swap-some slots e c i (k, v) g.gap_empty t).0
              (ground (arith, distance-zero c i g.scan_lt p)));
        single = λ i j k v w p q t u.
            let from_i = swap-some slots e c i (k, v) g.gap_empty t in
            let from_j = swap-some slots e c j (k, w) g.gap_empty u in
            came_apart e c i j from_i.0 from_j.0 (
              g.single (moved_from e c i) (moved_from e c j) k v w (ground arith) (ground arith)
                from_i.1 from_j.1);
      }
