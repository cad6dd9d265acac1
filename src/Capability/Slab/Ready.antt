-- ===== src/Capability/Slab/Ready.antt =====
-- kernel/src/capability/slab.rs: the invariant of a map, and what a scan of it finds.
use fabric_os.Base.{
  ℕ, ◌≤◌, ◌<◌, ◌≡◌, ◌≢◌, ◌↔◌, ◌⊎◌, inl, inr, refl, sym, ap, ◌∙◌, none, some, arith, Option-cases,
}
use fabric_os.Capability.Slab.{Slots, FixedMap, vacant, matching, probe, find, get, fib_hash}
use fabric_os.Capability.Slab.Probing.{Blocks, differ, probe-matching, probe-vacant}
use fabric_os.Capability.Slab.Shifting.{Table}
use fabric_os.Capability.Slab.Removal.{Has}
use fabric_os.Capability.Slab.Occupied.{occupied, occupied-room}
use fabric_os.Capability.Slab.Tables.{Absent, holds?}
use fabric_os.Capability.Slab.Cyclic.{table_mask, distance, fib_hash-lt, distance-lt}

-- The greatest number of entries.
abbrev pub max_entries : ℕ
max_entries = 12288

module _ {V : Type 0} where
  pub record Ready (m : FixedMap V) (s : Slots V) : Type 0 where
    pub storage : m.slots ≡ some s
    pub all_slots : m.capacity ≡ 16384
    pub all_ones : m.mask ≡ table_mask
    pub table : Table s
    pub counted : occupied 16384 s ≡ m.len
    pub bounded : m.len ≤ max_entries

  -- No storage yet, or a table of it that is not too full.
  abbrev pub IsValid : FixedMap V → Type 0
  IsValid m = ((m.slots ≡ none) × (m.len ≡ 0)) ⊎ ((s : Slots V) × Ready m s)

  abbrev pub Hit : FixedMap V → Slots V → ℕ → Type 0
  Hit m s key =
      (i : ℕ) × (v : V) × (find m key ≡ matching i v) × (i < 16384) × (s i ≡ some (key, v))

  abbrev pub Miss : FixedMap V → Slots V → ℕ → Type 0
  Miss m s key =
      (j : ℕ) × (find m key ≡ vacant j)
      × (j < 16384)
      × (s j ≡ none)
      × ((n : ℕ)
          → n < 16384
          → distance (fib_hash key table_mask) n < distance (fib_hash key table_mask) j
          → s n ≢ none)
      × Absent s key

  find-probe :
      (m : FixedMap V) (s : Slots V) (key : ℕ)
      → Ready m s
      → find m key ≡ probe 16384 table_mask s key (fib_hash key table_mask)
  unfolding find
  find-probe m s key r = rw (find, r.storage, r.all_slots, r.all_ones) refl

  blocked :
      (s : Slots V) (key i : ℕ) (v : V)
      → Table s
      → i < 16384
      → s i ≡ some (key, v)
      → (n : ℕ) → n < 16384
      → distance (fib_hash key table_mask) n < distance (fib_hash key table_mask) i
      → Blocks key (s n)
  blocked s key i v t p e n q d = elim (Option-cases (s n)) [
    | inl x ↦ absurd (t.chained i key n v p e q d x)
    | inr ((k, w), x) ↦ (
      (k, w),
      x,
      λ y. ground (arith, d, t.single n i key w v q p (x ∙ ap (λ u. some (u, w)) y) e),
    )
  ]

  -- A scan of a map that is not too full ends, at the key exactly when a slot holds it.
  pub find_lem : (m : FixedMap V) (s : Slots V) (key : ℕ) → Ready m s → Hit m s key ⊎ Miss m s key
  find_lem m s key r =
      let room = occupied-room 16384 s (omega (arith, r.counted, r.bounded)) in
      elim (holds? 16384 s key) [
        | inl (i, v, p, e) ↦ inl (
          i,
          v,
          find-probe m s key r
              ∙ probe-matching 16384 s key (fib_hash key table_mask) i v (fib_hash-lt key) p e
                  (blocked s key i v r.table p e) (distance-lt _ i (fib_hash-lt key) p),
          p,
          e,
        )
        | inr apart ↦
            let miss =
              probe-vacant 16384 s key (fib_hash key table_mask) room.0 (fib_hash-lt key) room.1
                room.2 (λ n w p. apart n w p) (distance-lt _ room.0 (fib_hash-lt key) room.1) in
            inr (miss.0, find-probe m s key r ∙ miss.1, miss.2, miss.3, miss.4, apart)
      ]

  -- A lookup gives what the slots hold.
  pub get_iff_Has :
      (m : FixedMap V) (s : Slots V) (key : ℕ) (v : V)
      → Ready m s
      → (get m key ≡ some v) ↔ Has s key v
  unfolding get
  get_iff_Has m s key v r = elim (find_lem m s key r) [
    | inl (i, w, e, p, x) ↦
        rw (get, e)
          (
            λ h. (i, p, ground (arith, x, h)),
            λ h. ground (arith, r.table.single i h.0 key w v p h.1 x h.2, x, h.2),
          )
    | inr (j, e, p, x, path, apart) ↦
        rw (get, e) (λ h. absurd (differ (sym h)), λ h. absurd (apart h.0 v h.1 h.2))
  ]
