-- ===== src/Capability/Slab.antt =====
-- kernel/src/capability/slab.rs: FixedMap, a hash map of fixed size with open addressing and
-- backward-shift deletion. The scans are on fuel; a table of `capacity` slots is given `capacity`.
pub mod Cyclic
pub mod Probing
pub mod Shifting
pub mod Occupied
pub mod Removal
pub mod Tables
pub mod Ready
pub mod Laws
pub mod Deletion
pub mod Reuse
pub mod Size
pub mod Keys
use fabric_os.Base.{
  ℕ, zero, suc, ◌+◌, ◌-◌, ◌*◌, ◌/◌, ◌%◌, bit_and, Bool, true, false, ◌&&◌, ◌||◌, Option, none, some,
  ltb, leb, ◌==◌, if◌then◌else◌, is_some,
}
use fabric_os.Base.Words.{u64_mod, u32_mod, add64, sub64}
use fabric_os.Base.Slots.{update}

abbrev pub default_capacity : ℕ
default_capacity = 16384

-- `as usize` keeps the 64 bits.
unfoldable pub fib_hash : ℕ → ℕ → ℕ
fib_hash key mask = let h = key * 0x9E3779B97F4A7C15 % u64_mod in bit_and (h / u32_mod) mask

-- `(idx + 1) & mask`.
unfoldable pub following : ℕ → ℕ → ℕ
following mask idx = bit_and (add64 idx 1) mask

abbrev pub Slots : Type 0 → Type 0
Slots V = ℕ → Option (ℕ × V)

-- Where the loop of `insert`, `get`, `get_mut` and `remove` ends: at an empty slot, at the key, or
-- not within the fuel.
pub data Probe (V : Type 0) : Type 0 where
  vacant : ℕ → Probe V
  matching : ℕ → V → Probe V
  spinning : Probe V

pub record FixedMap (V : Type 0) : Type 0 where
  pub slots : Option (Slots V)
  pub capacity : ℕ
  pub mask : ℕ
  pub len : ℕ

-- `should_move` of `remove`, for the entry at `scan` whose hash is `natural`.
unfoldable pub should_move : ℕ → ℕ → ℕ → Bool
should_move natural empty scan =
    if leb natural scan
    then leb natural empty && ltb empty scan
    else (leb natural empty || ltb empty scan)

module _ {V : Type 0} where
  unfoldable pub probe : ℕ → ℕ → Slots V → ℕ → ℕ → Probe V
  probe zero mask slots key idx = spinning
  probe (suc fuel) mask slots key idx = elim (slots idx) [
    | none ↦ vacant idx
    | some (k, v) ↦ elim (k == key) [
      | true ↦ matching idx v
      | false ↦ probe fuel mask slots key (following mask idx)
    ]
  ]

  -- The second loop of `remove`. `slots.swap(empty, scan)` moves the entry, since `empty` holds none.
  unfoldable pub shift : ℕ → ℕ → Slots V → ℕ → ℕ → Slots V
  shift zero mask slots empty scan = slots
  shift (suc fuel) mask slots empty scan = elim (slots scan) [
    | none ↦ slots
    | some (k, v) ↦ elim (should_move (fib_hash k mask) empty scan) [
      | true ↦
          shift fuel mask (update (update slots empty (slots scan)) scan (slots empty)) scan
            (following mask scan)
      | false ↦ shift fuel mask slots empty (following mask scan)
    ]
  ]

  -- Whether that loop ends within the fuel.
  unfoldable pub shift_ends : ℕ → ℕ → Slots V → ℕ → ℕ → Bool
  shift_ends zero mask slots empty scan = false
  shift_ends (suc fuel) mask slots empty scan = elim (slots scan) [
    | none ↦ true
    | some (k, v) ↦ elim (should_move (fib_hash k mask) empty scan) [
      | true ↦
          shift_ends fuel mask (update (update slots empty (slots scan)) scan (slots empty)) scan
            (following mask scan)
      | false ↦ shift_ends fuel mask slots empty (following mask scan)
    ]
  ]

  unfoldable pub new_map : FixedMap V
  new_map = record { slots = none; capacity = 0; mask = 0; len = 0 }

  unfoldable pub alloc_slots : FixedMap V → ℕ → FixedMap V
  alloc_slots m capacity = record m {
    slots = some (λ i. none);
    capacity = capacity;
    mask = sub64 capacity 1;
  }

  unfoldable pub ensure_init : FixedMap V → FixedMap V
  ensure_init m = elim m.slots [ none ↦ alloc_slots m default_capacity | some s ↦ m ]

  unfoldable pub find : FixedMap V → ℕ → Probe V
  find m key = elim m.slots [
    | none ↦ vacant 0
    | some s ↦ probe m.capacity m.mask s key (fib_hash key m.mask)
  ]

  -- `slots[idx] = entry`.
  unfoldable pub set_slot : FixedMap V → ℕ → Option (ℕ × V) → FixedMap V
  set_slot m idx entry = elim m.slots [
    | none ↦ m
    | some s ↦ record m { slots = some (update s idx entry) }
  ]

  -- The arms of `insert`, where the scan ended. The load factor is checked at the empty slot;
  -- `cap * 3` is far below 2 ^ 64.
  unfoldable pub insert_at : FixedMap V → ℕ → V → Probe V → FixedMap V × Bool
  insert_at m key value (vacant idx) =
      if leb (m.capacity * 3 / 4) m.len
      then (m, false)
      else (record (set_slot m idx (some (key, value))) { len = add64 m.len 1 }, true)
  insert_at m key value (matching idx old) = (set_slot m idx (some (key, value)), true)
  insert_at m key value spinning = (m, false)

  unfoldable pub insert : FixedMap V → ℕ → V → FixedMap V × Bool
  insert m key value = let m1 = ensure_init m in insert_at m1 key value (find m1 key)

  unfoldable pub get : FixedMap V → ℕ → Option V
  get m key = elim (find m key) [ vacant idx ↦ none | matching idx v ↦ some v | spinning ↦ none ]

  -- A write through the reference that `get_mut` returns, if it returns one.
  unfoldable pub modify : FixedMap V → ℕ → (V → V) → FixedMap V
  modify m key f = elim (find m key) [
    | vacant idx ↦ m
    | matching idx v ↦ set_slot m idx (some (key, f v))
    | spinning ↦ m
  ]

  unfoldable pub contains_key : FixedMap V → ℕ → Bool
  contains_key m key = is_some (get m key)

  -- `remove`, where its first loop ended.
  unfoldable pub remove_at : FixedMap V → Probe V → FixedMap V × Option V
  remove_at m (vacant idx) = (m, none)
  remove_at m (matching idx v) = (
    record m {
      slots = elim m.slots [
        | none ↦ none
        | some s ↦ some (shift m.capacity m.mask (update s idx none) idx (following m.mask idx))
      ];
      len = sub64 m.len 1;
    },
    some v,
  )
  remove_at m spinning = (m, none)

  unfoldable pub remove : FixedMap V → ℕ → FixedMap V × Option V
  remove m key = remove_at m (find m key)

  -- The map after `get_or_insert`, and the value that the returned reference reads; the method
  -- panics where there is none.
  unfoldable pub get_or_insert : FixedMap V → ℕ → V → FixedMap V × Option V
  get_or_insert m key default =
      let m1 = ensure_init m in
      let m2 = if contains_key m1 key then m1 else (insert m1 key default).0 in (m2, get m2 key)

  unfoldable pub clear : FixedMap V → FixedMap V
  clear m = record m { slots = elim m.slots [ none ↦ none | some s ↦ some (λ i. none) ]; len = 0 }

  unfoldable pub is_empty : FixedMap V → Bool
  is_empty m = m.len == 0
