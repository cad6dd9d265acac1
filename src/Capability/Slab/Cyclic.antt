-- ===== src/Capability/Slab/Cyclic.antt =====
-- kernel/src/capability/slab.rs: the order of the 16384 slots as a scan goes round them.
use fabric_os.Base.{
  ℕ, ◌+◌, ◌-◌, ◌*◌, ◌/◌, ◌%◌, ◌^◌, ◌<◌, ◌≡◌, ◌≢◌, ◌↔◌, true, leb, ◌==◌, if◌then◌else◌, arith,
}
use fabric_os.Base.Bits.{bit_and_le, bit_and-fourteen}
use fabric_os.Capability.Slab.{fib_hash, following, should_move}

-- The mask of a table of `default_capacity` slots.
abbrev pub table_mask : ℕ
table_mask = 16383

abbrev pub after : ℕ → ℕ
after i = if i + 1 == 16384 then 0 else i + 1

-- How many steps a scan takes from one slot to another.
abbrev pub distance : ℕ → ℕ → ℕ
distance a b = if leb a b then b - a else b + 16384 - a

pub following_lem : (i : ℕ) → i < 16384 → following table_mask i ≡ after i
unfolding following
following_lem i h = ground (arith, bit_and-fourteen (i + 1))

pub after-lt : (i : ℕ) → i < 16384 → after i < 16384
after-lt i h = ground arith

pub fib_hash-lt : (k : ℕ) → fib_hash k table_mask < 16384
unfolding fib_hash
fib_hash-lt k = omega (arith, bit_and_le (k * 0x9E3779B97F4A7C15 % 2 ^ 64 / 2 ^ 32) 16383)

pub distance-lt : (a b : ℕ) → a < 16384 → b < 16384 → distance a b < 16384
distance-lt a b p q = ground arith

-- A step brings every other slot nearer by one.
pub distance-after :
    (a b : ℕ) → a < 16384 → b < 16384 → a ≢ b → distance (after a) b + 1 ≡ distance a b
distance-after a b p q n = ground arith

pub distance_self : (a : ℕ) → distance a a ≡ 0
distance_self a = ground arith

pub distance-zero : (a b : ℕ) → a < 16384 → b < 16384 → distance a b ≡ 0 → a ≡ b
distance-zero a b p q e = ground arith

-- An entry is moved exactly when the gap is on the way from its hash to it.
pub should_move_lem :
    (n e c : ℕ)
    → n < 16384
    → e < 16384
    → c < 16384
    → e ≢ c
    → (should_move n e c ≡ true) ↔ (distance n e < distance n c)
unfolding should_move
should_move_lem n e c p q r d = ground arith
