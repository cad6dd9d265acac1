-- ===== src/Base/Bits.antt =====
-- `x & mask` for a mask of ones, as the power-of-two tables of kernel/src use it.
use Prim.Native.Nat.{
  ℕ, zero, suc, ◌+◌, ◌*◌, ◌-◌, ◌/◌, ◌%◌, ◌≤◌, ◌<◌, min, bit_and, digits, bit_and-bitwise,
}
use mathlib.Core.Path.{◌≡◌, refl, ap}
use native.Mathlib.Omega.{arith}

abbrev conjunction : ℕ → ℕ → ℕ → ℕ
conjunction n a b = digits (λ b. zero) min n a b

-- More digits than the number has change nothing.
conjunction_stable : (n m a b : ℕ) → a ≤ n → a ≤ m → conjunction n a b ≡ conjunction m a b
conjunction_stable zero zero a b p q = refl
conjunction_stable zero (suc m) zero b p q = refl
conjunction_stable zero (suc m) (suc a) b p q = absurd (omega arith)
conjunction_stable (suc n) zero zero b p q = refl
conjunction_stable (suc n) zero (suc a) b p q = absurd (omega arith)
conjunction_stable (suc n) (suc m) zero b p q = refl
conjunction_stable (suc n) (suc m) (suc a) b p q =
    omega (arith, conjunction_stable n m (suc a / 2) (b / 2) (omega arith) (omega arith))

zero-bit_and : (b : ℕ) → bit_and 0 b ≡ 0
zero-bit_and b = bit_and-bitwise 0 b

-- The lowest digit, and the digits above it.
pub bit_and-halve : (a b : ℕ) → bit_and a b ≡ bit_and (a / 2) (b / 2) * 2 + min (a % 2) (b % 2)
bit_and-halve zero b = omega (arith, zero-bit_and b, zero-bit_and (b / 2))
bit_and-halve (suc a) b = omega (
  arith,
  bit_and-bitwise (suc a) b,
  bit_and-bitwise (suc a / 2) (b / 2),
  conjunction_stable a (suc a / 2) (suc a / 2) (b / 2) (omega arith) (omega arith),
)

bit_and-zero_upto : (n a : ℕ) → a ≤ n → bit_and a 0 ≡ 0
bit_and-zero_upto n zero h = refl
bit_and-zero_upto zero (suc a) h = absurd (omega arith)
bit_and-zero_upto (suc n) (suc a) h =
    omega (arith, bit_and-halve (suc a) 0, bit_and-zero_upto n (suc a / 2) (omega arith))

-- The bits of `a & b` are bits of `a` and of `b`.
bit_and_le_upto : (n a b : ℕ) → a ≤ n → bit_and a b ≤ b
bit_and_le_upto n zero b h = omega (arith, zero-bit_and b)
bit_and_le_upto zero (suc a) b h = absurd (omega arith)
bit_and_le_upto (suc n) (suc a) b h =
    omega (arith, bit_and-halve (suc a) b, bit_and_le_upto n (suc a / 2) (b / 2) (omega arith))

pub bit_and_le : (a b : ℕ) → bit_and a b ≤ b
bit_and_le a b = bit_and_le_upto a a b (omega arith)

-- A mask of `k` ones.
unfoldable ones : ℕ → ℕ
ones zero = 0
ones (suc k) = ones k * 2 + 1

bit_and-ones : (k a : ℕ) → a ≤ ones k → bit_and a (ones k) ≡ a
unfolding ones
bit_and-ones zero a h = omega (arith, bit_and-zero_upto a a (omega arith))
bit_and-ones (suc k) a h = omega (
  arith,
  bit_and-halve a (ones (suc k)),
  ap (bit_and (a / 2)) half,
  bit_and-ones k (a / 2) (omega arith),
  twice,
)
  where
    twice : ones (suc k) ≡ ones k * 2 + 1
    twice = refl

    half : ones (suc k) / 2 ≡ ones k
    half = omega arith

-- The mask of the tables of 16384 slots: 16383 keeps the indices below 16384.
pub bit_and-fourteen : (a : ℕ) → a < 16384 → bit_and a 16383 ≡ a
unfolding ones
bit_and-fourteen a h = bit_and-ones 14 a (omega arith)

-- Where the bits of `a` are bits of `b`, and those of `b` bits of `c`, those of `a` are bits of `c`.
subset_trans :
    (n a b c : ℕ)
    → a ≤ ones n
    → b ≤ ones n
    → c ≤ ones n
    → bit_and a (ones n - b) ≡ 0
    → bit_and b (ones n - c) ≡ 0
    → bit_and a (ones n - c) ≡ 0
unfolding ones
subset_trans zero a b c p q r e f = omega (arith, bit_and_le a (0 - c))
subset_trans (suc n) a b c p q r e f =
    let halves : (x : ℕ) → x ≤ ones n * 2 + 1 → (ones n * 2 + 1 - x) / 2 ≡ ones n - x / 2 =
      λ x l. omega (arith, l) in
    omega (
      arith,
      bit_and-halve a (ones (suc n) - b),
      bit_and-halve b (ones (suc n) - c),
      bit_and-halve a (ones (suc n) - c),
      ap (bit_and (a / 2)) (halves b q),
      ap (bit_and (b / 2)) (halves c r),
      ap (bit_and (a / 2)) (halves c r),
      subset_trans n (a / 2) (b / 2) (c / 2) (omega arith) (omega arith) (omega arith),
    )

pub subset_trans_sixteen :
    (a b c : ℕ)
    → a < 65536
    → b < 65536
    → c < 65536
    → bit_and a (65535 - b) ≡ 0
    → bit_and b (65535 - c) ≡ 0
    → bit_and a (65535 - c) ≡ 0
unfolding ones
subset_trans_sixteen a b c p q r e f =
    subset_trans 16 a b c (omega arith) (omega arith) (omega arith) e f

subset_refl : (n a : ℕ) → a ≤ ones n → bit_and a (ones n - a) ≡ 0
unfolding ones
subset_refl zero a p = omega (arith, bit_and_le a (0 - a))
subset_refl (suc n) a p =
    let half : (ones n * 2 + 1 - a) / 2 ≡ ones n - a / 2 = omega (arith, p) in
    omega (
      arith,
      bit_and-halve a (ones (suc n) - a),
      ap (bit_and (a / 2)) half,
      subset_refl n (a / 2) (omega arith),
    )

pub subset_refl_sixteen : (a : ℕ) → a < 65536 → bit_and a (65535 - a) ≡ 0
unfolding ones
subset_refl_sixteen a p = subset_refl 16 a (omega arith)

-- What `a` has of `p`, a `b` with all bits of `a` has too.
subset_covers :
    (n a b p : ℕ)
    → a ≤ ones n
    → b ≤ ones n
    → bit_and a p ≡ p
    → bit_and a (ones n - b) ≡ 0
    → bit_and b p ≡ p
unfolding ones
subset_covers zero a b p q r e f =
    let same : a ≡ b = omega (arith, q, r) in omega (arith, e, ap (λ x. bit_and x p) same)
subset_covers (suc n) a b p q r e f =
    let half : (ones n * 2 + 1 - b) / 2 ≡ ones n - b / 2 = omega (arith, r) in
    let of_a = bit_and-halve a p in
    let off = bit_and-halve a (ones (suc n) - b) in
    let same = ap (bit_and (a / 2)) half in
    omega (
      arith,
      of_a,
      off,
      same,
      bit_and-halve b p,
      subset_covers n (a / 2) (b / 2) (p / 2) (omega arith) (omega arith) (omega (arith, of_a, e))
          (omega (arith, off, same, f)),
    )

pub subset_covers_sixteen :
    (a b p : ℕ)
    → a < 65536
    → b < 65536
    → bit_and a p ≡ p
    → bit_and a (65535 - b) ≡ 0
    → bit_and b p ≡ p
unfolding ones
subset_covers_sixteen a b p q r e f = subset_covers 16 a b p (omega arith) (omega arith) e f
