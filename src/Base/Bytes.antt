-- ===== src/Base/Bytes.antt =====
-- Little-endian bytes, `to_le_bytes`, and comparison of byte arrays.
use Prim.Native.Nat.{ℕ, zero, suc, ◌/◌, ◌%◌, ◌^◌, ◌<◌}
use mathlib.Core.Path.{◌≡◌, refl, ap}
use mathlib.Core.Logic.{◌↔◌}
use mathlib.Core.Bool.{Bool, true, false, ◌&&◌}
use mathlib.Core.List.{List, [], ◌∷◌, ◌++◌}
use native.Mathlib.Nat.{pow-suc}
use native.Mathlib.Omega.{arith}
use fabric_os.Base.Tests.{◌==◌}
use fabric_os.Base.Lists.{length}

-- The low `n` bytes of a number, lowest first.
unfoldable pub to_le : ℕ → ℕ → List ℕ
to_le zero v = []
to_le (suc n) v = (v % 256) ∷ to_le n (v / 256)

length-to_le : (n v : ℕ) → length (to_le n v) ≡ n
unfolding to_le
length-to_le zero v = refl
length-to_le (suc n) v = ap suc (length-to_le n (v / 256))

-- A field of fixed width at the front of two byte strings can be told from them.
pub to_le-append_injective :
    (n a b : ℕ) (xs ys : List ℕ)
    → a < 256 ^ n
    → b < 256 ^ n
    → to_le n a ++ xs ≡ to_le n b ++ ys
    → (a ≡ b) × (xs ≡ ys)
unfolding to_le
to_le-append_injective zero a b xs ys p q e = (omega arith, e)
to_le-append_injective (suc n) a b xs ys p q e =
    ground (arith, pow-suc 256 n, to_le-append_injective n (a / 256) (b / 256) xs ys)

unfoldable pub bytes_eq : List ℕ → List ℕ → Bool
bytes_eq [] [] = true
bytes_eq [] (y ∷ ys) = false
bytes_eq (x ∷ xs) [] = false
bytes_eq (x ∷ xs) (y ∷ ys) = x == y && bytes_eq xs ys

pub bytes_eq_iff : (xs ys : List ℕ) → (bytes_eq xs ys ≡ true) ↔ (xs ≡ ys)
unfolding bytes_eq
bytes_eq_iff [] [] = ground arith
bytes_eq_iff [] (y ∷ ys) = ground arith
bytes_eq_iff (x ∷ xs) [] = ground arith
bytes_eq_iff (x ∷ xs) (y ∷ ys) = ground (arith, bytes_eq_iff xs ys)

bytes_eq_refl : (xs : List ℕ) → bytes_eq xs xs ≡ true
bytes_eq_refl xs = (bytes_eq_iff xs xs).1 refl
