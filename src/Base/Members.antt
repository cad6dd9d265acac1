-- ===== src/Base/Members.antt =====
-- Lists of ids as sets: membership, lists without repetition, and how their lengths compare.
use Prim.Native.Nat.{ℕ, ◌+◌, ◌≤◌}
use mathlib.Core.Path.{◌≡◌, refl, ap}
use mathlib.Core.Bool.{Bool, true, false, not, ◌&&◌, ◌||◌}
use mathlib.Core.List.{List, [], ◌∷◌}
use native.Mathlib.Omega.{arith}
use fabric_os.Base.Tests.{◌==◌, if◌then◌else◌}
use fabric_os.Base.Lists.{length}

pub ==→≡ : (a b : ℕ) → (a == b) ≡ true → a ≡ b
==→≡ a b h = ground arith

abbrev pub elem : ℕ → List ℕ → Bool
elem c [] = false
elem c (x ∷ xs) = (x == c) || elem c xs

abbrev pub Distinct : List ℕ → Type 0
Distinct [] = Unit {0}
Distinct (x ∷ xs) = (elem x xs ≡ false) × Distinct xs

-- The list less the first occurrence of an element.
abbrev pub without : ℕ → List ℕ → List ℕ
without x [] = []
without x (y ∷ ys) = if y == x then ys else y ∷ without x ys

pub elem-without :
    (x c : ℕ) (xs : List ℕ) → Distinct xs → elem c (without x xs) ≡ (elem c xs && not (x == c))
elem-without x c [] d = refl
elem-without x c (y ∷ ys) d =
    let gone : (y == c) ≡ true → elem y ys ≡ elem c ys = λ h. ap (λ k. elem k ys) (==→≡ y c h) in
    ground (arith, elem-without x c ys d.1, d.0, gone)

without-Distinct : (x : ℕ) (xs : List ℕ) → Distinct xs → Distinct (without x xs)
without-Distinct x [] d = tt
without-Distinct x (y ∷ ys) d = ground (arith, elem-without x y ys d.1, without-Distinct x ys d.1)

length-without : (x : ℕ) (xs : List ℕ) → elem x xs ≡ true → length (without x xs) + 1 ≡ length xs
length-without x [] e = ground arith
length-without x (y ∷ ys) e = ground (arith, length-without x ys)

-- A list without repetition is no longer than a list that has all its elements.
pub length-subset-le :
    (xs ys : List ℕ)
    → Distinct xs
    → Distinct ys
    → ((c : ℕ) → elem c xs ≡ true → elem c ys ≡ true)
    → length xs ≤ length ys
length-subset-le [] ys d e h = omega arith
length-subset-le (x ∷ xs) ys d e h =
    let here : elem x ys ≡ true = h x (ground arith) in
    omega (
      arith,
      length-without x ys here,
      length-subset-le xs (without x ys) d.1 (without-Distinct x ys e) (λ c m.
          let apart : (x == c) ≡ true → elem x xs ≡ elem c xs =
            λ y. ap (λ k. elem k xs) (==→≡ x c y) in
          ground (arith, elem-without x c ys e, h c, m, d.0, apart)),
    )
