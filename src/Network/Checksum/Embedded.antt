-- ===== src/Network/Checksum/Embedded.antt =====
-- kernel/src/network/checksum.rs: data that carry their checksum pass verification.
use fabric_os.Base.{
  ℕ, ◌+◌, ◌-◌, ◌*◌, ◌/◌, ◌%◌, ◌≤◌, ◌<◌, ◌≡◌, refl, ap, ◌∙◌, true, List, [], ◌∷◌, ◌++◌, arith,
  length, All,
}
use fabric_os.Base.Words.{u32_mod}
use fabric_os.Network.Checksum.{
  sum_words, fold_sum, fold_rounds, complement, internet_checksum, verify_checksum,
}

-- The sum of the words as a natural number.
abbrev total : List ℕ → ℕ
total [] = 0
total (a ∷ []) = a * 256
total (a ∷ b ∷ rest) = a * 256 + b + total rest

abbrev pub IsByte : ℕ → Type 0
IsByte b = b < 256

abbrev pub IsEven : List ℕ → Type 0
IsEven [] = Unit {0}
IsEven (a ∷ []) = ⊥
IsEven (a ∷ b ∷ rest) = IsEven rest

sum_words-total :
    (s : ℕ) (bytes : List ℕ) → s + total bytes < u32_mod → sum_words s bytes ≡ s + total bytes
unfolding sum_words
sum_words-total s [] h = omega arith
sum_words-total s (a ∷ []) h = omega arith
sum_words-total s (a ∷ b ∷ rest) h =
    ground (arith, sum_words-total (s + (a * 256 + b)) rest (omega arith))

total-le : (bytes : List ℕ) → All IsByte bytes → total bytes ≤ 65535 * length bytes
total-le [] h = omega arith
total-le (a ∷ []) h = omega (arith, h.0)
total-le (a ∷ b ∷ rest) h = omega (arith, h.0, h.1.0, total-le rest h.1.1)

total-append : (xs ys : List ℕ) → IsEven xs → total (xs ++ ys) ≡ total xs + total ys
total-append [] ys e = omega arith
total-append (a ∷ []) ys e = elim e [ ]
total-append (a ∷ b ∷ xs) ys e = omega (arith, total-append xs ys e)

-- The loop ends: after the rounds the sum has no bits above the low sixteen.
fold_sum-lt : (s : ℕ) → s < u32_mod → fold_sum fold_rounds s < 65536
unfolding fold_sum
fold_sum-lt s h = ground arith

-- The sum is folded to its remainder by 65535, or to 65535 for a multiple other than 0.
fold_sum_lem :
    (s c : ℕ)
    → s + 65535 < u32_mod
    → c ≡ 65535 - fold_sum fold_rounds s
    → fold_sum fold_rounds (s + c) ≡ 65535
unfolding fold_sum
fold_sum_lem s c h e = ground arith

sum_words-append :
    (xs ys : List ℕ) (a b : ℕ)
    → IsEven xs
    → total xs + (a * 256 + b) + total ys < u32_mod
    → sum_words 0 (xs ++ a ∷ b ∷ ys) ≡ total xs + (a * 256 + b) + total ys
sum_words-append xs ys a b e h =
    let split = total-append xs (a ∷ b ∷ ys) e in
    omega (arith, split, sum_words-total 0 (xs ++ a ∷ b ∷ ys) (omega (arith, split)))

-- A packet of fewer than 65536 bytes whose checksum field, at an even offset, holds the checksum
-- of the packet with the field zeroed passes verification.
pub verify_checksum-internet_checksum :
    (xs ys : List ℕ)
    → IsEven xs
    → All IsByte xs
    → All IsByte ys
    → length xs + 2 + length ys < 65536
    → let c = internet_checksum (xs ++ 0 ∷ 0 ∷ ys) in
      verify_checksum (xs ++ (c / 256) ∷ (c % 256) ∷ ys) ≡ true
unfolding verify_checksum internet_checksum
verify_checksum-internet_checksum xs ys e bx by short =
    let s = total xs + total ys in
    let small : s + 65535 < u32_mod = omega (arith, total-le xs bx, total-le ys by) in
    let zeroed = sum_words-append xs ys 0 0 e (omega arith) in
    let same : sum_words 0 (xs ++ 0 ∷ 0 ∷ ys) ≡ s = omega (arith, zeroed) in
    let c = complement (fold_sum fold_rounds (sum_words 0 (xs ++ 0 ∷ 0 ∷ ys))) in
    let low = fold_sum-lt s (omega arith) in
    let value : c ≡ 65535 - fold_sum fold_rounds s =
      ap (λ k. complement (fold_sum fold_rounds k)) same ∙ omega (arith, low) in
    let filled = sum_words-append xs ys (c / 256) (c % 256) e (omega (arith, value)) in
    let whole : sum_words 0 (xs ++ (c / 256) ∷ (c % 256) ∷ ys) ≡ s + c = omega (arith, filled) in
    rw (whole, fold_sum_lem s c small value) refl
