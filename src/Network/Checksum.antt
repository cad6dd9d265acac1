-- ===== src/Network/Checksum.antt =====
-- kernel/src/network/checksum.rs: the internet checksum of RFC 1071.
pub mod Embedded
pub mod Pseudo
use fabric_os.Base.{ℕ, zero, suc, ◌+◌, ◌-◌, ◌*◌, ◌/◌, ◌%◌, Bool, List, [], ◌∷◌, ◌==◌, if◌then◌else◌}
use fabric_os.Base.Words.{add32}

-- The loop over the 16-bit words of the data, and the odd byte after it. The two bytes of a word have
-- no bit in common, so that `|` adds them.
unfoldable pub sum_words : ℕ → List ℕ → ℕ
sum_words sum [] = sum
sum_words sum (a ∷ []) = add32 sum (a * 256)
sum_words sum (a ∷ b ∷ rest) = sum_words (add32 sum (a * 256 + b)) rest

-- The folding loop, for at most `n` rounds.
unfoldable pub fold_sum : ℕ → ℕ → ℕ
fold_sum zero sum = sum
fold_sum (suc n) sum =
    let rest = fold_sum n (sum % 65536 + sum / 65536) in if sum / 65536 == 0 then sum else rest

-- Two rounds bring every u32 below 2 ^ 16.
abbrev pub fold_rounds : ℕ
fold_rounds = 2

-- `!(sum as u16)`
abbrev pub complement : ℕ → ℕ
complement sum = 65535 - sum % 65536

unfoldable pub internet_checksum : List ℕ → ℕ
internet_checksum bytes = complement (fold_sum fold_rounds (sum_words 0 bytes))

unfoldable pub verify_checksum : List ℕ → Bool
verify_checksum bytes = internet_checksum bytes == 0

-- An address of the pseudo-header: two words of four bytes.
abbrev pub add_address : ℕ → ℕ × ℕ × ℕ × ℕ → ℕ
add_address sum a = add32 (add32 sum (a.0 * 256 + a.1)) (a.2 * 256 + a.3)

unfoldable pub pseudo_header_checksum : ℕ × ℕ × ℕ × ℕ → ℕ × ℕ × ℕ × ℕ → ℕ → ℕ → List ℕ → ℕ
pseudo_header_checksum src dst protocol length payload =
    let addresses = add_address (add_address 0 src) dst in
    complement (fold_sum fold_rounds (sum_words (add32 (add32 addresses protocol) length) payload))
