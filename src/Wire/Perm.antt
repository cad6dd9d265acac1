-- ===== src/Wire/Perm.antt =====
-- fabric_types/src/capability.rs: permission flags. `Perm(pub u16)` is its bits.
use fabric_os.Base.{ℕ, ◌-◌, Bool, ◌==◌, bit_and, bit_or}
use fabric_os.Base.Words.{u16_mod}

abbrev pub empty_set : ℕ
empty_set = 0

abbrev pub read : ℕ
read = 1

abbrev pub write : ℕ
write = 2

abbrev pub execute : ℕ
execute = 4

abbrev pub grant : ℕ
grant = 8

abbrev pub revoke : ℕ
revoke = 16

unfoldable pub contains : ℕ → ℕ → Bool
contains self other = bit_and self other == other

-- `!parent` on u16.
unfoldable pub is_subset_of : ℕ → ℕ → Bool
is_subset_of self parent = bit_and self (u16_mod - 1 - parent) == 0

unfoldable pub union : ℕ → ℕ → ℕ
union self other = bit_or self other

unfoldable pub intersect : ℕ → ℕ → ℕ
intersect self other = bit_and self other

unfoldable pub is_empty : ℕ → Bool
is_empty self = self == 0
