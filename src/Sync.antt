-- ===== src/Sync.antt =====
-- kernel/src/sync/mod.rs: the levels of the kernel's locks, and the tracking of a debug build.
pub mod Levels
use fabric_os.Base.{
  ℕ, Bool, true, false, List, [], ◌∷◌, ◌++◌, Option, none, some, length, leb, ◌==◌, if◌then◌else◌,
}

abbrev pub max_held : ℕ
max_held = 8

abbrev pub governance_level : ℕ
governance_level = 5

abbrev pub table_level : ℕ
table_level = 6

abbrev pub store_level : ℕ
store_level = 7

abbrev pub bus_level : ℕ
bus_level = 9

-- The loop of `push_level`: whether a held level is not below the new one.
unfoldable pub is_violation : ℕ → List ℕ → Bool
is_violation level [] = false
is_violation level (held ∷ rest) = if leb level held then true else is_violation level rest

-- The levels are `LOCK_STACK[..LOCK_STACK_LEN]`; `none` is the panic.
unfoldable pub push_level : List ℕ → ℕ → Option (List ℕ)
push_level stack level =
    if is_violation level stack
    then none
    else if leb max_held (length stack)
    then none
    else some (stack ++ level ∷ [])

-- The first entry of the level goes, and those after it move left.
unfoldable pub pop_level : List ℕ → ℕ → List ℕ
pop_level [] level = []
pop_level (held ∷ rest) level =
    let others = pop_level rest level in if held == level then rest else held ∷ others
