-- ===== src/Bus/Arena.antt =====
-- kernel/src/bus/arena.rs: the ring of payload bytes.
pub mod Bounds
pub mod Payloads
use fabric_os.Base.{
  ℕ, zero, suc, ◌+◌, ◌-◌, ◌*◌, ◌%◌, Bool, List, [], ◌∷◌, Option, none, some, length, ltb,
  if◌then◌else◌, ◌==◌, is_some,
}
use fabric_os.Base.Slots.{update}
use fabric_os.Base.Words.{u32_mod}

-- `ARENA_CAPACITY`
abbrev pub arena_capacity : ℕ
arena_capacity = 256 * 1024

-- `MAX_PAYLOAD_SIZE`
abbrev pub max_payload_size : ℕ
max_payload_size = 4096

pub record ArenaSlice : Type 0 where
  pub offset : ℕ
  pub len : ℕ

-- `buffer` is the boxed byte array, `none` before `init`.
pub record PayloadArena : Type 0 where
  pub buffer : Option (ℕ → ℕ)
  pub write_cursor : ℕ

unfoldable pub new : PayloadArena
new = record { buffer = none; write_cursor = 0 }

unfoldable pub init : PayloadArena → PayloadArena
init a = record { buffer = some (λ i. 0); write_cursor = 0 }

-- `buf[offset..offset + data.len()].copy_from_slice(data)`
pub copy_from_slice : (ℕ → ℕ) → ℕ → List ℕ → ℕ → ℕ
copy_from_slice buf offset [] = buf
copy_from_slice buf offset (x ∷ xs) = copy_from_slice (update buf offset x) (offset + 1) xs

-- `&buf[start..start + n]`
pub slice_of : (ℕ → ℕ) → ℕ → ℕ → List ℕ
slice_of buf start zero = []
slice_of buf start (suc n) = buf start ∷ slice_of buf (start + 1) n

-- The body of `allocate` once the buffer is there: at the cursor, or from the start if the bytes
-- would pass the end.
place : (ℕ → ℕ) → ℕ → List ℕ → PayloadArena × Option ArenaSlice
place buf offset data_bytes =
    if ltb arena_capacity (offset + length data_bytes)
    then (
      record { buffer = some (copy_from_slice buf 0 data_bytes); write_cursor = length data_bytes },
      some (record { offset = 0; len = length data_bytes % u32_mod }),
    )
    else (
      record {
        buffer = some (copy_from_slice buf offset data_bytes);
        write_cursor = offset + length data_bytes;
      },
      some (record { offset = offset % u32_mod; len = length data_bytes % u32_mod }),
    )

unfoldable pub allocate : PayloadArena → List ℕ → PayloadArena × Option ArenaSlice
unfolding place
allocate a data_bytes =
    if length data_bytes == 0
    then (a, none)
    else if ltb max_payload_size (length data_bytes)
    then (a, none)
    else elim a.buffer [ none ↦ (a, none) | some buf ↦ place buf a.write_cursor data_bytes ]

-- `none` where the source panics: no buffer, or a range that passes the end.
unfoldable pub get : PayloadArena → ArenaSlice → Option (List ℕ)
get a s = elim a.buffer [
  | none ↦ none
  | some buf ↦
      if ltb arena_capacity (s.offset + s.len) then none else some (slice_of buf s.offset s.len)
]

unfoldable pub clear : PayloadArena → PayloadArena
clear a = record a { write_cursor = 0 }

unfoldable pub available : PayloadArena → ℕ
available a = arena_capacity - a.write_cursor

unfoldable pub is_initialized : PayloadArena → Bool
is_initialized a = is_some a.buffer
