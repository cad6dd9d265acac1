-- ===== src/Bus/Arena/Bounds.antt =====
-- kernel/src/bus/arena.rs: when `allocate` succeeds, and where its slices lie.
use fabric_os.Base.{
  ℕ, ◌+◌, ◌≤◌, ◌<◌, ◌≡◌, List, some, length, arith, true, ltb, if◌then◌else◌, ◌%◌, Option-cases,
  inl, inr,
}
use fabric_os.Base.Words.{u32_mod}
use fabric_os.Bus.Arena.{
  ArenaSlice, PayloadArena, copy_from_slice, arena_capacity, max_payload_size, allocate,
  is_initialized, init, clear, new,
}

-- The cursor does not pass the end of the buffer.
abbrev pub InBuffer : PayloadArena → Type 0
InBuffer a = a.write_cursor ≤ arena_capacity

pub new-InBuffer : InBuffer new
unfolding new
new-InBuffer = omega arith

pub init-InBuffer : (a : PayloadArena) → InBuffer (init a)
unfolding init
init-InBuffer a = omega arith

pub clear-InBuffer : (a : PayloadArena) → InBuffer (clear a)
unfolding clear
clear-InBuffer a = omega arith

pub allocate-InBuffer :
    (a : PayloadArena) (bytes : List ℕ) → InBuffer a → InBuffer (allocate a bytes).0
unfolding allocate
allocate-InBuffer a bytes v = ground arith

-- While the cursor is inside the buffer, a slice that `allocate` hands out is as long as the
-- payload, lies inside the buffer, and ends at the new cursor.
pub allocate-bounds :
    (a : PayloadArena) (bytes : List ℕ) (s : ArenaSlice)
    → InBuffer a
    → (allocate a bytes).1 ≡ some s
    → (s.len ≡ length bytes)
      × (s.offset + s.len ≤ arena_capacity)
      × ((allocate a bytes).0.write_cursor ≡ s.offset + s.len)
unfolding allocate
allocate-bounds a bytes s v e = ground arith

-- Once the buffer is there, `allocate` succeeds for every payload of 1 to 4096 bytes.
pub allocate-total :
    (a : PayloadArena) (bytes : List ℕ)
    → is_initialized a ≡ true
    → 0 < length bytes
    → length bytes ≤ max_payload_size
    → (s : ArenaSlice) × ((allocate a bytes).1 ≡ some s)
unfolding allocate is_initialized
allocate-total a bytes i p q = (
  record {
    offset =
        if ltb arena_capacity (a.write_cursor + length bytes) then 0 else a.write_cursor % u32_mod;
    len = length bytes % u32_mod;
  },
  ground arith,
)

allocate-is_initialized :
    (a : PayloadArena) (bytes : List ℕ) → is_initialized (allocate a bytes).0 ≡ is_initialized a
unfolding allocate is_initialized
allocate-is_initialized a bytes = ground arith

-- A successful `allocate` has written the payload from its slice's offset on, and nothing else.
pub buffer-allocate :
    (a : PayloadArena) (bytes : List ℕ) (s : ArenaSlice)
    → InBuffer a
    → (allocate a bytes).1 ≡ some s
    → (buf : ℕ → ℕ) × (a.buffer ≡ some buf)
      × ((allocate a bytes).0.buffer ≡ some (copy_from_slice buf s.offset bytes))
unfolding allocate
buffer-allocate a bytes s v e = elim (Option-cases a.buffer) [
  | inl absent ↦ absurd (ground arith)
  | inr (buf, present) ↦ (buf, present, ground arith)
]
