-- ===== src/Bus/Arena/Payloads.antt =====
-- kernel/src/bus/arena.rs: what a slice reads back, after its own allocation and after others.
use fabric_os.Base.{
  ℕ, zero, suc, ◌+◌, ◌≤◌, ◌<◌, ◌≡◌, refl, ◌⊎◌, ap₂, List, [], ◌∷◌, some, length, arith, ◌∙◌,
}
use fabric_os.Base.Slots.{update}
use fabric_os.Bus.Arena.{ArenaSlice, PayloadArena, copy_from_slice, slice_of, allocate, get}
use fabric_os.Bus.Arena.Bounds.{InBuffer, allocate-bounds, buffer-allocate}

copy_below :
    (xs : List ℕ) (buf : ℕ → ℕ) (offset i : ℕ)
    → i < offset
    → copy_from_slice buf offset xs i ≡ buf i
unfolding copy_from_slice
copy_below [] buf offset i h = refl
copy_below (x ∷ xs) buf offset i h =
    ground (arith, copy_below xs (update buf offset x) (offset + 1) i (omega arith))

copy_above :
    (xs : List ℕ) (buf : ℕ → ℕ) (offset i : ℕ)
    → offset + length xs ≤ i
    → copy_from_slice buf offset xs i ≡ buf i
unfolding copy_from_slice
copy_above [] buf offset i h = refl
copy_above (x ∷ xs) buf offset i h =
    ground (arith, copy_above xs (update buf offset x) (offset + 1) i (omega arith))

slice_of-copy :
    (xs : List ℕ) (buf : ℕ → ℕ) (offset : ℕ)
    → slice_of (copy_from_slice buf offset xs) offset (length xs) ≡ xs
unfolding copy_from_slice slice_of
slice_of-copy [] buf offset = refl
slice_of-copy (x ∷ xs) buf offset =
    ap₂ ◌∷◌ (copy_below xs (update buf offset x) (offset + 1) offset (omega arith) ∙ ground arith)
      (slice_of-copy xs (update buf offset x) (offset + 1))

slice_of-copy_disjoint :
    (n : ℕ) (xs : List ℕ) (buf : ℕ → ℕ) (offset start : ℕ)
    → (start + n ≤ offset) ⊎ (offset + length xs ≤ start)
    → slice_of (copy_from_slice buf offset xs) start n ≡ slice_of buf start n
unfolding slice_of
slice_of-copy_disjoint zero xs buf offset start h = refl
slice_of-copy_disjoint (suc n) xs buf offset start h = ground (
  arith,
  copy_below xs buf offset start,
  copy_above xs buf offset start,
  slice_of-copy_disjoint n xs buf offset (start + 1),
)

-- While the cursor is inside the buffer, reading the slice that `allocate` returned gives the
-- payload that was stored.
pub get-allocate :
    (a : PayloadArena) (bytes : List ℕ) (s : ArenaSlice)
    → InBuffer a
    → (allocate a bytes).1 ≡ some s
    → get (allocate a bytes).0 s ≡ some bytes
unfolding get
get-allocate a bytes s v e =
    let (buf, _, written) = buffer-allocate a bytes s v e in
    ground (arith, written, allocate-bounds a bytes s v e, slice_of-copy bytes buf s.offset)

-- While the cursor is inside the buffer, a successful `allocate` leaves what every slice reads
-- that does not overlap the new one.
pub get-allocate_disjoint :
    (a : PayloadArena) (bytes : List ℕ) (s t : ArenaSlice)
    → InBuffer a
    → (allocate a bytes).1 ≡ some s
    → (t.offset + t.len ≤ s.offset) ⊎ (s.offset + s.len ≤ t.offset)
    → get (allocate a bytes).0 t ≡ get a t
unfolding get
get-allocate_disjoint a bytes s t v e d =
    let (buf, present, written) = buffer-allocate a bytes s v e in
    ground (
      arith,
      present,
      written,
      allocate-bounds a bytes s v e,
      slice_of-copy_disjoint t.len bytes buf s.offset t.offset,
    )
