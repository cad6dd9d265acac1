-- ===== src/Handle.antt =====
-- kernel/src/handle/table.rs and `HandleId` of fabric_types/src/process.rs: the handles of a process.
pub mod Slots
pub mod Stale
pub mod Count
use fabric_os.Base.{
  ℕ, zero, suc, ◌+◌, ◌*◌, ◌/◌, ◌%◌, Bool, true, false, not, ◌&&◌, Option, none, some, ltb, leb,
  ◌==◌, if◌then◌else◌,
}
use fabric_os.Base.Slots.{update}
use fabric_os.Base.Words.{add16, add64, sub64}

abbrev pub max_handles : ℕ
max_handles = 256

-- `HandleId` is its raw number: bits 0 to 7 and bits 8 to 23 of it, and the two put together. The two
-- have no bit in common, so that `|` adds them.
unfoldable pub slot : ℕ → ℕ
slot raw = raw % 256

unfoldable pub generation : ℕ → ℕ
generation raw = raw / 256 % 65536

unfoldable pub pack : ℕ → ℕ → ℕ
pack slot_index slot_generation = slot_index + slot_generation * 256

pub data HandleError : Type 0 where
  table_full invalid_index stale_generation not_active : HandleError

pub record HandleEntry : Type 0 where
  pub cap_id : ℕ
  pub active : Bool
  pub generation : ℕ

abbrev pub empty_entry : HandleEntry
empty_entry = record { cap_id = 0; active = false; generation = 0 }

-- The entries below `max_handles` are the array.
pub record HandleTable : Type 0 where
  pub entries : ℕ → HandleEntry
  pub count : ℕ

pub data HandleResult : Type 0 where
  found : ℕ → HandleResult
  failed : HandleError → HandleResult

unfoldable pub new : HandleTable
new = record { entries = λ i. empty_entry; count = 0 }

-- The loop of `alloc` from index `i` over `n` entries.
unfoldable pub first_free : ℕ → ℕ → (ℕ → HandleEntry) → Option ℕ
first_free zero i es = none
first_free (suc n) i es =
    let rest = first_free n (i + 1) es in if (es i).active then rest else some i

unfoldable pub fill : HandleTable → ℕ → ℕ → HandleTable
fill t i cap_id = record {
  entries = update t.entries i record (t.entries i) { cap_id = cap_id; active = true };
  count = add64 t.count 1;
}

unfoldable pub alloc : HandleTable → ℕ → HandleTable × HandleResult
alloc t cap_id = elim (first_free max_handles 0 t.entries) [
  | none ↦ (t, failed table_full)
  | some i ↦ (fill t i cap_id, found (pack i (t.entries i).generation))
]

-- The checks that `resolve` and `release` begin with.
unfoldable pub check_handle : HandleTable → ℕ → Option HandleError
check_handle t handle =
    if leb max_handles (slot handle)
    then some invalid_index
    else if not (t.entries (slot handle)).active
    then some not_active
    else if not ((t.entries (slot handle)).generation == generation handle)
    then some stale_generation
    else none

unfoldable pub resolve : HandleTable → ℕ → HandleResult
resolve t handle = elim (check_handle t handle) [
  | none ↦ found (t.entries (slot handle)).cap_id
  | some e ↦ failed e
]

-- The option is the `Err`; `none` is `Ok(())`.
unfoldable pub release : HandleTable → ℕ → HandleTable × Option HandleError
release t handle =
    let freed : HandleEntry = record {
      cap_id = 0;
      active = false;
      generation = add16 (t.entries (slot handle)).generation 1;
    } in
    elim (check_handle t handle) [
      | none ↦
          (record { entries = update t.entries (slot handle) freed; count = sub64 t.count 1 }, none)
      | some e ↦ (t, some e)
    ]

unfoldable pub is_active : HandleTable → ℕ → Bool
is_active t i = ltb i max_handles && (t.entries i).active

unfoldable pub clear : HandleTable → HandleTable
clear t = record {
  entries = λ i. if ltb i max_handles then empty_entry else t.entries i;
  count = 0;
}
