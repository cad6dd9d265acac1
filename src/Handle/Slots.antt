-- ===== src/Handle/Slots.antt =====
-- kernel/src/handle/table.rs: a handle finds the capability it was made for, until it is released.
use fabric_os.Base.{
  ℕ, zero, suc, ◌+◌, ◌≤◌, ◌<◌, ◌≡◌, ◌≢◌, ◌↔◌, ◌⊎◌, refl, true, false, none, some, arith,
  Option-cases, inl, inr,
}
use fabric_os.Handle.{
  HandleTable, HandleEntry, found, failed, not_active, table_full, max_handles, slot, generation,
  pack, first_free, fill, alloc, check_handle, resolve, release,
}

-- The entry that the loop finds is free, and below the end.
pub first_free-some :
    (n i : ℕ) (es : ℕ → HandleEntry) (j : ℕ)
    → first_free n i es ≡ some j
    → ((es j).active ≡ false) × (i ≤ j) × (j < i + n)
unfolding first_free
first_free-some zero i es j e = ground arith
first_free-some (suc n) i es j e = ground (arith, first_free-some n (i + 1) es j)

-- A handle that resolves names an active entry of its generation.
pub resolve_lem :
    (t : HandleTable) (h c : ℕ)
    → resolve t h ≡ found c
    → ((t.entries (slot h)).active ≡ true)
      × ((t.entries (slot h)).generation ≡ generation h)
      × ((t.entries (slot h)).cap_id ≡ c)
      × (slot h < max_handles)
unfolding resolve check_handle
resolve_lem t h c e = ground arith

resolve_found :
    (t : HandleTable) (h : ℕ)
    → (t.entries (slot h)).active ≡ true
    → (t.entries (slot h)).generation ≡ generation h
    → slot h < max_handles
    → resolve t h ≡ found (t.entries (slot h)).cap_id
unfolding resolve check_handle
resolve_found t h a g l = ground arith

-- How `alloc` ends.
pub alloc_cases :
    (t : HandleTable) (c : ℕ)
    → ((alloc t c ≡ (t, failed table_full)) × (first_free max_handles 0 t.entries ≡ none))
      ⊎ ((i : ℕ) × (first_free max_handles 0 t.entries ≡ some i)
          × (alloc t c ≡ (fill t i c, found (pack i (t.entries i).generation))))
unfolding alloc
alloc_cases t c = elim (Option-cases (first_free max_handles 0 t.entries)) [
  | inl e ↦ inl (rw (e, alloc) refl, e)
  | inr (i, e) ↦ inr (i, e, rw (e, alloc) refl)
]

-- A handle is released exactly when it resolves. It is then not active any more, and the handles of
-- the other slots resolve as before.
resolve-release :
    (t : HandleTable) (h : ℕ)
    → (((release t h).1 ≡ none) ↔ ((c : ℕ) × (resolve t h ≡ found c)))
      × ((release t h).1 ≡ none → resolve (release t h).0 h ≡ failed not_active)
      × ((k : ℕ) → slot k ≢ slot h → resolve (release t h).0 k ≡ resolve t k)
unfolding release resolve check_handle
resolve-release t h = (
  (λ r. ((t.entries (slot h)).cap_id, ground arith), λ r. ground arith),
  ground arith,
  λ k n. ground arith,
)
