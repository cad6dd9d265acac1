-- ===== src/Handle/Count.antt =====
-- kernel/src/handle/table.rs: the count of the active handles, and when the table is full.
use fabric_os.Base.{
  ℕ, zero, suc, ◌+◌, ◌≤◌, ◌<◌, ◌≡◌, ◌↔◌, ap, ◌∙◌, refl, sym, true, false, not, none, arith,
  if◌then◌else◌, inl, inr,
}
use fabric_os.Base.Slots.{update, update_self, update_ne}
use fabric_os.Base.Words.{add16}
use fabric_os.Handle.{
  HandleTable, HandleEntry, failed, table_full, max_handles, slot, fill, alloc, check_handle,
  release, first_free,
}
use fabric_os.Handle.Slots.{alloc_cases, first_free-some}

-- How many of the first `n` entries are active.
unfoldable pub active_below : ℕ → (ℕ → HandleEntry) → ℕ
active_below zero es = 0
active_below (suc n) es = let rest = active_below n es in if (es n).active then rest + 1 else rest

abbrev pub IsCounted : HandleTable → Type 0
IsCounted t = t.count ≡ active_below max_handles t.entries

active_below-le : (n : ℕ) (es : ℕ → HandleEntry) → active_below n es ≤ n
unfolding active_below
active_below-le zero es = omega arith
active_below-le (suc n) es = ground (arith, active_below-le n es)

active_below-above :
    (n i : ℕ) (es : ℕ → HandleEntry) (v : HandleEntry)
    → n ≤ i
    → active_below n (update es i v) ≡ active_below n es
unfolding active_below
active_below-above zero i es v h = refl
active_below-above (suc n) i es v h =
    ground (arith, active_below-above n i es v, update_ne es i n v)

-- An entry that changes between free and active.
active_below-update :
    (n i : ℕ) (es : ℕ → HandleEntry) (v : HandleEntry)
    → i < n
    → v.active ≡ not (es i).active
    → active_below n es + (if v.active then 1 else 0)
      ≡ active_below n (update es i v) + (if (es i).active then 1 else 0)
unfolding active_below
active_below-update zero i es v h e = absurd (omega arith)
active_below-update (suc n) i es v h e = ground (
  arith,
  active_below-update n i es v,
  active_below-above n i es v,
  update_ne es i n v,
  update_self es i v,
)

first_free-none :
    (n i : ℕ) (es : ℕ → HandleEntry) (j : ℕ)
    → first_free n i es ≡ none
    → i ≤ j
    → j < i + n
    → (es j).active ≡ true
unfolding first_free
first_free-none zero i es j e l u = absurd (omega arith)
first_free-none (suc n) i es j e l u = ground (arith, first_free-none n (i + 1) es j)

all_active :
    (n : ℕ) (es : ℕ → HandleEntry)
    → ((j : ℕ) → j < n → (es j).active ≡ true)
    → active_below n es ≡ n
unfolding active_below
all_active zero es a = refl
all_active (suc n) es a =
    ground (arith, a n (omega arith), all_active n es (λ j l. a j (omega arith)))

-- In a table whose count is that of its active entries, `alloc` keeps it so, and fails exactly
-- when all 256 are active.
pub alloc-IsCounted :
    (t : HandleTable) (c : ℕ)
    → IsCounted t
    → IsCounted (alloc t c).0 × (((alloc t c).1 ≡ failed table_full) ↔ (t.count ≡ max_handles))
alloc-IsCounted t c k = elim (alloc_cases t c) [
  | inl (e, n) ↦
      let full =
        all_active max_handles t.entries
          (λ j l. first_free-none max_handles 0 t.entries j n (omega arith) (omega arith)) in
      rw e (k, (λ r. k ∙ full, λ r. refl))
  | inr (i, f, e) ↦
      let free = first_free-some max_handles 0 t.entries i f in
      let v : HandleEntry = record (t.entries i) { cap_id = c; active = true } in
      let more = active_below-update max_handles i t.entries v free.2 (ap not (sym free.0)) in
      let most = active_below-le max_handles (update t.entries i v) in
      rw e (unfold fill in (ground arith, (λ r. ground arith, λ r. ground arith)))
]

-- `release` keeps the count.
release-IsCounted : (t : HandleTable) (h : ℕ) → IsCounted t → IsCounted (release t h).0
unfolding release check_handle
release-IsCounted t h k =
    let v : HandleEntry = record {
      cap_id = 0;
      active = false;
      generation = add16 (t.entries (slot h)).generation 1;
    } in
    ground (
      arith,
      active_below-update max_handles (slot h) t.entries v,
      active_below-le max_handles t.entries,
    )
