-- ===== src/Capability/Slab/Reuse.antt =====
-- kernel/src/capability/slab.rs: `get_or_insert`, `clear` and a new map as finite maps.
use fabric_os.Base.{
  ℕ, ◌+◌, ◌≡◌, inl, inr, refl, sym, ap, ap₂, ◌∙◌, true, false, ◌==◌, ltb, ◌&&◌, ◌||◌, none, some,
  arith, Bool-cases, Option-cases, if◌then◌else◌, unwrap_or, ==_refl,
}
use fabric_os.Capability.Slab.{
  modify, Slots, FixedMap, find, get, contains_key, insert, get_or_insert, clear, ensure_init,
  new_map,
}
use fabric_os.Capability.Slab.Probing.{differ}
use fabric_os.Capability.Slab.Occupied.{occupied-none}
use fabric_os.Capability.Slab.Deletion.{modify_lem}
use fabric_os.Capability.Slab.Ready.{Ready, IsValid, max_entries}
use fabric_os.Capability.Slab.Laws.{
  ensure_init-Ready, empty_Table, get-Absent, contains_key-get, insert_lem, and_true,
}

module _ {V : Type 0} where
  emptied-Ready : (m : FixedMap V) (s : Slots V) → Ready m s → Ready (clear m) (λ i. none)
  unfolding clear
  emptied-Ready m s r = record {
    storage = rw (clear, r.storage) refl;
    all_slots = r.all_slots;
    all_ones = r.all_ones;
    table = empty_Table;
    counted = occupied-none 16384 (λ i. none) (λ i. refl);
    bounded = omega arith;
  }

  pub clear_lem :
      (m : FixedMap V)
      → IsValid m
      → IsValid (clear m) × ((j : ℕ) → get (clear m) j ≡ none) × ((clear m).len ≡ 0)
  unfolding clear get find
  clear_lem m (inl (e, n)) = rw (clear, e) (inl (refl, refl), (λ j. refl), refl)
  clear_lem m (inr (s, r)) =
      let ready = emptied-Ready m s r in
      (inr (_, ready), (λ j. get-Absent _ _ j ready (λ i v p x. differ (sym x))), refl)

  pub new_map-IsValid : IsValid {V = V} new_map
  unfolding new_map
  new_map-IsValid = inl (refl, refl)

  get_kept :
      (m : FixedMap V) (key j : ℕ) (v : V)
      → get m key ≡ some v
      → get m j ≡ (if key == j then some v else get m j)
  get_kept m key j v e = elim (Bool-cases (key == j)) [
    | inl y ↦ let at : j ≡ key = ground arith in rw y (ap (get m) at ∙ e)
    | inr y ↦ rw y refl
  ]

  -- `get_or_insert` reads the entry of the key, or the default that it stores; it finds one unless
  -- the key is new and the map is full.
  pub get_or_insert_lem :
      (m : FixedMap V) (key : ℕ) (default : V)
      → IsValid m
      → (contains_key m key || ltb m.len max_entries) ≡ true
      → IsValid (get_or_insert m key default).0
        × ((get_or_insert m key default).1 ≡ some (unwrap_or (get m key) default))
        × ((j : ℕ)
            → get (get_or_insert m key default).0 j
              ≡ (if key == j then some (unwrap_or (get m key) default) else get m j))
        × ((get_or_insert m key default).0.len ≡ (if contains_key m key then m.len else m.len + 1))
  unfolding get_or_insert contains_key
  get_or_insert_lem m key default valid room =
      let (s, r, same, len) = ensure_init-Ready m valid in
      let known : contains_key (ensure_init m) key ≡ contains_key m key =
        contains_key-get (ensure_init m) m key (same key) in
      elim (Option-cases (get m key)) [
        | inr (v, e) ↦
            let here : contains_key m key ≡ true = rw (contains_key, e) refl in
            let there : contains_key (ensure_init m) key ≡ true = known ∙ here in
            rw (get_or_insert, there, here, e)
              (inr (s, r), same key ∙ e, (λ j. same j ∙ get_kept m key j v e), len)
        | inl e ↦
            let away : contains_key m key ≡ false = rw (contains_key, e) refl in
            let gone : contains_key (ensure_init m) key ≡ false = known ∙ away in
            let (ok, done, got, size) = insert_lem (ensure_init m) key default (inr (s, r)) in
            let stored : (insert (ensure_init m) key default).1 ≡ true =
              done ∙ (ap₂ (λ b n. b || ltb n max_entries) known len ∙ room) in
            let all : (j : ℕ)
                → get (insert (ensure_init m) key default).0 j
                  ≡ (if key == j then some default else get m j) =
              λ j.
                got j
                ∙ (ap₂ (λ b o. if (key == j) && b then some default else o) stored (same j)
                    ∙ ap (λ b. if b then some default else get m j) (and_true (key == j))) in
            rw (get_or_insert, gone, away, e)
              (
                ok,
                all key ∙ ap (λ b. if b then some default else get m key) (==_refl key),
                all,
                (rw (gone, stored) at size) ∙ ap (λ n. n + 1) len,
              )
      ]

  -- A write through the reference that `get_or_insert` returns.
  pub get_or_insert-modify :
      (m : FixedMap V) (key : ℕ) (default w : V)
      → IsValid m
      → (contains_key m key || ltb m.len max_entries) ≡ true
      → IsValid (modify (get_or_insert m key default).0 key (λ v. w))
        × ((j : ℕ)
            → get (modify (get_or_insert m key default).0 key (λ v. w)) j
              ≡ (if key == j then some w else get m j))
        × ((modify (get_or_insert m key default).0 key (λ v. w)).len
            ≡ (if contains_key m key then m.len else m.len + 1))
  get_or_insert-modify m key default w valid room =
      let (ok, entry, all, size) = get_or_insert_lem m key default valid room in
      let (ok2, all2, size2) = modify_lem (get_or_insert m key default).0 key (λ v. w) ok in
      (ok2, (λ j. ground (arith, all2 j, all j, entry)), size2 ∙ size)
