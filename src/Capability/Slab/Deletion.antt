-- ===== src/Capability/Slab/Deletion.antt =====
-- kernel/src/capability/slab.rs: `remove` and `get_mut` of a map as a finite map, and that the scans
-- end.
use fabric_os.Base.{
  subst, unwrap_or, ℕ, ◌-◌, ◌<◌, ◌≡◌, ◌≢◌, ◌↔◌, inl, inr, refl, sym, ap, ◌∙◌, true, ◌==◌, none,
  some, Option, arith, Bool-cases, if◌then◌else◌,
}
use mathlib.Core.Option.{map}
use fabric_os.Base.Words.{sub64}
use fabric_os.Base.Slots.{update}
use fabric_os.Capability.Slab.{
  Probe, following, Slots, FixedMap, vacant, matching, spinning, find, get, contains_key, remove,
  remove_at, modify, shift, shift_ends,
}
use fabric_os.Capability.Slab.Probing.{differ}
use fabric_os.Capability.Slab.Shifting.{Table}
use fabric_os.Capability.Slab.Removal.{Has, Rearranged, shift-Table}
use fabric_os.Capability.Slab.Occupied.{one, occupied-update, occupied-room}
use fabric_os.Capability.Slab.Tables.{Absent, remove-Gap, update_ne-Has}
use fabric_os.Capability.Slab.Ready.{Ready, IsValid, find_lem, get_iff_Has}
use fabric_os.Capability.Slab.Laws.{
  get_ext, get-Absent, contains_key-hit, get-written, overwrite-Ready, set_slot-storage,
}
use fabric_os.Capability.Slab.Cyclic.{table_mask, after, following_lem, after-lt, distance-lt}

module _ {V : Type 0} where
  -- On a valid map, the scan for any key ends within as many steps as there are slots.
  pub find-Ends : (m : FixedMap V) (key : ℕ) → IsValid m → find m key ≢ spinning
  unfolding find
  find-Ends m key (inl (e, n)) = rw (find, e) (λ z. ground arith)
  find-Ends m key (inr (s, r)) = elim (find_lem m s key r) [
    | inl h ↦ λ z. ground (arith, h.2, z)
    | inr h ↦ λ z. ground (arith, h.1, z)
  ]

  -- The table that taking out the entry at `i` leaves.
  abbrev closed : Slots V → ℕ → Slots V
  closed s i = shift 16384 table_mask (update s i none) i (after i)

  closed_lem :
      (m : FixedMap V) (s : Slots V) (key i : ℕ) (v : V)
      → Ready m s
      → i < 16384
      → s i ≡ some (key, v)
      → (shift_ends 16384 table_mask (update s i none) i (after i) ≡ true)
        × Table (closed s i)
        × Rearranged (update s i none) (closed s i)
  closed_lem m s key i v r p e =
      let room = occupied-room 16384 s (omega (arith, r.counted, r.bounded)) in
      shift-Table 16384 (update s i none) i (after i) room.0
        (remove-Gap s i key room.0 v r.table p e room.1 room.2)
        (distance-lt (after i) room.0 (after-lt i p) room.1)

  remove_at-storage :
      (m : FixedMap V) (s : Slots V) (i : ℕ) (v : V)
      → Ready m s
      → i < 16384
      → remove_at m (matching i v)
        ≡ (record m { slots = some (closed s i); len = sub64 m.len 1 }, some v)
  unfolding remove_at
  remove_at-storage m s i v r p =
      ap (λ o. (record m { slots = o; len = sub64 m.len 1 }, some v))
        (rw (r.storage, r.all_slots, r.all_ones, following_lem i p) refl)

  closed-Ready :
      (m : FixedMap V) (s : Slots V) (key i : ℕ) (v : V)
      → Ready m s
      → i < 16384
      → s i ≡ some (key, v)
      → Ready (record m { slots = some (closed s i); len = sub64 m.len 1 }) (closed s i)
  closed-Ready m s key i v r p e =
      let c = closed_lem m s key i v r p e in
      record {
        storage = refl;
        all_slots = r.all_slots;
        all_ones = r.all_ones;
        table = c.1;
        counted =
            omega (arith, c.2.1, occupied-update 16384 i s none p, ap one e, r.counted, r.bounded);
        bounded =
            omega (arith, c.2.1, occupied-update 16384 i s none p, ap one e, r.counted, r.bounded);
      }

  closed-Has :
      (m : FixedMap V) (s : Slots V) (key i j : ℕ) (v w : V)
      → Ready m s
      → i < 16384
      → s i ≡ some (key, v)
      → key ≢ j
      → Has (closed s i) j w ↔ Has s j w
  closed-Has m s key i j v w r p e d =
      let same = (closed_lem m s key i v r p e).2.0 j w in
      let other = update_ne-Has s i key j none w d (λ u z. differ (sym z)) (inr (v, e)) in
      (λ h. other.0 (same.0 h), λ h. same.1 (other.1 h))

  closed-Absent :
      (m : FixedMap V) (s : Slots V) (key i : ℕ) (v : V)
      → Ready m s
      → i < 16384
      → s i ≡ some (key, v)
      → Absent (closed s i) key
  closed-Absent m s key i v r p e j w q h =
      let old = ((closed_lem m s key i v r p e).2.0 key w).0 (j, q, h) in
      ground (arith, r.table.single i old.0 key v w p old.1 e, old.2)

  pub find_uninit : (m : FixedMap V) (key : ℕ) → m.slots ≡ none → find m key ≡ vacant 0
  unfolding find
  find_uninit m key e = rw (find, e) refl

  pub get-vacant : (m : FixedMap V) (key i : ℕ) → find m key ≡ vacant i → get m key ≡ none
  unfolding get
  get-vacant m key i e = rw (get, e) refl

  remove_at-vacant : (m : FixedMap V) (i : ℕ) → remove_at m (vacant i) ≡ (m, none)
  unfolding remove_at
  remove_at-vacant m i = refl

  -- What `remove` does to a map as a finite map.
  abbrev pub Removes : FixedMap V → ℕ → FixedMap V × Option V → Type 0
  Removes m key r =
      IsValid r.0
      × (r.1 ≡ get m key)
      × ((j : ℕ) → get r.0 j ≡ (if key == j then none else get m j))
      × (r.0.len ≡ (if contains_key m key then m.len - 1 else m.len))

  nothing-Removes :
      (m : FixedMap V) (key : ℕ) → IsValid m → get m key ≡ none → Removes m key (m, none)
  unfolding contains_key
  nothing-Removes m key valid e = (valid, sym e, (λ j. ground arith), rw (contains_key, e) refl)

  remove_at-hit :
      (m : FixedMap V) (s : Slots V) (key i : ℕ) (v : V)
      → Ready m s
      → find m key ≡ matching i v
      → i < 16384
      → s i ≡ some (key, v)
      → Removes m key (record m { slots = some (closed s i); len = sub64 m.len 1 }, some v)
  remove_at-hit m s key i v r f p e =
      let ready = closed-Ready m s key i v r p e in
      (
        inr (closed s i, ready),
        sym ((get_iff_Has m s key v r).1 (i, p, e)),
        (λ j. elim (Bool-cases (key == j)) [
          | inl y ↦
              let at : key ≡ j = ground arith in
              rw y (
                get-Absent _ (closed s i) j ready (λ n w q h.
                  closed-Absent m s key i v r p e n w q (h ∙ ap (λ k. some (k, w)) (sym at))))
          | inr y ↦ rw y (
              get_ext m _ s (closed s i) j r ready
                (λ w. closed-Has m s key i j v w r p e (ground arith)))
        ]),
        rw (contains_key-hit m key i v f)
            (omega (arith, r.bounded, occupied-update 16384 i s none p, ap one e, r.counted)),
      )

  -- On a valid map, `remove` returns what the key had, takes it out, leaves every other key to be
  -- found with its value, keeps the map valid and counts it.
  pub remove_lem : (m : FixedMap V) (key : ℕ) → IsValid m → Removes m key (remove m key)
  unfolding remove
  remove_lem m key (inl (e, n)) =
      rw (remove, find_uninit m key e, remove_at-vacant m 0)
        (nothing-Removes m key (inl (e, n)) (get-vacant m key 0 (find_uninit m key e)))
  remove_lem m key (inr (s, r)) = elim (find_lem m s key r) [
    | inl (i, v, e, p, x) ↦
        rw (remove, e, remove_at-storage m s i v r p) (remove_at-hit m s key i v r e p x)
    | inr (i, e, p, x, path, apart) ↦
        rw (remove, e, remove_at-vacant m i)
          (nothing-Removes m key (inr (s, r)) (get-vacant m key i e))
  ]

  modify_nothing :
      (m : FixedMap V) (key j : ℕ) (f : V → V)
      → get m key ≡ none
      → get m j ≡ (if key == j then map f (get m key) else get m j)
  modify_nothing m key j f e = elim (Bool-cases (key == j)) [
    | inl y ↦ let at : j ≡ key = ground arith in rw (y, e) (ap (get m) at ∙ e)
    | inr y ↦ rw y refl
  ]

  -- What a write through `get_mut` does to a map as a finite map.
  pub modify_lem :
      (m : FixedMap V) (key : ℕ) (f : V → V)
      → IsValid m
      → IsValid (modify m key f)
        × ((j : ℕ) → get (modify m key f) j ≡ (if key == j then map f (get m key) else get m j))
        × ((modify m key f).len ≡ m.len)
  unfolding modify
  modify_lem m key f (inl (e, n)) =
      rw (modify, find_uninit m key e)
        (
          inl (e, n),
          (λ j. modify_nothing m key j f (get-vacant m key 0 (find_uninit m key e))),
          refl,
        )
  modify_lem m key f (inr (s, r)) = elim (find_lem m s key r) [
    | inl (i, v, e, p, x) ↦
        let ready = overwrite-Ready m s key i (f v) v r p x in
        let found : get m key ≡ some v = (get_iff_Has m s key v r).1 (i, p, x) in
        rw (modify, e)
          (
            inr (_, ready),
            (λ j. rw found (get-written m _ s key i j (f v) r ready p (inr (v, x)))),
            ap (λ n. n.len) (set_slot-storage m s i (some (key, f v)) r.storage),
          )
    | inr (i, e, p, x, path, apart) ↦
        rw (modify, e) (inr (s, r), (λ j. modify_nothing m key j f (get-vacant m key i e)), refl)
  ]

  matching_injective : (i j : ℕ) (v w : V) → ◌≡◌ {A = Probe V} (matching i v) (matching j w) → i ≡ j
  matching_injective i j v w e = ground (arith, e)

  -- On a valid map, the loop by which `remove` shifts entries back ends within as many steps as
  -- there are slots.
  pub remove-Ends :
      (m : FixedMap V) (s : Slots V) (key i : ℕ) (v : V)
      → IsValid m
      → m.slots ≡ some s
      → find m key ≡ matching i v
      → shift_ends m.capacity m.mask (update s i none) i (following m.mask i) ≡ true
  remove-Ends m s key i v (inl (e, n)) here hit = absurd (ground (arith, e, here))
  remove-Ends m s key i v (inr (t, r)) here hit = elim (find_lem m t key r) [
    | inl (j, w, e, p, x) ↦
        let at : j ≡ i = matching_injective j i w v (sym e ∙ hit) in
        let same : t ≡ s = ap (λ o. unwrap_or o t) (sym r.storage ∙ here) in
        rw (r.all_slots, r.all_ones, following_lem i (subst (λ k. k < 16384) at p))
          (subst (λ u. shift_ends 16384 table_mask (update u i none) i (after i) ≡ true) same
            (subst (λ k. shift_ends 16384 table_mask (update t k none) k (after k) ≡ true) at
              (closed_lem m t key j w r p x).0))
    | inr h ↦ absurd (ground (arith, h.1, hit))
  ]
