-- ===== src/Capability/Slab/Laws.antt =====
-- kernel/src/capability/slab.rs: a map behaves as a finite map of at most `max_entries` keys.
use fabric_os.Base.{
  ℕ, ◌+◌, ◌*◌, ◌/◌, ◌<◌, ◌≡◌, ◌↔◌, ◌⊎◌, inl, inr, refl, sym, ap, ap₂, ◌∙◌, Bool, true, false, ◌==◌,
  leb, ltb, not, ◌&&◌, ◌||◌, none, some, Option, arith, Bool-cases, Option-cases, if◌then◌else◌,
  is_some,
}
use fabric_os.Base.Words.{add64}
use fabric_os.Base.Slots.{update, update_self}
use fabric_os.Capability.Slab.{
  Slots, FixedMap, vacant, matching, find, get, contains_key, insert, insert_at, set_slot,
  ensure_init, alloc_slots, default_capacity,
}
use fabric_os.Capability.Slab.Probing.{differ}
use fabric_os.Capability.Slab.Shifting.{Table}
use fabric_os.Capability.Slab.Removal.{Has}
use fabric_os.Capability.Slab.Occupied.{one, occupied-update, occupied-none}
use fabric_os.Capability.Slab.Tables.{Absent, insert-Table, set-Table, update_ne-Has}
use fabric_os.Capability.Slab.Ready.{Ready, IsValid, max_entries, find_lem, get_iff_Has}

option_ext : {V : Type 0} (x y : Option V) → ((v : V) → (x ≡ some v) ↔ (y ≡ some v)) → x ≡ y
option_ext none none h = refl
option_ext none (some b) h = absurd (differ (sym ((h b).1 refl)))
option_ext (some a) y h = sym ((h a).0 refl)

pub and_true : (b : Bool) → (b && true) ≡ b
and_true b = ground arith

pub or_true : (b : Bool) → (b || true) ≡ true
or_true b = ground arith

and_false : (b : Bool) → (b && false) ≡ false
and_false b = ground arith

module _ {V : Type 0} where
  pub get_ext :
      (m m' : FixedMap V) (s s' : Slots V) (k : ℕ)
      → Ready m s
      → Ready m' s'
      → ((v : V) → Has s' k v ↔ Has s k v)
      → get m' k ≡ get m k
  get_ext m m' s s' k r r' h = option_ext (get m' k) (get m k) (λ v. (
    λ e. (get_iff_Has m s k v r).1 ((h v).0 ((get_iff_Has m' s' k v r').0 e)),
    λ e. (get_iff_Has m' s' k v r').1 ((h v).1 ((get_iff_Has m s k v r).0 e)),
  ))

  pub get-Absent : (m : FixedMap V) (s : Slots V) (k : ℕ) → Ready m s → Absent s k → get m k ≡ none
  get-Absent m s k r a = elim (Option-cases (get m k)) [
    | inl e ↦ e
    | inr (v, e) ↦ absurd (a _ v ((get_iff_Has m s k v r).0 e).1 ((get_iff_Has m s k v r).0 e).2)
  ]

  pub empty_Table : Table {V = V} (λ i. none)
  empty_Table = record {
    chained = λ i k m v p s. absurd (differ (sym s));
    single = λ i j k v w p q s. absurd (differ (sym s));
  }

  empty_table-Ready :
      (m : FixedMap V) → m.len ≡ 0 → Ready (alloc_slots m default_capacity) (λ i. none)
  unfolding alloc_slots
  empty_table-Ready m n = record {
    storage = refl;
    all_slots = refl;
    all_ones = refl;
    table = empty_Table;
    counted = occupied-none 16384 (λ i. none) (λ i. refl) ∙ sym n;
    bounded = omega (arith, n);
  }

  ensure_init-same : (m : FixedMap V) (s : Slots V) → m.slots ≡ some s → ensure_init m ≡ m
  unfolding ensure_init
  ensure_init-same m s e = ap (λ o. elim o [ none ↦ alloc_slots m default_capacity | some t ↦ m ]) e

  pub ensure_init-Ready :
      (m : FixedMap V)
      → IsValid m
      → (s : Slots V) × Ready (ensure_init m) s
        × ((k : ℕ) → get (ensure_init m) k ≡ get m k)
        × ((ensure_init m).len ≡ m.len)
  unfolding ensure_init alloc_slots get find
  ensure_init-Ready m (inl (e, n)) =
      rw (ensure_init, e)
        (
          (λ i. none),
          empty_table-Ready m n,
          (λ k.
              get-Absent (alloc_slots m default_capacity) (λ i. none) k (empty_table-Ready m n)
                (λ i v p s. differ (sym s))),
          refl,
        )
  ensure_init-Ready m (inr (s, r)) = rw (ensure_init-same m s r.storage) (s, r, (λ k. refl), refl)

  pub set_slot-storage :
      (m : FixedMap V) (s : Slots V) (i : ℕ) (o : Option (ℕ × V))
      → m.slots ≡ some s
      → set_slot m i o ≡ record m { slots = some (update s i o) }
  unfolding set_slot
  set_slot-storage m s i o e = rw (set_slot, e) refl

  -- A write over the entry of a key.
  pub overwrite-Ready :
      (m : FixedMap V) (s : Slots V) (key i : ℕ) (v w : V)
      → Ready m s
      → i < 16384
      → s i ≡ some (key, w)
      → Ready (set_slot m i (some (key, v))) (update s i (some (key, v)))
  overwrite-Ready m s key i v w r p e =
      rw (set_slot-storage m s i (some (key, v)) r.storage) record {
        storage = refl;
        all_slots = r.all_slots;
        all_ones = r.all_ones;
        table = set-Table s i key v w r.table e;
        counted = omega (arith, occupied-update 16384 i s (some (key, v)) p, ap one e, r.counted);
        bounded = r.bounded;
      }

  -- A new entry in an empty slot.
  extend-Ready :
      (m : FixedMap V) (s : Slots V) (key j : ℕ) (v : V)
      → Ready m s
      → j < 16384
      → s j ≡ none
      → Table (update s j (some (key, v)))
      → m.len < max_entries
      → Ready
          (record (set_slot m j (some (key, v))) { len = add64 m.len 1 })
          (update s j (some (key, v)))
  extend-Ready m s key j v r p e t l =
      rw (set_slot-storage m s j (some (key, v)) r.storage) record {
        storage = refl;
        all_slots = r.all_slots;
        all_ones = r.all_ones;
        table = t;
        counted =
            omega (arith, occupied-update 16384 j s (some (key, v)) p, ap one e, r.counted, l);
        bounded = omega (arith, l);
      }

  -- What lookups give where a slot is written with an entry of the key.
  pub get-written :
      (m m' : FixedMap V) (s : Slots V) (key i j : ℕ) (v : V)
      → Ready m s
      → Ready m' (update s i (some (key, v)))
      → i < 16384
      → (s i ≡ none) ⊎ ((w : V) × (s i ≡ some (key, w)))
      → get m' j ≡ (if key == j then some v else get m j)
  get-written m m' s key i j v r r' p old = elim (Bool-cases (key == j)) [
    | inl y ↦
        let at : key ≡ j = ground arith in
        rw y (
          (get_iff_Has m' _ j v r').1
            (i, p, update_self s i (some (key, v)) ∙ ap (λ k. some (k, v)) at))
    | inr y ↦ rw y (
        get_ext m m' s (update s i (some (key, v))) j r r'
          (λ w. update_ne-Has s i key j (some (key, v)) w (ground arith) (λ u z. ground arith) old))
  ]

  pub contains_key-hit :
      (m : FixedMap V) (key i : ℕ) (v : V) → find m key ≡ matching i v → contains_key m key ≡ true
  unfolding contains_key get
  contains_key-hit m key i v e = rw (contains_key, get, e) refl

  pub contains_key-miss :
      (m : FixedMap V) (key i : ℕ) → find m key ≡ vacant i → contains_key m key ≡ false
  unfolding contains_key get
  contains_key-miss m key i e = rw (contains_key, get, e) refl

  pub contains_key-get :
      (m m' : FixedMap V) (key : ℕ)
      → get m key ≡ get m' key
      → contains_key m key ≡ contains_key m' key
  unfolding contains_key
  contains_key-get m m' key e = ap is_some e

  -- What `insert` does to a map as a finite map, and when it succeeds.
  abbrev pub Inserts : FixedMap V → ℕ → V → FixedMap V × Bool → Type 0
  Inserts m key v r =
      IsValid r.0
      × (r.1 ≡ (contains_key m key || ltb m.len max_entries))
      × ((j : ℕ) → get r.0 j ≡ (if (key == j) && r.1 then some v else get m j))
      × (r.0.len ≡ (if contains_key m key || not r.1 then m.len else m.len + 1))

  insert_at_lem :
      (m : FixedMap V) (s : Slots V) (key : ℕ) (v : V)
      → Ready m s
      → Inserts m key v (insert_at m key v (find m key))
  unfolding insert_at
  insert_at_lem m s key v r = elim (find_lem m s key r) [
    | inl (i, w, e, p, x) ↦
        rw (e, contains_key-hit m key i w e)
          (
            inr (_, overwrite-Ready m s key i v w r p x),
            refl,
            λ j.
                get-written m _ s key i j v r (overwrite-Ready m s key i v w r p x) p (inr (w, x))
                ∙ ap (λ b. if b then some v else get m j) (sym (and_true (key == j))),
            ap (λ n. n.len) (set_slot-storage m s i (some (key, v)) r.storage),
          )
    | inr (i, e, p, x, path, apart) ↦ elim (Bool-cases (leb max_entries m.len)) [
      | inl y ↦
          let too_full : leb (m.capacity * 3 / 4) m.len ≡ true = ground (arith, y, r.all_slots) in
          rw (e, contains_key-miss m key i e, insert_at, too_full)
            (
              inr (s, r),
              ground (arith, y),
              (λ j. ap (λ b. if b then some v else get m j) (sym (and_false (key == j)))),
              refl,
            )
      | inr y ↦
          let fits : leb (m.capacity * 3 / 4) m.len ≡ false = ground (arith, y, r.all_slots) in
          let ready =
            extend-Ready m s key i v r p x (insert-Table s i key v r.table p x apart path)
              (ground (arith, y)) in
          rw (e, contains_key-miss m key i e, insert_at, fits)
            (
              inr (_, ready),
              ground (arith, y),
              λ j.
                  get-written m _ s key i j v r ready p (inl x)
                  ∙ ap (λ b. if b then some v else get m j) (sym (and_true (key == j))),
              omega (arith, r.bounded),
            )
    ]
  ]

  -- On a valid map, `insert` succeeds exactly when the key is known or the map has fewer than
  -- 12288 entries, then stores the entry and leaves all others, and otherwise changes none; it
  -- keeps the map valid and counts a new key.
  pub insert_lem : (m : FixedMap V) (key : ℕ) (v : V) → IsValid m → Inserts m key v (insert m key v)
  unfolding insert
  insert_lem m key v valid =
      let (s, r, same, len) = ensure_init-Ready m valid in
      let (ok, done, got, size) = insert_at_lem (ensure_init m) s key v r in
      let known : contains_key (ensure_init m) key ≡ contains_key m key =
        contains_key-get (ensure_init m) m key (same key) in
      (
        ok,
        done ∙ ap₂ (λ b n. b || ltb n max_entries) known len,
        λ j. got j ∙ ap (λ o. if (key == j) && (insert m key v).1 then some v else o) (same j),
        size ∙ ap₂ (λ b n. if b || not (insert m key v).1 then n else n + 1) known len,
      )
