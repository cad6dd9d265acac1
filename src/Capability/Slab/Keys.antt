-- ===== src/Capability/Slab/Keys.antt =====
-- kernel/src/capability/slab.rs: the keys of a map, of which `len` is the number.
use fabric_os.Base.{
  ℕ, zero, suc, ◌≤◌, ◌<◌, ◌≡◌, inl, inr, refl, sym, ap, subst, ==_refl, ◌∙◌, true, ◌==◌, ◌||◌, ltb,
  none, some, Option, arith, Bool-cases, Option-cases, is_some, List, [], ◌∷◌, length,
}
use fabric_os.Base.Members.{elem, Distinct, length-subset-le, ==→≡}
use fabric_os.Capability.Slab.{Slots, FixedMap, get, contains_key}
use fabric_os.Capability.Slab.Deletion.{find_uninit, get-vacant}
use fabric_os.Capability.Slab.Shifting.{Table}
use fabric_os.Capability.Slab.Occupied.{occupied}
use fabric_os.Capability.Slab.Ready.{IsValid, max_entries, get_iff_Has}
use fabric_os.Capability.Slab.Size.{len-le}

module _ {V : Type 0} where
  abbrev with_key : Option (ℕ × V) → List ℕ → List ℕ
  with_key none ks = ks
  with_key (some (k, v)) ks = k ∷ ks

  unfoldable keys : ℕ → Slots V → List ℕ
  keys zero s = []
  keys (suc n) s = with_key (s n) (keys n s)

  keys-length : (n : ℕ) (s : Slots V) → length (keys n s) ≡ occupied n s
  unfolding keys occupied
  keys-length zero s = refl
  keys-length (suc n) s = elim (Option-cases (s n)) [
    | inl e ↦ rw (keys, occupied, e) (omega (arith, keys-length n s))
    | inr (x, e) ↦ rw (keys, occupied, e) (omega (arith, keys-length n s))
  ]

  keys-slot :
      (n : ℕ) (s : Slots V) (o : Option (ℕ × V)) → s n ≡ o → keys (suc n) s ≡ with_key o (keys n s)
  unfolding keys
  keys-slot n s o e = ap (λ x. with_key x (keys n s)) e

  slot_of-key :
      (n c : ℕ) (s : Slots V)
      → elem c (keys n s) ≡ true
      → (i : ℕ) × (v : V) × (i < n) × (s i ≡ some (c, v))
  unfolding keys
  slot_of-key zero c s h = absurd (ground (arith, h))
  slot_of-key (suc n) c s h = elim (Option-cases (s n)) [
    | inl e ↦
        let (i, v, l, y) = slot_of-key n c s (sym (ap (elem c) (keys-slot n s none e)) ∙ h) in
        (i, v, omega (arith, l), y)
    | inr ((k, w), e) ↦
        let here : ((k == c) || elem c (keys n s)) ≡ true =
          sym (ap (elem c) (keys-slot n s (some (k, w)) e)) ∙ h in
        elim (Bool-cases (k == c)) [
          | inl y ↦ (n, w, omega arith, e ∙ ap (λ x. some (x, w)) (==→≡ k c y))
          | inr y ↦
              let (i, v, l, z) = slot_of-key n c s (ground (arith, here, y)) in
              (i, v, omega (arith, l), z)
        ]
  ]

  key_of-slot :
      (n c i : ℕ) (v : V) (s : Slots V) → i < n → s i ≡ some (c, v) → elem c (keys n s) ≡ true
  unfolding keys
  key_of-slot zero c i v s l e = absurd (omega (arith, l))
  key_of-slot (suc n) c i v s l e = elim (Bool-cases (i == n)) [
    | inl y ↦
        ap (elem c) (keys-slot n s (some (c, v)) (ap s (sym (==→≡ i n y)) ∙ e))
        ∙ ground (arith, ==_refl c)
    | inr y ↦
        let rest = key_of-slot n c i v s (ground (arith, l, y)) e in
        elim (Option-cases (s n)) [
          | inl z ↦ ap (elem c) (keys-slot n s none z) ∙ rest
          | inr ((k, w), z) ↦ ap (elem c) (keys-slot n s (some (k, w)) z) ∙ ground (arith, rest)
        ]
  ]

  keys-Distinct : (n : ℕ) (s : Slots V) → Table s → n ≤ 16384 → Distinct (keys n s)
  unfolding keys
  keys-Distinct zero s t l = tt
  keys-Distinct (suc n) s t l = elim (Option-cases (s n)) [
    | inl e ↦ subst Distinct (sym (keys-slot n s none e)) (keys-Distinct n s t (omega (arith, l)))
    | inr ((k, w), e) ↦ subst Distinct (sym (keys-slot n s (some (k, w)) e)) (
      elim (Bool-cases (elem k (keys n s))) [
        | inr y ↦ y
        | inl y ↦
            let (i, v, less, z) = slot_of-key n k s y in
            absurd (
              omega
                (arith, t.single i n k v w (omega (arith, less, l)) (omega (arith, l)) z e, less))
      ],
      keys-Distinct n s t (omega (arith, l)),
    )
  ]

  -- The keys of a map, each once.
  keys_of :
      (m : FixedMap V)
      → IsValid m
      → (ks : List ℕ) × Distinct ks
        × (length ks ≡ m.len)
        × ((c : ℕ) → elem c ks ≡ is_some (get m c))
  keys_of m (inl (e, n)) =
      ([], tt, sym n, λ c. sym (ap is_some (get-vacant m c 0 (find_uninit m c e))))
  keys_of m (inr (s, r)) = (
    keys 16384 s,
    keys-Distinct 16384 s r.table (omega arith),
    keys-length 16384 s ∙ r.counted,
    λ c. elim (Option-cases (get m c)) [
      | inr (v, e) ↦
          let (i, l, z) = (get_iff_Has m s c v r).0 e in
          key_of-slot 16384 c i v s l z ∙ sym (ap is_some e)
      | inl e ↦ elim (Bool-cases (elem c (keys 16384 s))) [
        | inr y ↦ y ∙ sym (ap is_some e)
        | inl y ↦
            let (i, v, l, z) = slot_of-key 16384 c s y in
            absurd (ground (arith, e, (get_iff_Has m s c v r).1 (i, l, z)))
      ]
    ],
  )

-- A map whose keys all are keys of another has room for each key of the other.
pub subset-room :
    {V W : Type 0} (a : FixedMap V) (b : FixedMap W) (k : ℕ)
    → IsValid a
    → IsValid b
    → ((c : ℕ) → is_some (get a c) ≡ true → is_some (get b c) ≡ true)
    → is_some (get b k) ≡ true
    → (contains_key a k || ltb a.len max_entries) ≡ true
unfolding contains_key
subset-room a b k va vb sub live = elim (Bool-cases (is_some (get a k))) [
  | inl y ↦ rw (contains_key, y) refl
  | inr y ↦
      let (ks, dk, lk, ek) = keys_of a va in
      let (js, dj, lj, ej) = keys_of b vb in
      let le =
        length-subset-le (k ∷ ks) js (ek k ∙ y, dk) dj
          (λ c h. elim (Bool-cases (k == c)) [
            | inl z ↦ ej c ∙ subst (λ x. is_some (get b x) ≡ true) (==→≡ k c z) live
            | inr z ↦ ej c ∙ sub c (sym (ek c) ∙ ground (arith, h, z))
          ]) in
      let fits : ltb a.len max_entries ≡ true = ground (arith, le, lk, lj, len-le b vb) in
      ground (arith, fits)
]
