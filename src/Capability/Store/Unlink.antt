-- ===== src/Capability/Store/Unlink.antt =====
-- kernel/src/capability/store.rs: `unlink_child` takes one token out of the list of its parent.
use fabric_os.Base.{
  ℕ, zero, suc, ◌<◌, ◌≡◌, ◌≢◌, inl, inr, refl, sym, ap, subst, ◌∙◌, Bool, true, false, ◌==◌, none,
  some, Option, arith, Bool-cases, is_some, unwrap_or, List, [], ◌∷◌,
}
use fabric_os.Capability.Slab
use fabric_os.Capability.Store.{StoredToken, Tokens}
use fabric_os.Capability.Store.Links.{unlink_walk, next_sibling_of}
use fabric_os.Capability.Store.Children.{
  Lookup, elem, next_in, is_child, Chain, Descends, Chain-ext, elem-Chain-le, ==→≡,
}
pub use fabric_os.Base.Members.{without, elem-without}
use mathlib.Core.Option.{map}

-- A token without its links.
abbrev pub core : StoredToken → StoredToken
core s = record s { first_child = 0; next_sibling = 0 }

-- Two states whose tokens differ in their links at most.
abbrev pub Relinked : Lookup → Lookup → Type 0
Relinked look look' = (c : ℕ) → map core (look' c) ≡ map core (look c)

pub Relinked-is_child :
    (look look' : Lookup) → Relinked look look' → (p c : ℕ) → is_child look' p c ≡ is_child look p c
Relinked-is_child look look' same p c =
    sym (through (look' c)) ∙ (ap of (same c) ∙ through (look c))
  where
    of : Option StoredToken → Bool
    of o = unwrap_or (map (λ s. s.token.delegated_from == p) o) false

    through : (o : Option StoredToken) → of (map core o) ≡ of o
    through none = refl
    through (some s) = refl

pub Relinked-live :
    (look look' : Lookup) → Relinked look look' → (c : ℕ) → is_some (look' c) ≡ is_some (look c)
Relinked-live look look' same c = ground (arith, same c)

elem-Chain-pos :
    (look : Lookup) (x : ℕ) (cs : List ℕ) → Chain look x cs → (c : ℕ) → elem c cs ≡ true → 0 < c
elem-Chain-pos look x [] h c e = ground arith
elem-Chain-pos look x (d ∷ ds) h c e =
    ground (arith, h.1, elem-Chain-pos look (next_in look d) ds h.2 c)

-- The rest of the list, behind the one that now points past `child`.
pub Chain-past :
    (look look' : Lookup) (prev child x' : ℕ) (cs : List ℕ)
    → Descends look
    → 0 < child
    → child < prev
    → x' ≡ next_in look child
    → ((j : ℕ) → prev ≢ j → next_in look' j ≡ next_in look j)
    → Chain look child cs
    → Chain look' x' (without child cs)
Chain-past look look' prev child x' [] down pos less at new h = absurd (omega (arith, h))
Chain-past look look' prev child x' (d ∷ ds) down pos less at new h =
    let head : (d == child) ≡ true = ground (arith, h.0) in
    let start : x' ≡ next_in look d = at ∙ ap (next_in look) h.0 in
    rw head (
      Chain-ext look look' x' ds
        (λ c e. new c (λ y.
          ground (arith, y, elem-Chain-le look (next_in look d) ds down h.2 c e, down d h.1, h.0)))
        (subst (λ k. Chain look k ds) (sym start) h.2))

-- The list without `child`, once the one before it is linked to the one behind it.
pub Chain-cut :
    (look look' : Lookup) (prev child x : ℕ) (cs : List ℕ)
    → Descends look
    → 0 < child
    → next_in look prev ≡ child
    → next_in look' prev ≡ next_in look child
    → ((j : ℕ) → prev ≢ j → next_in look' j ≡ next_in look j)
    → Chain look x cs
    → elem prev cs ≡ true
    → Chain look' x (without child cs)
Chain-cut look look' prev child x [] down pos link past new h e = absurd (ground (arith, e))
Chain-cut look look' prev child x (c ∷ cs) down pos link past new h e =
    elim (Bool-cases (prev == c)) [
      | inl y ↦
          let at : prev ≡ c = ==→≡ prev c y in
          let linked : next_in look c ≡ child = ap (next_in look) (sym at) ∙ link in
          let less : child < c = omega (arith, down c h.1, linked) in
          let apart : (c == child) ≡ false = ground (arith, less) in
          rw apart (
            h.0,
            h.1,
            Chain-past look look' prev child (next_in look' c) cs down pos (omega (arith, less, at))
                (ap (next_in look') (sym at) ∙ past) new (subst (λ k. Chain look k cs) linked h.2),
          )
      | inr y ↦
          let later : elem prev cs ≡ true = ground (arith, e, y) in
          let positive = elem-Chain-pos look (next_in look c) cs h.2 prev later in
          let apart : (c == child) ≡ false = ground (
            arith,
            elem-Chain-le look (next_in look c) cs down h.2 prev later,
            down c h.1,
            down prev positive,
            link,
          ) in
          rw apart (
            h.0,
            h.1,
            subst (λ k. Chain look' k (without child cs)) (sym (new c (ground (arith, y))))
                (Chain-cut look look' prev child (next_in look c) cs down pos link past new h.2
                  later),
          )
    ]

pub unlink_walk_lem :
    (fuel : ℕ) (tokens : Tokens) (x child next : ℕ) (cs : List ℕ)
    → Descends (Slab.get tokens)
    → Chain (Slab.get tokens) x cs
    → elem child cs ≡ true
    → x ≢ child
    → x < fuel
    → (prev : ℕ) × (elem prev cs ≡ true)
      × (next_in (Slab.get tokens) prev ≡ child)
      × (unlink_walk fuel tokens x child next
          ≡ Slab.modify tokens prev (λ p. record p { next_sibling = next }))
unfolding unlink_walk next_sibling_of
unlink_walk_lem zero tokens x child next cs down h e n f = absurd (omega arith)
unlink_walk_lem (suc fuel) tokens x child next [] down h e n f = absurd (ground (arith, e))
unlink_walk_lem (suc fuel) tokens x child next (c ∷ cs) down h e n f =
    let some_id : (x == 0) ≡ false = ground (arith, h.0, h.1) in
    let same : next_in (Slab.get tokens) x ≡ next_in (Slab.get tokens) c =
      ap (next_in (Slab.get tokens)) h.0 in
    elim (Bool-cases (next_in (Slab.get tokens) x == child)) [
      | inl y ↦ (x, ground (arith, h.0), ==→≡ _ child y, rw (unlink_walk, some_id, y) refl)
      | inr y ↦
          let rest =
            unlink_walk_lem fuel tokens (next_in (Slab.get tokens) x) child next cs down
              (subst (λ k. Chain (Slab.get tokens) k cs) (sym same) h.2) (ground (arith, e, h.0, n))
              (ground (arith, y)) (omega (arith, down c h.1, h.0, f, same)) in
          (rest.0, ground (arith, rest.1), rest.2, rw (unlink_walk, some_id, y) rest.3)
    ]
