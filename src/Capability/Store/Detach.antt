-- ===== src/Capability/Store/Detach.antt =====
-- kernel/src/capability/store.rs: what `unlink_child` does to the forest.
use fabric_os.Base.{
  ℕ, ◌<◌, ◌≡◌, ◌≢◌, inl, inr, refl, sym, ap, subst, ◌∙◌, true, false, ◌==◌, not, ◌&&◌, none, some,
  Option, arith, Bool-cases, Option-cases, if◌then◌else◌, is_some, unwrap_or, List, [], ◌∷◌,
}
use fabric_os.Capability.Store.{StoredToken}
use fabric_os.Capability.Store.Children.{
  Lookup, elem, Distinct, next_in, first_in, is_child, Chain, Chain-ext, ==→≡,
}
use fabric_os.Capability.Store.Forest.{Forest}
use fabric_os.Capability.Store.Unlink.{
  core, Relinked, Relinked-is_child, Relinked-live, without, elem-without,
}
use mathlib.Core.Option.{map}

-- A write to the token `k`.
module _ (look look' : Lookup) (k : ℕ) (f : StoredToken → StoredToken)
    (written : (j : ℕ) → look' j ≡ (if k == j then map f (look k) else look j)) where
  pub written_other : (j : ℕ) → k ≢ j → look' j ≡ look j
  written_other j n = ground (arith, written j)

  pub written_self : look' k ≡ map f (look k)
  written_self = ground (arith, written k)

  -- A view that the write does not change is the same for every token.
  pub written_view :
      {A : Type 0} (g : StoredToken → A)
      → ((s : StoredToken) → g (f s) ≡ g s)
      → (j : ℕ) → map g (look' j) ≡ map g (look j)
  written_view g same j = elim (Bool-cases (k == j)) [
    | inl y ↦
        subst (λ i. map g (look' i) ≡ map g (look i)) (==→≡ k j y)
          (ap (map g) written_self ∙ through (look k))
    | inr y ↦ ap (map g) (written_other j (ground (arith, y)))
  ]
    where
      through : (o : Option StoredToken) → map g (map f o) ≡ map g o
      through none = refl
      through (some s) = ap some (same s)

pub Relinked-some :
    (look look' : Lookup) (c : ℕ) (s : StoredToken)
    → Relinked look look'
    → look' c ≡ some s
    → (o : StoredToken) × (look c ≡ some o) × (o.token ≡ s.token)
Relinked-some look look' c s same e = elim (Option-cases (look c)) [
  | inl n ↦ absurd (ground (arith, Relinked-live look look' same c, n, e))
  | inr (o, y) ↦
      let cores : ◌≡◌ {A = Option StoredToken} (some (core o)) (some (core s)) =
        ap (map core) (sym y) ∙ (sym (same c) ∙ ap (map core) e) in
      (o, y, ap (λ x. unwrap_or (map (λ a. a.token) x) o.token) cores)
]

-- The forest with `child` out of the list of its parent.
module _ (look look' : Lookup) (p child : ℕ) (t : StoredToken) (cs : List ℕ)
    (forest : Forest look []) (same : Relinked look look') (here : look child ≡ some t)
    (from : t.token.delegated_from ≡ p) (chain : Chain look' (first_in look' p) (without child cs))
    (distinct : Distinct cs) (members : (c : ℕ) → elem c cs ≡ (is_child look p c && not false))
    (firsts : (q : ℕ) → p ≢ q → first_in look' q ≡ first_in look q)
    (nexts : (c : ℕ) → is_child look p c ≡ false → next_in look' c ≡ next_in look c)
    (down : (c : ℕ) (s : StoredToken) → look' c ≡ some s → s.next_sibling < c) where
  detach-own :
      (c : ℕ) → elem c (without child cs) ≡ (is_child look' p c && not (elem c (child ∷ [])))
  detach-own c =
      ground
        (arith, elem-without child c cs distinct, members c, Relinked-is_child look look' same p c)

  child-of-other : (q : ℕ) → p ≢ q → is_child look q child ≡ false
  child-of-other q n = rw here (ground (arith, from, n))

  detach-other :
      (q : ℕ) (ds : List ℕ)
      → p ≢ q
      → Chain look (first_in look q) ds
      → ((c : ℕ) → elem c ds ≡ (is_child look q c && not false))
      → Chain look' (first_in look' q) ds
        × ((c : ℕ) → elem c ds ≡ (is_child look' q c && not (elem c (child ∷ []))))
  detach-other q ds n h law = (
    Chain-ext look look' (first_in look' q) ds
        (λ c e. nexts c (one_parent c (ground (arith, law c, e))))
        (subst (λ x. Chain look x ds) (sym (firsts q n)) h),
    λ c.
        let at : (child == c) ≡ true → is_child look q child ≡ is_child look q c =
          λ y. ap (is_child look q) (==→≡ child c y) in
        ground (arith, law c, Relinked-is_child look look' same q c, at, child-of-other q n),
  )
    where
      one_parent : (c : ℕ) → is_child look q c ≡ true → is_child look p c ≡ false
      one_parent c e = ground (arith, n)

  detach-lists :
      (q : ℕ)
      → is_some (look' q) ≡ true
      → (ds : List ℕ) × Chain look' (first_in look' q) ds
        × ((c : ℕ) → elem c ds ≡ (is_child look' q c && not (elem c (child ∷ []))))
  detach-lists q e = elim (Bool-cases (p == q)) [
    | inl y ↦
        subst
          (λ i.
            (ds : List ℕ) × Chain look' (first_in look' i) ds
            × ((c : ℕ) → elem c ds ≡ (is_child look' i c && not (elem c (child ∷ [])))))
          (==→≡ p q y) (without child cs, chain, detach-own)
    | inr y ↦
        let (ds, h, law) = forest.lists q (sym (Relinked-live look look' same q) ∙ e) in
        let new = detach-other q ds (ground (arith, y)) h law in (ds, new.0, new.1)
  ]

  pub detach-Forest : Forest look' (child ∷ [])
  detach-Forest = record {
    lists = detach-lists;
    parents = λ c s e.
        let (o, y, tokens) = Relinked-some look look' c s same e in
        let parent = ap (λ k. k.delegated_from) tokens in
        let lives : is_some (look' s.token.delegated_from) ≡ is_some (look o.token.delegated_from) =
          Relinked-live look look' same s.token.delegated_from
          ∙ ap (λ k. is_some (look k)) (sym parent) in
        ground (arith, forest.parents c o y, parent, lives);
    older = λ c s e.
        let (o, y, tokens) = Relinked-some look look' c s same e in
        (ground (arith, (forest.older c o y).0, ap (λ k. k.delegated_from) tokens), down c s e);
    live = λ c e.
        let at : child ≡ c = ground (arith, e) in
        subst (λ k. is_some (look' k) ≡ true) at
          (Relinked-live look look' same child ∙ ap is_some here);
    apart = (refl, tt);
  }
