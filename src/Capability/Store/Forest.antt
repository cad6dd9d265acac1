-- ===== src/Capability/Store/Forest.antt =====
-- kernel/src/capability/store.rs: the live tokens form a forest, whose child lists are complete.
use fabric_os.Base.{
  ℕ, ◌<◌, ◌≡◌, ◌≢◌, inl, inr, sym, ap, subst, true, ◌==◌, not, ◌&&◌, ◌||◌, none, some, arith,
  Option-cases, if◌then◌else◌, is_some, unwrap_or, List, ◌∷◌,
}
use fabric_os.Capability.Store.{StoredToken}
use fabric_os.Capability.Store.Links.{extend}
use fabric_os.Capability.Store.Children.{
  Lookup, elem, Distinct, next_in, first_in, is_child, Chain, Descends, Chain-ext, Chain-Distinct,
  elem-extend, extend-Distinct, ==→≡,
}
use mathlib.Core.Option.{map}

-- The tokens of the stack are about to be removed, and in no list any more; of the others, each
-- that was delegated has a live parent, and is in its list.
pub record Forest (look : Lookup) (stack : List ℕ) : Type 0 where
  pub lists :
      (p : ℕ)
      → is_some (look p) ≡ true
      → (cs : List ℕ) × Chain look (first_in look p) cs
        × ((c : ℕ) → elem c cs ≡ (is_child look p c && not (elem c stack)))
  pub parents :
      (c : ℕ) (s : StoredToken)
      → look c ≡ some s
      → ((s.token.delegated_from == 0) || elem c stack || is_some (look s.token.delegated_from))
        ≡ true
  pub older :
      (c : ℕ) (s : StoredToken)
      → look c ≡ some s
      → (s.token.delegated_from < c) × (s.next_sibling < c)
  pub live : (c : ℕ) → elem c stack ≡ true → is_some (look c) ≡ true
  pub apart : Distinct stack

pub Forest-Descends : (look : Lookup) (stack : List ℕ) → Forest look stack → Descends look
Forest-Descends look stack f c h = elim (Option-cases (look c)) [
  | inl e ↦ rw e h
  | inr (s, e) ↦ rw e (f.older c s e).1
]

-- One turn of the loop of `revoke`: the top of the stack goes, its children come.
module _ (look look' : Lookup) (id : ℕ) (stack cs : List ℕ) (forest : Forest look (id ∷ stack))
    (chain : Chain look (first_in look id) cs)
    (children : (c : ℕ) → elem c cs ≡ (is_child look id c && not (elem c (id ∷ stack))))
    (removed : (j : ℕ) → look' j ≡ (if id == j then none else look j)) where
  keeps : (c : ℕ) → c ≢ id → look' c ≡ look c
  keeps c n = ground (arith, removed c)

  keeps_next : (c : ℕ) → c ≢ id → next_in look' c ≡ next_in look c
  keeps_next c n = ap (λ o. unwrap_or (map (λ s. s.next_sibling) o) 0) (keeps c n)

  turn-elem :
      (p c : ℕ) (ds : List ℕ)
      → p ≢ id
      → elem c ds ≡ (is_child look p c && not (elem c (id ∷ stack)))
      → elem c ds ≡ (is_child look' p c && not (elem c (extend cs stack)))
  turn-elem p c ds n h = ground (arith, removed c, elem-extend c cs stack, children c, h)

  turn-list :
      (p : ℕ) (ds : List ℕ)
      → p ≢ id
      → Chain look (first_in look p) ds
      → ((c : ℕ) → elem c ds ≡ (is_child look p c && not (elem c (id ∷ stack))))
      → Chain look' (first_in look' p) ds
        × ((c : ℕ) → elem c ds ≡ (is_child look' p c && not (elem c (extend cs stack))))
  turn-list p ds n h members = (
    Chain-ext look look' (first_in look' p) ds
        (λ c e. keeps_next c (λ y. ground (arith, members c, e, y)))
        (subst (λ x. Chain look x ds)
          (ap (λ o. unwrap_or (map (λ s. s.first_child) o) 0) (sym (keeps p n))) h),
    λ c. turn-elem p c ds n (members c),
  )

  live_other : (p : ℕ) → is_some (look' p) ≡ true → (p ≢ id) × (is_some (look p) ≡ true)
  live_other p e = ground (arith, removed p)

  turn-parents :
      (c : ℕ) (s : StoredToken)
      → look' c ≡ some s
      → ((s.token.delegated_from == 0)
          || elem c (extend cs stack)
          || is_some (look' s.token.delegated_from))
        ≡ true
  turn-parents c s e =
      let old : look c ≡ some s = ground (arith, removed c, e) in
      ground (
        arith,
        forest.parents c s old,
        old,
        removed c,
        e,
        removed s.token.delegated_from,
        elem-extend c cs stack,
        children c,
      )

  turn-live : (c : ℕ) → elem c (extend cs stack) ≡ true → is_some (look' c) ≡ true
  turn-live c e = elim (Option-cases (look c)) [
    | inl n ↦ absurd (ground (arith, elem-extend c cs stack, children c, forest.live c, n, e))
    | inr (s, o) ↦
        let same : (id == c) ≡ true → elem id stack ≡ elem c stack =
          λ y. ap (λ k. elem k stack) (==→≡ id c y) in
        ground (
          arith,
          elem-extend c cs stack,
          children c,
          o,
          e,
          removed c,
          forest.older c s o,
          forest.apart.0,
          same,
        )
  ]

  pub turn-Forest : Forest look' (extend cs stack)
  turn-Forest = record {
    lists = λ p e.
        let other = live_other p e in
        let (ds, old, members) = forest.lists p other.1 in
        let new = turn-list p ds other.0 old members in (ds, new.0, new.1);
    parents = turn-parents;
    older = λ c s e. forest.older c s (ground (arith, removed c, e));
    live = turn-live;
    apart =
        extend-Distinct cs stack
          (Chain-Distinct look (first_in look id) cs (Forest-Descends look (id ∷ stack) forest)
            chain)
          forest.apart.1 (λ c e. ground (arith, children c, e));
  }
