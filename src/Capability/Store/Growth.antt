-- ===== src/Capability/Store/Growth.antt =====
-- kernel/src/capability/store.rs: a new token, at the head of the list of its parent.
use fabric_os.Base.{
  ℕ, ◌<◌, ◌≡◌, ◌≢◌, inl, inr, refl, sym, ap, subst, ◌∙◌, true, false, ◌==◌, not, ◌&&◌, ◌||◌, none,
  some, Option, arith, Bool-cases, Option-cases, is_some, unwrap_or, List, [], ◌∷◌,
}
use fabric_os.Capability.Store.{StoredToken}
use fabric_os.Capability.Store.Children.{
  Lookup, elem, is_child, next_in, first_in, Chain, Chain-ext, ==→≡,
}
use fabric_os.Capability.Store.Forest.{Forest}
use fabric_os.Capability.Store.Unlink.{core}
use mathlib.Core.Option.{map}

-- `id` is new, its token `t` was delegated from `p`, or from none if `p` is 0.
module _ (look look' : Lookup) (p id : ℕ) (t : StoredToken) (forest : Forest look [])
    (fresh : (c : ℕ) (s : StoredToken) → look c ≡ some s → c < id) (pos : 0 < id)
    (new : look' id ≡ some t) (others : (j : ℕ) → j ≢ id → map core (look' j) ≡ map core (look j))
    (nexts : (j : ℕ) → j ≢ id → next_in look' j ≡ next_in look j)
    (firsts : (q : ℕ) → q ≢ id → q ≢ p → first_in look' q ≡ first_in look q)
    (head : is_some (look p) ≡ true → first_in look' p ≡ id) (from : t.token.delegated_from ≡ p)
    (childless : t.first_child ≡ 0) (next : t.next_sibling ≡ first_in look p)
    (parent : ((p == 0) || is_some (look p)) ≡ true) where
  absent : look id ≡ none
  absent = elim (Option-cases (look id)) [
    | inl e ↦ e
    | inr (s, e) ↦ absurd (omega (arith, fresh id s e))
  ]

  not_id : (c : ℕ) → is_some (look c) ≡ true → c ≢ id
  not_id c e y = ground (arith, e, absent, ap (λ k. is_some (look k)) y)

  no_children : (c : ℕ) → is_child look id c ≡ false
  no_children c = elim (Option-cases (look c)) [
    | inl e ↦ rw e refl
    | inr (s, e) ↦
        let at : (s.token.delegated_from == id) ≡ true → look s.token.delegated_from ≡ none =
          λ y. ap look (==→≡ _ id y) ∙ absent in
        ground (arith, e, at, forest.parents c s e, pos)
  ]

  child_other : (q c : ℕ) → c ≢ id → is_child look' q c ≡ is_child look q c
  child_other q c n = ground (arith, others c n)

  child_new : (q : ℕ) → is_child look' q id ≡ (p == q)
  child_new q = rw new (ap (λ k. k == q) from)

  -- A list without `id` in it.
  same-list :
      (q : ℕ) (ds : List ℕ)
      → Chain look (first_in look q) ds
      → ((c : ℕ) → elem c ds ≡ (is_child look q c && not false))
      → Chain look' (first_in look q) ds
  same-list q ds h law =
      Chain-ext look look' (first_in look q) ds
        (λ c e. nexts c (not_id c (ground (arith, law c, e)))) h

  p_other : p ≢ id
  p_other y = ground (arith, parent, pos, y, not_id p)

  grown-new : (c : ℕ) → false ≡ (is_child look' id c && not false)
  grown-new c = elim (Bool-cases (c == id)) [
    | inl y ↦
        subst (λ k. false ≡ (is_child look' id k && not false)) (sym (==→≡ c id y))
          (ground (arith, child_new id, p_other))
    | inr y ↦ ground (arith, child_other id c (ground (arith, y)), no_children c)
  ]

  grown-parent :
      (ds : List ℕ)
      → ((c : ℕ) → elem c ds ≡ (is_child look p c && not false))
      → (c : ℕ) → elem c (id ∷ ds) ≡ (is_child look' p c && not false)
  grown-parent ds law c = elim (Bool-cases (c == id)) [
    | inl y ↦
        subst (λ k. elem k (id ∷ ds) ≡ (is_child look' p k && not false)) (sym (==→≡ c id y))
          (ground (arith, child_new p))
    | inr y ↦ ground (arith, child_other p c (ground (arith, y)), law c, y)
  ]

  grown-other :
      (q : ℕ) (ds : List ℕ)
      → q ≢ p
      → ((c : ℕ) → elem c ds ≡ (is_child look q c && not false))
      → (c : ℕ) → elem c ds ≡ (is_child look' q c && not false)
  grown-other q ds n law c = elim (Bool-cases (c == id)) [
    | inl y ↦
        subst (λ k. elem k ds ≡ (is_child look' q k && not false)) (sym (==→≡ c id y))
          (ground (arith, child_new q, law id, absent, n))
    | inr y ↦ ground (arith, child_other q c (ground (arith, y)), law c)
  ]

  was_live : (q : ℕ) → q ≢ id → is_some (look' q) ≡ is_some (look q)
  was_live q n = ground (arith, others q n)

  grown-lists :
      (q : ℕ)
      → is_some (look' q) ≡ true
      → (ds : List ℕ) × Chain look' (first_in look' q) ds
        × ((c : ℕ) → elem c ds ≡ (is_child look' q c && not (elem c [])))
  grown-lists q e = elim (Bool-cases (q == id)) [
    | inl y ↦
        let at : q ≡ id = ==→≡ q id y in
        (
          [],
          ap (first_in look') at
              ∙ (ap (λ o. unwrap_or (map (λ s. s.first_child) o) 0) new ∙ childless),
          λ c. subst (λ k. false ≡ (is_child look' k c && not false)) (sym at) (grown-new c),
        )
    | inr y ↦
        let n : q ≢ id = ground (arith, y) in
        let live = sym (was_live q n) ∙ e in
        let (ds, h, law) = forest.lists q live in
        let kept = same-list q ds h law in
        elim (Bool-cases (q == p)) [
          | inl z ↦
              let at : q ≡ p = ==→≡ q p z in
              let second : next_in look' id ≡ first_in look q =
                ap (λ o. unwrap_or (map (λ s. s.next_sibling) o) 0) new
                ∙ (next ∙ ap (first_in look) (sym at)) in
              (
                id ∷ ds,
                (
                  ap (first_in look') at ∙ head (subst (λ k. is_some (look k) ≡ true) at live),
                  pos,
                  subst (λ x. Chain look' x ds) (sym second) kept,
                ),
                λ c.
                    subst (λ k. elem c (id ∷ ds) ≡ (is_child look' k c && not false)) (sym at)
                      (grown-parent ds
                        (λ d. subst (λ k. elem d ds ≡ (is_child look k d && not false)) at (law d))
                        c),
              )
          | inr z ↦
              let m : q ≢ p = ground (arith, z) in
              (ds, subst (λ x. Chain look' x ds) (sym (firsts q n m)) kept, grown-other q ds m law)
        ]
  ]

  live_lt : (c : ℕ) → is_some (look c) ≡ true → c < id
  live_lt c e = elim (Option-cases (look c)) [
    | inl n ↦ absurd (ground (arith, n, e))
    | inr (s, y) ↦ fresh c s y
  ]

  Chain-lt :
      (x : ℕ) (ds : List ℕ)
      → Chain look x ds
      → ((c : ℕ) → elem c ds ≡ (is_child look p c && not false))
      → x < id
  Chain-lt x [] h law = omega (arith, h, pos)
  Chain-lt x (d ∷ ds) h law = omega (arith, h.0, live_lt d (ground (arith, law d)))

  first_lt : first_in look p < id
  first_lt = elim (Option-cases (look p)) [
    | inl e ↦ rw e pos
    | inr (s, e) ↦
        let (ds, h, law) = forest.lists p (ap is_some e) in Chain-lt (first_in look p) ds h law
  ]

  parent_lt : p < id
  parent_lt = ground (arith, parent, pos, live_lt p)

  was_some :
      (c : ℕ) (s : StoredToken)
      → c ≢ id
      → look' c ≡ some s
      → (o : StoredToken) × (look c ≡ some o)
        × (o.token ≡ s.token)
        × (o.next_sibling ≡ s.next_sibling)
  was_some c s n e = elim (Option-cases (look c)) [
    | inl z ↦ absurd (ground (arith, was_live c n, z, e))
    | inr (o, y) ↦
        let cores : ◌≡◌ {A = Option StoredToken} (some (core o)) (some (core s)) =
          ap (map core) (sym y) ∙ (sym (others c n) ∙ ap (map core) e) in
        let links : next_in look c ≡ next_in look' c = sym (nexts c n) in
        (
          o,
          y,
          ap (λ x. unwrap_or (map (λ a. a.token) x) o.token) cores,
          ap (λ x. unwrap_or (map (λ a. a.next_sibling) x) 0) (sym y)
              ∙ (links ∙ ap (λ x. unwrap_or (map (λ a. a.next_sibling) x) 0) e),
        )
  ]

  grown-parents :
      (c : ℕ) (s : StoredToken)
      → look' c ≡ some s
      → ((s.token.delegated_from == 0) || elem c [] || is_some (look' s.token.delegated_from))
        ≡ true
  grown-parents c s e = elim (Bool-cases (c == id)) [
    | inl y ↦
        let at : s.token.delegated_from ≡ p =
          ap (λ o. unwrap_or (map (λ a. a.token.delegated_from) o) p)
            (sym e ∙ (ap look' (==→≡ c id y) ∙ new))
          ∙ from in
        let live : is_some (look' s.token.delegated_from) ≡ is_some (look p) =
          ap (λ k. is_some (look' k)) at ∙ was_live p p_other in
        ground (arith, parent, at, live)
    | inr y ↦
        let (o, z, tokens, links) = was_some c s (ground (arith, y)) e in
        let at : o.token.delegated_from ≡ s.token.delegated_from =
          ap (λ k. k.delegated_from) tokens in
        let old : ((s.token.delegated_from == 0) || false || is_some (look s.token.delegated_from))
            ≡ true =
          subst (λ k. ((k == 0) || false || is_some (look k)) ≡ true) at (forest.parents c o z) in
        ground (arith, old, was_live s.token.delegated_from, not_id s.token.delegated_from)
  ]

  grown-older :
      (c : ℕ) (s : StoredToken)
      → look' c ≡ some s
      → (s.token.delegated_from < c) × (s.next_sibling < c)
  grown-older c s e = elim (Bool-cases (c == id)) [
    | inl y ↦
        let same : ◌≡◌ {A = Option StoredToken} (some s) (some t) =
          sym e ∙ (ap look' (==→≡ c id y) ∙ new) in
        let parent_is = ap (λ o. unwrap_or (map (λ a. a.token.delegated_from) o) p) same ∙ from in
        let next_is = ap (λ o. unwrap_or (map (λ a. a.next_sibling) o) 0) same ∙ next in
        (
          omega (arith, parent_is, parent_lt, ==→≡ c id y),
          omega (arith, next_is, first_lt, ==→≡ c id y),
        )
    | inr y ↦
        let (o, z, tokens, links) = was_some c s (ground (arith, y)) e in
        let old = forest.older c o z in
        (omega (arith, old.0, ap (λ k. k.delegated_from) tokens), omega (arith, old.1, links))
  ]

  pub grown-Forest : Forest look' []
  grown-Forest = record {
    lists = grown-lists;
    parents = grown-parents;
    older = grown-older;
    live = λ c e. absurd (ground (arith, e));
    apart = tt;
  }
