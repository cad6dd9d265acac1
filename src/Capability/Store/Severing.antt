-- ===== src/Capability/Store/Severing.antt =====
-- kernel/src/capability/store.rs: `unlink_child` on either of its branches.
use fabric_os.Base.{
  ℕ, suc, ◌<◌, ◌≡◌, ◌≢◌, inl, inr, refl, sym, ap, subst, ◌∙◌, true, false, ◌==◌, not, ◌&&◌, none,
  some, Option, arith, Bool-cases, is_some, unwrap_or, List, [], ◌∷◌,
}
use fabric_os.Capability.Slab
use fabric_os.Capability.Slab.Ready.{IsValid}
use fabric_os.Capability.Slab.Deletion.{modify_lem}
use fabric_os.Capability.Store.{StoredToken, Tokens}
use fabric_os.Capability.Store.Links.{unlink_child, next_sibling_of, first_child_of}
use fabric_os.Capability.Store.Children.{
  Lookup, elem, Distinct, next_in, first_in, is_child, Chain, Chain-Distinct, ==→≡,
}
use fabric_os.Capability.Store.Forest.{Forest, Forest-Descends}
use fabric_os.Capability.Store.Unlink.{
  core, Relinked, without, Chain-cut, Chain-past, unlink_walk_lem,
}
use mathlib.Core.Option.{map}
use fabric_os.Capability.Store.Detach.{
  written_self, written_other, written_view, Relinked-some, detach-Forest,
}

abbrev pub set_first : ℕ → StoredToken → StoredToken
set_first n s = record s { first_child = n }

abbrev set_next : ℕ → StoredToken → StoredToken
set_next n s = record s { next_sibling = n }

pub set_first_view :
    (n : ℕ) (o : Option StoredToken)
    → is_some o ≡ true
    → unwrap_or (map (λ s. s.first_child) (map (set_first n) o)) 0 ≡ n
set_first_view n none e = absurd (ground (arith, e))
set_first_view n (some s) e = refl

set_next_view :
    (n : ℕ) (o : Option StoredToken)
    → is_some o ≡ true
    → unwrap_or (map (λ s. s.next_sibling) (map (set_next n) o)) 0 ≡ n
set_next_view n none e = absurd (ground (arith, e))
set_next_view n (some s) e = refl

is_child-live : (look : Lookup) (p c : ℕ) → is_child look p c ≡ true → is_some (look c) ≡ true
is_child-live look p c e = ground (arith, e)

-- The tokens with one child out of the list of its parent.
abbrev pub Severs : Tokens → ℕ → Tokens → Type 0
Severs tokens child tokens' =
    IsValid tokens'
    × (tokens'.len ≡ tokens.len)
    × Relinked (Slab.get tokens) (Slab.get tokens')
    × Forest (Slab.get tokens') (child ∷ [])

module _ (tokens : Tokens) (child p : ℕ) (t : StoredToken) (cs : List ℕ) (valid : IsValid tokens)
    (forest : Forest (Slab.get tokens) []) (here : Slab.get tokens child ≡ some t)
    (from : t.token.delegated_from ≡ p) (parent : is_some (Slab.get tokens p) ≡ true)
    (chain : Chain (Slab.get tokens) (first_in (Slab.get tokens) p) cs)
    (members : (c : ℕ) → elem c cs ≡ (is_child (Slab.get tokens) p c && not false)) where
  look : Lookup
  look = Slab.get tokens

  pos : 0 < child
  pos = omega (arith, (forest.older child t here).0)

  distinct : Distinct cs
  distinct =
      Chain-Distinct (Slab.get tokens) (first_in (Slab.get tokens) p) cs
        (Forest-Descends _ [] forest) chain

  among : elem child cs ≡ true
  among = members child ∙ (rw here (ground (arith, from)))

  positive :
      (look' : Lookup) (c : ℕ) (s : StoredToken)
      → Relinked (Slab.get tokens) look'
      → look' c ≡ some s
      → 0 < c
  positive look' c s same e =
      let (o, y, tokens_same) = Relinked-some (Slab.get tokens) look' c s same e in
      omega (arith, (forest.older c o y).0)

  down_in :
      (look' : Lookup) (c : ℕ) (s : StoredToken)
      → Relinked (Slab.get tokens) look'
      → look' c ≡ some s
      → next_in look' c < c
      → s.next_sibling < c
  down_in look' c s same e h = subst (λ o. unwrap_or (map (λ a. a.next_sibling) o) 0 < c) e h

  sever-head :
      first_in (Slab.get tokens) p ≡ child
      → Severs tokens child (Slab.modify tokens p (set_first (next_in (Slab.get tokens) child)))
  sever-head first =
      let n = next_in (Slab.get tokens) child in
      let (ok, all, len) = modify_lem tokens p (set_first n) valid in
      let look' = Slab.get (Slab.modify tokens p (set_first n)) in
      let same : Relinked (Slab.get tokens) look' =
        written_view (Slab.get tokens) look' p (set_first n) all core (λ s. refl) in
      let nexts : (j : ℕ) → next_in look' j ≡ next_in (Slab.get tokens) j = λ j.
        ap (λ o. unwrap_or o 0)
          (written_view (Slab.get tokens) look' p (set_first n) all (λ s. s.next_sibling)
            (λ s. refl) j) in
      let start : first_in look' p ≡ n =
        ap (λ o. unwrap_or (map (λ s. s.first_child) o) 0)
          (written_self (Slab.get tokens) look' p (set_first n) all)
        ∙ set_first_view n (Slab.get tokens p) parent in
      (
        ok,
        len,
        same,
        detach-Forest (Slab.get tokens) look' p child t cs forest same here from
            (Chain-past (Slab.get tokens) look' (suc child) child (first_in look' p) cs
              (Forest-Descends _ [] forest) pos (omega arith) start (λ j d. nexts j)
              (subst (λ x. Chain (Slab.get tokens) x cs) first chain))
            distinct members
            (λ q d.
              ap (λ o. unwrap_or (map (λ s. s.first_child) o) 0)
                (written_other (Slab.get tokens) look' p (set_first n) all q d))
            (λ c e. nexts c)
            (λ c s e. down_in look' c s same e (
              subst (λ k. k < c) (sym (nexts c))
                (Forest-Descends _ [] forest c (positive look' c s same e)))),
      )

  sever-later :
      (prev : ℕ)
      → elem prev cs ≡ true
      → next_in (Slab.get tokens) prev ≡ child
      → Severs tokens child (Slab.modify tokens prev (set_next (next_in (Slab.get tokens) child)))
  sever-later prev in_list link =
      let n = next_in (Slab.get tokens) child in
      let (ok, all, len) = modify_lem tokens prev (set_next n) valid in
      let look' = Slab.get (Slab.modify tokens prev (set_next n)) in
      let same : Relinked (Slab.get tokens) look' =
        written_view (Slab.get tokens) look' prev (set_next n) all core (λ s. refl) in
      let firsts : (j : ℕ) → first_in look' j ≡ first_in (Slab.get tokens) j = λ j.
        ap (λ o. unwrap_or o 0)
          (written_view (Slab.get tokens) look' prev (set_next n) all (λ s. s.first_child)
            (λ s. refl) j) in
      let child_of : is_child (Slab.get tokens) p prev ≡ true =
        ground (arith, members prev, in_list) in
      let live : is_some (Slab.get tokens prev) ≡ true =
        is_child-live (Slab.get tokens) p prev child_of in
      let down = Forest-Descends (Slab.get tokens) [] forest in
      let past : next_in look' prev ≡ n =
        ap (λ o. unwrap_or (map (λ s. s.next_sibling) o) 0)
          (written_self (Slab.get tokens) look' prev (set_next n) all)
        ∙ set_next_view n (Slab.get tokens prev) live in
      let nexts : (j : ℕ) → prev ≢ j → next_in look' j ≡ next_in (Slab.get tokens) j = λ j d.
        ap (λ o. unwrap_or (map (λ s. s.next_sibling) o) 0)
          (written_other (Slab.get tokens) look' prev (set_next n) all j d) in
      let cut =
        Chain-cut (Slab.get tokens) look' prev child (first_in (Slab.get tokens) p) cs
          (Forest-Descends _ [] forest) pos link past nexts chain in_list in
      (
        ok,
        len,
        same,
        detach-Forest (Slab.get tokens) look' p child t cs forest same here from
            (subst (λ x. Chain look' x (without child cs)) (sym (firsts p)) cut) distinct members
            (λ q d. firsts q)
            (λ c e. nexts c (λ y. ground (arith, child_of, e, ap (is_child (Slab.get tokens) p) y)))
            (λ c s e. down_in look' c s same e (elim (Bool-cases (prev == c)) [
              | inl y ↦
                  subst (λ k. next_in look' k < k) (==→≡ prev c y)
                    (omega (
                      arith,
                      past,
                      link,
                      down child pos,
                      down prev (omega (arith, positive look' c s same e, ==→≡ prev c y)),
                    ))
              | inr y ↦
                  omega (arith, nexts c (ground (arith, y)), down c (positive look' c s same e))
            ])),
      )

  sever : Severs tokens child (unlink_child tokens p child)
  unfolding unlink_child next_sibling_of first_child_of
  sever = elim (Bool-cases (first_in (Slab.get tokens) p == child)) [
    | inl y ↦ rw (unlink_child, y) (sever-head (==→≡ _ child y))
    | inr y ↦
        let (prev, in_list, link, walked) =
          unlink_walk_lem (suc (first_in (Slab.get tokens) p)) tokens (first_in (Slab.get tokens) p)
            child (next_in (Slab.get tokens) child) cs (Forest-Descends _ [] forest) chain among
            (ground (arith, y)) (omega arith) in
        rw (unlink_child, y, walked) (sever-later prev in_list link)
  ]

-- `unlink_child` takes a delegated token out of the list of its parent, and changes no token but
-- for its links.
pub unlink_child_lem :
    (tokens : Tokens) (child : ℕ) (t : StoredToken)
    → IsValid tokens
    → Forest (Slab.get tokens) []
    → Slab.get tokens child ≡ some t
    → t.token.delegated_from ≢ 0
    → Severs tokens child (unlink_child tokens t.token.delegated_from child)
unlink_child_lem tokens child t valid forest here d =
    let parent : is_some (Slab.get tokens t.token.delegated_from) ≡ true =
      ground (arith, forest.parents child t here, d) in
    let (cs, chain, members) = forest.lists t.token.delegated_from parent in
    sever tokens child t.token.delegated_from t cs valid forest here refl parent chain members
