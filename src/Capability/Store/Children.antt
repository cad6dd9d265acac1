-- ===== src/Capability/Store/Children.antt =====
-- kernel/src/capability/store.rs: the child lists that run through the tokens.
use fabric_os.Base.{
  ℕ, zero, suc, ◌≤◌, ◌<◌, ◌≡◌, refl, sym, ap, subst, ◌∙◌, Bool, true, false, ◌==◌, ◌||◌, Option,
  arith, unwrap_or, List, [], ◌∷◌,
}
use fabric_os.Capability.Slab
use fabric_os.Capability.Store.{StoredToken, Tokens}
use fabric_os.Capability.Store.Links.{extend, walk_children, next_sibling_of}
pub use fabric_os.Base.Members.{elem, Distinct, ==→≡}
use mathlib.Core.Option.{map}

abbrev pub Lookup : Type 0
Lookup = ℕ → Option StoredToken

abbrev pub next_in : Lookup → ℕ → ℕ
next_in look c = unwrap_or (map (λ s. s.next_sibling) (look c)) 0

abbrev pub first_in : Lookup → ℕ → ℕ
first_in look c = unwrap_or (map (λ s. s.first_child) (look c)) 0

-- Whether a live token was delegated from the other.
abbrev pub is_child : Lookup → ℕ → ℕ → Bool
is_child look p c = unwrap_or (map (λ s. s.token.delegated_from == p) (look c)) false

-- The list that starts at `x` and goes along the siblings.
abbrev pub Chain : Lookup → ℕ → List ℕ → Type 0
Chain look x [] = x ≡ 0
Chain look x (c ∷ cs) = (x ≡ c) × (0 < c) × Chain look (next_in look c) cs

-- A sibling is older.
abbrev pub Descends : Lookup → Type 0
Descends look = (c : ℕ) → 0 < c → next_in look c < c

-- Lists with the same siblings.
pub Chain-ext :
    (look look' : Lookup) (x : ℕ) (cs : List ℕ)
    → ((c : ℕ) → elem c cs ≡ true → next_in look' c ≡ next_in look c)
    → Chain look x cs
    → Chain look' x cs
Chain-ext look look' x [] same h = h
Chain-ext look look' x (c ∷ cs) same h = (
  h.0,
  h.1,
  Chain-ext look look' (next_in look' c) cs (λ d e. same d (ground arith))
      (subst (λ y. Chain look y cs) (sym (same c (ground arith))) h.2),
)

pub elem-Chain-le :
    (look : Lookup) (x : ℕ) (cs : List ℕ)
    → Descends look
    → Chain look x cs
    → (c : ℕ) → elem c cs ≡ true
    → c ≤ x
elem-Chain-le look x [] down h c e = ground arith
elem-Chain-le look x (d ∷ ds) down h c e =
    ground (arith, down d h.1, h.0, elem-Chain-le look (next_in look d) ds down h.2 c)

pub Chain-Distinct :
    (look : Lookup) (x : ℕ) (cs : List ℕ) → Descends look → Chain look x cs → Distinct cs
Chain-Distinct look x [] down h = tt
Chain-Distinct look x (c ∷ cs) down h = (
  ground (arith, down c h.1, elem-Chain-le look (next_in look c) cs down h.2 c),
  Chain-Distinct look (next_in look c) cs down h.2,
)

walk_children-step :
    (fuel : ℕ) (tokens : Tokens) (c : ℕ)
    → 0 < c
    → walk_children (suc fuel) tokens c
      ≡ c ∷ walk_children fuel tokens (next_in (Slab.get tokens) c)
unfolding walk_children next_sibling_of
walk_children-step fuel tokens c h =
    let live : (c == 0) ≡ false = ground (arith, h) in rw (walk_children, live) refl

-- The walk of `collect_children` gives the list.
pub walk_children-Chain :
    (fuel : ℕ) (tokens : Tokens) (x : ℕ) (cs : List ℕ)
    → Descends (Slab.get tokens)
    → Chain (Slab.get tokens) x cs
    → x < fuel
    → walk_children fuel tokens x ≡ cs
unfolding walk_children next_sibling_of
walk_children-Chain zero tokens x cs down h f = absurd (omega arith)
walk_children-Chain (suc fuel) tokens x [] down h f = rw (h, walk_children) refl
walk_children-Chain (suc fuel) tokens x (c ∷ cs) down h f =
    ap (walk_children (suc fuel) tokens) h.0
    ∙ (walk_children-step fuel tokens c h.1
        ∙ ap (λ l. c ∷ l)
            (walk_children-Chain fuel tokens (next_in (Slab.get tokens) c) cs down h.2
              (omega (arith, down c h.1, h.0))))

pub elem-extend :
    (c : ℕ) (cs stack : List ℕ) → elem c (extend cs stack) ≡ (elem c cs || elem c stack)
unfolding extend
elem-extend c [] stack = refl
elem-extend c (d ∷ cs) stack = ground (arith, elem-extend c cs (d ∷ stack))

pub extend-Distinct :
    (cs stack : List ℕ)
    → Distinct cs
    → Distinct stack
    → ((c : ℕ) → elem c cs ≡ true → elem c stack ≡ false)
    → Distinct (extend cs stack)
unfolding extend
extend-Distinct [] stack d e apart = e
extend-Distinct (c ∷ cs) stack d e apart =
    extend-Distinct cs (c ∷ stack) d.1 (apart c (ground arith), e)
      (λ x h.
        let kept : (c == x) ≡ true → elem c cs ≡ elem x cs =
          λ y. ap (λ k. elem k cs) (==→≡ c x y) in
        ground (arith, apart x, kept, d.0, h))
