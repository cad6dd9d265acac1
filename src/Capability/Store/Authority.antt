-- ===== src/Capability/Store/Authority.antt =====
-- kernel/src/capability/store.rs: a delegated token has no more rights than any token it comes from.
use fabric_os.Base.{
  ℕ, ◌<◌, ◌≡◌, ◌≢◌, inl, inr, refl, sym, ap, subst, ◌∙◌, true, false, ◌==◌, none, some, Option,
  arith, Bool-cases, Option-cases, is_some, unwrap_or, [],
}
use fabric_os.Base.Words.{u16_mod}
use fabric_os.Base.Bits.{subset_trans_sixteen, subset_refl_sixteen}
use fabric_os.Base.Members.{==→≡}
use fabric_os.Wire.Perm
use fabric_os.Capability.Store.{StoredToken}
use fabric_os.Capability.Store.Children.{Lookup}
use fabric_os.Capability.Store.Forest.{Forest}
use fabric_os.Capability.Store.Revocation.{Under, itself, delegated}
use fabric_os.Capability.Store.Revoke.{Under-pos}

pub is_subset_of_trans :
    (a b c : ℕ)
    → a < u16_mod
    → b < u16_mod
    → c < u16_mod
    → Perm.is_subset_of a b ≡ true
    → Perm.is_subset_of b c ≡ true
    → Perm.is_subset_of a c ≡ true
unfolding Perm.is_subset_of
is_subset_of_trans a b c p q r e f =
    ground (arith, subset_trans_sixteen a b c p q r (==→≡ _ 0 e) (==→≡ _ 0 f))

is_subset_of_self : (a : ℕ) → a < u16_mod → Perm.is_subset_of a a ≡ true
unfolding Perm.is_subset_of
is_subset_of_self a p = ground (arith, subset_refl_sixteen a p)

-- The rights of a token are those of its parent, or some of them, for the same resource.
abbrev pub Within : StoredToken → StoredToken → Type 0
Within c p =
    (Perm.is_subset_of c.token.permissions p.token.permissions ≡ true)
    × (c.token.resource ≡ p.token.resource)

pub record Attenuated (look : Lookup) : Type 0 where
  pub fits : (c : ℕ) (t : StoredToken) → look c ≡ some t → t.token.permissions < u16_mod
  pub within :
      (c : ℕ) (t p : StoredToken)
      → look c ≡ some t
      → look t.token.delegated_from ≡ some p
      → Within t p

-- Where every token but `id` was there before, with the same token, and `id` is new.
module _ (look look' : Lookup) (id : ℕ) (forest : Forest look []) (old : Attenuated look)
    (absent : look id ≡ none)
    (others : (c : ℕ) (t : StoredToken)
      → c ≢ id
      → look' c ≡ some t
      → (o : StoredToken) × (look c ≡ some o) × (o.token ≡ t.token))
    (new_fits : (t : StoredToken) → look' id ≡ some t → t.token.permissions < u16_mod)
    (new_parent : (t : StoredToken) → look' id ≡ some t → t.token.delegated_from ≢ id)
    (new_within : (t p : StoredToken)
      → look' id ≡ some t
      → look t.token.delegated_from ≡ some p
      → Within t p) where
  still-Within :
      (c : ℕ) (t p : StoredToken)
      → look' c ≡ some t
      → look' t.token.delegated_from ≡ some p
      → c ≢ id
      → t.token.delegated_from ≢ id
      → Within t p
  still-Within c t p e f n m =
      let (o, y, same) = others c t n e in
      let (q, z, same2) = others t.token.delegated_from p m f in
      let from : o.token.delegated_from ≡ t.token.delegated_from =
        ap (λ k. k.delegated_from) same in
      let w = old.within c o q y (ap look from ∙ z) in
      (
        subst (λ k. Perm.is_subset_of k p.token.permissions ≡ true) (ap (λ k. k.permissions) same)
            (subst (λ k. Perm.is_subset_of o.token.permissions k ≡ true)
              (ap (λ k. k.permissions) same2) w.0),
        sym (ap (λ k. k.resource) same) ∙ (w.1 ∙ ap (λ k. k.resource) same2),
      )

  -- No token that was there has the new one as its parent.
  orphaned :
      (c : ℕ) (t : StoredToken) → c ≢ id → look' c ≡ some t → t.token.delegated_from ≡ id → id ≡ 0
  orphaned c t n e from =
      let (o, y, same) = others c t n e in
      let parent : o.token.delegated_from ≡ id = ap (λ k. k.delegated_from) same ∙ from in
      let gone : is_some (look o.token.delegated_from) ≡ false =
        ap (λ k. is_some (look k)) parent ∙ ap is_some absent in
      ground (arith, forest.parents c o y, gone, parent)

  pub grown-Attenuated : (look' 0 ≡ none) → Attenuated look'
  grown-Attenuated zero_none = record {
    fits = λ c t e. elim (Bool-cases (c == id)) [
      | inl y ↦ new_fits t (ap look' (sym (==→≡ c id y)) ∙ e)
      | inr y ↦
          let (o, z, same) = others c t (ground (arith, y)) e in
          subst (λ k. k < u16_mod) (ap (λ k. k.permissions) same) (old.fits c o z)
    ];
    within = λ c t p e f. elim (Bool-cases (c == id)) [
      | inl y ↦
          let here : look' id ≡ some t = ap look' (sym (==→≡ c id y)) ∙ e in
          let (q, z, same2) = others t.token.delegated_from p (new_parent t here) f in
          let w = new_within t q here z in
          (
            subst (λ k. Perm.is_subset_of t.token.permissions k ≡ true)
                (ap (λ k. k.permissions) same2) w.0,
            w.1 ∙ ap (λ k. k.resource) same2,
          )
      | inr y ↦ elim (Bool-cases (t.token.delegated_from == id)) [
        | inr z ↦ still-Within c t p e f (ground (arith, y)) (ground (arith, z))
        | inl z ↦
            let at = ==→≡ _ id z in
            let none_id : look' t.token.delegated_from ≡ none =
              ap look' (at ∙ orphaned c t (ground (arith, y)) e at) ∙ zero_none in
            absurd (ground (arith, none_id, f))
      ]
    ];
  }

-- A token is within every live token that it comes from.
pub Under-Within :
    (look : Lookup) (top : ℕ) (t : StoredToken)
    → Forest look []
    → Attenuated look
    → look top ≡ some t
    → (c : ℕ) (d : StoredToken) → Under look top c
    → look c ≡ some d
    → Within d t
Under-Within look top t f a here _ d itself e =
    let same : ◌≡◌ {A = Option StoredToken} (some t) (some d) = sym here ∙ e in
    subst (λ k. Within k t) (ap (λ o. unwrap_or o t) same)
      (is_subset_of_self t.token.permissions (a.fits top t here), refl)
Under-Within look top t f a here _ d (delegated p c child under) e =
    let pos = Under-pos look top f (ap is_some here) p under in
    let from : d.token.delegated_from ≡ p = ground (arith, child, e) in
    elim (Option-cases (look d.token.delegated_from)) [
      | inl n ↦ absurd (ground (arith, f.parents c d e, n, from, pos))
      | inr (q, y) ↦
          let up = Under-Within look top t f a here p q under (ap look (sym from) ∙ y) in
          let w = a.within c d q e y in
          (
            is_subset_of_trans _ _ _ (a.fits c d e) (a.fits _ q y) (a.fits top t here) w.0 up.0,
            w.1 ∙ up.1,
          )
    ]
