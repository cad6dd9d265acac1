-- ===== src/Capability/Store/Delegate.antt =====
-- kernel/src/capability/store.rs: what `delegate` leaves.
use fabric_os.Base.{
  ℕ, ◌+◌, ◌<◌, ◌≡◌, ◌≢◌, ◌⊎◌, inl, inr, refl, sym, ap, ◌∙◌, true, false, ◌==◌, leb, ◌||◌, some,
  Option, arith, Bool-cases, Option-cases, if◌then◌else◌, is_some, unwrap_or, List, [],
}
use fabric_os.Base.Words.{u64_mod}
use fabric_os.Base.Results.{ok, err}
use fabric_os.Crypto.{Crypto}
use fabric_os.Capability.Errors.{CapabilityError}
use fabric_os.Wire.Token.{Budget}
use fabric_os.Wire.Perm
use fabric_os.Capability.Slab
use fabric_os.Capability.Slab.Size.{insert_room}
use fabric_os.Capability.Slab.Deletion.{modify_lem}
use fabric_os.Capability.Store.{
  CapabilityStore, StoredToken, max_tokens, alloc_id, make_token, child_expires, add_child,
  delegate_from, delegate,
}
use fabric_os.Capability.Store.Children.{Lookup, ==→≡}
use fabric_os.Capability.Store.Forest.{Forest}
use fabric_os.Capability.Store.Valid.{StoreValid}
use fabric_os.Capability.Store.Unlink.{core}
use fabric_os.Capability.Store.Detach.{written_self, written_other, written_view}
use fabric_os.Capability.Store.Severing.{set_first, set_first_view}
use fabric_os.Capability.Store.Growth.{grown-Forest}
use mathlib.Core.Option.{map}
use fabric_os.Capability.Store.Issue.{entry, issued-StoreValid}

-- A delegated token joins the list of its parent `p`.
module _ (s : CapabilityStore) (look1 look' : Lookup) (p : ℕ) (parent t : StoredToken)
    (v : StoreValid s []) (here : Slab.get s.tokens p ≡ some parent)
    (from : t.token.delegated_from ≡ p) (childless : t.first_child ≡ 0)
    (next : t.next_sibling ≡ parent.first_child)
    (inserted : (j : ℕ) → look1 j ≡ (if s.next_id == j then some t else Slab.get s.tokens j))
    (pointed : (j : ℕ)
      → look' j ≡ (if p == j then map (set_first s.next_id) (look1 p) else look1 j)) where
  p_lt : p < s.next_id
  p_lt = v.given_out p parent here

  other : (j : ℕ) → j ≢ s.next_id → look1 j ≡ Slab.get s.tokens j
  other j n = ground (arith, inserted j)

  parent_there : look1 p ≡ some parent
  parent_there = other p (λ y. omega (arith, y, p_lt)) ∙ here

  pub child_there : look' s.next_id ≡ some t
  child_there =
      written_other look1 look' p (set_first s.next_id) pointed s.next_id
        (λ y. omega (arith, y, p_lt))
      ∙ ground (arith, inserted s.next_id)

  pub child-grown : Forest look' []
  child-grown =
      grown-Forest (Slab.get s.tokens) look' p s.next_id t v.forest v.given_out v.started
        child_there
        (λ j n.
          written_view look1 look' p (set_first s.next_id) pointed core (λ a. refl) j
          ∙ ap (map core) (other j n))
        (λ j n.
          ap (λ o. unwrap_or o 0)
            (written_view look1 look' p (set_first s.next_id) pointed (λ a. a.next_sibling)
              (λ a. refl) j)
          ∙ ap (λ o. unwrap_or (map (λ a. a.next_sibling) o) 0) (other j n))
        (λ q n m.
          ap (λ o. unwrap_or (map (λ a. a.first_child) o) 0)
            (written_other look1 look' p (set_first s.next_id) pointed q (λ y. m (sym y))
              ∙ other q n))
        (λ e.
          ap (λ o. unwrap_or (map (λ a. a.first_child) o) 0)
            (written_self look1 look' p (set_first s.next_id) pointed)
          ∙ set_first_view s.next_id (look1 p) (ap is_some parent_there))
        from childless (next ∙ sym (ap (λ o. unwrap_or (map (λ a. a.first_child) o) 0) here))
        (ground (arith, here))

  pub child-lives :
      (c : ℕ) → is_some (look' c) ≡ ((s.next_id == c) || is_some (Slab.get s.tokens c))
  child-lives c =
      let at : (p == c) ≡ true → is_some (Slab.get s.tokens p) ≡ is_some (Slab.get s.tokens c) =
        λ y. ap (λ k. is_some (Slab.get s.tokens k)) (==→≡ p c y) in
      ground (arith, pointed c, inserted c, parent_there, here, at)

  pub child-rest : (c : ℕ) → c ≢ s.next_id → map core (look' c) ≡ map core (Slab.get s.tokens c)
  child-rest c n =
      written_view look1 look' p (set_first s.next_id) pointed core (λ a. refl) c
      ∙ ap (map core) (other c n)

module _ (crypto : Crypto) (key : List ℕ) where
  abbrev pub child_entry :
      CapabilityStore → ℕ → StoredToken → ℕ → ℕ → Option ℕ → Option Budget → StoredToken
  child_entry s p parent owner permissions expires budget =
      entry crypto key s
        (make_token permissions owner s.next_id parent.token.resource p
          (child_expires expires parent.token.expires))
        budget parent.first_child

  -- In a valid store with room and ids left, `delegate` from a live token that may grant, of a
  -- subset of its permissions, gives the next id to a signed token of the new owner for the
  -- parent's resource, with these permissions, changes no other token but for its links, and
  -- leaves the store valid.
  pub delegate_lem :
      (s : CapabilityStore) (p : ℕ) (parent : StoredToken) (owner permissions : ℕ)
      (expires : Option ℕ) (budget : Option Budget)
      → StoreValid s []
      → s.tokens.len < max_tokens
      → s.next_id + 1 < u64_mod
      → Slab.get s.tokens p ≡ some parent
      → Perm.contains parent.token.permissions Perm.grant ≡ true
      → Perm.is_subset_of permissions parent.token.permissions ≡ true
      → let r = delegate crypto key s p owner permissions expires budget in
        (r.1 ≡ ok s.next_id)
        × StoreValid r.0 []
        × (Slab.get r.0.tokens s.next_id
            ≡ some (child_entry s p parent owner permissions expires budget))
        × ((j : ℕ)
            → j ≢ s.next_id
            → map core (Slab.get r.0.tokens j) ≡ map core (Slab.get s.tokens j))
        × (r.0.next_id ≡ s.next_id + 1)
        × (let t = (child_entry s p parent owner permissions expires budget).token in
            (t.id ≡ s.next_id)
            × (t.owner ≡ owner)
            × (t.resource ≡ parent.token.resource)
            × (t.permissions ≡ permissions)
            × (t.delegated_from ≡ p)
            × (t.expires ≡ child_expires expires parent.token.expires))
  unfolding delegate delegate_from add_child alloc_id make_token
  delegate_lem s p parent owner permissions expires budget v room more here may subset =
      let fits : leb max_tokens s.tokens.len ≡ false = ground (arith, room) in
      let t = child_entry s p parent owner permissions expires budget in
      let (valid, all) = insert_room s.tokens s.next_id t v.tokens_valid room in
      let (valid2, all2, len2) =
        modify_lem (Slab.insert s.tokens s.next_id t).0 p (set_first s.next_id) valid in
      let look1 = Slab.get (Slab.insert s.tokens s.next_id t).0 in
      let look' =
        Slab.get (Slab.modify (Slab.insert s.tokens s.next_id t).0 p (set_first s.next_id)) in
      rw (delegate, fits, here, delegate_from, may, subset)
        (
          refl,
          issued-StoreValid s _ v more valid2
              (child-grown s look1 look' p parent t v here refl refl refl all all2)
              (child-lives s look1 look' p parent t v here refl refl refl all all2),
          child_there s look1 look' p parent t v here refl refl refl all all2,
          child-rest s look1 look' p parent t v here refl refl refl all all2,
          omega (arith, more),
          (refl, refl, refl, refl, refl, refl),
        )

  -- Either all checks pass, or the store stays.
  abbrev pub Delegable : CapabilityStore → ℕ → ℕ → Type 0
  Delegable s p permissions =
      (parent : StoredToken) × (s.tokens.len < max_tokens)
      × (Slab.get s.tokens p ≡ some parent)
      × (Perm.contains parent.token.permissions Perm.grant ≡ true)
      × (Perm.is_subset_of permissions parent.token.permissions ≡ true)

  pub delegate_cases :
      (s : CapabilityStore) (p owner permissions : ℕ) (expires : Option ℕ) (budget : Option Budget)
      → (((delegate crypto key s p owner permissions expires budget).0 ≡ s)
          × ((e : CapabilityError) × ((delegate crypto key s p owner permissions expires budget).1
                ≡ err e)))
        ⊎ Delegable s p permissions
  unfolding delegate delegate_from
  delegate_cases s p owner permissions expires budget =
      elim (Bool-cases (leb max_tokens s.tokens.len)) [
        | inl full ↦ inl (rw (delegate, full) (refl, (_, refl)))
        | inr fits ↦ elim (Option-cases (Slab.get s.tokens p)) [
          | inl n ↦ inl (rw (delegate, fits, n) (refl, (_, refl)))
          | inr (parent, here) ↦
              elim (Bool-cases (Perm.contains parent.token.permissions Perm.grant)) [
                | inr not_granted ↦
                    inl (rw (delegate, fits, here, delegate_from, not_granted) (refl, (_, refl)))
                | inl may ↦
                    elim (Bool-cases (Perm.is_subset_of permissions parent.token.permissions)) [
                      | inr more ↦
                          inl
                            (rw (delegate, fits, here, delegate_from, may, more) (refl, (_, refl)))
                      | inl subset ↦ inr (parent, ground (arith, fits), here, may, subset)
                    ]
              ]
        ]
      ]
