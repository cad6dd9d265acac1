-- ===== src/Capability/Store/Revocation.antt =====
-- kernel/src/capability/store.rs: the loop of `revoke` ends, and removes the descendants only.
use fabric_os.Base.{
  ℕ, zero, suc, ◌+◌, ◌≤◌, ◌<◌, ◌≡◌, ◌⊎◌, inl, inr, refl, ◌∙◌, true, ◌==◌, not, ◌&&◌, none, some,
  arith, Bool-cases, Option-cases, List, [], ◌∷◌,
}
use fabric_os.Base.Words.{u64_mod, add64}
use fabric_os.Capability.Slab
use fabric_os.Capability.Slab.Deletion.{remove_lem}
use fabric_os.Capability.Slab.Laws.{or_true}
use fabric_os.Capability.Slab.Size.{remove-len}
use fabric_os.Capability.Budget
use fabric_os.Capability.Nonce
use fabric_os.Capability.Store.{CapabilityStore, StoredToken, Tokens}
use fabric_os.Capability.Store.Links.{
  extend, collect_children, first_child_of, remove_token, revoke_loop,
}
use fabric_os.Capability.Store.Children.{
  Lookup, elem, Chain, is_child, first_in, walk_children-Chain, elem-extend,
}
use fabric_os.Capability.Store.Forest.{Forest, Forest-Descends, turn-Forest}
use fabric_os.Capability.Store.Valid.{StoreValid}

-- A token, and all that were delegated from it, directly or not.
pub data Under (look : Lookup) (top : ℕ) : ℕ → Type 0 where
  itself : Under look top top
  delegated : (p c : ℕ) → is_child look p c ≡ true → Under look top p → Under look top c

abbrev pub removal : CapabilityStore → ℕ → CapabilityStore
removal s id = record s {
  tokens = (Slab.remove s.tokens id).0;
  budget_tracker = Budget.remove s.budget_tracker id;
  nonce_tracker = Nonce.remove s.nonce_tracker id;
}

remove_token-live :
    (s : CapabilityStore) (id : ℕ) (t : StoredToken)
    → (Slab.remove s.tokens id).1 ≡ some t
    → remove_token s id ≡ (removal s id, 1)
unfolding remove_token
remove_token-live s id t e = rw (remove_token, e) refl

collect_children-Chain :
    (tokens : Tokens) (id : ℕ) (cs stack : List ℕ)
    → Forest (Slab.get tokens) stack
    → Chain (Slab.get tokens) (first_in (Slab.get tokens) id) cs
    → collect_children tokens id ≡ cs
unfolding collect_children first_child_of
collect_children-Chain tokens id cs stack f h =
    walk_children-Chain (suc (first_in (Slab.get tokens) id)) tokens _ cs
      (Forest-Descends _ stack f) h (omega arith)

-- One turn keeps the invariant.
removal-StoreValid :
    (s : CapabilityStore) (id : ℕ) (stack cs : List ℕ)
    → StoreValid s (id ∷ stack)
    → Chain (Slab.get s.tokens) (first_in (Slab.get s.tokens) id) cs
    → ((c : ℕ) → elem c cs ≡ (is_child (Slab.get s.tokens) id c && not (elem c (id ∷ stack))))
    → StoreValid (removal s id) (extend cs stack)
unfolding Budget.remove Nonce.remove
removal-StoreValid s id stack cs v chain members =
    let (ok1, was1, all1, len1) = remove_lem s.tokens id v.tokens_valid in
    let (ok2, was2, all2, len2) = remove_lem s.budget_tracker.usage id v.usage_valid in
    let (ok3, was3, all3, len3) = remove_lem s.nonce_tracker.last_seen id v.seen_valid in
    record {
      tokens_valid = ok1;
      usage_valid = ok2;
      seen_valid = ok3;
      started = v.started;
      forest = turn-Forest (Slab.get s.tokens) _ id stack cs v.forest chain members all1;
      given_out = λ c t e. v.given_out c t (ground (arith, all1 c, e));
      usage_live = λ c e. ground (arith, all1 c, all2 c, v.usage_live c, e);
      seen_live = λ c e. ground (arith, all1 c, all3 c, v.seen_live c, e);
    }

-- Each token is as it was, or is gone and was under the top.
abbrev pub Spared : Lookup → ℕ → Lookup → Lookup → Type 0
Spared look0 top look look' = (c : ℕ) → (look' c ≡ look c) ⊎ ((look' c ≡ none) × Under look0 top c)

-- What the loop leaves: nothing on the stack, the invariant, the count of what is gone.
abbrev pub Finishes :
    Lookup → ℕ → CapabilityStore → List ℕ → ℕ → CapabilityStore × List ℕ × ℕ → Type 0
Finishes look0 top s stack count r =
    (r.1 ≡ [])
    × StoreValid r.0 []
    × (r.2 + r.0.tokens.len ≡ count + s.tokens.len)
    × (r.0.tokens.len ≤ s.tokens.len)
    × Spared look0 top (Slab.get s.tokens) (Slab.get r.0.tokens)
    × ((c : ℕ) → elem c stack ≡ true → Slab.get r.0.tokens c ≡ none)

module _ (look0 : Lookup) (top : ℕ) where
  Spared-trans :
      (look look1 look2 : Lookup)
      → Spared look0 top look look1
      → Spared look0 top look1 look2
      → Spared look0 top look look2
  Spared-trans look look1 look2 a b c = elim (b c) [
    | inr gone ↦ inr gone
    | inl same ↦ elim (a c) [
      | inl same2 ↦ inl (same ∙ same2)
      | inr (gone, u) ↦ inr (same ∙ gone, u)
    ]
  ]

  pub revoke_loop_lem :
      (fuel : ℕ) (s : CapabilityStore) (stack : List ℕ) (count : ℕ)
      → StoreValid s stack
      → ((p c : ℕ) → is_child (Slab.get s.tokens) p c ≡ true → is_child look0 p c ≡ true)
      → ((c : ℕ) → elem c stack ≡ true → Under look0 top c)
      → s.tokens.len < fuel
      → count + s.tokens.len < u64_mod
      → Finishes look0 top s stack count (revoke_loop fuel s stack count)
  unfolding revoke_loop
  revoke_loop_lem zero s stack count v known under f fits = absurd (omega arith)
  revoke_loop_lem (suc fuel) s [] count v known under f fits =
      (refl, v, refl, omega arith, (λ c. inl refl), λ c e. absurd (ground (arith, e)))
  revoke_loop_lem (suc fuel) s (id ∷ stack) count v known under f fits =
      let live = v.forest.live id (ground arith) in
      elim (Option-cases (Slab.get s.tokens id)) [
        | inl n ↦ absurd (ground (arith, live, n))
        | inr (t, e) ↦
            let (cs, chain, members) = v.forest.lists id live in
            let (ok1, was1, all1, len1) = remove_lem s.tokens id v.tokens_valid in
            let one_less : (Slab.remove s.tokens id).0.len + 1 ≡ s.tokens.len =
              remove-len s.tokens id t v.tokens_valid e in
            let rest =
              revoke_loop_lem fuel (removal s id) (extend cs stack) (add64 count 1)
                (removal-StoreValid s id stack cs v chain members)
                (λ p c h. known p c (ground (arith, all1 c, h)))
                (λ c h. elim (Bool-cases (elem c stack)) [
                  | inl y ↦ under c (ground (arith, y))
                  | inr y ↦
                      delegated id c
                        (known id c (ground (arith, elem-extend c cs stack, members c, h, y)))
                        (under id (ground arith))
                ])
                (omega arith) (omega arith) in
            rw
              (
                revoke_loop,
                collect_children-Chain s.tokens id cs (id ∷ stack) v.forest chain,
                remove_token-live s id t (was1 ∙ e),
              )
              (
                rest.0,
                rest.1,
                omega (arith, rest.2, one_less, fits),
                omega (arith, rest.3, one_less),
                Spared-trans _ _ _
                    (λ c. elim (Bool-cases (id == c)) [
                      | inl y ↦ inr (ground (arith, all1 c, y), under c (ground (arith, y)))
                      | inr y ↦ inl (ground (arith, all1 c, y))
                    ])
                    rest.4,
                λ c e. elim (Bool-cases (elem c stack)) [
                  | inl y ↦ rest.5 c (elem-extend c cs stack ∙ (rw y (or_true (elem c cs))))
                  | inr y ↦ elim (rest.4 c) [
                    | inl same ↦ same ∙ ground (arith, all1 c, e, y)
                    | inr h ↦ h.0
                  ]
                ],
              )
      ]
