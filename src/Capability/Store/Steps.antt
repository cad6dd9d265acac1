-- ===== src/Capability/Store/Steps.antt =====
-- kernel/src/capability/store.rs: what each operation keeps.
use fabric_os.Base.{
  ℕ, ◌+◌, ◌<◌, ◌≡◌, ◌≢◌, inl, inr, refl, sym, ap, subst, ◌∙◌, leb, none, some, Option, arith,
  Bool-cases, Option-cases, unwrap_or, List, [],
}
use fabric_os.Base.Words.{u16_mod, u64_mod}
use fabric_os.Crypto.{Crypto}
use fabric_os.Wire.Token.{Budget}
use fabric_os.Capability.Slab
use fabric_os.Capability.Slab.Ready.{IsValid}
use fabric_os.Capability.Store.{
  CapabilityStore, StoredToken, max_tokens, create, delegate, make_token,
}
use fabric_os.Capability.Store.Checks.{validate}
use fabric_os.Capability.Store.Links.{revoke}
use fabric_os.Capability.Store.Children.{Lookup}
use fabric_os.Capability.Store.Forest.{Forest}
use fabric_os.Capability.Store.Valid.{StoreValid}
use fabric_os.Capability.Store.Unlink.{core}
use fabric_os.Capability.Store.Issue.{root_entry, create_lem, create_full, none_at_zero}
use fabric_os.Capability.Store.Delegate.{child_entry, delegate_lem, delegate_cases}
use fabric_os.Capability.Store.Revoke.{revoke_lem, revoke_missing, revoke-next_id}
use fabric_os.Capability.Store.Verdict.{validate-StoreValid, Outcome-tokens}
use fabric_os.Capability.Store.Validate.{validate-Outcome}
use fabric_os.Capability.Store.Authority.{Attenuated, Within, grown-Attenuated}
use mathlib.Core.Option.{map}
use fabric_os.Capability.Store.Operations.{Sound, Keeps}

-- A token that has kept all but its links.
core-some :
    (look look' : Lookup) (c : ℕ) (t : StoredToken)
    → map core (look' c) ≡ map core (look c)
    → look' c ≡ some t
    → (o : StoredToken) × (look c ≡ some o) × (o.token ≡ t.token)
core-some look look' c t same e = elim (Option-cases (look c)) [
  | inl n ↦ absurd (ground (arith, same, n, e))
  | inr (o, y) ↦
      let cores : ◌≡◌ {A = Option StoredToken} (some (core o)) (some (core t)) =
        ap (map core) (sym y) ∙ (sym same ∙ ap (map core) e) in
      (o, y, ap (λ x. unwrap_or (map (λ a. a.token) x) o.token) cores)
]

not_live : (s : CapabilityStore) → StoreValid s [] → Slab.get s.tokens s.next_id ≡ none
not_live s v = elim (Option-cases (Slab.get s.tokens s.next_id)) [
  | inl n ↦ n
  | inr (t, e) ↦ absurd (ground (arith, v.given_out s.next_id t e))
]

zero_none : (look : Lookup) → Forest look [] → look 0 ≡ none
zero_none look f = elim (Option-cases (look 0)) [
  | inl e ↦ e
  | inr (t, e) ↦ absurd (omega (arith, (f.older 0 t e).0))
]

-- A new token within its parent keeps the tokens attenuated.
issued-Attenuated :
    (s : CapabilityStore) (look' : Lookup) (n : StoredToken)
    → StoreValid s []
    → Attenuated (Slab.get s.tokens)
    → Forest look' []
    → look' s.next_id ≡ some n
    → ((c : ℕ) → c ≢ s.next_id → map core (look' c) ≡ map core (Slab.get s.tokens c))
    → n.token.permissions < u16_mod
    → n.token.delegated_from ≢ s.next_id
    → ((q : StoredToken) → Slab.get s.tokens n.token.delegated_from ≡ some q → Within n q)
    → Attenuated look'
issued-Attenuated s look' n v a forest here rest fits other within =
    let is_new : (t : StoredToken) → look' s.next_id ≡ some t → n ≡ t =
      λ t e. ap (λ o. unwrap_or o n) (sym here ∙ e) in
    grown-Attenuated (Slab.get s.tokens) look' s.next_id v.forest a (not_live s v)
      (λ c t m e. core-some (Slab.get s.tokens) look' c t (rest c m) e)
      (λ t e. subst (λ k. k.token.permissions < u16_mod) (is_new t e) fits)
      (λ t e. subst (λ k. k.token.delegated_from ≢ s.next_id) (is_new t e) other)
      (λ t q e.
        subst (λ k. Slab.get s.tokens k.token.delegated_from ≡ some q → Within k q) (is_new t e)
          (within q))
      (zero_none look' forest)

module _ (crypto : Crypto) (key : List ℕ) where
  pub create-Keeps :
      (s : CapabilityStore) (resource permissions owner : ℕ) (expires : Option ℕ)
      (budget : Option Budget)
      → Sound s
      → s.next_id + 1 < u64_mod
      → permissions < u16_mod
      → Keeps s (create crypto key s resource permissions owner expires budget).0
  unfolding make_token
  create-Keeps s resource permissions owner expires budget (v, a) more fits =
      elim (Bool-cases (leb max_tokens s.tokens.len)) [
        | inl full ↦
            subst (λ r. Keeps s r.0)
              (sym (create_full crypto key s resource permissions owner expires budget full))
              ((v, a), omega arith)
        | inr room ↦
            let (answer, valid, all, next) =
              create_lem crypto key s resource permissions owner expires budget v
                (ground (arith, room)) more in
            (
              (
                valid,
                issued-Attenuated s _
                    (root_entry crypto key s resource permissions owner expires budget) v a
                    valid.forest (ground (arith, all s.next_id))
                    (λ c n. ap (map core) (ground (arith, all c, n))) fits
                    (λ y. omega (arith, y, v.started))
                    (λ q e. absurd (ground (arith, none_at_zero s v, e))),
              ),
              omega (arith, next),
            )
      ]

  pub delegate-Keeps :
      (s : CapabilityStore) (p owner permissions : ℕ) (expires : Option ℕ) (budget : Option Budget)
      → Sound s
      → s.next_id + 1 < u64_mod
      → permissions < u16_mod
      → Keeps s (delegate crypto key s p owner permissions expires budget).0
  unfolding make_token
  delegate-Keeps s p owner permissions expires budget (v, a) more fits =
      elim (delegate_cases crypto key s p owner permissions expires budget) [
        | inl h ↦ subst (Keeps s) (sym h.0) ((v, a), omega arith)
        | inr (parent, room, here, may, subset) ↦
            let (answer, valid, new, rest, next, fields) =
              delegate_lem crypto key s p parent owner permissions expires budget v room more here
                may subset in
            (
              (
                valid,
                issued-Attenuated s _
                    (child_entry crypto key s p parent owner permissions expires budget) v a
                    valid.forest new rest fits (λ y. ground (arith, v.given_out p parent here, y))
                    (λ q e.
                      subst
                        (Within
                          (child_entry crypto key s p parent owner permissions expires budget))
                        (ap (λ o. unwrap_or o q) (sym here ∙ e)) (subset, refl)),
              ),
              omega (arith, next),
            )
      ]

  pub validate-Keeps :
      (s : CapabilityStore) (id perm nonce : ℕ)
      → Sound s
      → Keeps s (validate crypto key s id perm nonce).0
  validate-Keeps s id perm nonce (v, a) =
      let same =
        Outcome-tokens crypto key s id perm nonce _
          (validate-Outcome crypto key s id perm nonce v) in
      (
        (
          validate-StoreValid crypto key s id perm nonce v,
          subst (λ t. Attenuated (Slab.get t)) (sym same.0) a,
        ),
        omega (arith, same.1),
      )

  revoke-Attenuated :
      (s s' : CapabilityStore)
      → Attenuated (Slab.get s.tokens)
      → StoreValid s []
      → StoreValid s' []
      → ((c : ℕ) (t : StoredToken)
          → Slab.get s'.tokens c ≡ some t
          → (o : StoredToken) × (Slab.get s.tokens c ≡ some o) × (o.token ≡ t.token))
      → Attenuated (Slab.get s'.tokens)
  revoke-Attenuated s s' a v v' old =
      let zero : Slab.get s'.tokens 0 ≡ none = zero_none (Slab.get s'.tokens) v'.forest in
      grown-Attenuated (Slab.get s.tokens) (Slab.get s'.tokens) 0 v.forest a (none_at_zero s v)
        (λ c t n e. old c t e) (λ t e. absurd (ground (arith, zero, e)))
        (λ t e. absurd (ground (arith, zero, e))) (λ t q e. absurd (ground (arith, zero, e))) zero

  pub revoke-Keeps : (s : CapabilityStore) (id : ℕ) → Sound s → Keeps s (revoke s id).0
  revoke-Keeps s id (v, a) = elim (Option-cases (Slab.get s.tokens id)) [
    | inl n ↦ subst (λ r. Keeps s r.0) (sym (revoke_missing s id n)) ((v, a), omega arith)
    | inr (t, here) ↦
        let (valid, count, removes) = revoke_lem s id t v here in
        (
          (
            valid,
            revoke-Attenuated s (revoke s id).0 a v valid (λ c u e. elim (removes.0 c) [
              | inl same ↦
                  core-some (Slab.get s.tokens) (Slab.get (revoke s id).0.tokens) c u same e
              | inr h ↦ absurd (ground (arith, h.0, e))
            ]),
          ),
          omega (arith, revoke-next_id s id),
        )
  ]

  pub empty-Sound :
      (s : CapabilityStore)
      → IsValid s.tokens
      → IsValid s.budget_tracker.usage
      → IsValid s.nonce_tracker.last_seen
      → ((c : ℕ) → Slab.get s.tokens c ≡ none)
      → ((c : ℕ) → Slab.get s.budget_tracker.usage c ≡ none)
      → ((c : ℕ) → Slab.get s.nonce_tracker.last_seen c ≡ none)
      → s.next_id ≡ 1
      → Sound s
  empty-Sound s a b c ta tb tc n = (
    record {
      tokens_valid = a;
      usage_valid = b;
      seen_valid = c;
      started = omega (arith, n);
      forest = record {
        lists = λ p e. absurd (ground (arith, ta p, e));
        parents = λ p t e. absurd (ground (arith, ta p, e));
        older = λ p t e. absurd (ground (arith, ta p, e));
        live = λ p e. absurd (ground (arith, e));
        apart = tt;
      };
      given_out = λ p t e. absurd (ground (arith, ta p, e));
      usage_live = λ p e. absurd (ground (arith, tb p, e));
      seen_live = λ p e. absurd (ground (arith, tc p, e));
    },
    record {
      fits = λ p t e. absurd (ground (arith, ta p, e));
      within = λ p t q e f. absurd (ground (arith, ta p, e));
    },
  )
