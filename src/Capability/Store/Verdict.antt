-- ===== src/Capability/Store/Verdict.antt =====
-- kernel/src/capability/store.rs: when `validate` says yes, and what an error leaves.
use fabric_os.Base.{
  ℕ, ◌<◌, ◌≡◌, ◌↔◌, refl, sym, ap, subst, ◌∙◌, Bool, true, false, ◌==◌, ltb, ◌||◌, none, some,
  Option, arith, if◌then◌else◌, is_some, unwrap_or, List, [],
}
use fabric_os.Base.Words.{add64}
use fabric_os.Base.Results.{Result, ok, err}
use fabric_os.Crypto.{Crypto}
use fabric_os.Capability.Errors.{CapabilityError, budget_exhausted}
use fabric_os.Capability.HmacEngine.{verify}
use fabric_os.Wire.Token.{Budget, token_bytes}
use fabric_os.Wire.Perm
use fabric_os.Capability.Slab
use fabric_os.Capability.Nonce.{highest}
use fabric_os.Capability.Store.{CapabilityStore, StoredToken}
use fabric_os.Capability.Store.Checks.{refusal, validate}
use fabric_os.Capability.Store.Valid.{StoreValid}
use fabric_os.Capability.Store.Validate.{
  Answer, Outcome, missing, refused, replayed, answered, seen, charged, budget_left,
  seen-StoreValid, spent-StoreValid, validate-Outcome,
}

module _ (crypto : Crypto) (key : List ℕ) where
  -- The token has not expired; 0 is no expiration.
  abbrev pub unexpired : CapabilityStore → StoredToken → Bool
  unexpired s t = (t.token.expires == 0) || ltb s.current_tick (add64 t.created_at t.token.expires)

  -- All that a token must meet to be accepted for an operation.
  abbrev pub Accepts : CapabilityStore → ℕ → ℕ → ℕ → Type 0
  Accepts s id perm nonce =
      (t : StoredToken) × (Slab.get s.tokens id ≡ some t)
      × (verify crypto key (token_bytes t.token) t.hmac ≡ true)
      × (unexpired s t ≡ true)
      × (Perm.contains t.token.permissions perm ≡ true)
      × (highest s.nonce_tracker id < nonce)
      × (budget_left s id t.budget ≡ true)

  refusal-none :
      (s : CapabilityStore) (t : StoredToken) (perm : ℕ)
      → refusal crypto key s t perm ≡ none
      → (verify crypto key (token_bytes t.token) t.hmac ≡ true)
        × (unexpired s t ≡ true)
        × (Perm.contains t.token.permissions perm ≡ true)
  unfolding refusal
  refusal-none s t perm h = ground (arith, h)

  none-refusal :
      (s : CapabilityStore) (t : StoredToken) (perm : ℕ)
      → verify crypto key (token_bytes t.token) t.hmac ≡ true
      → unexpired s t ≡ true
      → Perm.contains t.token.permissions perm ≡ true
      → refusal crypto key s t perm ≡ none
  unfolding refusal
  none-refusal s t perm a b c = ground (arith, a, b, c)

  answer_ok :
      (d : Bool)
      → ◌≡◌ {A = Result (Unit {0}) CapabilityError}
          (if d then ok tt else err budget_exhausted)
          (ok tt)
      → d ≡ true
  answer_ok true e = refl
  answer_ok false e = absurd (ground (arith, e))

  accepted :
      (s : CapabilityStore) (id perm nonce : ℕ) (r : Answer)
      → Outcome crypto key s id perm nonce r
      → r.1 ≡ ok tt
      → Accepts s id perm nonce
  accepted s id perm nonce r (missing n e) h = absurd (ground (arith, ap (λ x. x.1) e, h))
  accepted s id perm nonce r (refused t x g z e) h = absurd (ground (arith, ap (λ x. x.1) e, h))
  accepted s id perm nonce r (replayed t g z l e) h = absurd (ground (arith, ap (λ x. x.1) e, h))
  accepted s id perm nonce r (answered t g z l e) h =
      let (mac, fresh, may) = refusal-none s t perm z in
      (t, g, mac, fresh, may, l, answer_ok (budget_left s id t.budget) (sym (ap (λ x. x.1) e) ∙ h))

  accepts :
      (s : CapabilityStore) (id perm nonce : ℕ) (r : Answer)
      → Outcome crypto key s id perm nonce r
      → Accepts s id perm nonce
      → r.1 ≡ ok tt
  accepts s id perm nonce r (missing n e) a = absurd (ground (arith, n, a.1))
  accepts s id perm nonce r (refused t x g z e) (u, g2, mac, fresh, may, l, left) =
      let same : ◌≡◌ {A = Option StoredToken} (some u) (some t) = sym g2 ∙ g in
      let one : u ≡ t = ap (λ o. unwrap_or o u) same in
      absurd (
        ground (
          arith,
          ap (λ y. refusal crypto key s y perm) one,
          z,
          none-refusal s u perm mac fresh may,
        ))
  accepts s id perm nonce r (replayed t g z l e) (u, g2, mac, fresh, may, m, left) =
      absurd (omega (arith, l, m))
  accepts s id perm nonce r (answered t g z l e) (u, g2, mac, fresh, may, m, left) =
      let same : ◌≡◌ {A = Option StoredToken} (some u) (some t) = sym g2 ∙ g in
      let one : u ≡ t = ap (λ o. unwrap_or o u) same in
      let yes_left : budget_left s id t.budget ≡ true =
        sym (ap (λ y. budget_left s id y.budget) one) ∙ left in
      ap (λ x. x.1) e ∙ (rw yes_left refl)

  -- In a valid store, `validate` accepts exactly when the token is live, its tag verifies, it has
  -- not expired, it has the permission, the nonce is above all accepted for it, and its budget, if
  -- any, has a use left.
  pub validate-ok_iff :
      (s : CapabilityStore) (id perm nonce : ℕ)
      → StoreValid s []
      → ((validate crypto key s id perm nonce).1 ≡ ok tt) ↔ Accepts s id perm nonce
  validate-ok_iff s id perm nonce v =
      let o = validate-Outcome crypto key s id perm nonce v in
      (accepted s id perm nonce _ o, accepts s id perm nonce _ o)

  charged-StoreValid :
      (s : CapabilityStore) (id : ℕ) (o : Option Budget)
      → StoreValid s []
      → is_some (Slab.get s.tokens id) ≡ true
      → StoreValid (charged s id o) []
  charged-StoreValid s id none v live = v
  charged-StoreValid s id (some b) v live = (spent-StoreValid s id b v live).0

  Outcome-StoreValid :
      (s : CapabilityStore) (id perm nonce : ℕ) (r : Answer)
      → StoreValid s []
      → Outcome crypto key s id perm nonce r
      → StoreValid r.0 []
  Outcome-StoreValid s id perm nonce r v (missing n e) = subst (λ x. StoreValid x.0 []) (sym e) v
  Outcome-StoreValid s id perm nonce r v (refused t x g z e) =
      subst (λ y. StoreValid y.0 []) (sym e) v
  Outcome-StoreValid s id perm nonce r v (replayed t g z l e) =
      subst (λ y. StoreValid y.0 []) (sym e) (seen-StoreValid s id nonce v (ap is_some g)).0
  Outcome-StoreValid s id perm nonce r v (answered t g z l e) =
      subst (λ y. StoreValid y.0 []) (sym e)
        (charged-StoreValid (seen s id nonce) id t.budget
          (seen-StoreValid s id nonce v (ap is_some g)).0 (ap is_some g))

  pub validate-StoreValid :
      (s : CapabilityStore) (id perm nonce : ℕ)
      → StoreValid s []
      → StoreValid (validate crypto key s id perm nonce).0 []
  validate-StoreValid s id perm nonce v =
      Outcome-StoreValid s id perm nonce _ v (validate-Outcome crypto key s id perm nonce v)

  pub charged-rest :
      (s : CapabilityStore) (id : ℕ) (o : Option Budget)
      → ((charged s id o).tokens ≡ s.tokens)
        × ((charged s id o).nonce_tracker ≡ s.nonce_tracker)
        × ((charged s id o).next_id ≡ s.next_id)
  charged-rest s id none = (refl, refl, refl)
  charged-rest s id (some b) = (refl, refl, refl)

  -- The tokens stay.
  pub Outcome-tokens :
      (s : CapabilityStore) (id perm nonce : ℕ) (r : Answer)
      → Outcome crypto key s id perm nonce r
      → (r.0.tokens ≡ s.tokens) × (r.0.next_id ≡ s.next_id)
  Outcome-tokens s id perm nonce r (missing n e) = (ap (λ x. x.0.tokens) e, ap (λ x. x.0.next_id) e)
  Outcome-tokens s id perm nonce r (refused t x g z e) =
      (ap (λ y. y.0.tokens) e, ap (λ y. y.0.next_id) e)
  Outcome-tokens s id perm nonce r (replayed t g z l e) =
      (ap (λ y. y.0.tokens) e, ap (λ y. y.0.next_id) e)
  Outcome-tokens s id perm nonce r (answered t g z l e) =
      let rest = charged-rest (seen s id nonce) id t.budget in
      (ap (λ y. y.0.tokens) e ∙ rest.0, ap (λ y. y.0.next_id) e ∙ rest.2)
