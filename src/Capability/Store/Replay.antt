-- ===== src/Capability/Store/Replay.antt =====
-- kernel/src/capability/store.rs: `validate` and the nonces.
use fabric_os.Base.{
  ℕ, ◌≤◌, ◌<◌, ◌≡◌, ◌≢◌, sym, ap, ◌∙◌, Bool, true, false, ◌==◌, ==_refl, ltb, lt→ltb, ◌&&◌, some,
  arith, if◌then◌else◌, is_some, List, [],
}
use fabric_os.Base.Results.{Result, ok, err, panic}
use fabric_os.Crypto.{Crypto}
use fabric_os.Capability.Errors.{CapabilityError, not_found, nonce_replay, budget_exhausted}
use fabric_os.Capability.Slab
use fabric_os.Capability.Nonce.{highest, check_and_advance_lem}
use fabric_os.Capability.Slab.Keys.{subset-room}
use fabric_os.Capability.Store.{CapabilityStore, StoredToken}
use fabric_os.Capability.Store.Checks.{refusal, validate}
use fabric_os.Capability.Store.Valid.{StoreValid}
use fabric_os.Capability.Store.Validate.{
  Answer, Outcome, missing, refused, replayed, answered, seen, charged, budget_left,
  validate-Outcome,
}
use fabric_os.Capability.Store.Verdict.{
  charged-rest, Outcome-tokens, validate-ok_iff, validate-StoreValid,
}

-- The nonces after a check of one.
seen-highest :
    (s : CapabilityStore) (id nonce j : ℕ)
    → StoreValid s []
    → is_some (Slab.get s.tokens id) ≡ true
    → highest (seen s id nonce).nonce_tracker j ≡ (
        if (id == j) && ltb (highest s.nonce_tracker id) nonce
        then nonce
        else highest s.nonce_tracker j)
seen-highest s id nonce j v live =
    (check_and_advance_lem s.nonce_tracker id nonce v.seen_valid (
        subset-room s.nonce_tracker.last_seen s.tokens id v.seen_valid v.tokens_valid v.seen_live
          live)).2
      j

-- Whether an error comes after the nonce was taken.
abbrev pub is_exhausted : CapabilityError → Bool
is_exhausted budget_exhausted = true
is_exhausted e = false

module _ (crypto : Crypto) (key : List ℕ) where
  answered-highest :
      (s : CapabilityStore) (id nonce j : ℕ) (t : StoredToken)
      → StoreValid s []
      → Slab.get s.tokens id ≡ some t
      → highest s.nonce_tracker id < nonce
      → highest (charged (seen s id nonce) id t.budget).nonce_tracker j
        ≡ (if id == j then nonce else highest s.nonce_tracker j)
  answered-highest s id nonce j t v g l =
      ap (λ n. highest n j) (charged-rest crypto key (seen s id nonce) id t.budget).1
      ∙ (seen-highest s id nonce j v (ap is_some g)
          ∙ (rw (lt→ltb _ _ l)
              (ap (λ b. if b then nonce else highest s.nonce_tracker j) (ground arith))))

  refusal-early :
      (s : CapabilityStore) (t : StoredToken) (perm : ℕ) (e : CapabilityError)
      → refusal crypto key s t perm ≡ some e
      → is_exhausted e ≡ false
  unfolding refusal
  refusal-early s t perm e h = ground (arith, h)

  err_injective :
      (d e : CapabilityError) → ◌≡◌ {A = Result (Unit {0}) CapabilityError} (err d) (err e) → d ≡ e
  err_injective d e h = ground (arith, h)

  exhausted :
      (d : Bool) (e : CapabilityError)
      → ◌≡◌ {A = Result (Unit {0}) CapabilityError}
          (if d then ok tt else err budget_exhausted)
          (err e)
      → is_exhausted e ≡ true
  exhausted true e h = absurd (ground (arith, h))
  exhausted false e h = ap is_exhausted (sym (err_injective budget_exhausted e h))

  Outcome-error :
      (s : CapabilityStore) (id perm nonce : ℕ) (r : Answer) (e : CapabilityError)
      → StoreValid s []
      → Outcome crypto key s id perm nonce r
      → r.1 ≡ err e
      → (j : ℕ)
      → highest r.0.nonce_tracker j
        ≡ (if (id == j) && is_exhausted e then nonce else highest s.nonce_tracker j)
  Outcome-error s id perm nonce r e v (missing n q) h j =
      let early = ap is_exhausted (err_injective not_found e (sym (ap (λ x. x.1) q) ∙ h)) in
      ap (λ x. highest x.0.nonce_tracker j) q ∙ ground (arith, early)
  Outcome-error s id perm nonce r e v (refused t x g z q) h j =
      let early =
        sym (ap is_exhausted (err_injective x e (sym (ap (λ y. y.1) q) ∙ h)))
        ∙ refusal-early s t perm x z in
      ap (λ y. highest y.0.nonce_tracker j) q ∙ ground (arith, early)
  Outcome-error s id perm nonce r e v (replayed t g z l q) h j =
      let early = ap is_exhausted (err_injective nonce_replay e (sym (ap (λ y. y.1) q) ∙ h)) in
      ap (λ y. highest y.0.nonce_tracker j) q
      ∙ (seen-highest s id nonce j v (ap is_some g) ∙ ground (arith, early, l))
  Outcome-error s id perm nonce r e v (answered t g z l q) h j =
      let late = exhausted (budget_left s id t.budget) e (sym (ap (λ y. y.1) q) ∙ h) in
      ap (λ y. highest y.0.nonce_tracker j) q
      ∙ (answered-highest s id nonce j t v g l ∙ ground (arith, late))

  -- In a valid store, a call of `validate` that ends in an error leaves the tokens and every
  -- accepted nonce as they were, except that an exhausted budget has used up the nonce.
  pub validate-error :
      (s : CapabilityStore) (id perm nonce : ℕ) (e : CapabilityError)
      → StoreValid s []
      → (validate crypto key s id perm nonce).1 ≡ err e
      → ((validate crypto key s id perm nonce).0.tokens ≡ s.tokens)
        × ((j : ℕ)
            → highest (validate crypto key s id perm nonce).0.nonce_tracker j
              ≡ (if (id == j) && is_exhausted e then nonce else highest s.nonce_tracker j))
  validate-error s id perm nonce e v h =
      let o = validate-Outcome crypto key s id perm nonce v in
      ((Outcome-tokens crypto key s id perm nonce _ o).0, Outcome-error s id perm nonce _ e v o h)

  Outcome-highest :
      (s : CapabilityStore) (id perm nonce : ℕ) (r : Answer)
      → StoreValid s []
      → Outcome crypto key s id perm nonce r
      → r.1 ≡ ok tt
      → highest r.0.nonce_tracker id ≡ nonce
  Outcome-highest s id perm nonce r v (missing n q) h = absurd (ground (arith, ap (λ x. x.1) q, h))
  Outcome-highest s id perm nonce r v (refused t x g z q) h =
      absurd (ground (arith, ap (λ y. y.1) q, h))
  Outcome-highest s id perm nonce r v (replayed t g z l q) h =
      absurd (ground (arith, ap (λ y. y.1) q, h))
  Outcome-highest s id perm nonce r v (answered t g z l q) h =
      ap (λ y. highest y.0.nonce_tracker id) q
      ∙ (answered-highest s id nonce id t v g l ∙ ground (arith, ==_refl id))

  -- In a valid store, once `validate` has accepted a nonce for a token, the next call accepts
  -- neither that nonce nor a lower one for it, whatever permission is asked for.
  pub validate-replay :
      (s : CapabilityStore) (id perm nonce perm2 nonce2 : ℕ)
      → StoreValid s []
      → (validate crypto key s id perm nonce).1 ≡ ok tt
      → nonce2 ≤ nonce
      → (validate crypto key (validate crypto key s id perm nonce).0 id perm2 nonce2).1 ≢ ok tt
  validate-replay s id perm nonce perm2 nonce2 v h le again =
      let s1 = (validate crypto key s id perm nonce).0 in
      let top =
        Outcome-highest s id perm nonce _ v (validate-Outcome crypto key s id perm nonce v) h in
      let (t, g, mac, fresh, may, above, left) =
        (validate-ok_iff crypto key s1 id perm2 nonce2
            (validate-StoreValid crypto key s id perm nonce v)).0
          again in
      omega (arith, top, above, le)

  Outcome-returns :
      (s : CapabilityStore) (id perm nonce : ℕ) (r : Answer)
      → Outcome crypto key s id perm nonce r
      → r.1 ≢ panic
  Outcome-returns s id perm nonce r (missing n q) h = ground (arith, ap (λ x. x.1) q, h)
  Outcome-returns s id perm nonce r (refused t x g z q) h = ground (arith, ap (λ y. y.1) q, h)
  Outcome-returns s id perm nonce r (replayed t g z l q) h = ground (arith, ap (λ y. y.1) q, h)
  Outcome-returns s id perm nonce r (answered t g z l q) h = ground (arith, ap (λ y. y.1) q, h)

  -- In a valid store `validate` never panics: the maps of nonces and budgets have room for every
  -- live token.
  pub validate_returns :
      (s : CapabilityStore) (id perm nonce : ℕ)
      → StoreValid s []
      → (validate crypto key s id perm nonce).1 ≢ panic
  validate_returns s id perm nonce v =
      Outcome-returns s id perm nonce _ (validate-Outcome crypto key s id perm nonce v)
