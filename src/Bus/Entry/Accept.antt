-- ===== src/Bus/Entry/Accept.antt =====
-- kernel/src/bus/mod.rs: which messages `bus::send` accepts, and with whose authority.
use fabric_os.Base.{
  ℕ, ◌≡◌, ◌↔◌, ◌⊎◌, inl, inr, refl, sym, ap, subst, ◌∙◌, ◌==◌, some, Option, arith, Bool-cases,
  Option-cases, unwrap_or, List, [],
}
use fabric_os.Base.Results.{Result, ok, err, panic}
use fabric_os.Base.Members.{==→≡}
use fabric_os.Bus.Entry.{
  Kernel, check_owner, owned, check_capability, check_policy, routed, governed, send,
}
use fabric_os.Bus.Router.{BusError}
use fabric_os.Bus.Router.Send
use fabric_os.Bus.Router.Send.Accept.{Acceptable, send_ok_iff}
use fabric_os.Capability.Errors.{CapabilityError}
use fabric_os.Capability.Slab
use fabric_os.Capability.Store.{CapabilityStore, StoredToken, get_token_info}
use fabric_os.Capability.Store.Checks.{validate}
use fabric_os.Capability.Store.Valid.{StoreValid}
use fabric_os.Capability.Store.Verdict.{Accepts, validate-ok_iff, Outcome-tokens}
use fabric_os.Capability.Store.Validate.{validate-Outcome}
use fabric_os.Crypto.{Crypto}
use fabric_os.Governance.Engine.{GovernanceEngine}
use fabric_os.Governance.Rules.{EvalContext}
use fabric_os.Governance.Types.{PolicyVerdict}
use fabric_os.Wire.Header.{MessageHeader}
use fabric_os.Wire.Perm

-- The live token of this id is the sender's.
abbrev pub Owned : CapabilityStore → MessageHeader → Type 0
Owned s h =
    (t : StoredToken) × (Slab.get s.tokens h.capability_id ≡ some t) × (t.token.owner ≡ h.sender)

check_owner_iff : (s : CapabilityStore) (h : MessageHeader) → (check_owner s h ≡ ok tt) ↔ Owned s h
unfolding check_owner get_token_info
check_owner_iff s h = elim (Option-cases (Slab.get s.tokens h.capability_id)) [
  | inl n ↦ (λ e. absurd (ground (arith, n, e)), λ o. absurd (ground (arith, n, o.1)))
  | inr (t, here) ↦ (
    λ e. (t, here, ground (arith, here, e)),
    λ (u, g, same).
        let one : t ≡ u = ap (λ o. unwrap_or o t) (sym here ∙ g) in
        let sent : t.token.owner ≡ h.sender = ap (λ k. k.token.owner) one ∙ same in
        ground (arith, here, sent),
  )
]

Owned-tokens :
    (s s' : CapabilityStore) (h : MessageHeader) → s.tokens ≡ s'.tokens → Owned s h → Owned s' h
Owned-tokens s s' h e (t, here, own) =
    (t, subst (λ m. Slab.get m h.capability_id ≡ some t) e here, own)

module _ (crypto : Crypto) (key : List ℕ) where
  -- The token that the message names, if it names one, passes `validate` for writing, and is the
  -- sender's.
  abbrev pub Authorised : CapabilityStore → MessageHeader → ℕ → Type 0
  Authorised s h nonce =
      (h.capability_id ≡ 0) ⊎ (Accepts crypto key s h.capability_id Perm.write nonce × Owned s h)

  owned_ok :
      (h : MessageHeader) (v : CapabilityStore × Result (Unit {0}) CapabilityError)
      → (owned h v).1 ≡ ok tt
      → (v.1 ≡ ok tt) × (check_owner v.0 h ≡ ok tt)
  unfolding owned
  owned_ok h (s, ok u) e = (refl, e)
  owned_ok h (s, err x) e = absurd (ground (arith, e))
  owned_ok h (s, panic) e = absurd (ground (arith, e))

  ok_owned :
      (h : MessageHeader) (v : CapabilityStore × Result (Unit {0}) CapabilityError)
      → v.1 ≡ ok tt
      → check_owner v.0 h ≡ ok tt
      → (owned h v).1 ≡ ok tt
  unfolding owned
  ok_owned h (s, ok u) e o = o
  ok_owned h (s, err x) e o = absurd (ground (arith, e))
  ok_owned h (s, panic) e o = absurd (ground (arith, e))

  validate-tokens :
      (s : CapabilityStore) (id perm nonce : ℕ)
      → StoreValid s []
      → (validate crypto key s id perm nonce).0.tokens ≡ s.tokens
  validate-tokens s id perm nonce v =
      (Outcome-tokens crypto key s id perm nonce _
        (validate-Outcome crypto key s id perm nonce v)).0

  check_capability_iff :
      (s : CapabilityStore) (h : MessageHeader) (nonce : ℕ)
      → StoreValid s []
      → ((check_capability crypto key s h nonce).1 ≡ ok tt) ↔ Authorised s h nonce
  unfolding check_capability
  check_capability_iff s h nonce v = elim (Bool-cases (h.capability_id == 0)) [
    | inl z ↦ (λ e. inl (==→≡ h.capability_id 0 z), λ a. rw z refl)
    | inr n ↦
        let id = h.capability_id in
        let valid = validate-ok_iff crypto key s id Perm.write nonce v in
        let s1 = (validate crypto key s id Perm.write nonce).0 in
        let owner = check_owner_iff s1 h in
        let stay = validate-tokens s id Perm.write nonce v in
        (
          λ e.
              let (passed, checked) = owned_ok h _ (ground (arith, n, e)) in
              inr (valid.0 passed, Owned-tokens s1 s h stay (owner.0 checked)),
          λ a. elim a [
            | inl z ↦ absurd (ground (arith, n, z))
            | inr (accepts, own) ↦
                rw n (ok_owned h _ (valid.1 accepts) (owner.1 (Owned-tokens s s1 h (sym stay) own)))
          ],
        )
  ]

module _ (crypto : Crypto) (key : List ℕ) (priority : ℕ → Option ℕ)
    (council : EvalContext → PolicyVerdict) where
  -- What a message has to meet at each of the three stages.
  pub record Permitted (k : Kernel) (h : MessageHeader) (payload : Option (List ℕ)) (nonce : ℕ)
      : Type 0 where
    pub admitted : (check_policy crypto key priority council k h).1 ≡ ok tt
    pub authorised : Authorised crypto key k.store h nonce
    pub acceptable : Acceptable crypto key k.bus h payload

  routed_ok :
      (k : Kernel) (h : MessageHeader) (payload : Option (List ℕ)) (nonce : ℕ)
      (c : CapabilityStore × Result (Unit {0}) BusError)
      → ((routed crypto key priority council k h payload nonce c).1 ≡ ok tt)
        ↔ ((c.1 ≡ ok tt) × ((Send.send crypto key k.bus h payload nonce).1 ≡ ok tt))
  unfolding routed
  routed_ok k h payload nonce (s, ok u) = (λ e. (refl, e), λ e. e.1)
  routed_ok k h payload nonce (s, err x) =
      (λ e. absurd (ground (arith, e)), λ e. absurd (ground (arith, e.0)))
  routed_ok k h payload nonce (s, panic) =
      (λ e. absurd (ground (arith, e)), λ e. absurd (ground (arith, e.0)))

  governed_ok :
      (k : Kernel) (h : MessageHeader) (payload : Option (List ℕ)) (nonce : ℕ)
      (g : GovernanceEngine × Result (Unit {0}) BusError)
      → ((governed crypto key priority council k h payload nonce g).1 ≡ ok tt) ↔ (
          (g.1 ≡ ok tt)
          × ((check_capability crypto key k.store h nonce).1 ≡ ok tt)
          × ((Send.send crypto key k.bus h payload nonce).1 ≡ ok tt))
  unfolding governed
  governed_ok k h payload nonce (g, ok u) =
      let r =
        routed_ok (record k { governance = g }) h payload nonce
          (check_capability crypto key k.store h nonce) in
      (λ e. let (able, sent) = r.0 e in (refl, able, sent), λ e. r.1 (e.1, e.2))
  governed_ok k h payload nonce (g, err x) =
      (λ e. absurd (ground (arith, e)), λ e. absurd (ground (arith, e.0)))
  governed_ok k h payload nonce (g, panic) =
      (λ e. absurd (ground (arith, e)), λ e. absurd (ground (arith, e.0)))

  pub send-Permitted :
      (k : Kernel) (h : MessageHeader) (payload : Option (List ℕ)) (nonce : ℕ)
      → StoreValid k.store []
      → ((send crypto key priority council k h payload nonce).1 ≡ ok tt)
        ↔ Permitted k h payload nonce
  unfolding send
  send-Permitted k h payload nonce v =
      let all = governed_ok k h payload nonce (check_policy crypto key priority council k h) in
      let capability = check_capability_iff crypto key k.store h nonce v in
      let router = send_ok_iff crypto key k.bus h payload nonce in
      (
        λ e.
            let (policy, able, sent) = all.0 e in
            record {
              admitted = policy;
              authorised = capability.0 able;
              acceptable = router.0 sent;
            },
        λ p. all.1 (p.admitted, capability.1 p.authorised, router.1 p.acceptable),
      )
