-- ===== src/Bus/Entry/Rights.antt =====
-- kernel/src/bus/mod.rs: what an accepted message says of the capability that it names.
use fabric_os.Base.{
  ℕ, ◌+◌, ◌≤◌, ◌<◌, ◌≡◌, ◌≢◌, ◌↔◌, inl, inr, refl, sym, subst, ◌∙◌, true, false, ◌==◌, some, Option,
  arith, unwrap_or, List, [], All, length,
}
use fabric_os.Base.Bits.{subset_covers_sixteen}
use fabric_os.Base.Results.{Result, ok, err, panic}
use fabric_os.Base.Words.{u64_mod}
use fabric_os.Bus.Entry.{
  Kernel, resource_kind, owned, check_capability, check_policy, routed, governed, send,
}
use fabric_os.Bus.Entry.Accept.{Authorised, send-Permitted}
use fabric_os.Bus.Router.{BusError}
use fabric_os.Bus.Router.Send.Accept.{Acceptable}
use fabric_os.Capability.Errors.{CapabilityError}
use fabric_os.Capability.Slab
use fabric_os.Capability.Store.{CapabilityStore, StoredToken, new_store, get_token_info}
use fabric_os.Capability.Store.Checks.{validate}
use fabric_os.Capability.Store.Operations.{Operation, OperationFits, run}
use fabric_os.Capability.Store.Reachable.{run-Sound}
use fabric_os.Capability.Store.Authority.{Attenuated, Under-Within}
use fabric_os.Capability.Store.Replay.{validate-replay}
use fabric_os.Capability.Store.Revocation.{Under}
use fabric_os.Capability.Store.Valid.{StoreValid}
use fabric_os.Capability.Store.Verdict.{Accepts, validate-ok_iff, validate-StoreValid}
use fabric_os.Crypto.{Crypto}
use fabric_os.Governance.Constitution.{genesis_rules}
use fabric_os.Governance.Engine.{GovernanceEngine}
use fabric_os.Governance.Engine.Genesis.{evaluate_policy-genesis, is_admitted}
use fabric_os.Governance.Rules
use fabric_os.Governance.Rules.{EvalContext, load_rules}
use fabric_os.Governance.Types.{PolicyVerdict}
use fabric_os.Wire.Header.{MessageHeader}
use fabric_os.Wire.Perm
use mathlib.Core.Option.{map}

owned-store :
    (h : MessageHeader) (v : CapabilityStore × Result (Unit {0}) CapabilityError)
    → (owned h v).0 ≡ v.0
unfolding owned
owned-store h (s, ok u) = refl
owned-store h (s, err e) = refl
owned-store h (s, panic) = refl

module _ (crypto : Crypto) (key : List ℕ) (priority : ℕ → Option ℕ)
    (council : EvalContext → PolicyVerdict) where
  -- With the genesis rules loaded, the bypass shut and a valid store, `bus::send` accepts exactly
  -- the messages that the decision table admits, whose capability, if they name one, is live,
  -- meets the checks of `validate` for writing and belongs to the sender, and that the router
  -- accepts; a message with the capability id 0 names none, and no capability is checked for it.
  pub send-is_admitted :
      (k : Kernel) (h : MessageHeader) (payload : Option (List ℕ)) (nonce : ℕ)
      → k.governance.initialized ≡ true
      → k.governance.break_glass.active ≡ false
      → k.governance.rules ≡ load_rules Rules.new genesis_rules
      → StoreValid k.store []
      → ((send crypto key priority council k h payload nonce).1 ≡ ok tt) ↔ (
          (is_admitted h.sender
              (unwrap_or (priority h.sender) 0)
              k.governance.safety.state
              k.governance.acs.state
            ≡ true)
          × Authorised crypto key k.store h nonce
          × Acceptable crypto key k.bus h payload)
  unfolding check_policy
  send-is_admitted k h payload nonce i b r v =
      let both = send-Permitted crypto key priority council k h payload nonce v in
      let table =
        evaluate_policy-genesis council k.governance h (priority h.sender)
          (map (λ info. resource_kind info.1) (get_token_info k.store h.capability_id)) i b r in
      (
        λ e. let p = both.0 e in (ground (arith, p.admitted, table), p.authorised, p.acceptable),
        λ (listed, may, fine). both.1 (record {
          admitted = ground (arith, listed, table);
          authorised = may;
          acceptable = fine;
        }),
      )

  routed-store :
      (k : Kernel) (h : MessageHeader) (payload : Option (List ℕ)) (nonce : ℕ)
      (c : CapabilityStore × Result (Unit {0}) BusError)
      → (routed crypto key priority council k h payload nonce c).0.store ≡ c.0
  unfolding routed
  routed-store k h payload nonce (s, ok u) = refl
  routed-store k h payload nonce (s, err x) = refl
  routed-store k h payload nonce (s, panic) = refl

  governed-store :
      (k : Kernel) (h : MessageHeader) (payload : Option (List ℕ)) (nonce : ℕ)
      (g : GovernanceEngine × Result (Unit {0}) BusError)
      → g.1 ≡ ok tt
      → (governed crypto key priority council k h payload nonce g).0.store
        ≡ (check_capability crypto key k.store h nonce).0
  unfolding governed
  governed-store k h payload nonce (g, ok u) e =
      routed-store (record k { governance = g }) h payload nonce
        (check_capability crypto key k.store h nonce)
  governed-store k h payload nonce (g, err x) e = absurd (ground (arith, e))
  governed-store k h payload nonce (g, panic) e = absurd (ground (arith, e))

  send-store :
      (k : Kernel) (h : MessageHeader) (payload : Option (List ℕ)) (nonce : ℕ)
      → (check_policy crypto key priority council k h).1 ≡ ok tt
      → h.capability_id ≢ 0
      → (send crypto key priority council k h payload nonce).0.store
        ≡ (validate crypto key k.store h.capability_id Perm.write nonce).0
  unfolding send check_capability
  send-store k h payload nonce e named =
      let stored =
        governed-store k h payload nonce (check_policy crypto key priority council k h) e in
      let other : (h.capability_id == 0) ≡ false = ground (arith, named) in
      let checked = owned-store h (validate crypto key k.store h.capability_id Perm.write nonce) in
      ground (arith, stored, other, checked)

  -- What `validate` says in a message that names a capability and is accepted.
  authority :
      (k : Kernel) (h : MessageHeader) (nonce : ℕ)
      → h.capability_id ≢ 0
      → Authorised crypto key k.store h nonce
      → Accepts crypto key k.store h.capability_id Perm.write nonce
  authority k h nonce named (inl z) = absurd (named z)
  authority k h nonce named (inr a) = a.0

  -- In a valid store, once `bus::send` has accepted a message that names a capability, it accepts
  -- no next message with the same capability and the same nonce or a lower one.
  pub send-replay :
      (k : Kernel) (h h2 : MessageHeader) (payload payload2 : Option (List ℕ)) (nonce nonce2 : ℕ)
      → StoreValid k.store []
      → h.capability_id ≢ 0
      → (send crypto key priority council k h payload nonce).1 ≡ ok tt
      → h2.capability_id ≡ h.capability_id
      → nonce2 ≤ nonce
      → (send crypto key priority council
          (send crypto key priority council k h payload nonce).0
          h2
          payload2
          nonce2).1
        ≢ ok tt
  send-replay k h h2 payload payload2 nonce nonce2 v named e same le again =
      let k1 = (send crypto key priority council k h payload nonce).0 in
      let s1 = (validate crypto key k.store h.capability_id Perm.write nonce).0 in
      let p = (send-Permitted crypto key priority council k h payload nonce v).0 e in
      let stored : k1.store ≡ s1 = send-store k h payload nonce p.admitted named in
      let v1 : StoreValid s1 [] =
        validate-StoreValid crypto key k.store h.capability_id Perm.write nonce v in
      let q =
        (send-Permitted crypto key priority council k1 h2 payload2 nonce2
            (subst (λ s. StoreValid s []) (sym stored) v1)).0
          again in
      let named2 : h2.capability_id ≢ 0 = λ z. named (sym same ∙ z) in
      let accepts =
        subst (λ s. Accepts crypto key s h2.capability_id Perm.write nonce2) stored
          (authority k1 h2 nonce2 named2 q.authorised) in
      let accepts2 = subst (λ c. Accepts crypto key s1 c Perm.write nonce2) same accepts in
      validate-replay crypto key k.store h.capability_id Perm.write nonce Perm.write nonce2 v
        ((validate-ok_iff crypto key k.store h.capability_id Perm.write nonce v).1
          (authority k h nonce named p.authorised))
        le ((validate-ok_iff crypto key s1 h.capability_id Perm.write nonce2 v1).1 accepts2)

  -- Where the store is what any operations made of a new one, fewer than 2^64 - 1 of them with
  -- permissions of 16 bits, a message with a capability is accepted only if every token that the
  -- capability comes from by delegation, directly or not, may write.
  pub send-Under :
      (k : Kernel) (ops : List Operation) (h : MessageHeader) (payload : Option (List ℕ))
      (nonce top : ℕ) (t : StoredToken)
      → k.store ≡ run crypto key new_store ops
      → length ops + 1 < u64_mod
      → All OperationFits ops
      → h.capability_id ≢ 0
      → (send crypto key priority council k h payload nonce).1 ≡ ok tt
      → Slab.get k.store.tokens top ≡ some t
      → Under (Slab.get k.store.tokens) top h.capability_id
      → Perm.contains t.token.permissions Perm.write ≡ true
  unfolding Perm.contains Perm.is_subset_of
  send-Under k ops h payload nonce top t made few fit named e here under =
      let (sound, attenuated) =
        subst (λ s. StoreValid s [] × Attenuated (Slab.get s.tokens)) (sym made)
          (run-Sound crypto key ops few fit) in
      let p = (send-Permitted crypto key priority council k h payload nonce sound).0 e in
      let (d, there, mac, fresh, may, above, left) = authority k h nonce named p.authorised in
      let within =
        Under-Within (Slab.get k.store.tokens) top t sound.forest attenuated here h.capability_id d
          under there in
      ground (
        arith,
        subset_covers_sixteen d.token.permissions t.token.permissions Perm.write
            (attenuated.fits h.capability_id d there) (attenuated.fits top t here)
            (ground (arith, may)) (ground (arith, within)),
      )
