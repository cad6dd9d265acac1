-- ===== src/Capability/Store/Issue.antt =====
-- kernel/src/capability/store.rs: what `create` and `delegate` leave.
use fabric_os.Base.{
  ℕ, ◌+◌, ◌<◌, ◌≡◌, ◌≢◌, inl, inr, refl, sym, ap, ◌∙◌, true, false, ◌==◌, leb, ◌||◌, none, some,
  Option, arith, Option-cases, if◌then◌else◌, is_some, unwrap_or, List, [],
}
use fabric_os.Base.Words.{u64_mod, add64}
use fabric_os.Base.Results.{ok, err}
use fabric_os.Crypto.{Crypto}
use fabric_os.Capability.Errors.{store_full}
use fabric_os.Capability.HmacEngine.{sign}
use fabric_os.Wire.Token.{Budget, CapabilityToken, token_bytes}
use fabric_os.Capability.Slab
use fabric_os.Capability.Slab.Ready.{IsValid}
use fabric_os.Capability.Slab.Size.{insert_room}
use fabric_os.Capability.Store.{
  CapabilityStore, StoredToken, Tokens, max_tokens, alloc_id, make_token, create,
}
use fabric_os.Capability.Store.Children.{Lookup}
use fabric_os.Capability.Store.Forest.{Forest}
use fabric_os.Capability.Store.Valid.{StoreValid}
use fabric_os.Capability.Store.Unlink.{core}
use fabric_os.Capability.Store.Growth.{grown-Forest}
use mathlib.Core.Option.{map}

-- The store with one more token, whose id was the next.
pub issued-StoreValid :
    (s : CapabilityStore) (tokens : Tokens)
    → StoreValid s []
    → s.next_id + 1 < u64_mod
    → IsValid tokens
    → Forest (Slab.get tokens) []
    → ((c : ℕ) → is_some (Slab.get tokens c) ≡ ((s.next_id == c) || is_some (Slab.get s.tokens c)))
    → StoreValid (record s { tokens = tokens; next_id = add64 s.next_id 1 }) []
issued-StoreValid s tokens v more valid forest lives = record {
  tokens_valid = valid;
  usage_valid = v.usage_valid;
  seen_valid = v.seen_valid;
  started = omega (arith, more);
  forest = forest;
  given_out = λ c t e. elim (Option-cases (Slab.get s.tokens c)) [
    | inl n ↦ ground (arith, lives c, e, n, more)
    | inr (o, y) ↦ omega (arith, v.given_out c o y, more)
  ];
  usage_live = λ c e. ground (arith, lives c, v.usage_live c e);
  seen_live = λ c e. ground (arith, lives c, v.seen_live c e);
}

pub none_at_zero : (s : CapabilityStore) → StoreValid s [] → Slab.get s.tokens 0 ≡ none
none_at_zero s v = elim (Option-cases (Slab.get s.tokens 0)) [
  | inl e ↦ e
  | inr (t, e) ↦ absurd (omega (arith, (v.forest.older 0 t e).0))
]

-- A root token joins the forest.
root-grown :
    (s : CapabilityStore) (look' : Lookup) (t : StoredToken)
    → StoreValid s []
    → t.token.delegated_from ≡ 0
    → t.first_child ≡ 0
    → t.next_sibling ≡ 0
    → ((j : ℕ) → look' j ≡ (if s.next_id == j then some t else Slab.get s.tokens j))
    → Forest look' []
root-grown s look' t v from childless next all =
    let other : (j : ℕ) → j ≢ s.next_id → look' j ≡ Slab.get s.tokens j =
      λ j n. ground (arith, all j) in
    let rootless : Slab.get s.tokens 0 ≡ none = none_at_zero s v in
    grown-Forest (Slab.get s.tokens) look' 0 s.next_id t v.forest v.given_out v.started
      (ground (arith, all s.next_id)) (λ j n. ap (map core) (other j n))
      (λ j n. ap (λ o. unwrap_or (map (λ a. a.next_sibling) o) 0) (other j n))
      (λ q n m. ap (λ o. unwrap_or (map (λ a. a.first_child) o) 0) (other q n))
      (λ e. absurd (ground (arith, rootless, e))) from childless
      (next ∙ sym (ap (λ o. unwrap_or (map (λ a. a.first_child) o) 0) rootless)) refl

module _ (crypto : Crypto) (key : List ℕ) where
  -- The entry of a new token.
  abbrev pub entry : CapabilityStore → CapabilityToken → Option Budget → ℕ → StoredToken
  entry s token budget sibling = record {
    token = token;
    hmac = sign crypto key (token_bytes token);
    budget = budget;
    created_at = s.current_tick;
    first_child = 0;
    next_sibling = sibling;
  }

  abbrev pub root_entry : CapabilityStore → ℕ → ℕ → ℕ → Option ℕ → Option Budget → StoredToken
  root_entry s resource permissions owner expires budget =
      entry s (make_token permissions owner s.next_id resource 0 (unwrap_or expires 0)) budget 0

  -- `create` where there is room: the next id, for a signed root token.
  pub create_lem :
      (s : CapabilityStore) (resource permissions owner : ℕ) (expires : Option ℕ)
      (budget : Option Budget)
      → StoreValid s []
      → s.tokens.len < max_tokens
      → s.next_id + 1 < u64_mod
      → let r = create crypto key s resource permissions owner expires budget in
        (r.1 ≡ ok s.next_id)
        × StoreValid r.0 []
        × ((j : ℕ)
            → Slab.get r.0.tokens j ≡ (
                if s.next_id == j
                then some (root_entry s resource permissions owner expires budget)
                else Slab.get s.tokens j))
        × (r.0.next_id ≡ s.next_id + 1)
  unfolding create alloc_id make_token
  create_lem s resource permissions owner expires budget v room more =
      let fits : leb max_tokens s.tokens.len ≡ false = ground (arith, room) in
      let t = root_entry s resource permissions owner expires budget in
      let (valid, all) = insert_room s.tokens s.next_id t v.tokens_valid room in
      rw (create, fits)
        (
          refl,
          issued-StoreValid s _ v more valid (root-grown s _ t v refl refl refl all)
              (λ c. ground (arith, all c)),
          all,
          omega (arith, more),
        )

  pub create_full :
      (s : CapabilityStore) (resource permissions owner : ℕ) (expires : Option ℕ)
      (budget : Option Budget)
      → leb max_tokens s.tokens.len ≡ true
      → create crypto key s resource permissions owner expires budget ≡ (s, err store_full)
  unfolding create
  create_full s resource permissions owner expires budget full = rw (create, full) refl
