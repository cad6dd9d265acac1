-- ===== src/Capability/Store/Revoke.antt =====
-- kernel/src/capability/store.rs: `revoke` removes a token and its descendants, and no other.
use fabric_os.Base.{
  ℕ, zero, suc, ◌+◌, ◌<◌, ◌≡◌, ◌⊎◌, inl, inr, refl, sym, ap, subst, ◌∙◌, true, false, ◌==◌, none,
  some, arith, Bool-cases, Option-cases, if◌then◌else◌, is_some, List, [], ◌∷◌,
}
use fabric_os.Base.Results.{ok, err}
use fabric_os.Capability.Errors.{not_found}
use fabric_os.Capability.Slab
use fabric_os.Capability.Slab.Size.{len-le}
use fabric_os.Capability.Store.{CapabilityStore, StoredToken, Tokens}
use fabric_os.Capability.Store.Links.{unlink_child, remove_token, revoke_loop, revoke_found, revoke}
use fabric_os.Capability.Store.Children.{Lookup, is_child, ==→≡}
use fabric_os.Capability.Store.Forest.{Forest}
use fabric_os.Capability.Store.Valid.{StoreValid}
use fabric_os.Capability.Store.Unlink.{core, Relinked-is_child, Relinked-live}
use fabric_os.Capability.Store.Detach.{Relinked-some}
use fabric_os.Capability.Store.Severing.{Severs, unlink_child_lem}
use fabric_os.Capability.Store.Revocation.{Under, itself, delegated, revoke_loop_lem}
use mathlib.Core.Option.{map}

pub live-pos :
    (look : Lookup) (stack : List ℕ) → Forest look stack → (c : ℕ) → is_some (look c) ≡ true → 0 < c
live-pos look stack f c e = elim (Option-cases (look c)) [
  | inl n ↦ absurd (ground (arith, e, n))
  | inr (t, y) ↦ omega (arith, (f.older c t y).0)
]

pub Under-pos :
    (look : Lookup) (id : ℕ)
    → Forest look []
    → is_some (look id) ≡ true
    → (c : ℕ) → Under look id c
    → 0 < c
Under-pos look id f e _ itself = live-pos look [] f id e
Under-pos look id f e _ (delegated p c child under) = live-pos look [] f c (ground (arith, child))

-- A token that was not delegated is in no list.
root-Forest :
    (look : Lookup) (id : ℕ) (t : StoredToken)
    → Forest look []
    → look id ≡ some t
    → t.token.delegated_from ≡ 0
    → Forest look (id ∷ [])
root-Forest look id t f here root = record {
  lists = λ q e.
      let (ds, h, law) = f.lists q e in
      (
        ds,
        h,
        λ c.
            let pos = live-pos look [] f q e in
            let apart : is_child look q id ≡ false = rw here (ground (arith, root, pos)) in
            let at : (id == c) ≡ true → is_child look q id ≡ is_child look q c =
              λ y. ap (is_child look q) (==→≡ id c y) in
            ground (arith, law c, apart, at),
      );
  parents = λ c s e. ground (arith, f.parents c s e);
  older = f.older;
  live = λ c e.
      let at : id ≡ c = ground (arith, e) in
      subst (λ k. is_some (look k) ≡ true) at (ap is_some here);
  apart = (refl, tt);
}

-- The tokens that the loop of `revoke` starts from.
abbrev unlinked : CapabilityStore → ℕ → StoredToken → Tokens
unlinked s id t =
    if t.token.delegated_from == 0
    then s.tokens
    else unlink_child s.tokens t.token.delegated_from id

unlinked-Severs :
    (s : CapabilityStore) (id : ℕ) (t : StoredToken)
    → StoreValid s []
    → Slab.get s.tokens id ≡ some t
    → Severs s.tokens id (unlinked s id t)
unlinked-Severs s id t v here = elim (Bool-cases (t.token.delegated_from == 0)) [
  | inl y ↦ rw y (
    v.tokens_valid,
    refl,
    (λ c. refl),
    root-Forest (Slab.get s.tokens) id t v.forest here (==→≡ _ 0 y),
  )
  | inr y ↦ rw y (unlink_child_lem s.tokens id t v.tokens_valid v.forest here (ground (arith, y)))
]

unlinked-StoreValid :
    (s : CapabilityStore) (id : ℕ) (tokens : Tokens)
    → StoreValid s []
    → Severs s.tokens id tokens
    → StoreValid (record s { tokens = tokens }) (id ∷ [])
unlinked-StoreValid s id tokens v (valid, len, same, forest) = record {
  tokens_valid = valid;
  usage_valid = v.usage_valid;
  seen_valid = v.seen_valid;
  started = v.started;
  forest = forest;
  given_out = λ c t e.
      let (o, y, tokens_same) = Relinked-some (Slab.get s.tokens) (Slab.get tokens) c t same e in
      v.given_out c o y;
  usage_live = λ c e. Relinked-live (Slab.get s.tokens) (Slab.get tokens) same c ∙ v.usage_live c e;
  seen_live = λ c e. Relinked-live (Slab.get s.tokens) (Slab.get tokens) same c ∙ v.seen_live c e;
}

-- Each token is as it was but for its links, or is gone and was under the one revoked.
abbrev pub Removes : CapabilityStore → ℕ → CapabilityStore → Type 0
Removes s id s' =
    ((c : ℕ)
      → (map core (Slab.get s'.tokens c) ≡ map core (Slab.get s.tokens c))
        ⊎ ((Slab.get s'.tokens c ≡ none) × Under (Slab.get s.tokens) id c))
    × ((c : ℕ) → Under (Slab.get s.tokens) id c → Slab.get s'.tokens c ≡ none)

child_kept :
    (look look' : Lookup) (p c : ℕ)
    → map core (look' c) ≡ map core (look c)
    → is_child look' p c ≡ is_child look p c
child_kept look look' p c same = ground (arith, same)

gone :
    (s s' : CapabilityStore) (id : ℕ) (t : StoredToken)
    → StoreValid s []
    → StoreValid s' []
    → Slab.get s.tokens id ≡ some t
    → Slab.get s'.tokens id ≡ none
    → ((c : ℕ)
        → (map core (Slab.get s'.tokens c) ≡ map core (Slab.get s.tokens c))
          ⊎ ((Slab.get s'.tokens c ≡ none) × Under (Slab.get s.tokens) id c))
    → (c : ℕ) → Under (Slab.get s.tokens) id c
    → Slab.get s'.tokens c ≡ none
gone s s' id t v v' here top each _ itself = top
gone s s' id t v v' here top each _ (delegated p c child under) =
    let parent = gone s s' id t v v' here top each p under in
    let pos = Under-pos (Slab.get s.tokens) id v.forest (ap is_some here) p under in
    elim (each c) [
      | inr (e, u) ↦ e
      | inl same ↦ elim (Option-cases (Slab.get s'.tokens c)) [
        | inl e ↦ e
        | inr (o, e) ↦
            let kept : is_child (Slab.get s'.tokens) p c ≡ true =
              child_kept (Slab.get s.tokens) (Slab.get s'.tokens) p c same ∙ child in
            let from : o.token.delegated_from ≡ p = ground (arith, kept, e) in
            let lives : is_some (Slab.get s'.tokens o.token.delegated_from) ≡ false =
              ap (λ k. is_some (Slab.get s'.tokens k)) from ∙ ap is_some parent in
            absurd (ground (arith, v'.forest.parents c o e, from, lives, pos))
      ]
    ]

-- In a valid store, `revoke` of a live token succeeds with the number of tokens removed, removes
-- that token and all that were delegated from it, directly or not, changes no other token but for
-- its links, and leaves the store valid.
pub revoke_lem :
    (s : CapabilityStore) (id : ℕ) (t : StoredToken)
    → StoreValid s []
    → Slab.get s.tokens id ≡ some t
    → StoreValid (revoke s id).0 []
      × ((n : ℕ) × ((revoke s id).1 ≡ ok n) × (n + (revoke s id).0.tokens.len ≡ s.tokens.len))
      × Removes s id (revoke s id).0
unfolding revoke revoke_found
revoke_lem s id t v here =
    let cut = unlinked-Severs s id t v here in
    let start = unlinked-StoreValid s id (unlinked s id t) v cut in
    let small = len-le s.tokens v.tokens_valid in
    let (left, valid, count, le, spared, stacked) =
      revoke_loop_lem (Slab.get s.tokens) id (suc s.tokens.len)
        (record s { tokens = unlinked s id t }) (id ∷ []) 0 start
        (λ p c h.
          sym (Relinked-is_child (Slab.get s.tokens) (Slab.get (unlinked s id t)) cut.2 p c) ∙ h)
        (λ c e. subst (Under (Slab.get s.tokens) id) (ground (arith, e)) itself)
        (omega (arith, cut.1)) (omega (arith, cut.1, small)) in
    let final =
      revoke_loop (suc s.tokens.len) (record s { tokens = unlinked s id t }) (id ∷ []) 0 in
    let each : (c : ℕ)
        → (map core (Slab.get final.0.tokens c) ≡ map core (Slab.get s.tokens c))
          ⊎ ((Slab.get final.0.tokens c ≡ none) × Under (Slab.get s.tokens) id c) =
      λ c. elim (spared c) [ inl same ↦ inl (ap (map core) same ∙ cut.2 c) | inr u ↦ inr u ] in
    rw (revoke, here, revoke_found)
      (
        valid,
        (_, refl, omega (arith, count, cut.1)),
        (each, gone s final.0 id t v valid here (stacked id (ground arith)) each),
      )

remove_token-next_id : (s : CapabilityStore) (id : ℕ) → (remove_token s id).0.next_id ≡ s.next_id
unfolding remove_token
remove_token-next_id s id = elim (Bool-cases (is_some (Slab.remove s.tokens id).1)) [
  | inl y ↦ rw (remove_token, y) refl
  | inr y ↦ rw (remove_token, y) refl
]

revoke_loop-next_id :
    (fuel : ℕ) (s : CapabilityStore) (stack : List ℕ) (count : ℕ)
    → (revoke_loop fuel s stack count).0.next_id ≡ s.next_id
unfolding revoke_loop
revoke_loop-next_id zero s stack count = refl
revoke_loop-next_id (suc fuel) s [] count = refl
revoke_loop-next_id (suc fuel) s (id ∷ stack) count =
    revoke_loop-next_id fuel _ _ _ ∙ remove_token-next_id s id

pub revoke-next_id : (s : CapabilityStore) (id : ℕ) → (revoke s id).0.next_id ≡ s.next_id
unfolding revoke revoke_found
revoke-next_id s id = elim (Option-cases (Slab.get s.tokens id)) [
  | inl n ↦ rw (revoke, n) refl
  | inr (t, e) ↦ rw (revoke, e) (revoke_loop-next_id (suc s.tokens.len) _ _ 0)
]

pub revoke_missing :
    (s : CapabilityStore) (id : ℕ) → Slab.get s.tokens id ≡ none → revoke s id ≡ (s, err not_found)
unfolding revoke revoke_found
revoke_missing s id n = rw (revoke, n) refl
