-- ===== src/Capability/Store/Links.antt =====
-- kernel/src/capability/store.rs: the lists of children, and `revoke`.
use fabric_os.Base.{
  ℕ, zero, suc, true, false, ◌==◌, none, some, Option, if◌then◌else◌, unwrap_or, is_some, List, [],
  ◌∷◌,
}
use fabric_os.Base.Words.{add64}
use fabric_os.Base.Results.{Result, ok, err}
use fabric_os.Capability.Errors.{CapabilityError, not_found}
use fabric_os.Capability.Slab.{FixedMap}
use fabric_os.Capability.Slab
use fabric_os.Capability.Nonce.{NonceTracker}
use fabric_os.Capability.Nonce
use fabric_os.Capability.Budget.{BudgetTracker}
use fabric_os.Capability.Budget
use mathlib.Core.Option.{map}
use fabric_os.Capability.Store.{CapabilityStore, StoredToken, Tokens}

unfoldable pub first_child_of : Tokens → ℕ → ℕ
first_child_of tokens id = unwrap_or (map (λ s. s.first_child) (Slab.get tokens id)) 0

unfoldable pub next_sibling_of : Tokens → ℕ → ℕ
next_sibling_of tokens id = unwrap_or (map (λ s. s.next_sibling) (Slab.get tokens id)) 0

-- "Walk to find predecessor in sibling chain". A chain goes to smaller ids, so an id is fuel enough.
unfoldable pub unlink_walk : ℕ → Tokens → ℕ → ℕ → ℕ → Tokens
unlink_walk zero tokens prev_id child_id child_next = tokens
unlink_walk (suc fuel) tokens prev_id child_id child_next = elim (prev_id == 0) [
  | true ↦ tokens
  | false ↦ elim (next_sibling_of tokens prev_id == child_id) [
    | true ↦ Slab.modify tokens prev_id (λ p. record p { next_sibling = child_next })
    | false ↦ unlink_walk fuel tokens (next_sibling_of tokens prev_id) child_id child_next
  ]
]

unfoldable pub unlink_child : Tokens → ℕ → ℕ → Tokens
unlink_child tokens parent_id child_id =
    let child_next = next_sibling_of tokens child_id in
    let parent_first = first_child_of tokens parent_id in
    if parent_first == child_id
    then Slab.modify tokens parent_id (λ p. record p { first_child = child_next })
    else unlink_walk (suc parent_first) tokens parent_first child_id child_next

unfoldable pub walk_children : ℕ → Tokens → ℕ → List ℕ
walk_children zero tokens child_id = []
walk_children (suc fuel) tokens child_id = elim (child_id == 0) [
  | true ↦ []
  | false ↦ child_id ∷ walk_children fuel tokens (next_sibling_of tokens child_id)
]

unfoldable pub collect_children : Tokens → ℕ → List ℕ
collect_children tokens parent_id =
    let child_id = first_child_of tokens parent_id in walk_children (suc child_id) tokens child_id

-- `stack.extend(children)`; the top of the stack is the head of the list.
unfoldable pub extend : List ℕ → List ℕ → List ℕ
extend [] stack = stack
extend (c ∷ children) stack = extend children (c ∷ stack)

-- "Remove the token itself", with its tracking, and count it.
unfoldable pub remove_token : CapabilityStore → ℕ → CapabilityStore × ℕ
remove_token s id =
    let (tokens, removed) = Slab.remove s.tokens id in
    if is_some removed
    then (
      record s {
        tokens = tokens;
        budget_tracker = Budget.remove s.budget_tracker id;
        nonce_tracker = Nonce.remove s.nonce_tracker id;
      },
      1,
    )
    else (record s { tokens = tokens }, 0)

-- The loop of `revoke`: the store, the stack that is left and the count. Each turn removes a token,
-- so as many turns as there are tokens are enough.
unfoldable pub revoke_loop : ℕ → CapabilityStore → List ℕ → ℕ → CapabilityStore × List ℕ × ℕ
revoke_loop zero s stack count = (s, stack, count)
revoke_loop (suc fuel) s [] count = (s, [], count)
revoke_loop (suc fuel) s (id ∷ stack) count =
    let children = collect_children s.tokens id in
    let (s1, removed) = remove_token s id in
    revoke_loop fuel s1 (extend children stack) (add64 count removed)

unfoldable pub revoke_found :
    CapabilityStore → ℕ → Option StoredToken → CapabilityStore × Result ℕ CapabilityError
revoke_found s token_id none = (s, err not_found)
revoke_found s token_id (some stored) =
    let parent_id = stored.token.delegated_from in
    let tokens = if parent_id == 0 then s.tokens else unlink_child s.tokens parent_id token_id in
    let (s1, left, count) =
      revoke_loop (suc s.tokens.len) (record s { tokens = tokens }) (token_id ∷ []) 0 in
    (s1, ok count)

unfoldable pub revoke : CapabilityStore → ℕ → CapabilityStore × Result ℕ CapabilityError
revoke s token_id = revoke_found s token_id (Slab.get s.tokens token_id)
