-- ===== src/Capability/Store/Validate.antt =====
-- kernel/src/capability/store.rs: `validate`, on each of its branches.
use fabric_os.Base.{
  ℕ, ◌≤◌, ◌<◌, ◌≡◌, inl, inr, refl, ap, ◌∙◌, Bool, true, false, ◌==◌, ltb, ltb→lt, none, some,
  Option, arith, Bool-cases, Option-cases, if◌then◌else◌, is_some, List, [],
}
use fabric_os.Base.Results.{Result, ok, err}
use fabric_os.Crypto.{Crypto}
use fabric_os.Capability.Errors.{CapabilityError, not_found, nonce_replay, budget_exhausted}
use fabric_os.Wire.Token.{Budget}
use fabric_os.Capability.Slab
use fabric_os.Capability.Slab.Keys.{subset-room}
use fabric_os.Capability.Nonce.{NonceTracker, highest, check_and_advance, check_and_advance_lem}
use fabric_os.Capability.Budget.{BudgetTracker, current, check_and_consume, check_and_consume_lem}
use fabric_os.Capability.Store.{CapabilityStore, StoredToken}
use fabric_os.Capability.Store.Checks.{
  refusal, settle, spend, after_nonce, validate_found, validate,
}
use fabric_os.Base.Members.{==→≡}
use fabric_os.Capability.Store.Valid.{StoreValid}

abbrev pub Answer : Type 0
Answer = CapabilityStore × Result (Unit {0}) CapabilityError

-- The store once the nonce was checked, and once a use was taken.
abbrev pub seen : CapabilityStore → ℕ → ℕ → CapabilityStore
seen s id nonce = record s { nonce_tracker = (check_and_advance s.nonce_tracker id nonce).0 }

abbrev pub spent : CapabilityStore → ℕ → Budget → CapabilityStore
spent s id b = record s {
  budget_tracker = (check_and_consume s.budget_tracker id b s.current_tick).0;
}

-- The budget of a token, if it has one, has a use left.
abbrev pub budget_left : CapabilityStore → ℕ → Option Budget → Bool
budget_left s id none = true
budget_left s id (some b) = ltb (current s.budget_tracker id b s.current_tick).0 b.max_uses

-- The store once the budget was checked.
abbrev pub charged : CapabilityStore → ℕ → Option Budget → CapabilityStore
charged s id none = s
charged s id (some b) = spent s id b

pub seen-StoreValid :
    (s : CapabilityStore) (id nonce : ℕ)
    → StoreValid s []
    → is_some (Slab.get s.tokens id) ≡ true
    → StoreValid (seen s id nonce) []
      × ((check_and_advance s.nonce_tracker id nonce).1
          ≡ some (ltb (highest s.nonce_tracker id) nonce))
unfolding Slab.contains_key
seen-StoreValid s id nonce v live =
    let (sound, answer, high, known) = check_and_advance_lem s.nonce_tracker id nonce v.seen_valid (
      subset-room s.nonce_tracker.last_seen s.tokens id v.seen_valid v.tokens_valid v.seen_live
        live) in
    let at : (c : ℕ)
        → (id == c) ≡ true
        → is_some (Slab.get s.tokens id) ≡ is_some (Slab.get s.tokens c) =
      λ c y. ap (λ k. is_some (Slab.get s.tokens k)) (==→≡ id c y) in
    (
      record {
        tokens_valid = v.tokens_valid;
        usage_valid = v.usage_valid;
        started = v.started;
        forest = v.forest;
        given_out = v.given_out;
        usage_live = v.usage_live;
        seen_valid = sound;
        seen_live = λ c e. ground (arith, known c, e, v.seen_live c, at c, live);
      },
      answer,
    )

pub spent-StoreValid :
    (s : CapabilityStore) (id : ℕ) (b : Budget)
    → StoreValid s []
    → is_some (Slab.get s.tokens id) ≡ true
    → StoreValid (spent s id b) []
      × ((check_and_consume s.budget_tracker id b s.current_tick).1
          ≡ some (budget_left s id (some b)))
spent-StoreValid s id b v live =
    let (sound, answer, all) =
      check_and_consume_lem s.budget_tracker id b s.current_tick v.usage_valid (
        subset-room s.budget_tracker.usage s.tokens id v.usage_valid v.tokens_valid v.usage_live
          live) in
    let at : (c : ℕ)
        → (id == c) ≡ true
        → is_some (Slab.get s.tokens id) ≡ is_some (Slab.get s.tokens c) =
      λ c y. ap (λ k. is_some (Slab.get s.tokens k)) (==→≡ id c y) in
    (
      record {
        tokens_valid = v.tokens_valid;
        seen_valid = v.seen_valid;
        started = v.started;
        forest = v.forest;
        given_out = v.given_out;
        seen_live = v.seen_live;
        usage_valid = sound;
        usage_live = λ c e. ground (arith, all c, e, v.usage_live c, at c, live);
      },
      answer,
    )

module _ (crypto : Crypto) (key : List ℕ) where
  -- What each way through `validate` answers and leaves.
  pub data Outcome (s : CapabilityStore) (id perm nonce : ℕ) (r : Answer) : Type 0 where
    missing : Slab.get s.tokens id ≡ none → r ≡ (s, err not_found) → Outcome s id perm nonce r
    refused :
        (t : StoredToken) (e : CapabilityError)
        → Slab.get s.tokens id ≡ some t
        → refusal crypto key s t perm ≡ some e
        → r ≡ (s, err e)
        → Outcome s id perm nonce r
    replayed :
        (t : StoredToken)
        → Slab.get s.tokens id ≡ some t
        → refusal crypto key s t perm ≡ none
        → nonce ≤ highest s.nonce_tracker id
        → r ≡ (seen s id nonce, err nonce_replay)
        → Outcome s id perm nonce r
    answered :
        (t : StoredToken)
        → Slab.get s.tokens id ≡ some t
        → refusal crypto key s t perm ≡ none
        → highest s.nonce_tracker id < nonce
        → r ≡ (
          charged (seen s id nonce) id t.budget,
          (if budget_left s id t.budget then ok tt else err budget_exhausted),
        )
        → Outcome s id perm nonce r

  settle_answer :
      (s : CapabilityStore) (x : BudgetTracker × Option Bool) (d : Bool)
      → x.1 ≡ some d
      → settle crypto key s x
        ≡ (record s { budget_tracker = x.0 }, (if d then ok tt else err budget_exhausted))
  unfolding settle
  settle_answer s x true e = ap (λ o. settle crypto key s (x.0, o)) e
  settle_answer s x false e = ap (λ o. settle crypto key s (x.0, o)) e

  spend_lem :
      (s : CapabilityStore) (id : ℕ) (o : Option Budget)
      → StoreValid s []
      → is_some (Slab.get s.tokens id) ≡ true
      → spend crypto key s id o
        ≡ (charged s id o, (if budget_left s id o then ok tt else err budget_exhausted))
  unfolding spend settle
  spend_lem s id none v live = refl
  spend_lem s id (some b) v live =
      settle_answer s (check_and_consume s.budget_tracker id b s.current_tick)
        (budget_left s id (some b)) (spent-StoreValid s id b v live).1

  nonce_accepted :
      (s : CapabilityStore) (id : ℕ) (o : Option Budget) (x : NonceTracker × Option Bool)
      → x.1 ≡ some true
      → after_nonce crypto key s id o x ≡ spend crypto key (record s { nonce_tracker = x.0 }) id o
  unfolding after_nonce
  nonce_accepted s id o x e = ap (λ a. after_nonce crypto key s id o (x.0, a)) e

  nonce_refused :
      (s : CapabilityStore) (id : ℕ) (o : Option Budget) (x : NonceTracker × Option Bool)
      → x.1 ≡ some false
      → after_nonce crypto key s id o x ≡ (record s { nonce_tracker = x.0 }, err nonce_replay)
  unfolding after_nonce
  nonce_refused s id o x e = ap (λ a. after_nonce crypto key s id o (x.0, a)) e

  pub validate-Outcome :
      (s : CapabilityStore) (id perm nonce : ℕ)
      → StoreValid s []
      → Outcome s id perm nonce (validate crypto key s id perm nonce)
  unfolding validate validate_found
  validate-Outcome s id perm nonce v = elim (Option-cases (Slab.get s.tokens id)) [
    | inl n ↦ missing n (rw (validate, n) refl)
    | inr (t, here) ↦ elim (Option-cases (refusal crypto key s t perm)) [
      | inr (e, z) ↦ refused t e here z (rw (validate, here, validate_found, z) refl)
      | inl z ↦
          let live = ap is_some here in
          let (next, answer) = seen-StoreValid s id nonce v live in
          elim (Bool-cases (ltb (highest s.nonce_tracker id) nonce)) [
            | inl y ↦ answered t here z (ltb→lt _ _ y) (
                rw (validate, here, validate_found, z)
                  (nonce_accepted s id t.budget _ (answer ∙ ap some y)
                    ∙ spend_lem (seen s id nonce) id t.budget next live))
            | inr y ↦ replayed t here z (ground (arith, y)) (
                rw (validate, here, validate_found, z)
                  (nonce_refused s id t.budget _ (answer ∙ ap some y)))
          ]
    ]
  ]
