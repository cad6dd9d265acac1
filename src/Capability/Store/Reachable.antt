-- ===== src/Capability/Store/Reachable.antt =====
-- kernel/src/capability/store.rs: what holds of the store after any operations.
use fabric_os.Base.{ℕ, ◌+◌, ◌<◌, ◌≡◌, refl, some, arith, List, [], ◌∷◌, length, All}
use fabric_os.Base.Words.{u64_mod}
use fabric_os.Crypto.{Crypto}
use fabric_os.Capability.Slab
use fabric_os.Capability.Slab.Deletion.{find_uninit, get-vacant}
use fabric_os.Capability.Slab.Reuse.{clear_lem, new_map-IsValid}
use fabric_os.Capability.Budget
use fabric_os.Capability.Nonce
use fabric_os.Capability.Store.{CapabilityStore, StoredToken, new_store, tick, advance_ticks, clear}
use fabric_os.Capability.Store.Revocation.{Under}
use fabric_os.Capability.Store.Authority.{Within, Under-Within}
use fabric_os.Capability.Store.Operations.{
  Operation, creating, delegating, validating, revoking, ticking, advancing, clearing,
  OperationFits, Sound, Keeps, step, run,
}
use fabric_os.Capability.Store.Steps.{
  create-Keeps, delegate-Keeps, validate-Keeps, revoke-Keeps, empty-Sound,
}

module _ (crypto : Crypto) (key : List ℕ) where
  new_store-Sound : Sound new_store
  unfolding new_store Budget.new_budgets Nonce.new_nonces Slab.new_map
  new_store-Sound =
      empty-Sound crypto key new_store new_map-IsValid new_map-IsValid new_map-IsValid
        (λ c. get-vacant new_store.tokens c 0 (find_uninit new_store.tokens c refl))
        (λ c.
          get-vacant new_store.budget_tracker.usage c 0
            (find_uninit new_store.budget_tracker.usage c refl))
        (λ c.
          get-vacant new_store.nonce_tracker.last_seen c 0
            (find_uninit new_store.nonce_tracker.last_seen c refl))
        refl

  clear-Keeps : (s : CapabilityStore) → Sound s → Keeps s (clear s)
  unfolding clear Budget.clear Nonce.clear
  clear-Keeps s (v, a) =
      let (ok1, gone1, len1) = clear_lem s.tokens v.tokens_valid in
      let (ok2, gone2, len2) = clear_lem s.budget_tracker.usage v.usage_valid in
      let (ok3, gone3, len3) = clear_lem s.nonce_tracker.last_seen v.seen_valid in
      (
        empty-Sound crypto key (clear s) ok1 ok2 ok3 gone1 gone2 gone3 refl,
        omega (arith, v.started),
      )

  advance-Keeps : (s : CapabilityStore) (n : ℕ) → Sound s → Keeps s (advance_ticks s n)
  unfolding advance_ticks
  advance-Keeps s n (v, a) = (
    (
      record {
        tokens_valid = v.tokens_valid;
        usage_valid = v.usage_valid;
        seen_valid = v.seen_valid;
        started = v.started;
        forest = v.forest;
        given_out = v.given_out;
        usage_live = v.usage_live;
        seen_live = v.seen_live;
      },
      a,
    ),
    omega arith,
  )

  step-Keeps :
      (s : CapabilityStore) (op : Operation)
      → Sound s
      → s.next_id + 1 < u64_mod
      → OperationFits op
      → Keeps s (step crypto key s op)
  unfolding step tick advance_ticks
  step-Keeps s (creating resource permissions owner expires budget) v more fits =
      create-Keeps crypto key s resource permissions owner expires budget v more fits
  step-Keeps s (delegating p owner permissions expires budget) v more fits =
      delegate-Keeps crypto key s p owner permissions expires budget v more fits
  step-Keeps s (validating id perm nonce) v more fits = validate-Keeps crypto key s id perm nonce v
  step-Keeps s (revoking id) v more fits = revoke-Keeps crypto key s id v
  step-Keeps s ticking v more fits = advance-Keeps s 1 v
  step-Keeps s (advancing n) v more fits = advance-Keeps s n v
  step-Keeps s clearing v more fits = clear-Keeps s v

  run-Keeps :
      (s : CapabilityStore) (ops : List Operation)
      → Sound s
      → s.next_id + length ops < u64_mod
      → All OperationFits ops
      → Sound (run crypto key s ops)
  unfolding run
  run-Keeps s [] v more fits = v
  run-Keeps s (op ∷ ops) v more fits =
      let (sound, next) = step-Keeps s op v (omega (arith, more)) fits.0 in
      run-Keeps (step crypto key s op) ops sound (omega (arith, more, next)) fits.1

  -- After any operations on a new store, fewer than 2^64 - 1 of them with permissions of 16 bits,
  -- the three maps are valid, the child list of each live token has exactly its live children,
  -- each delegated token has a live parent and is within its rights, and only live tokens are
  -- tracked.
  pub run-Sound :
      (ops : List Operation)
      → length ops + 1 < u64_mod
      → All OperationFits ops
      → Sound (run crypto key new_store ops)
  unfolding new_store
  run-Sound ops more fits = run-Keeps new_store ops new_store-Sound (omega (arith, more)) fits

  -- After any operations on a new store, fewer than 2^64 - 1 of them with permissions of 16 bits,
  -- a token that comes from another by delegation, directly or not, has no permission that the
  -- other lacks, and is for the same resource.
  pub run-Within :
      (ops : List Operation) (top c : ℕ) (t d : StoredToken)
      → length ops + 1 < u64_mod
      → All OperationFits ops
      → Slab.get (run crypto key new_store ops).tokens top ≡ some t
      → Slab.get (run crypto key new_store ops).tokens c ≡ some d
      → Under (Slab.get (run crypto key new_store ops).tokens) top c
      → Within d t
  run-Within ops top c t d more fits here there under =
      let (v, a) = run-Sound ops more fits in
      Under-Within (Slab.get (run crypto key new_store ops).tokens) top t v.forest a here c d under
        there
