-- ===== src/Capability/Store/Valid.antt =====
-- kernel/src/capability/store.rs: the invariant of the store.
use fabric_os.Base.{ℕ, ◌<◌, ◌≡◌, true, some, is_some, List}
use fabric_os.Capability.Slab
use fabric_os.Capability.Slab.Ready.{IsValid}
use fabric_os.Capability.Store.{CapabilityStore, StoredToken}
use fabric_os.Capability.Store.Forest.{Forest}

-- The maps are sound, the tokens form a forest, their ids were given out, and only live tokens are
-- tracked.
pub record StoreValid (s : CapabilityStore) (stack : List ℕ) : Type 0 where
  pub tokens_valid : IsValid s.tokens
  pub usage_valid : IsValid s.budget_tracker.usage
  pub seen_valid : IsValid s.nonce_tracker.last_seen
  pub started : 0 < s.next_id
  pub forest : Forest (Slab.get s.tokens) stack
  pub given_out : (c : ℕ) (t : StoredToken) → Slab.get s.tokens c ≡ some t → c < s.next_id
  pub usage_live :
      (c : ℕ)
      → is_some (Slab.get s.budget_tracker.usage c) ≡ true
      → is_some (Slab.get s.tokens c) ≡ true
  pub seen_live :
      (c : ℕ)
      → is_some (Slab.get s.nonce_tracker.last_seen c) ≡ true
      → is_some (Slab.get s.tokens c) ≡ true
