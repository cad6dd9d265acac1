-- ===== src/Capability/Store/Expiry.antt =====
-- kernel/src/capability/store.rs: the expiration that `delegate` gives a child.
use fabric_os.Base.{ℕ, ◌≤◌, ◌<◌, ◌≡◌, ◌↔◌, Option, none, some, arith}
use fabric_os.Capability.Store.{child_expires}

-- Under a parent that expires, the duration given to a child is at most the parent's, and is 0,
-- which stands for no expiration, exactly when 0 is what was asked for.
pub child_expires-le :
    (expires : Option ℕ) (parent_expires : ℕ)
    → 0 < parent_expires
    → (child_expires expires parent_expires ≤ parent_expires)
      × ((child_expires expires parent_expires ≡ 0) ↔ (expires ≡ some 0))
unfolding child_expires
child_expires-le none pe pos =
    (ground arith, (λ h. absurd (omega (arith, h, pos)), λ h. absurd (ground (arith, h))))
child_expires-le (some e) pe pos =
    (ground arith, (λ h. ground (arith, h, pos), λ h. ground (arith, h, pos)))
