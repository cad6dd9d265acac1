-- ===== src/Capability/Errors.antt =====
-- kernel/src/capability/store.rs: the errors of the capability operations.
pub data CapabilityError : Type 0 where
  not_found invalid_hmac expired insufficient_permission budget_exhausted : CapabilityError
  nonce_replay delegation_denied permission_escalation store_full : CapabilityError
