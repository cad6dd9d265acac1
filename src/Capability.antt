-- ===== src/Capability.antt =====
-- kernel/src/capability: capability tokens, their store, and the signing of tokens and messages.
pub mod Errors
pub mod HmacEngine
pub mod Slab
pub mod Nonce
pub mod Budget
pub mod Store
