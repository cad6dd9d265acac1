-- ===== src/Governance.antt =====
-- kernel/src/governance: the policy engine that every message passes before it is routed.
pub mod Types
pub mod Rules
pub mod Safety
pub mod Acs
pub mod BreakGlass
pub mod Constitution
pub mod Engine
