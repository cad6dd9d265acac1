-- ===== src/Wire.antt =====
-- fabric_types/src: the fixed-layout records that the kernel signs and hashes.
pub mod Header
pub mod Audit
pub mod Perm
pub mod Token
pub mod Encoding
