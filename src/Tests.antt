-- ===== src/Tests.antt =====
-- Concrete inputs for the theorems, over an example of the hash and MAC crates.
mod Data
mod Sending
mod Logging
mod Memory
mod Policy
mod States
mod Handles
mod Packets
mod Locks
mod Tokens
mod Grants
mod Permits
