-- ===== src/Bus.antt =====
-- kernel/src/bus: the message bus. One module for each file of the folder.
pub mod Arena
pub mod Queue
pub mod Sequence
pub mod Monitor
pub mod Audit
pub mod Router
pub mod Entry
