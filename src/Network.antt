-- ===== src/Network.antt =====
-- kernel/src/network: the parts of the network stack that are modelled.
pub mod Checksum
pub mod Ip
pub mod Ethernet
pub mod Udp
