-- ===== src/Network.antt =====
-- The sources under src/network: the PC's own interfaces, and the stations on the link.
pub mod Interface
pub mod Arp
