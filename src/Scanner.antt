-- ===== src/Scanner.antt =====
-- The sources under src/scanner: connecting, reading a banner, and sweeping a subnet.
pub mod Connect
pub mod Banner
pub mod Probe
pub mod Sweep
