-- ===== src/PcapOverIp.antt =====
-- The fan-out of a source to its readers: internal/pcapoverip.
pub mod Server
pub mod Tailing
pub mod Committed
mod Runs
