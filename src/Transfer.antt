-- ===== src/Transfer.antt =====
-- The agent's stream and the collector's demux together: internal/agent/serve_cmd.go writes what
-- internal/collector/demux.go reads.
pub mod Conversion
pub mod Held
pub mod Item
pub mod Step
pub mod Delivery
mod Runs
