-- ===== src/Agent.antt =====
-- The agent's streamer: internal/agent/serve_cmd.go and internal/agent/keylog.go.
pub mod Streamer
pub mod Tailer
pub mod Serve
pub mod Log
pub mod Sent
pub mod Notes
pub mod Beat
pub mod Holding
pub mod Flush
pub mod Handle
pub mod Rounds
pub mod Stream
mod Runs
