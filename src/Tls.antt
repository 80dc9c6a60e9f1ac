-- ===== src/Tls.antt =====
-- The hooks that extract TLS keys: internal/tls.
pub mod Merge
pub mod Lines
pub mod Chunks
pub mod Again
pub mod Reconcile
pub mod Running
mod Runs
