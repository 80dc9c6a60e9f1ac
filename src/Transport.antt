-- ===== src/Transport.antt =====
-- The secure stream: internal/transport/noise.go.
pub mod Conn
pub mod Carries
pub mod RoundTrip
mod Runs
