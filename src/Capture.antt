-- ===== src/Capture.antt =====
-- What the agent keeps out of the capture: internal/capture/bpf.go.
pub mod Exclude
pub mod Runs
