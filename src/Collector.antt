-- ===== src/Collector.antt =====
-- internal/collector: the tulip-host side.
pub mod State
pub mod Runs
pub mod Demux
pub mod KeylogSink
pub mod Mirror
