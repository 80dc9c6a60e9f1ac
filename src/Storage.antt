-- ===== src/Storage.antt =====
-- internal/pcapio/durable.go and the calls of the operating system: files whose calls may fail, and
-- what a crash leaves of them.
pub mod Io
pub mod Triple
pub mod File
