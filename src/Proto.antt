-- ===== src/Proto.antt =====
-- internal/proto: the wire format of the link, frames inside one stream after a preamble.
pub mod Crc
pub mod Types
pub mod Zstd
pub mod Frame
pub mod Batch
pub mod Messages
pub mod Preamble
mod Runs
