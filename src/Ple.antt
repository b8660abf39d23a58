-- ===== src/Ple.antt =====
-- crates/gb10x-ple: exact PLEPack layout and sidecar encoding.
pub mod Bytes
pub mod Format
pub mod Disk
pub mod Layout
pub mod Source
pub mod Reader
pub mod Files
pub mod Writer
mod Tests
