-- ===== src/Runtime.antt =====
-- crates/gb10x-runtime/src.
pub mod Probe
pub mod Validate
pub mod CacheFabric
pub mod PleHydra
mod Tests
