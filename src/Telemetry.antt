-- ===== src/Telemetry.antt =====
-- crates/gb10x-telemetry/src.
pub mod Record
pub mod Validate
mod Tests
