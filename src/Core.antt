-- ===== src/Core.antt =====
-- crates/gb10x-core: the PLE hash plan and its token window.
pub mod Window
pub mod Hash
pub mod Platform
pub mod Qwen
mod Tests
