-- ===== src/Core.antt =====
-- The kernel's core: src/kernel/core.
pub mod Process
pub mod Files
pub mod Filesystem
