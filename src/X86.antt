-- ===== src/X86.antt =====
-- The x86 layer: src/kernel/arch/x86.
pub mod Bitmap
pub mod Frames
pub mod Lru
pub mod Paging
pub mod Swap
pub mod Memory
pub mod Reclaim
pub mod Mapping
pub mod Cow
pub mod Replacement
pub mod RunQueue
