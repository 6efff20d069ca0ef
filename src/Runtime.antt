-- ===== src/Runtime.antt =====
-- The runtime of src/kernel/runtime.
pub mod Div64
pub mod Strings
pub mod Stack
pub mod Buddy
pub mod Slob
pub mod Slab
