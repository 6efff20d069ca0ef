-- ===== src/Lib.antt =====
-- A verification library for the memory management and the scheduling of kmOS, a small x86 kernel
-- in C++ (src/kernel). Numbers are the native ℕ; a value of 32 bits keeps its wrap-around (add32,
-- sub32, mul32). A pointer is its address, 0 the null pointer. A loop over a linked structure, and
-- a recursion that the source does not bound, takes fuel, and `none` is a call that has not
-- returned.
--
-- Parts, and how they interact. `VMM` (src/kernel/arch/x86/vmm.cc) owns the bitmap of physical
-- frames and the page directories. When no frame is free, `VMM::alloc_frame` asks `SwapManager`
-- (swap.cc) for the memory pressure and has it reclaim pages: it takes a victim from its list of
-- resident pages, writes it to a swap device, records the swap entry in the page directory and
-- unmaps the page, which gives the frame back to the bitmap. `PageReplacementManager`
-- (page_replacement.cc) keeps a second list of pages with four replacement algorithms. The kernel
-- is compiled for 32 bits without the compiler's runtime, so 64-bit division is written in
-- src/kernel/runtime/divdi3.cc.
--
-- Processes (src/kernel/core/process.cc) are linked into a ring by the scheduler's queue in
-- architecture.cc, and `Process::schedule` walks the ring from the current one.
--
-- Files:
-- - Prelude: Boolean tests, lists, bits of a word, 32-bit arithmetic, doubly linked lists as maps
--   of pointers (Prelude/Chains, Prelude/Unlink, Prelude/Insert, Prelude/Ends).
-- - Runtime/Div64: `__udivdi3` and `__umoddi3` of src/kernel/runtime/divdi3.cc.
-- - Runtime/Strings: the functions of src/kernel/runtime/string.cc over a memory of bytes.
-- - Runtime/Buddy: class BuddyAllocator of src/kernel/runtime/buddy.cc; headers as maps of fields.
--   Runtime/Buddy/FreeLists says what well-formed free lists are; Removing, Taking, Merging,
--   Returning and RoundTrip are about the operations on them.
-- - X86/Bitmap: the scan and the bit updates that vmm.cc and swap.cc share, with `slot` as the
--   abstract view of a bitmap.
-- - X86/Frames: `frame_bitmap` and `frames_used` of class VMM, the scan of `VMM::alloc_frame`
--   (take_frame), `VMM::free_frame`.
-- - X86/Paging: page directories and tables; `VMM::get_page_table`, `VMM::get_physical_addr`, the
--   writes of `VMM::map_page`, the swapped-page list. A table is a function from the index to the
--   entry, and is reached only through its directory.
-- - X86/Lru: the list of resident pages of class SwapManager, as a map of pointers, and as a list
--   of addresses, most recently used first.
-- - X86/Swap: swap devices and their slots; the device list is a List in the order of its links.
-- - X86/Memory, X86/Reclaim: the state that vmm.cc and swap.cc share, and the calls between them:
--   `VMM::unmap_page`, `SwapManager::swap_out_page`, `SwapManager::reclaim_pages`,
--   `VMM::alloc_frame`.
-- - X86/Mapping: `VMM::get_page_table` with its allocations and `VMM::map_page`, over the same
--   state.
-- - X86/Cow: class COWManager of src/kernel/arch/x86/cow.cc: the shared pages and their
--   references, mappings, write faults, and the fork of a range, over the same state.
-- - X86/Replacement: class PageReplacementManager of src/kernel/arch/x86/page_replacement.cc: the
--   state and the lists of each algorithm, the choice of a victim (Victims), the page list
--   (Pages), the change of the algorithm (Switch).
-- - Core/Process: class Process: the table of open files, signals, `Process::schedule` and
--   `Process::exit`.
-- - X86/RunQueue: `Architecture::enqueue_process` of src/kernel/arch/x86/architecture.cc, and the
--   ring as a list of processes.
-- - Runtime/Stack: class StackAllocator of src/kernel/runtime/stack.cc: frames, growth, `alloc`,
--   checkpoints, `reset`.
-- - Runtime/Slob: class SLOBAllocator of src/kernel/runtime/slob.cc, over Runtime/Buddy: the
--   search, the page's free list, split and merge, `alloc`, `free`, `defragment`.
-- - Runtime/Slab: class SlabAllocator of src/kernel/runtime/slab.cc, over Runtime/Buddy: caches
--   with their full, partial and empty slabs, and the caches by size.
-- - Core/Files: class File of src/kernel/core/file.cc: names, children, deletion.
-- - Core/Filesystem: class Filesystem of src/kernel/core/filesystem.cc over Core/Files: paths,
--   links, mounts.
--
-- Parameters and bounds. What `kmalloc` returns is a parameter (an address, or a list of coming
-- results), 0 being its failure. `write_page` and `read_page` of a device are the function
-- pointers it holds. `dev - swap_devices` in swap.cc subtracts pointers into separate blocks,
-- which C++ leaves undefined: `distance` is a parameter for what the compiled code makes of it.
-- Fuel above the number of pages is enough for every loop over a null-terminated page list; the
-- loop of `SwapManager::reclaim_pages` and the recursion of `VMM::alloc_frame` take fuel of their
-- own.
--
-- Not modelled: the console and serial output, the devices (ATA, keyboard, timer, serial port),
-- interrupts and the CPU's registers (loading cr3 has no effect on the state of the model), the
-- shell, the creation of processes, the devices, the ext2 driver, and the slub and unified
-- allocators. Freed heap blocks are not tracked. Slab objects below 8 bytes, the size of the
-- header in a free one, are not modelled faithfully: the headers are maps by address and do not
-- overlap.
pub mod Prelude
pub mod Runtime
pub mod Core
pub mod X86
