-- ===== src/Runtime/Stack.antt =====
-- The stack allocator: class StackAllocator of src/kernel/runtime/stack.cc. `frames` is the list of
-- `struct stack_frame` along `prev`, the current one first; it is empty where `current_frame` is
-- null. `blocks` holds what the coming calls of `kmalloc` return, 0 for its failure.
pub mod Ops
pub mod Masks
pub mod Checkpoints
mod Tests
use km_os.Prelude.{
  ℕ, ◌+◌, ◌*◌, ◌-◌, ◌%◌, ◌^◌, Bool, true, false, ◌&&◌, ◌||◌, not, List, [], ◌∷◌, if◌then◌else◌,
  ◌==◌, ltb, leb, add32, sub32,
}
use km_os.X86.Memory.{next_block, blocks_left}
use Prim.Native.Nat.{bit_and}

abbrev pub stack_magic : ℕ
stack_magic = 0x57ACF12

abbrev pub stack_canary : ℕ
stack_canary = 0xDEADBEEF

abbrev pub min_stack_size : ℕ
min_stack_size = 4096

abbrev pub max_stack_size : ℕ
max_stack_size = 1024 * 1024

abbrev pub stack_alignment : ℕ
stack_alignment = 16

-- `struct stack_frame`, 32 bytes; `limit` is its `end`.
pub record StackFrame : Type 0 where
  pub start : ℕ
  pub current : ℕ
  pub limit : ℕ
  pub size : ℕ
  pub magic : ℕ
  pub canary : ℕ

pub record StackStats : Type 0 where
  pub total_allocations : ℕ
  pub peak_usage : ℕ
  pub current_usage : ℕ
  pub checkpoint_count : ℕ
  pub overflow_checks : ℕ
  pub underflow_checks : ℕ
  pub corruption_detected : ℕ
  pub total_allocated_bytes : ℕ
  pub total_freed_bytes : ℕ

-- `checkpoints` is the list of `struct stack_checkpoint` along `prev`, by their addresses; `saved_pos`
-- is that field of the checkpoint at an address.
pub record StackAllocator : Type 0 where
  pub frames : List StackFrame
  pub checkpoints : List ℕ
  pub saved_pos : ℕ → ℕ
  pub stats : StackStats
  pub total_capacity : ℕ
  pub frame_count : ℕ
  pub overflow_detection : Bool
  pub underflow_detection : Bool
  pub initialized : Bool
  pub blocks : List ℕ

abbrev pub empty_stats : StackStats
empty_stats = record {
  total_allocations = 0;
  peak_usage = 0;
  current_usage = 0;
  checkpoint_count = 0;
  overflow_checks = 0;
  underflow_checks = 0;
  corruption_detected = 0;
  total_allocated_bytes = 0;
  total_freed_bytes = 0;
}

-- `(size + alignment - 1) & ~(alignment - 1)`, of `align_size` and `align_pointer`: the bits of the
-- mask are taken away.
unfoldable pub align_size : ℕ → ℕ → ℕ
align_size size alignment =
    let y = sub32 (add32 size alignment) 1 in y - bit_and y (sub32 alignment 1)

-- `StackAllocator::allocate_frame`, at the block that `kmalloc` returned.
abbrev pub new_frame : ℕ → ℕ → StackFrame
new_frame memory size = record {
  start = add32 memory 32;
  current = add32 memory 32;
  limit = add32 (add32 memory 32) size;
  size = size;
  magic = stack_magic;
  canary = stack_canary;
}

abbrev pub clamp_size : ℕ → ℕ
clamp_size size =
    if ltb size min_stack_size
    then min_stack_size
    else if ltb max_stack_size size
    then max_stack_size
    else size

abbrev pub take_block : StackAllocator → StackAllocator
take_block a = record a { blocks = blocks_left a.blocks }

-- `StackAllocator::init`
unfoldable pub init : ℕ → StackAllocator → StackAllocator
init initial_size a =
    let size = clamp_size initial_size in
    if a.initialized
    then a
    else if next_block a.blocks == 0
    then record (take_block a) { frames = [] }
    else record (take_block a) {
      frames = new_frame (next_block a.blocks) size ∷ [];
      checkpoints = [];
      stats = empty_stats;
      total_capacity = size;
      frame_count = 1;
      overflow_detection = true;
      underflow_detection = true;
      initialized = true;
    }

-- `StackAllocator::destroy`
unfoldable pub destroy : StackAllocator → StackAllocator
destroy a =
    if a.initialized
    then record a {
      frames = [];
      checkpoints = [];
      total_capacity = 0;
      frame_count = 0;
      initialized = false;
    }
    else a

-- `StackAllocator::grow`, with the current frame.
abbrev pub grown_size : ℕ → StackFrame → ℕ
grown_size additional f =
    if ltb additional (f.size * 2 % 2 ^ 32) then f.size * 2 % 2 ^ 32 else additional

unfoldable pub grow_frame : ℕ → StackFrame → StackAllocator → Bool × StackAllocator
grow_frame additional f a =
    let size = grown_size additional f in
    if ltb max_stack_size (add32 a.total_capacity size)
    then (false, a)
    else if next_block a.blocks == 0
    then (false, take_block a)
    else (
      true,
      record (take_block a) {
        frames = new_frame (next_block a.blocks) size ∷ a.frames;
        total_capacity = add32 a.total_capacity size;
        frame_count = add32 a.frame_count 1;
      },
    )

-- `update_peak_usage` after the counters of `alloc`.
abbrev pub count_allocation : ℕ → StackStats → StackStats
count_allocation size s =
    let usage = add32 s.current_usage size in
    record s {
      total_allocations = add32 s.total_allocations 1;
      current_usage = usage;
      total_allocated_bytes = (s.total_allocated_bytes + size) % 2 ^ 64;
      peak_usage = if ltb s.peak_usage usage then usage else s.peak_usage;
    }

abbrev pub note_corruption : StackStats → StackStats
note_corruption s = record s { corruption_detected = add32 s.corruption_detected 1 }

-- The end of `StackAllocator::alloc`, at the pointer found in the current frame.
unfoldable pub place : ℕ → ℕ → StackFrame → List StackFrame → StackAllocator → ℕ × StackAllocator
place ptr size f older a =
    let b : StackAllocator = record a {
      frames = record f { current = add32 ptr size } ∷ older;
      stats = count_allocation size a.stats;
    } in
    if a.overflow_detection && not (f.canary == stack_canary)
    then (0, record b { stats = note_corruption b.stats })
    else (ptr, b)

abbrev pub overflows : ℕ → ℕ → StackFrame → Bool
overflows size alignment f = ltb f.limit (add32 (align_size f.current alignment) size)

-- The second try of `alloc`, in the frame that `grow` made.
unfoldable pub retry : ℕ → ℕ → List StackFrame → StackAllocator → ℕ × StackAllocator
retry size alignment [] a = (0, a)
retry size alignment (f ∷ older) a =
    if overflows size alignment f
    then (0, a)
    else place (align_size f.current alignment) size f older a

unfoldable pub alloc_from : ℕ → ℕ → List StackFrame → StackAllocator → ℕ × StackAllocator
alloc_from size alignment [] a = (0, a)
alloc_from size alignment (f ∷ older) a =
    let (grown, b) = grow_frame (size * 2 % 2 ^ 32) f a in
    if overflows size alignment f
    then (if grown then retry size alignment b.frames b else (0, b))
    else place (align_size f.current alignment) size f older a

-- What `alloc` does first with `overflow_detection`.
unfoldable pub note_check : StackAllocator → StackAllocator
note_check a =
    if a.overflow_detection
    then record a { stats = record a.stats { overflow_checks = add32 a.stats.overflow_checks 1 } }
    else a

-- `StackAllocator::alloc`: the pointer, or 0.
unfoldable pub alloc : ℕ → ℕ → StackAllocator → ℕ × StackAllocator
alloc size alignment a =
    if not a.initialized || size == 0
    then (0, a)
    else alloc_from (align_size size alignment) alignment a.frames (note_check a)

-- `StackAllocator::alloc_aligned`
unfoldable pub alloc_aligned : ℕ → ℕ → StackAllocator → ℕ × StackAllocator
alloc_aligned size alignment a =
    if alignment == 0 || not (bit_and alignment (sub32 alignment 1) == 0)
    then alloc size stack_alignment a
    else alloc size alignment a
