-- ===== src/Runtime/Stack/Ops.antt =====
-- Checkpoints, reset and shrinking: class StackAllocator of src/kernel/runtime/stack.cc.
use km_os.Prelude.{
  ℕ, ◌+◌, ◌%◌, ◌^◌, Bool, true, false, ◌&&◌, not, List, [], ◌∷◌, if◌then◌else◌, ◌==◌, ltb, leb,
  add32, sub32, update,
}
use km_os.X86.Memory.{next_block}
use km_os.Runtime.Stack.{
  StackFrame, StackStats, StackAllocator, take_block, stack_magic, stack_canary,
}

-- `StackAllocator::is_valid_ptr`, in the current frame.
abbrev pub is_valid_ptr : ℕ → StackFrame → Bool
is_valid_ptr ptr f = not (ptr == 0) && leb f.start ptr && leb ptr f.current

abbrev pub count_freed : Bool → ℕ → StackStats → StackStats
count_freed detect freed s = record s {
  current_usage = if ltb freed s.current_usage then sub32 s.current_usage freed else 0;
  total_freed_bytes = (s.total_freed_bytes + freed) % 2 ^ 64;
  underflow_checks = if detect then add32 s.underflow_checks 1 else s.underflow_checks;
}

-- The end of `free_to_checkpoint`, with `checkpoint->saved_pos`.
unfoldable pub free_from : ℕ → List StackFrame → StackAllocator → StackAllocator
free_from saved [] a = a
free_from saved (f ∷ older) a =
    if is_valid_ptr saved f
    then record a {
      frames = record f { current = saved } ∷ older;
      stats = count_freed a.underflow_detection (sub32 f.current saved) a.stats;
    }
    else a

-- `StackAllocator::free_to_checkpoint`
unfoldable pub free_to_checkpoint : ℕ → StackAllocator → StackAllocator
free_to_checkpoint checkpoint a =
    if a.initialized && not (checkpoint == 0)
    then free_from (a.saved_pos checkpoint) a.frames a
    else a

abbrev pub first_current : List StackFrame → ℕ
first_current [] = 0
first_current (f ∷ older) = f.current

-- `StackAllocator::create_checkpoint`: the checkpoint, or 0.
unfoldable pub create_checkpoint : StackAllocator → ℕ × StackAllocator
create_checkpoint a =
    let p = next_block a.blocks in
    if a.initialized
    then (if p == 0 then (0, take_block a) else (
      p,
      record (take_block a) {
        checkpoints = p ∷ a.checkpoints;
        saved_pos = update a.saved_pos p (first_current a.frames);
        stats = record a.stats { checkpoint_count = add32 a.stats.checkpoint_count 1 };
      },
    ))
    else (0, a)

abbrev pub one_less : StackStats → StackStats
one_less s = record s {
  checkpoint_count = if ltb 0 s.checkpoint_count then sub32 s.checkpoint_count 1 else 0;
}

-- The loop of `restore_checkpoint` and what follows it: `xs` from the checkpoint `cp` on. Where the
-- loop runs off the list, `checkpoint_stack` stays at its freed head.
unfoldable pub drop_checkpoints : ℕ → List ℕ → StackAllocator → StackAllocator
drop_checkpoints checkpoint [] a = a
drop_checkpoints checkpoint (p ∷ rest) a =
    let b : StackAllocator = record a { stats = one_less a.stats } in
    let more = drop_checkpoints checkpoint rest b in
    if p == checkpoint then record b { checkpoints = rest } else more

-- `StackAllocator::restore_checkpoint`
unfoldable pub restore_checkpoint : ℕ → StackAllocator → StackAllocator
restore_checkpoint checkpoint a =
    let b = free_to_checkpoint checkpoint a in
    if checkpoint == 0 then a else drop_checkpoints checkpoint b.checkpoints b

-- `StackAllocator::destroy_checkpoint`
unfoldable pub without : ℕ → List ℕ → List ℕ
without checkpoint [] = []
without checkpoint (p ∷ rest) = if p == checkpoint then rest else p ∷ without checkpoint rest

unfoldable pub has : ℕ → List ℕ → Bool
has checkpoint [] = false
has checkpoint (p ∷ rest) = if p == checkpoint then true else has checkpoint rest

unfoldable pub destroy_checkpoint : ℕ → StackAllocator → StackAllocator
destroy_checkpoint checkpoint a =
    if not (checkpoint == 0) && has checkpoint a.checkpoints
    then record a { checkpoints = without checkpoint a.checkpoints; stats = one_less a.stats }
    else a

-- `StackAllocator::reset`
unfoldable pub reset_from : List StackFrame → StackAllocator → StackAllocator
reset_from [] a = a
reset_from (f ∷ older) a = record a {
  frames = record f { current = f.start } ∷ older;
  checkpoints = [];
  stats = record a.stats {
    total_freed_bytes = (a.stats.total_freed_bytes + a.stats.current_usage) % 2 ^ 64;
    current_usage = 0;
  };
}

unfoldable pub reset : StackAllocator → StackAllocator
reset a = if a.initialized then reset_from a.frames a else a

-- The loop of `StackAllocator::shrink_to_fit` over the frames: how it leaves them.
unfoldable pub shrink_from : List StackFrame → StackAllocator → StackAllocator
shrink_from [] a = a
shrink_from (f ∷ []) a = a
shrink_from (f ∷ g ∷ older) a =
    let b : StackAllocator = record a {
      frames = g ∷ older;
      total_capacity = sub32 a.total_capacity f.size;
      frame_count = sub32 a.frame_count 1;
    } in
    let more = shrink_from (g ∷ older) b in
    if ltb 1 a.frame_count && sub32 f.current f.start == 0 then more else a

unfoldable pub shrink_to_fit : StackAllocator → Bool × StackAllocator
shrink_to_fit a =
    if a.initialized && ltb 1 a.frame_count then (true, shrink_from a.frames a) else (false, a)

-- `StackAllocator::validate_frame`
unfoldable pub validate_frame : StackFrame → Bool
validate_frame f =
    f.magic == stack_magic
    && f.canary == stack_canary
    && leb f.start f.current
    && leb f.current f.limit
