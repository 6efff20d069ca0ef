-- ===== src/Runtime/Stack/Tests.antt =====
-- An allocation of 100 bytes in a frame of 4096, and the way back over a checkpoint.
use km_os.Prelude.{◌≡◌, refl, arith, true, [], ◌∷◌}
use km_os.Runtime.Stack.{StackFrame, StackAllocator, new_frame, empty_stats, alloc}
use km_os.Runtime.Stack.Ops.{create_checkpoint, restore_checkpoint}
use km_os.Runtime.Stack.Checkpoints.{IsFrame, Allocated, alloc-Allocated, restore_checkpoint-alloc}

abbrev frame : StackFrame
frame = new_frame 0x200000 4096

abbrev ready : StackAllocator
ready = record {
  frames = frame ∷ [];
  checkpoints = [];
  saved_pos = λ p. 0;
  stats = empty_stats;
  total_capacity = 4096;
  frame_count = 1;
  overflow_detection = true;
  underflow_detection = true;
  initialized = true;
  blocks = 0x300000 ∷ [];
}

frame-IsFrame : IsFrame frame
frame-IsFrame = record {
  positive = omega arith;
  above = omega arith;
  below = omega arith;
  range = omega arith;
  canary = refl;
}

alloc-Allocated_example : Allocated 100 frame [] ready (alloc 100 16 ready)
alloc-Allocated_example =
    alloc-Allocated 100 frame [] ready frame-IsFrame refl refl (omega arith) (omega arith)

restore_checkpoint-alloc_example :
    ((create_checkpoint ready).0 ≡ 0x300000)
    × ((restore_checkpoint 0x300000 (alloc 100 16 (create_checkpoint ready).1).1).frames
        ≡ frame ∷ [])
    × ((restore_checkpoint 0x300000 (alloc 100 16 (create_checkpoint ready).1).1).checkpoints ≡ [])
restore_checkpoint-alloc_example =
    restore_checkpoint-alloc 100 0x300000 frame [] [] ready frame-IsFrame refl refl refl
      (omega arith) (omega arith) (omega arith)
