-- ===== src/X86/Frames/Tests.antt =====
-- The frame allocator at the bitmap that the kernel starts with.
use km_os.Prelude.{◌≡◌, refl, some, test_bit}
use km_os.X86.Bitmap.{mark, find_clear, first_clear}
use km_os.X86.Frames.{Frames, take_frame, init_frames}
use km_os.X86.Frames.Count.{Accounted, take_frame-Accounted, init_frames_lem}

abbrev first_taken : Frames
first_taken = record init_frames { bitmap = mark init_frames.bitmap 8 0; frames_used = 257 }

first_taken_runs : take_frame init_frames ≡ some (0x100000, first_taken)
unfolding take_frame find_clear first_clear test_bit init_frames
first_taken_runs = refl

take_frame-Accounted_example : Accounted first_taken
take_frame-Accounted_example =
    take_frame-Accounted init_frames first_taken 0x100000 init_frames_lem.0 init_frames_lem.2
      first_taken_runs
