-- ===== src/X86/Frames.antt =====
-- The physical frame allocator of src/kernel/arch/x86/vmm.cc (`frame_bitmap`, `frame_count`,
-- `frames_used` of class VMM). The way on when no frame is free stands in `X86.Reclaim`.
pub mod Laws
pub mod Count
mod Tests
use km_os.Prelude.{
  ℕ, ◌+◌, ◌*◌, ◌/◌, ◌%◌, ◌≡◌, ◌-◌, Bool, List, ◌++◌, Option, none, some, if◌then◌else◌, ltb, length,
  replicate, add32, sub32, mul32,
}
use km_os.X86.Bitmap.{full_word, find_clear, mark, unmark, slot, Words}

abbrev pub frame_size : ℕ
frame_size = 4096

abbrev pub max_frames : ℕ
max_frames = 0x100000

abbrev pub phys_mem_start : ℕ
phys_mem_start = 0x100000

pub record Frames : Type 0 where
  pub bitmap : List ℕ
  pub frame_count : ℕ
  pub frames_used : ℕ

-- The first statements of `VMM::init`: every word 0, then those of the first megabyte full.
unfoldable pub init_frames : Frames
init_frames = record {
  bitmap =
      replicate (phys_mem_start / frame_size / 32) full_word
      ++ replicate (max_frames / 32 - phys_mem_start / frame_size / 32) 0;
  frame_count = max_frames;
  frames_used = phys_mem_start / frame_size;
}

-- The scan of `VMM::alloc_frame`: the address of the frame taken.
unfoldable pub take_frame : Frames → Option (ℕ × Frames)
take_frame f = elim (find_clear f.bitmap 0) [
  | none ↦ none
  | some (idx, bit) ↦ some (
    mul32 (idx * 32 + bit) frame_size,
    record f { bitmap = mark f.bitmap idx bit; frames_used = add32 f.frames_used 1 },
  )
]

-- `VMM::free_frame`
unfoldable pub free_frame : ℕ → Frames → Frames
free_frame addr f =
    let idx = addr / frame_size in
    if ltb idx max_frames
    then record f {
      bitmap = unmark f.bitmap (idx / 32) (idx % 32);
      frames_used = sub32 f.frames_used 1;
    }
    else f

-- The state of the frame at `addr`.
abbrev pub in_use : Frames → ℕ → Bool
in_use f addr = slot f.bitmap (addr / frame_size)

pub record IsValid (f : Frames) : Type 0 where
  pub words : Words f.bitmap
  pub size : length f.bitmap * 32 ≡ max_frames
