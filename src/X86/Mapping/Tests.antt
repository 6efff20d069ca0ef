-- ===== src/X86/Mapping/Tests.antt =====
-- Mapping a page in a new directory, with the frames that the kernel starts with.
use km_os.Prelude.{ℕ, ◌≡◌, refl, some, arith, [], ◌∷◌, test_bit}
use km_os.X86.Bitmap.{mark, find_clear, first_clear}
use km_os.X86.Frames.{Frames, init_frames, take_frame}
use km_os.X86.Paging.{new_directory}
use km_os.X86.Memory.{Memory}
use km_os.X86.Mapping.{map_page}
use km_os.X86.Mapping.Laws.{Outcome, map_page-Outcome}

abbrev next_frames : Frames
next_frames = record init_frames { bitmap = mark init_frames.bitmap 8 0; frames_used = 257 }

next_frames_run : take_frame init_frames ≡ some (0x100000, next_frames)
unfolding take_frame find_clear first_clear test_bit init_frames
next_frames_run = refl

abbrev fresh : Memory
fresh = record {
  frames = init_frames;
  dirs = λ p. new_directory 0x8000;
  current = 0x7000;
  heap = 0x6000 ∷ [];
  swap = record {
    devices = [];
    total_swap_pages = 0;
    used_swap_pages = 0;
    lru = record {
      links = record { next = λ p. 0; prev = λ p. 0 };
      page = λ p. record { virtual_addr = 0; access_time = 0; flags = 0 };
      head = 0;
      tail = 0;
      count = 0;
      clock = 0;
    };
    swap_in_count = 0;
    swap_out_count = 0;
    reclaim_attempts = 0;
  };
}

map_page-Outcome_example :
    (ret : ℕ) × (t : Memory) × (map_page (λ a b. a) 1 1 0x7000 0x401000 0xa000 7 fresh
      ≡ some (ret, t))
    × Outcome 0x7000 0x401000 0xa000 7 fresh ret t
unfolding new_directory
map_page-Outcome_example =
    map_page-Outcome (λ a b. a) 0 1 0x7000 0x401000 0xa000 7 0x100000 fresh next_frames
      (omega arith) next_frames_run (λ e. cc)
