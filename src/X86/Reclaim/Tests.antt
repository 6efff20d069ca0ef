-- ===== src/X86/Reclaim/Tests.antt =====
-- Reclaim at a state with one resident page and one swap device of 32 free slots.
use km_os.Prelude.{ℕ, ◌≡◌, ◌<◌, ◌⊎◌, ◌-◌, refl, some, none, arith, true, [], ◌∷◌}
use km_os.X86.Bitmap.{slot}
use km_os.X86.Frames.{Frames, max_frames, init_frames}
use km_os.X86.Frames.Laws.{Taken}
use km_os.X86.Frames.Count.{init_frames_lem}
use km_os.X86.Paging.{
  PageDir, new_directory, install_table, set_entry, mapped_entry, empty_entry, get_physical_addr,
}
use km_os.X86.Lru.{Lru}
use km_os.X86.Lru.Shape.{Lists}
use km_os.X86.Swap.{Device, swap_file_read_page, swap_file_write_page}
use km_os.X86.Memory.{Memory}
use km_os.X86.Reclaim.{
  check_memory_pressure, get_memory_stats, alloc_frame, reclaim_pages, unmap_page,
}
use km_os.X86.Reclaim.Alloc.{check_memory_pressure_diverges, alloc_frame_lem}
use km_os.X86.Reclaim.Unmap.{unmap_page_lem}
use km_os.X86.Reclaim.SwapOut.{Untouched, attempted, reclaim_pages_nothing}

abbrev one_page : PageDir
one_page =
    set_entry (install_table (new_directory 0x8000) 0x401000 0x9000) 0x401000 (λ i. empty_entry)
      (mapped_entry 0xa000 7)

abbrev file_device : Device
file_device = record {
  addr = 0x5000;
  kind = 0;
  pages = 32;
  inuse_pages = 0;
  prio = 1;
  path = 47 ∷ [];
  bitmap = 0 ∷ [];
  read_page = swap_file_read_page;
  write_page = swap_file_write_page;
}

abbrev listed : Lru
listed = record {
  links = record { next = λ p. 0; prev = λ p. 0 };
  page = λ p. record { virtual_addr = 0x401000; access_time = 1; flags = 0 };
  head = 10;
  tail = 10;
  count = 1;
  clock = 1;
}

listed-Lists : Lists listed (10 ∷ [])
listed-Lists = record {
  chain = omega arith;
  distinct = omega arith;
  tail_last = refl;
  counted = refl;
  bounded = omega arith;
}

abbrev with_device : Device → Memory
with_device dev = record {
  frames = init_frames;
  dirs = λ p. one_page;
  current = 0x7000;
  heap = 0x6000 ∷ [];
  swap = record {
    devices = dev ∷ [];
    total_swap_pages = 32;
    used_swap_pages = 0;
    lru = listed;
    swap_in_count = 0;
    swap_out_count = 0;
    reclaim_attempts = 0;
  };
}

check_memory_pressure_example :
    (check_memory_pressure 9 (with_device file_device) ≡ none)
    × (get_memory_stats 9 (with_device file_device) ≡ none)
check_memory_pressure_example = check_memory_pressure_diverges 9 (with_device file_device)

alloc_frame_example :
    ((addr : ℕ) × (f : Frames) × Taken init_frames (some (addr, f))
      × (alloc_frame (λ a b. a - b) 2 3 (with_device file_device)
          ≡ some (addr, record (with_device file_device) { frames = f })))
    ⊎ (((k : ℕ) → k < max_frames → slot init_frames.bitmap k ≡ true)
        × (alloc_frame (λ a b. a - b) 2 3 (with_device file_device) ≡ none))
alloc_frame_example = alloc_frame_lem (λ a b. a - b) 1 3 (with_device file_device) init_frames_lem.0

unmap_page_example :
    get_physical_addr ((unmap_page 0x7000 0x401000 (with_device file_device)).dirs 0x7000) 0x401004
    ≡ 0
unmap_page_example = unmap_page_lem 0x7000 0x401000 0x401004 (with_device file_device)

reclaim_pages_nothing_example :
    (t : Memory) × (reclaim_pages (λ a b. a - b) 2 2 16 (with_device file_device) ≡ some (0, t))
    × Untouched (attempted (with_device file_device)) t
unfolding swap_file_write_page
reclaim_pages_nothing_example =
    reclaim_pages_nothing (λ a b. a - b) 1 2 16 (with_device file_device) (10 ∷ []) listed-Lists
      (omega arith) (λ offset phys e. absurd (omega (arith, e)), tt)
