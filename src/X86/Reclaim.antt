-- ===== src/X86/Reclaim.antt =====
-- Memory pressure and reclaim: the calls from `VMM::alloc_frame` in src/kernel/arch/x86/vmm.cc into
-- class SwapManager of swap.cc and back. Recursion and loops take fuel; `none` is a call that has
-- not returned.
pub mod Alloc
pub mod SwapOut
pub mod Unmap
mod Tests
use km_os.Prelude.{
  ℕ, zero, suc, ◌+◌, ◌*◌, ◌/◌, ◌%◌, ◌^◌, List, [], ◌∷◌, Option, none, some, if◌then◌else◌, ◌==◌,
  ltb, leb, add32, sub32, mul32, bit_or, update, false,
}
use km_os.X86.Frames.{Frames, take_frame, free_frame}
use km_os.X86.Paging.{
  Entry, PageDir, pt_offset, find_table, set_entry, get_physical_addr, add_swapped_page,
}
use km_os.X86.Lru.{Lru, find_victim_page, remove_from_lru}
use km_os.X86.Swap.{Device, allocate_swap_entry, free_swap_entry}
use km_os.X86.Memory.{SwapManager, Memory, M, set_dir, set_swap}

-- `struct memory_stats`; `cached_pages` is always 0.
pub record MemoryStats : Type 0 where
  pub total_pages : ℕ
  pub free_pages : ℕ
  pub used_pages : ℕ
  pub swap_total : ℕ
  pub swap_free : ℕ
  pub swap_used : ℕ
  pub pressure_level : ℕ

-- The thresholds of `check_memory_pressure`, over the statistics.
abbrev pub pressure_of : MemoryStats → ℕ
pressure_of stats =
    if stats.free_pages == 0
    then 4
    else let usage_percent = mul32 stats.used_pages 100 / stats.total_pages in
      if leb 98 usage_percent
      then 4
      else if leb 95 usage_percent
      then 3
      else if leb 90 usage_percent
      then 2
      else if leb 80 usage_percent
      then 1
      else 0

-- `SwapManager::check_memory_pressure` and `SwapManager::get_memory_stats` call one another.
unfoldable mutual
  pub check_memory_pressure : ℕ → Memory → Option ℕ
  check_memory_pressure zero s = none
  check_memory_pressure (suc fuel) s = elim (get_memory_stats fuel s) [
    | none ↦ none
    | some stats ↦ some (pressure_of stats)
  ]

  pub get_memory_stats : ℕ → Memory → Option MemoryStats
  get_memory_stats zero s = none
  get_memory_stats (suc fuel) s = elim (check_memory_pressure fuel s) [
    | none ↦ none
    | some level ↦ some (record {
      total_pages = s.frames.frame_count;
      free_pages = sub32 s.frames.frame_count s.frames.frames_used;
      used_pages = s.frames.frames_used;
      swap_total = s.swap.total_swap_pages;
      swap_free = sub32 s.swap.total_swap_pages s.swap.used_swap_pages;
      swap_used = s.swap.used_swap_pages;
      pressure_level = level;
    })
  ]

-- `VMM::unmap_page`
unfoldable pub unmap_page : ℕ → ℕ → Memory → Memory
unmap_page dir addr s = elim (find_table (s.dirs dir) addr) [
  | none ↦ s
  | some table ↦
      let e = table (pt_offset addr) in
      if e.present
      then set_dir dir (set_entry (s.dirs dir) addr table (record e { present = false }))
          (record s { frames = free_frame (e.frame * 2 ^ 12) s.frames })
      else s
]

-- `VMM::add_swapped_page`, whose status the caller ignores.
unfoldable pub record_swapped : ℕ → ℕ → ℕ → Memory → Memory
record_swapped dir addr entry s = elim s.heap [
  | [] ↦ s
  | block ∷ blocks ↦
      if block == 0
      then record s { heap = blocks }
      else set_dir dir (add_swapped_page (s.dirs dir) addr entry) (record s { heap = blocks })
]

abbrev pub device_at : List Device → ℕ → Option Device
device_at [] pos = none
device_at (dev ∷ devs) zero = some dev
device_at (dev ∷ devs) (suc pos) = device_at devs pos

-- `dev->inuse_pages = f(dev->inuse_pages)`
abbrev pub adjust_inuse : (ℕ → ℕ) → List Device → ℕ → List Device
adjust_inuse f [] pos = []
adjust_inuse f (dev ∷ devs) zero = record dev { inuse_pages = f dev.inuse_pages } ∷ devs
adjust_inuse f (dev ∷ devs) (suc pos) = dev ∷ adjust_inuse f devs pos

abbrev pub first_addr : List Device → ℕ
first_addr [] = 0
first_addr (dev ∷ devs) = dev.addr

-- `dev - swap_devices` subtracts pointers into separate blocks of memory, which C++ leaves
-- undefined: `distance` stands for what the compiled code makes of the two addresses.
module _ (distance : ℕ → ℕ → ℕ) where
  -- `((u32)(dev - swap_devices) << 24) | offset`
  abbrev pub swap_entry_id : List Device → Device → ℕ → ℕ
  swap_entry_id devs dev offset =
      bit_or (distance dev.addr (first_addr devs) * 2 ^ 24 % 2 ^ 32) offset

  -- The end of `swap_out_page`, once the page is written. `fuel` bounds the loop of
  -- `remove_from_lru`.
  unfoldable pub finish_swap_out : ℕ → ℕ → ℕ → ℕ → M ℕ
  unfolding record_swapped unmap_page
  finish_swap_out fuel addr pos entry s =
      let t = unmap_page s.current addr (record_swapped s.current addr entry s) in
      elim (remove_from_lru fuel addr t.swap.lru) [
        | none ↦ none
        | some lru ↦
            let w = t.swap in
            some (
              entry,
              set_swap
                  (record w {
                    devices = adjust_inuse (λ n. add32 n 1) w.devices pos;
                    used_swap_pages = add32 w.used_swap_pages 1;
                    lru = lru;
                    swap_out_count = add32 w.swap_out_count 1;
                  })
                  t,
            )
      ]

  -- `SwapManager::swap_out_page`
  unfoldable pub swap_out_page : ℕ → ℕ → M ℕ
  unfolding finish_swap_out
  swap_out_page fuel addr s = elim (allocate_swap_entry s.swap.devices) [
    | none ↦ some (0, s)
    | some (pos, offset, devs) ↦
        let w = s.swap in
        let t = set_swap (record w { devices = devs }) s in
        let phys = get_physical_addr (s.dirs s.current) addr in
        if phys == 0 then some (0, t) else elim (device_at devs pos) [
          | none ↦ some (0, t)
          | some dev ↦
              let entry = swap_entry_id devs dev offset in
              if dev.write_page offset phys == 0
              then finish_swap_out fuel addr pos entry t
              else some (0, set_swap (record w { devices = free_swap_entry entry devs }) t)
        ]
  ]

  -- The loop of `reclaim_pages`; `lru` bounds the loops over the page list.
  unfoldable pub reclaim_loop : ℕ → ℕ → ℕ → ℕ → M ℕ
  reclaim_loop zero lru target reclaimed s = none
  reclaim_loop (suc fuel) lru target reclaimed s =
      if ltb reclaimed target
      then (if ltb 0 s.swap.lru.count
          then elim (find_victim_page lru s.swap.lru) [
            | none ↦ none
            | some victim ↦
                if victim == 0
                then some (reclaimed, s)
                else elim (swap_out_page lru (s.swap.lru.page victim).virtual_addr s) [
                  | none ↦ none
                  | some (entry, t) ↦
                      let more = reclaim_loop fuel lru target (reclaimed + 1) t in
                      if entry == 0 then some (reclaimed, t) else more
                ]
          ]
          else some (reclaimed, s))
      else some (reclaimed, s)

  -- `SwapManager::reclaim_pages`
  unfoldable pub reclaim_pages : ℕ → ℕ → ℕ → M ℕ
  unfolding reclaim_loop
  reclaim_pages fuel lru target s =
      let w = s.swap in
      reclaim_loop fuel lru target 0
        (set_swap (record w { reclaim_attempts = add32 w.reclaim_attempts 1 }) s)

  -- `VMM::alloc_frame`: the frame's address, or 0.
  unfoldable pub alloc_frame : ℕ → ℕ → M ℕ
  alloc_frame zero lru s = none
  alloc_frame (suc fuel) lru s = elim (take_frame s.frames) [
    | some (addr, frames) ↦ some (addr, record s { frames = frames })
    | none ↦ elim (check_memory_pressure fuel s) [
      | none ↦ none
      | some pressure ↦
          if leb 2 pressure
          then elim (reclaim_pages fuel lru (if pressure == 4 then 64 else 16) s) [
            | none ↦ none
            | some (reclaimed, t) ↦
                let again = alloc_frame fuel lru t in if ltb 0 reclaimed then again else some (0, t)
          ]
          else some (0, s)
    ]
  ]
