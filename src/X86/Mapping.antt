-- ===== src/X86/Mapping.antt =====
-- `VMM::get_page_table` with its allocations and `VMM::map_page` of src/kernel/arch/x86/vmm.cc. `fuel`
-- bounds the calls of `alloc_frame`, `lru` the loops over the page list.
pub mod Laws
mod Tests
use km_os.Prelude.{ℕ, ◌-◌, ◌^◌, Option, none, some, if◌then◌else◌, ◌==◌, update}
use km_os.X86.Frames.{free_frame}
use km_os.X86.Paging.{
  Entry, PageDir, pd_offset, empty_entry, install_table, set_entry, mapped_entry,
}
use km_os.X86.Swap.{failure}
use km_os.X86.Memory.{Memory, M, ◌>>=◌, kmalloc, set_dir}
use km_os.X86.Reclaim.{alloc_frame}

-- `pd->page_tables[table_idx]` after its `kmalloc` has failed.
abbrev pub drop_table : PageDir → ℕ → PageDir
drop_table pd addr = record pd { page_tables = update pd.page_tables (pd_offset addr) none }

-- The end of `get_page_table`, with the frame and what `kmalloc` returned.
unfoldable pub place_table : ℕ → ℕ → ℕ → ℕ → M (Option (ℕ → Entry))
place_table dir addr phys block s =
    if block == 0
    then some (
      none,
      record (set_dir dir (drop_table (s.dirs dir) addr) s) { frames = free_frame phys s.frames },
    )
    else some (some (λ i. empty_entry), set_dir dir (install_table (s.dirs dir) addr phys) s)

unfoldable pub new_table : ℕ → ℕ → ℕ → M (Option (ℕ → Entry))
new_table dir addr phys s =
    if phys == 0 then some (none, s) else (kmalloc >>= λ block. place_table dir addr phys block) s

-- The writes of `map_page` to the table found, if there is one.
unfoldable pub write_entry : ℕ → ℕ → ℕ → ℕ → Option (ℕ → Entry) → M ℕ
write_entry dir addr phys flags none s = some (failure, s)
write_entry dir addr phys flags (some table) s =
    some (0, set_dir dir (set_entry (s.dirs dir) addr table (mapped_entry phys flags)) s)

module _ (distance : ℕ → ℕ → ℕ) (fuel lru : ℕ) where
  -- `get_page_table(pd, virtual_addr, 1)`
  unfoldable pub get_page_table : ℕ → ℕ → M (Option (ℕ → Entry))
  get_page_table dir addr s =
      if ((s.dirs dir).tables (pd_offset addr)).present
      then some ((s.dirs dir).page_tables (pd_offset addr), s)
      else (alloc_frame distance fuel lru >>= λ phys. new_table dir addr phys) s

  unfoldable pub map_page : ℕ → ℕ → ℕ → ℕ → M ℕ
  map_page dir addr phys flags =
      get_page_table dir addr >>= λ table. write_entry dir addr phys flags table
