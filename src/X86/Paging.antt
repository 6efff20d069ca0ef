-- ===== src/X86/Paging.antt =====
-- Page directories and page tables: `struct page_directory`, `struct page_table_entry` and the
-- operations of src/kernel/arch/x86/vmm.cc on one directory. Entries keep the fields that the code
-- writes; a table is reached only through its directory, which owns it.
pub mod Laws
mod Tests
use km_os.Prelude.{
  ℕ, ◌+◌, ◌*◌, ◌/◌, ◌%◌, ◌^◌, Bool, true, false, ◌&&◌, List, [], ◌∷◌, Option, none, some,
  if◌then◌else◌, ◌==◌, update, add32, test_bit,
}

-- VADDR_PD_OFFSET, VADDR_PT_OFFSET and VADDR_PG_OFFSET of x86.h, at a 32-bit address.
abbrev pub pd_offset : ℕ → ℕ
pd_offset addr = addr / 2 ^ 22

abbrev pub pt_offset : ℕ → ℕ
pt_offset addr = addr / 2 ^ 12 % 2 ^ 10

abbrev pub pg_offset : ℕ → ℕ
pg_offset addr = addr % 2 ^ 12

-- `struct page_directory_entry` and `struct page_table_entry`: present, writable, user, frame.
pub record Entry : Type 0 where
  pub present : Bool
  pub writable : Bool
  pub user : Bool
  pub frame : ℕ

-- `page_tables[i]` is a pointer, null where there is no table; `swapped_pages` is a linked list of
-- (virtual address, swap entry), newest first.
pub record PageDir : Type 0 where
  pub tables : ℕ → Entry
  pub page_tables : ℕ → Option (ℕ → Entry)
  pub physical_address : ℕ
  pub swapped_pages : List (ℕ × ℕ)

-- What `create_page_directory` and `get_page_table` fill a new directory or table with.
abbrev pub empty_entry : Entry
empty_entry = record { present = false; writable = true; user = false; frame = 0 }

-- `VMM::create_page_directory` after its allocations, with the frame for `physical_address`.
unfoldable pub new_directory : ℕ → PageDir
new_directory frame = record {
  tables = λ i. empty_entry;
  page_tables = λ i. none;
  physical_address = frame;
  swapped_pages = [];
}

-- `get_page_table(pd, virtual_addr, 0)`
unfoldable pub find_table : PageDir → ℕ → Option (ℕ → Entry)
find_table pd addr =
    if (pd.tables (pd_offset addr)).present then pd.page_tables (pd_offset addr) else none

-- The writes of `get_page_table` that install a new table, with its frame.
unfoldable pub install_table : PageDir → ℕ → ℕ → PageDir
install_table pd addr phys = record pd {
  tables =
      update pd.tables (pd_offset addr)
        (record { present = true; writable = true; user = false; frame = phys / 2 ^ 12 });
  page_tables = update pd.page_tables (pd_offset addr) (some (λ i. empty_entry));
}

-- `table[page_idx] = e`, through the directory.
unfoldable pub set_entry : PageDir → ℕ → (ℕ → Entry) → Entry → PageDir
set_entry pd addr table e = record pd {
  page_tables = update pd.page_tables (pd_offset addr) (some (update table (pt_offset addr) e));
}

-- The four writes of `map_page`; PG_PRESENT, PG_WRITE and PG_USER are the bits 0, 1 and 2.
abbrev pub mapped_entry : ℕ → ℕ → Entry
mapped_entry phys flags = record {
  present = test_bit flags 0;
  writable = test_bit flags 1;
  user = test_bit flags 2;
  frame = phys / 2 ^ 12;
}

-- `VMM::get_physical_addr`
unfoldable pub get_physical_addr : PageDir → ℕ → ℕ
get_physical_addr pd addr = elim (find_table pd addr) [
  | none ↦ 0
  | some table ↦
      let e = table (pt_offset addr) in
      if e.present then add32 (e.frame * 2 ^ 12) (pg_offset addr) else 0
]

-- `VMM::get_swap_entry`, `VMM::remove_swapped_page` on the list, and the write of
-- `VMM::add_swapped_page`.
unfoldable pub get_swap_entry : List (ℕ × ℕ) → ℕ → ℕ
get_swap_entry [] addr = 0
get_swap_entry ((virtual_addr, swap_entry) ∷ rest) addr =
    if virtual_addr == addr then swap_entry else get_swap_entry rest addr

unfoldable pub remove_swapped_page : List (ℕ × ℕ) → ℕ → List (ℕ × ℕ)
remove_swapped_page [] addr = []
remove_swapped_page ((virtual_addr, swap_entry) ∷ rest) addr =
    if virtual_addr == addr
    then rest
    else (virtual_addr, swap_entry) ∷ remove_swapped_page rest addr

abbrev pub add_swapped_page : PageDir → ℕ → ℕ → PageDir
add_swapped_page pd addr entry = record pd { swapped_pages = (addr, entry) ∷ pd.swapped_pages }
