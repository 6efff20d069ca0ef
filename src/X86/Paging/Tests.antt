-- ===== src/X86/Paging/Tests.antt =====
-- Paging at a new directory with one table.
use km_os.Prelude.{◌≡◌, refl, some, none, arith, test_bit}
use km_os.X86.Paging.{
  PageDir, new_directory, find_table, install_table, set_entry, mapped_entry, empty_entry,
  get_physical_addr,
}
use km_os.X86.Paging.Laws.{get_physical_addr-map}

abbrev one_table : PageDir
one_table = install_table (new_directory 0x8000) 0x400000 0x9000

one_table_found : find_table one_table 0x401000 ≡ some (λ i. empty_entry)
unfolding find_table install_table new_directory
one_table_found = refl

get_physical_addr-map_example :
    get_physical_addr
      (set_entry one_table 0x401000 (λ i. empty_entry) (mapped_entry 0xa000 7))
      0x401123
    ≡ 0xa123
unfolding test_bit
get_physical_addr-map_example =
    get_physical_addr-map one_table 0x401000 0x401123 0xa000 7 (λ i. empty_entry) one_table_found
      (omega arith)

none_found : find_table (new_directory 0x8000) 0x400000 ≡ none
unfolding find_table new_directory
none_found = refl
