-- ===== src/X86/Swap/Tests.antt =====
-- Swap devices at one device of 64 slots, and at a first device in an empty list.
use km_os.Prelude.{◌≡◌, ◌-◌, ◌^◌, refl, some, [], ◌∷◌, arith, test_bit, set_bit}
use km_os.X86.Bitmap.{find_clear, first_clear}
use km_os.X86.Swap.{
  Device, Space, allocate_swap_entry, free_slot, add_swap_device, find_swap_device,
  swap_file_activate,
}
use km_os.X86.Swap.Slots.{
  IsSized, taken, Allocated, allocate_swap_entry-Allocated, free_slot-allocate,
}

abbrev half_full : Device
half_full = record {
  addr = 0x5000;
  kind = 0;
  pages = 64;
  inuse_pages = 34;
  prio = 1;
  path = 47 ∷ 115 ∷ [];
  bitmap = (2 ^ 32 - 1) ∷ 5 ∷ [];
  read_page = λ offset buffer. 0;
  write_page = λ offset buffer. 0;
}

abbrev half_full_next : Device
half_full_next = record half_full { bitmap = (2 ^ 32 - 1) ∷ 7 ∷ [] }

half_full-IsSized : IsSized (half_full ∷ [])
half_full-IsSized = omega arith

half_full_runs : allocate_swap_entry (half_full ∷ []) ≡ some (0, 33, half_full_next ∷ [])
unfolding allocate_swap_entry find_clear first_clear test_bit set_bit
half_full_runs = refl

allocate_swap_entry_example : Allocated (half_full ∷ []) (some (0, 33, half_full_next ∷ []))
unfolding allocate_swap_entry find_clear first_clear test_bit set_bit
allocate_swap_entry_example = allocate_swap_entry-Allocated (half_full ∷ []) half_full-IsSized

free_slot-allocate_example :
    taken (free_slot 0 33 (half_full_next ∷ [])) 0 33 ≡ taken (half_full ∷ []) 0 33
free_slot-allocate_example =
    free_slot-allocate (half_full ∷ []) (half_full_next ∷ []) 0 33 0 33 half_full-IsSized
      half_full_runs

abbrev no_space : Space
no_space = record { devices = []; total_swap_pages = 0 }

add_runs : (add_swap_device 0x5000 0x6000 0x7000 (47 ∷ []) 0 1 no_space).0 ≡ 0
unfolding add_swap_device find_swap_device swap_file_activate
add_runs = refl
