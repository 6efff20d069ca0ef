-- ===== src/X86/Swap.antt =====
-- Swap devices and their slots: `struct swap_device` and the operations of class SwapManager in
-- src/kernel/arch/x86/swap.cc that allocate and free entries, add and remove devices.
pub mod Slots
pub mod Devices
mod Tests
use km_os.Prelude.{
  same_bytes, ℕ, zero, suc, ◌+◌, ◌-◌, ◌*◌, ◌/◌, ◌%◌, ◌^◌, Bool, true, false, List, [], ◌∷◌, Option,
  none, some, if◌then◌else◌, ◌==◌, ltb, add32, sub32, replicate, length,
}
use km_os.X86.Bitmap.{find_clear, mark, unmark}

-- `path` is a C string without its null byte. `read_page` and `write_page` are the function pointers
-- of the device: offset and physical address to the status returned. The bitmap has `bitmap_size`
-- words; a null bitmap is an empty one.
pub record Device : Type 0 where
  pub addr : ℕ
  pub kind : ℕ
  pub pages : ℕ
  pub inuse_pages : ℕ
  pub prio : ℕ
  pub path : List ℕ
  pub bitmap : List ℕ
  pub read_page : ℕ → ℕ → ℕ
  pub write_page : ℕ → ℕ → ℕ

-- `return -1`, as the 32-bit pattern that the callers see.
abbrev pub failure : ℕ
failure = 2 ^ 32 - 1

-- `swap_file_read_page` and `swap_file_write_page`
unfoldable pub swap_file_read_page : ℕ → ℕ → ℕ
swap_file_read_page offset buffer = failure

unfoldable pub swap_file_write_page : ℕ → ℕ → ℕ
swap_file_write_page offset buffer = failure

-- `swap_file_activate`, with what `kmalloc` returned for the bitmap: the status and the device.
unfoldable pub swap_file_activate : ℕ → Device → ℕ × Device
swap_file_activate block dev =
    if block == 0
    then (failure, record dev { pages = 65536 })
    else (0, record dev { pages = 65536; bitmap = replicate ((65536 + 31) / 32) 0 })

-- `SwapManager::find_swap_device`; `same_bytes` stands for `strcmp(dev->path, path) == 0`.
unfoldable pub find_swap_device : List Device → List ℕ → Option Device
find_swap_device [] path = none
find_swap_device (dev ∷ devs) path =
    if same_bytes dev.path path then some dev else find_swap_device devs path

-- The state that these operations change: the device list and `total_swap_pages`.
pub record Space : Type 0 where
  pub devices : List Device
  pub total_swap_pages : ℕ

-- `SwapManager::add_swap_device`, with what its three calls of `kmalloc` return (the device, its path and
-- its bitmap); type 0 is SWAP_TYPE_FILE.
unfoldable pub add_swap_device : ℕ → ℕ → ℕ → List ℕ → ℕ → ℕ → Space → ℕ × Space
unfolding find_swap_device swap_file_activate swap_file_read_page swap_file_write_page
add_swap_device dev_block path_block bitmap_block path kind priority s =
    elim (find_swap_device s.devices path) [
      | some _ ↦ (failure, s)
      | none ↦
          if dev_block == 0
          then (failure, s)
          else if path_block == 0
          then (failure, s)
          else if kind == 0
          then attach (swap_file_activate bitmap_block fresh)
          else (failure, s)
    ]
  where
    fresh : Device
    fresh = record {
      addr = dev_block;
      kind = kind;
      pages = 0;
      inuse_pages = 0;
      prio = priority;
      path = path;
      bitmap = [];
      read_page = swap_file_read_page;
      write_page = swap_file_write_page;
    }

    attach : ℕ × Device → ℕ × Space
    attach (status, dev) =
        if status == 0
        then (
          0,
          record {
            devices = dev ∷ s.devices;
            total_swap_pages = add32 s.total_swap_pages dev.pages;
          },
        )
        else (failure, s)

-- Taking the device at `addr` out of the list.
abbrev pub unlink_device : ℕ → List Device → List Device
unlink_device a [] = []
unlink_device a (dev ∷ devs) = if dev.addr == a then devs else dev ∷ unlink_device a devs

-- `SwapManager::remove_swap_device`; `swap_file_deactivate` returns 0.
unfoldable pub remove_swap_device : List ℕ → Space → ℕ × Space
unfolding find_swap_device
remove_swap_device path s = elim (find_swap_device s.devices path) [
  | none ↦ (failure, s)
  | some dev ↦ if ltb 0 dev.inuse_pages then (failure, s) else (
    0,
    record {
      devices = unlink_device dev.addr s.devices;
      total_swap_pages = sub32 s.total_swap_pages dev.pages;
    },
  )
]

-- `dev = dev->next`: what the rest of the list gives, past one device.
abbrev pub past_device : Device → Option (ℕ × ℕ × List Device) → Option (ℕ × ℕ × List Device)
past_device dev none = none
past_device dev (some (pos, offset, devs)) = some (suc pos, offset, dev ∷ devs)

-- `SwapManager::allocate_swap_entry`: the position of the device in the list, the offset in it, and
-- the devices with the slot marked.
unfoldable pub allocate_swap_entry : List Device → Option (ℕ × ℕ × List Device)
allocate_swap_entry [] = none
allocate_swap_entry (dev ∷ devs) =
    let later = past_device dev (allocate_swap_entry devs) in
    if ltb dev.inuse_pages dev.pages
    then elim (find_clear dev.bitmap 0) [
      | none ↦ later
      | some (idx, bit) ↦
          some (0, idx * 32 + bit, record dev { bitmap = mark dev.bitmap idx bit } ∷ devs)
    ]
    else later

-- `(entry >> 24) & 0xFF` and `entry & 0xFFFFFF`
abbrev pub entry_device : ℕ → ℕ
entry_device entry = entry / 2 ^ 24 % 2 ^ 8

abbrev pub entry_offset : ℕ → ℕ
entry_offset entry = entry % 2 ^ 24

-- The walk of `free_swap_entry` to the device, and the slot cleared there.
unfoldable pub free_slot : ℕ → ℕ → List Device → List Device
free_slot pos offset [] = []
free_slot zero offset (dev ∷ devs) =
    (if ltb offset dev.pages
      then record dev { bitmap = unmark dev.bitmap (offset / 32) (offset % 32) }
      else dev)
    ∷ devs
free_slot (suc pos) offset (dev ∷ devs) = dev ∷ free_slot pos offset devs

-- `SwapManager::free_swap_entry`
unfoldable pub free_swap_entry : ℕ → List Device → List Device
unfolding free_slot
free_swap_entry entry devs = free_slot (entry_device entry) (entry_offset entry) devs
