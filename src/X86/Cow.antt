-- ===== src/X86/Cow.antt =====
-- Copy on write: class COWManager of src/kernel/arch/x86/cow.cc, its lists of pages and mappings. What
-- `slab_allocator.cache_alloc` returns stands in `blocks`, 0 for its failure; when it runs out every
-- further call fails. `slab_allocator.cache_free` has no effect here.
pub mod Ops
pub mod Counting
pub mod Search
pub mod Breaking
pub mod Forking
mod Tests
use km_os.Prelude.{
  ℕ, zero, suc, ◌+◌, ◌-◌, Bool, ◌&&◌, ◌||◌, not, List, [], ◌∷◌, Option, none, some, if◌then◌else◌,
  ◌==◌, ltb, leb, add32, sub32, Links, update, push_front, unlink,
}
use km_os.X86.Frames.{free_frame}
use km_os.X86.Memory.{Memory, next_block, blocks_left}

-- COW_MAGIC and MAX_COW_REFS of cow.h.
abbrev pub cow_magic : ℕ
cow_magic = 0xC0BABE1

abbrev pub max_cow_refs : ℕ
max_cow_refs = 65536

-- `struct cow_page`, its links apart.
pub record CowPage : Type 0 where
  pub physical_addr : ℕ
  pub ref_count : ℕ
  pub magic : ℕ

pub record CowMapping : Type 0 where
  pub virtual_addr : ℕ
  pub size : ℕ
  pub flags : ℕ
  pub owner_pd : ℕ
  pub cow_page : ℕ

-- Class COWManager, with the memory it works on and the bytes of physical memory. `cow_mappings` is
-- the singly linked list of the mappings with their addresses, newest first.
pub record CowManager : Type 0 where
  pub memory : Memory
  pub contents : ℕ → ℕ
  pub blocks : List ℕ
  pub links : Links
  pub page : ℕ → CowPage
  pub cow_pages : ℕ
  pub cow_mappings : List (ℕ × CowMapping)
  pub total_cow_pages : ℕ
  pub total_cow_mappings : ℕ

-- A pointer that is null or to a page without the magic.
abbrev pub is_bad : CowManager → ℕ → Bool
is_bad c p = p == 0 || not ((c.page p).magic == cow_magic)

-- The writes of `alloc_cow_page` to the block it got.
unfoldable pub place_cow_page : ℕ → ℕ → CowManager → CowManager
place_cow_page p phys c = record c {
  links = push_front p c.cow_pages c.links;
  page = update c.page p (record { physical_addr = phys; ref_count = 1; magic = cow_magic });
  cow_pages = p;
  total_cow_pages = add32 c.total_cow_pages 1;
}

-- `COWManager::alloc_cow_page`
unfoldable pub alloc_cow_page : ℕ → CowManager → ℕ × CowManager
alloc_cow_page phys c =
    let p = next_block c.blocks in
    let d : CowManager = record c { blocks = blocks_left c.blocks } in
    if p == 0 then (0, d) else (p, place_cow_page p phys d)

-- `COWManager::free_cow_page`
unfoldable pub free_cow_page : ℕ → CowManager → CowManager
free_cow_page p c = if is_bad c p then c else record c {
  links = unlink p c.links;
  cow_pages = if c.links.prev p == 0 then c.links.next p else c.cow_pages;
  total_cow_pages = sub32 c.total_cow_pages 1;
}

-- The loop of `find_cow_page`.
unfoldable pub find_cow_from : ℕ → CowManager → ℕ → ℕ → Option ℕ
find_cow_from zero c p phys = none
find_cow_from (suc fuel) c p phys =
    let rest = find_cow_from fuel c (c.links.next p) phys in
    if p == 0
    then some 0
    else if (c.page p).physical_addr == phys && (c.page p).magic == cow_magic
    then some p
    else rest

-- `COWManager::find_cow_page`: the page, or 0; `none` is a loop that has not ended.
abbrev pub find_cow_page : ℕ → ℕ → CowManager → Option ℕ
find_cow_page fuel phys c = find_cow_from fuel c c.cow_pages phys

abbrev pub set_refs : ℕ → ℕ → CowManager → CowManager
set_refs p n c = record c { page = update c.page p (record (c.page p) { ref_count = n }) }

-- `COWManager::inc_cow_ref`
unfoldable pub inc_cow_ref : ℕ → CowManager → CowManager
inc_cow_ref p c =
    if is_bad c p
    then c
    else if ltb (c.page p).ref_count max_cow_refs
    then set_refs p (add32 (c.page p).ref_count 1) c
    else c

abbrev pub set_memory : Memory → CowManager → CowManager
set_memory m c = record c { memory = m }

abbrev pub give_frame : ℕ → Memory → Memory
give_frame addr m = record m { frames = free_frame addr m.frames }

-- What `dec_cow_ref` and `optimize_cow_pages` do with a page without references.
unfoldable pub drop_cow_page : ℕ → CowManager → CowManager
drop_cow_page p c = free_cow_page p (set_memory (give_frame (c.page p).physical_addr c.memory) c)

-- `COWManager::dec_cow_ref`
unfoldable pub dec_cow_ref : ℕ → CowManager → CowManager
dec_cow_ref p c =
    let left = (c.page p).ref_count - 1 in
    let d = set_refs p left c in
    if is_bad c p then c else if left == 0 then drop_cow_page p d else d

-- `COWManager::create_cow_mapping` with its block: the mapping, or 0.
unfoldable pub create_cow_mapping : CowMapping → CowManager → ℕ × CowManager
create_cow_mapping mapping c =
    let p = next_block c.blocks in
    let d : CowManager = record c { blocks = blocks_left c.blocks } in
    if p == 0 then (0, d) else (
      p,
      record d {
        cow_mappings = (p, mapping) ∷ d.cow_mappings;
        total_cow_mappings = add32 d.total_cow_mappings 1;
      },
    )

unfoldable pub remove_mapping : ℕ → List (ℕ × CowMapping) → List (ℕ × CowMapping)
remove_mapping p [] = []
remove_mapping p ((q, mapping) ∷ rest) =
    if q == p then rest else (q, mapping) ∷ remove_mapping p rest

-- `COWManager::destroy_cow_mapping`
unfoldable pub destroy_cow_mapping : ℕ → CowManager → CowManager
destroy_cow_mapping p c = if p == 0 then c else record c {
  cow_mappings = remove_mapping p c.cow_mappings;
  total_cow_mappings = sub32 c.total_cow_mappings 1;
}

abbrev pub covers : ℕ → ℕ → CowMapping → Bool
covers dir addr mapping =
    mapping.owner_pd == dir
    && leb mapping.virtual_addr addr
    && ltb addr (add32 mapping.virtual_addr mapping.size)

-- `COWManager::find_cow_mapping`
unfoldable pub find_cow_mapping : ℕ → ℕ → List (ℕ × CowMapping) → ℕ
find_cow_mapping dir addr [] = 0
find_cow_mapping dir addr ((p, mapping) ∷ rest) =
    if covers dir addr mapping then p else find_cow_mapping dir addr rest

-- The body and the loop of `cleanup_process_cow`; `next` is read before the mapping is freed.
unfoldable pub clean_mapping : ℕ → ℕ → CowMapping → CowManager → CowManager
clean_mapping dir p mapping c =
    let d = if mapping.cow_page == 0 then c else dec_cow_ref mapping.cow_page c in
    if mapping.owner_pd == dir then destroy_cow_mapping p d else c

unfoldable pub clean_from : ℕ → List (ℕ × CowMapping) → CowManager → CowManager
clean_from dir [] c = c
clean_from dir ((p, mapping) ∷ rest) c = clean_from dir rest (clean_mapping dir p mapping c)

-- `COWManager::cleanup_process_cow`
abbrev pub cleanup_process_cow : ℕ → CowManager → CowManager
cleanup_process_cow dir c = clean_from dir c.cow_mappings c

-- The loop of `optimize_cow_pages`.
unfoldable pub optimize_from : ℕ → ℕ → CowManager → Option CowManager
optimize_from zero p c = none
optimize_from (suc fuel) p c =
    let d = if (c.page p).ref_count == 0 then drop_cow_page p c else c in
    let rest = optimize_from fuel (c.links.next p) d in if p == 0 then some c else rest

-- The loop of `validate_cow_integrity`: the number of errors.
unfoldable pub count_errors : ℕ → ℕ → ℕ → CowManager → Option ℕ
count_errors zero p errors c = none
count_errors (suc fuel) p errors c =
    let magic = if (c.page p).magic == cow_magic then errors else add32 errors 1 in
    let refs = if leb (c.page p).ref_count max_cow_refs then magic else add32 magic 1 in
    let rest = count_errors fuel (c.links.next p) refs c in if p == 0 then some errors else rest
