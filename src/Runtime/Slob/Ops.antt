-- ===== src/Runtime/Slob/Ops.antt =====
-- The operations of class SLOBAllocator in src/kernel/runtime/slob.cc: `alloc`, `free`, `defragment`,
-- `should_defragment` and `get_efficiency`.
use km_os.Prelude.{
  ℕ, zero, suc, ◌+◌, ◌-◌, ◌/◌, ◌*◌, Bool, false, ◌||◌, if◌then◌else◌, ◌==◌, ltb, update, add32,
  sub32, mul32,
}
use km_os.Runtime.Slob.{
  Slob, slob_magic, slob_align, slob_min_alloc, slob_max_alloc, block_header, page_header,
  find_free_block, split_block, merge_free_blocks, add_free_block, remove_free_block, alloc_page,
  free_page, find_page,
}

-- The size of the block for `size` bytes: rounded up, at least SLOB_MIN_ALLOC, with its header.
abbrev pub aligned_size : ℕ → ℕ
aligned_size size =
    let aligned = (size + slob_align - 1) / slob_align * slob_align in
    (if ltb aligned slob_min_alloc then slob_min_alloc else aligned) + block_header

-- `alloc` at the free block that was found: what lies beyond the needed size, where it is enough for
-- another block, becomes one.
unfoldable pub split_for : ℕ → ℕ → Slob → Slob
unfolding split_block
split_for size block s =
    if ltb (add32 (add32 size block_header) slob_min_alloc) (s.blocks.size block)
    then record s { blocks = split_block block size s.blocks }
    else s

-- The counters and the mark of a block that has left the free list of `page`.
unfoldable pub mark_taken : ℕ → ℕ → Slob → ℕ × Slob
mark_taken page block t =
    let taken = if page == 0 then t else record t {
      page = record (t.page) {
        free_size =
            update t.page.free_size page (sub32 (t.page.free_size page) (t.blocks.size block));
      };
    } in
    (
      add32 block block_header,
      record taken {
        blocks = record (taken.blocks) { magic = update taken.blocks.magic block slob_magic };
        total_allocated = add32 taken.total_allocated (taken.blocks.size block);
      },
    )

-- `alloc` from the search for the block's page on.
unfoldable pub claim : ℕ → ℕ → Slob → ℕ × Slob
unfolding find_page remove_free_block mark_taken
claim fuel block s =
    let page = find_page fuel block s.pages s.page in
    mark_taken page block (remove_free_block page block s)

unfoldable pub take_block : ℕ → ℕ → ℕ → Slob → ℕ × Slob
unfolding split_for claim
take_block fuel size block s = claim fuel block (split_for size block s)

-- `SLOBAllocator::alloc`: the pointer returned, 0 for none.
unfoldable pub slob_alloc : ℕ → ℕ → Slob → ℕ × Slob
unfolding find_free_block alloc_page take_block
slob_alloc fuel size s =
    let needed = aligned_size size in
    let block = find_free_block fuel needed s in
    let r = alloc_page s in
    let fresh = find_free_block fuel needed r.1 in
    if size == 0 || ltb slob_max_alloc size
    then (0, s)
    else if block == 0
    then (if r.0 == 0
        then (0, r.1)
        else if fresh == 0
        then (0, r.1)
        else take_block fuel needed fresh r.1)
    else take_block fuel needed block s

-- The loop of `defragment` over one page's free list: the blocks that have a next one.
unfoldable pub count_gaps : ℕ → ℕ → Slob → ℕ → ℕ
count_gaps zero block s n = n
count_gaps (suc k) block s n =
    let next = s.blocks.links.next block in
    let rest = count_gaps k next s (if next == 0 then n else add32 n 1) in
    if block == 0 then n else rest

-- The loop of `defragment` over the pages.
unfoldable pub defragment_from : ℕ → ℕ → ℕ → Slob → Slob
unfolding merge_free_blocks count_gaps
defragment_from zero fuel page s = s
defragment_from (suc k) fuel page s =
    let t = merge_free_blocks fuel page s in
    let rest = defragment_from k fuel (t.page.page_links.next page) (record t {
      page = record (t.page) {
        fragmentation =
            update t.page.fragmentation page (count_gaps fuel (t.page.free_list page) t 0);
      };
    }) in
    if page == 0 then s else rest

-- `SLOBAllocator::defragment`
unfoldable pub defragment : ℕ → Slob → Slob
unfolding defragment_from
defragment fuel s = defragment_from fuel fuel s.pages s

-- The loop of `should_defragment`.
unfoldable pub sum_fragmentation : ℕ → ℕ → Slob → ℕ → ℕ
sum_fragmentation zero page s n = n
sum_fragmentation (suc k) page s n =
    let rest =
      sum_fragmentation k (s.page.page_links.next page) s (add32 n (s.page.fragmentation page)) in
    if page == 0 then n else rest

-- `SLOBAllocator::should_defragment`
unfoldable pub should_defragment : ℕ → Slob → Bool
unfolding sum_fragmentation
should_defragment fuel s =
    if s.total_pages == 0
    then false
    else ltb s.fragmentation_threshold (sum_fragmentation fuel s.pages s 0 / s.total_pages)

-- `free` at the page of the block: the block's mark and the counters.
abbrev pub returned : ℕ → ℕ → Slob → Slob
returned page block s = record s {
  blocks = record (s.blocks) { magic = update s.blocks.magic block 0 };
  total_allocated = sub32 s.total_allocated (s.blocks.size block);
  page = record (s.page) {
    free_size = update s.page.free_size page (add32 (s.page.free_size page) (s.blocks.size block));
  };
}

-- `free`: the release of a page that is empty.
unfoldable pub release : ℕ → Slob → Slob
unfolding free_page
release page t =
    if t.page.free_size page == sub32 (t.page.total_size page) page_header
    then (if ltb 1 t.total_pages then free_page page t else t)
    else t

-- `free` at the page of the block, up to the defragmentation.
unfoldable pub give_back : ℕ → ℕ → ℕ → Slob → Slob
unfolding add_free_block merge_free_blocks release
give_back fuel page block s =
    release page
      (merge_free_blocks fuel page (add_free_block fuel page block (returned page block s)))

-- `SLOBAllocator::free`
unfoldable pub slob_free : ℕ → ℕ → Slob → Slob
unfolding give_back find_page should_defragment defragment
slob_free fuel ptr s =
    let block = sub32 ptr block_header in
    let page = find_page fuel block s.pages s.page in
    let t = give_back fuel page block s in
    if ptr == 0
    then s
    else if s.blocks.magic block == slob_magic
    then (if page == 0 then s else if should_defragment fuel t then defragment fuel t else t)
    else s

-- `SLOBAllocator::get_efficiency`
unfoldable pub get_efficiency : Slob → ℕ
get_efficiency s =
    if add32 s.total_allocated s.total_free == 0
    then 0
    else mul32 s.total_allocated 100 / add32 s.total_allocated s.total_free

-- `SLOBAllocator::init`
unfoldable pub slob_init : Slob → Slob
unfolding alloc_page
slob_init s =
    (alloc_page (record s {
      pages = 0;
      total_pages = 0;
      total_allocated = 0;
      total_free = 0;
      fragmentation_threshold = 75;
    })).1
