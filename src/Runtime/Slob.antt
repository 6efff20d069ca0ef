-- ===== src/Runtime/Slob.antt =====
-- The allocator of src/kernel/runtime/slob.cc over the buddy allocator. A block or a page is the address
-- of its header; the maps of `Blocks` and `Pages` are the fields of the headers. A loop over a list
-- takes fuel, and stops where it is when the fuel runs out.
pub mod Ops
pub mod BestFit
pub mod FreeList
pub mod Merge
pub mod Coalesce
pub mod GiveBack
pub mod Take
pub mod Split
pub mod WellFormed
pub mod Alloc
pub mod Efficiency
mod Tests
use km_os.Prelude.{
  ℕ, zero, suc, ◌+◌, ◌-◌, ◌*◌, ◌/◌, ◌%◌, Bool, true, false, ◌&&◌, ◌||◌, not, if◌then◌else◌, ◌==◌,
  ltb, leb, update, Links, set_prev, insert_after, unlink, push_front, add32, sub32, mul32,
}
use km_os.Runtime.Buddy.{Zone, alloc, free}

abbrev pub slob_magic : ℕ
slob_magic = 0x510B1234

abbrev pub slob_align : ℕ
slob_align = 8

abbrev pub slob_block_size : ℕ
slob_block_size = 4096

abbrev pub slob_min_alloc : ℕ
slob_min_alloc = 16

abbrev pub slob_max_alloc : ℕ
slob_max_alloc = 512

-- `sizeof(struct slob_block)` and `sizeof(struct slob_page)`
abbrev pub block_header : ℕ
block_header = 16

abbrev pub page_header : ℕ
page_header = 28

-- `struct slob_block`
pub record Blocks : Type 0 where
  pub links : Links
  pub size : ℕ → ℕ
  pub magic : ℕ → ℕ

-- `struct slob_page`
pub record Pages : Type 0 where
  pub page_addr : ℕ → ℕ
  pub total_size : ℕ → ℕ
  pub free_size : ℕ → ℕ
  pub fragmentation : ℕ → ℕ
  pub free_list : ℕ → ℕ
  pub page_links : Links

-- Class SLOBAllocator, with the allocator it draws pages from.
pub record Slob : Type 0 where
  pub blocks : Blocks
  pub page : Pages
  pub pages : ℕ
  pub total_pages : ℕ
  pub total_allocated : ℕ
  pub total_free : ℕ
  pub fragmentation_threshold : ℕ
  pub zone : Zone

-- The search of `find_free_block`: an exact fit, which returns at once, or the best block so far with
-- its size.
pub data Search : Type 0 where
  exact : ℕ → Search
  so_far : ℕ → ℕ → Search

-- Its inner loop.
unfoldable pub scan_blocks : ℕ → ℕ → Blocks → ℕ → ℕ → ℕ → Search
scan_blocks zero size b block best best_size = so_far best best_size
scan_blocks (suc k) size b block best best_size =
    let better = leb size (b.size block) && ltb (b.size block) best_size in
    let rest =
      scan_blocks k size b (b.links.next block) (if better then block else best)
        (if better then b.size block else best_size) in
    if block == 0
    then so_far best best_size
    else if better && b.size block == size
    then exact block
    else rest

-- Its outer loop.
unfoldable pub scan_pages : ℕ → ℕ → ℕ → Blocks → Pages → ℕ → Search → Search
unfolding scan_blocks
scan_pages zero fuel size b pg page found = found
scan_pages (suc k) fuel size b pg page (exact block) = exact block
scan_pages (suc k) fuel size b pg page (so_far best best_size) =
    let rest =
      scan_pages k fuel size b pg (pg.page_links.next page)
        (scan_blocks fuel size b (pg.free_list page) best best_size) in
    if page == 0 then so_far best best_size else rest

abbrev pub block_found : Search → ℕ
block_found (exact block) = block
block_found (so_far best best_size) = best

-- `SLOBAllocator::find_free_block`, 0 for none.
unfoldable pub find_free_block : ℕ → ℕ → Slob → ℕ
unfolding scan_pages
find_free_block fuel size s =
    block_found (scan_pages fuel fuel size s.blocks s.page s.pages (so_far 0 0xffff_ffff))

-- `SLOBAllocator::split_block`
unfoldable pub split_block : ℕ → ℕ → Blocks → Blocks
unfolding insert_after
split_block block size b =
    if leb (b.size block) (add32 size block_header)
    then b
    else let new_block = add32 block size in
      record {
        links = insert_after block new_block b.links;
        size = update (update b.size new_block (b.size block - size)) block size;
        magic = update b.magic new_block 0;
      }

-- A step of `merge_free_blocks`: `current` takes in the block that follows it.
unfoldable pub absorb : ℕ → ℕ → Blocks → Blocks
absorb current next b =
    let skipped : Links = record (b.links) {
      next = update b.links.next current (b.links.next next);
    } in
    record b {
      size = update b.size current (add32 (b.size current) (b.size next));
      links = set_prev (skipped.next next) current skipped;
    }

-- The loop of `merge_free_blocks` from `current`, with the page's fragmentation.
unfoldable pub merge_from : ℕ → ℕ → Blocks → ℕ → Blocks × ℕ
unfolding absorb
merge_from zero current b frag = (b, frag)
merge_from (suc k) current b frag =
    let next = b.links.next current in
    let here = add32 current (b.size current) == next in
    let rest =
      merge_from k (if here then current else next) (if here then absorb current next b else b)
        (if here then sub32 frag 1 else frag) in
    if current == 0 then (b, frag) else if next == 0 then (b, frag) else rest

-- `SLOBAllocator::merge_free_blocks`
unfoldable pub merge_free_blocks : ℕ → ℕ → Slob → Slob
unfolding merge_from
merge_free_blocks fuel page s =
    if page == 0
    then s
    else if s.page.free_list page == 0
    then s
    else let r = merge_from fuel (s.page.free_list page) s.blocks (s.page.fragmentation page) in
      record s {
        blocks = r.0;
        page = record (s.page) { fragmentation = update s.page.fragmentation page r.1 };
      }

-- The new first block of a page's free list.
abbrev pub put_first : ℕ → ℕ → Links → Slob → Slob
put_first page block l s = record s {
  blocks = record (s.blocks) { links = l };
  page = record (s.page) { free_list = update s.page.free_list page block };
}

-- The loop of `add_free_block`: the last block of the list below `block`.
unfoldable pub find_place : ℕ → ℕ → ℕ → Links → ℕ
find_place zero block current l = current
find_place (suc k) block current l =
    let next = l.next current in
    let rest = find_place k block next l in
    if next == 0 then current else if ltb next block then rest else current

-- `SLOBAllocator::add_free_block`, for a block.
unfoldable pub add_free_block : ℕ → ℕ → ℕ → Slob → Slob
unfolding find_place insert_after push_front
add_free_block fuel page block s =
    if page == 0 || block == 0
    then s
    else let head = s.page.free_list page in
      if head == 0
      then put_first page block
          (record (s.blocks.links) {
            next = update s.blocks.links.next block 0;
            prev = update s.blocks.links.prev block 0;
          })
          s
      else if ltb block head
      then put_first page block (push_front block head s.blocks.links) s
      else record s {
        blocks = record (s.blocks) {
          links = insert_after (find_place fuel block head s.blocks.links) block s.blocks.links;
        };
        page = record (s.page) {
          fragmentation = update s.page.fragmentation page (add32 (s.page.fragmentation page) 1);
        };
      }

-- `SLOBAllocator::remove_free_block`
unfoldable pub remove_free_block : ℕ → ℕ → Slob → Slob
unfolding unlink
remove_free_block page block s =
    if page == 0 || block == 0
    then s
    else let m = unlink block s.blocks.links in
      record s {
        page = record (s.page) {
          free_list =
              if s.page.free_list page == block
              then update s.page.free_list page (s.blocks.links.next block)
              else s.page.free_list;
        };
        blocks = record (s.blocks) {
          links = record { next = update m.next block 0; prev = update m.prev block 0 };
        };
      }

-- `SLOBAllocator::alloc_page`: the page, 0 for none.
unfoldable pub alloc_page : Slob → ℕ × Slob
unfolding alloc
alloc_page s =
    let r = alloc slob_block_size s.zone in
    let page = r.0 in
    let initial_block = page + page_header in
    let free_size = slob_block_size - page_header in
    if page == 0 then (0, record s { zone = r.1 }) else (
      page,
      record s {
        zone = r.1;
        page = record {
          page_addr = update s.page.page_addr page page;
          total_size = update s.page.total_size page slob_block_size;
          free_size = update s.page.free_size page free_size;
          fragmentation = update s.page.fragmentation page 0;
          free_list = update s.page.free_list page initial_block;
          page_links = push_front page s.pages s.page.page_links;
        };
        blocks = record {
          links = record {
            next = update s.blocks.links.next initial_block 0;
            prev = update s.blocks.links.prev initial_block 0;
          };
          size = update s.blocks.size initial_block free_size;
          magic = update s.blocks.magic initial_block 0;
        };
        pages = page;
        total_pages = add32 s.total_pages 1;
        total_free = add32 s.total_free free_size;
      },
    )

-- `SLOBAllocator::free_page`
unfoldable pub free_page : ℕ → Slob → Slob
unfolding unlink free
free_page page s = if page == 0 then s else record s {
  page = record (s.page) { page_links = unlink page s.page.page_links };
  pages = if s.page.page_links.prev page == 0 then s.page.page_links.next page else s.pages;
  total_pages = sub32 s.total_pages 1;
  total_free = sub32 s.total_free (s.page.free_size page);
  zone = free (s.page.page_addr page) s.zone;
}

-- The loop of `alloc` and of `free` that looks for the page of a block.
unfoldable pub find_page : ℕ → ℕ → ℕ → Pages → ℕ
find_page zero block page pg = 0
find_page (suc k) block page pg =
    let rest = find_page k block (pg.page_links.next page) pg in
    if page == 0
    then 0
    else if leb (pg.page_addr page) block
        && ltb block (add32 (pg.page_addr page) (pg.total_size page))
    then page
    else rest
