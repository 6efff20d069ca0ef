-- ===== src/Runtime/Buddy.antt =====
-- The buddy allocator of src/kernel/runtime/buddy.cc. A block is the address of its header; the maps
-- `order`, `magic` and `allocated` are the header's fields, and the free lists run through `links`.
pub mod Orders
pub mod FreeLists
pub mod Removing
pub mod Taking
pub mod Merging
pub mod Returning
pub mod RoundTrip
mod Tests
use km_os.Prelude.{
  ℕ, zero, suc, ◌+◌, ◌-◌, ◌*◌, ◌/◌, ◌%◌, ◌^◌, Bool, true, false, if◌then◌else◌, ◌==◌, ltb, leb,
  update, Links, set_prev, set_next, unlink, push_front, add32, sub32,
}

abbrev pub max_order : ℕ
max_order = 11

abbrev pub min_block_size : ℕ
min_block_size = 4096

abbrev pub buddy_magic : ℕ
buddy_magic = 0xBDD1234

-- `sizeof(struct buddy_block)`
abbrev pub header_size : ℕ
header_size = 20

-- `(1U << order) * MIN_BLOCK_SIZE`; no order above 12 occurs.
abbrev pub block_size : ℕ → ℕ
block_size order = 2 ^ order * min_block_size

pub record Zone : Type 0 where
  pub links : Links
  pub order : ℕ → ℕ
  pub magic : ℕ → ℕ
  pub allocated : ℕ → Bool
  pub free_lists : ℕ → ℕ
  pub free_blocks : ℕ → ℕ
  pub memory_start : ℕ
  pub memory_size : ℕ
  pub total_blocks : ℕ
  pub allocated_blocks : ℕ

-- `add_to_free_list` and `remove_from_free_list`
unfoldable pub add_to_free_list : ℕ → ℕ → Zone → Zone
unfolding push_front
add_to_free_list block order z = record z {
  links = push_front block (z.free_lists order) z.links;
  free_lists = update z.free_lists order block;
  free_blocks = update z.free_blocks order (add32 (z.free_blocks order) 1);
}

unfoldable pub remove_from_free_list : ℕ → ℕ → Zone → Zone
unfolding unlink
remove_from_free_list block order z = record z {
  links = unlink block z.links;
  free_lists =
      if z.links.prev block == 0
      then update z.free_lists order (z.links.next block)
      else z.free_lists;
  free_blocks = update z.free_blocks order (sub32 (z.free_blocks order) 1);
}

-- A new header: `next`, `prev`, `order`, `magic` and `allocated`.
abbrev pub write_header : ℕ → ℕ → Zone → Zone
write_header block order z = record z {
  links = record { next = update z.links.next block 0; prev = update z.links.prev block 0 };
  order = update z.order block order;
  magic = update z.magic block buddy_magic;
  allocated = update z.allocated block false;
}

-- The loop that raises an order while a block of twice the size fits, with `k` rounds left.
unfoldable pub fitting_order : ℕ → ℕ → ℕ → ℕ
fitting_order zero size order = order
fitting_order (suc k) size order =
    if leb (block_size (order + 1)) size then fitting_order k size (order + 1) else order

-- The loop of `init` that cuts the memory into blocks; a block takes at least `min_block_size` bytes,
-- so `memory_size / min_block_size` rounds are enough.
unfoldable pub carve : ℕ → ℕ → ℕ → Zone → Zone
unfolding add_to_free_list fitting_order
carve zero addr size z = z
carve (suc k) addr size z =
    if leb min_block_size size
    then (let order = fitting_order max_order size 0 in
        carve k (addr + block_size order) (size - block_size order)
          (add_to_free_list addr order (write_header addr order z)))
    else z

-- `BuddyAllocator::init`
unfoldable pub init : ℕ → ℕ → Zone → Zone
unfolding carve
init start size z = carve (size / min_block_size) start size (record z {
  free_lists = λ i. if leb i max_order then 0 else z.free_lists i;
  free_blocks = λ i. if leb i max_order then 0 else z.free_blocks i;
  memory_start = start;
  memory_size = size;
  total_blocks = size / min_block_size;
  allocated_blocks = 0;
})

-- The loop of `get_order`, with `k` rounds left before MAX_ORDER.
unfoldable pub raise_order : ℕ → ℕ → ℕ → ℕ → ℕ
raise_order zero size order size_here = order
raise_order (suc k) size order size_here =
    if ltb size_here size then raise_order k size (order + 1) (size_here * 2) else order

-- `BuddyAllocator::get_order`
unfoldable pub get_order : ℕ → ℕ
unfolding raise_order
get_order size = raise_order max_order size 0 min_block_size

-- The first order from `order` on with a free block, with `k` rounds left before MAX_ORDER + 1.
unfoldable pub find_order : ℕ → ℕ → Zone → ℕ
find_order zero order z = order
find_order (suc k) order z =
    let rest = find_order k (order + 1) z in if z.free_lists order == 0 then rest else order

-- `split_block`, from `target + k` down to `target`.
unfoldable pub split_block : ℕ → ℕ → ℕ → Zone → Zone
unfolding add_to_free_list
split_block zero target block z = z
split_block (suc k) target block z =
    let order = target + k in
    let buddy = block + block_size order in
    let t = add_to_free_list buddy order (write_header buddy order z) in
    split_block k target block (record t { order = update t.order block order })

-- `BuddyAllocator::alloc_order` at the block found on the list of order `found`.
unfoldable pub take_block : ℕ → ℕ → Zone → ℕ × Zone
unfolding remove_from_free_list split_block
take_block order found z =
    let block = z.free_lists found in
    let t = split_block (found - order) order block (remove_from_free_list block found z) in
    (
      block + header_size,
      record t {
        allocated = update t.allocated block true;
        allocated_blocks = add32 t.allocated_blocks 1;
      },
    )

-- `BuddyAllocator::alloc_order`: the pointer returned, 0 for none.
unfoldable pub alloc_order : ℕ → Zone → ℕ × Zone
unfolding find_order take_block
alloc_order order z =
    if ltb max_order order
    then (0, z)
    else let found = find_order (max_order + 1 - order) order z in
      if ltb max_order found then (0, z) else take_block order found z

-- `BuddyAllocator::alloc`
unfoldable pub alloc : ℕ → Zone → ℕ × Zone
unfolding alloc_order get_order
alloc size z = if size == 0 then (0, z) else alloc_order (get_order size) z

-- `block_index ^ 1`
abbrev pub flip_index : ℕ → ℕ
flip_index i = if i % 2 == 0 then i + 1 else i - 1

-- `find_buddy`; blocks lie at `memory_start` or above.
unfoldable pub find_buddy : ℕ → ℕ → Zone → ℕ
find_buddy block order z =
    let buddy =
      z.memory_start
      + flip_index ((block - z.memory_start) / block_size order) * block_size order in
    if leb (z.memory_start + z.memory_size) buddy
    then 0
    else if z.magic buddy == buddy_magic
    then (if z.allocated buddy then 0 else if z.order buddy == order then buddy else 0)
    else 0

-- `coalesce_block`, with `k` rounds left before MAX_ORDER.
unfoldable pub coalesce_block : ℕ → ℕ → ℕ → Zone → Zone
unfolding find_buddy add_to_free_list remove_from_free_list
coalesce_block zero block order z = add_to_free_list block order z
coalesce_block (suc k) block order z =
    let buddy = find_buddy block order z in
    let t = remove_from_free_list buddy order z in
    let merged = if ltb buddy block then buddy else block in
    let rest =
      coalesce_block k merged (order + 1)
        (record t { order = update t.order merged (order + 1) }) in
    if buddy == 0 then add_to_free_list block order z else rest

-- `BuddyAllocator::free_order`
unfoldable pub free_order : ℕ → ℕ → Zone → Zone
unfolding coalesce_block
free_order ptr order z =
    if ptr == 0
    then z
    else if ltb max_order order
    then z
    else let block = ptr - header_size in
      coalesce_block (max_order - order) block order (record z {
        allocated = update z.allocated block false;
        allocated_blocks = sub32 z.allocated_blocks 1;
      })

-- `BuddyAllocator::free`
unfoldable pub free : ℕ → Zone → Zone
unfolding free_order
free ptr z =
    if ptr == 0
    then z
    else let block = ptr - header_size in
      if z.magic block == buddy_magic
      then (if z.allocated block then free_order ptr (z.order block) z else z)
      else z
