-- ===== src/X86/Lru.antt =====
-- The list of resident pages in src/kernel/arch/x86/swap.cc (`struct page_lru`, and `lru_head`,
-- `lru_tail`, `lru_count`, `access_counter` of class SwapManager), most recently used first.
-- The address that `kmalloc` returned is an argument; 0 is its failure. A loop over the list takes
-- fuel, and `none` is a loop that has not ended.
pub mod Shape
pub mod Ops
pub mod Refine
pub mod Victim
mod Tests
use km_os.Prelude.{
  ℕ, zero, suc, ◌+◌, ◌-◌, ◌%◌, ◌^◌, Bool, Option, none, some, if◌then◌else◌, ◌==◌, add32, sub32,
  test_bit, Links, update, push_front, unlink,
}

pub record Page : Type 0 where
  pub virtual_addr : ℕ
  pub access_time : ℕ
  pub flags : ℕ

pub record Lru : Type 0 where
  pub links : Links
  pub page : ℕ → Page
  pub head : ℕ
  pub tail : ℕ
  pub count : ℕ
  pub clock : ℕ

-- SWAP_FLAG_LOCKED is bit 31.
abbrev pub is_locked : Lru → ℕ → Bool
is_locked l p = test_bit (l.page p).flags 31

-- `SwapManager::add_to_lru`, with the node that `kmalloc` returned.
unfoldable pub add_to_lru : ℕ → ℕ → Lru → Lru
unfolding push_front
add_to_lru node addr l = if node == 0 then l else record l {
  links = push_front node l.head l.links;
  page =
      update l.page node (record { virtual_addr = addr; access_time = add32 l.clock 1; flags = 0 });
  head = node;
  tail = if l.tail == 0 then node else l.tail;
  count = add32 l.count 1;
  clock = add32 l.clock 1;
}

-- The loop `while (page) { if (page->virtual_addr == virtual_addr) …; page = page->next; }`:
-- the node found, or 0.
unfoldable pub find_lru : ℕ → Lru → ℕ → ℕ → Option ℕ
find_lru zero l p addr = none
find_lru (suc fuel) l p addr =
    let rest = find_lru fuel l (l.links.next p) addr in
    if p == 0 then some 0 else if (l.page p).virtual_addr == addr then some p else rest

-- The body of the loop of `remove_from_lru` at the node found.
unfoldable pub drop_node : ℕ → Lru → Lru
drop_node p l =
    let m = unlink p l.links in
    record l {
      links = m;
      head = if p == l.head then m.next p else l.head;
      tail = if p == l.tail then m.prev p else l.tail;
      count = sub32 l.count 1;
    }

-- `SwapManager::remove_from_lru`
unfoldable pub remove_from_lru : ℕ → ℕ → Lru → Option Lru
remove_from_lru fuel addr l = elim (find_lru fuel l l.head addr) [
  | none ↦ none
  | some p ↦ if p == 0 then some l else some (drop_node p l)
]

-- The body of the loop of `update_page_access` at the node found.
unfoldable pub touch : ℕ → Lru → Lru
touch p l =
    let clock = add32 l.clock 1 in
    let page = update l.page p (record (l.page p) { access_time = clock }) in
    let m = unlink p l.links in
    let tail = if p == l.tail then m.prev p else l.tail in
    if p == l.head then record l { page = page; clock = clock } else record l {
      links = push_front p l.head m;
      page = page;
      head = p;
      tail = if tail == 0 then p else tail;
      clock = clock;
    }

-- `SwapManager::update_page_access`; `node` is what `kmalloc` returns if the page is not listed.
unfoldable pub update_page_access : ℕ → ℕ → ℕ → Lru → Option Lru
update_page_access fuel node addr l = elim (find_lru fuel l l.head addr) [
  | none ↦ none
  | some p ↦ if p == 0 then some (add_to_lru node addr l) else some (touch p l)
]

-- The loop of `SwapManager::find_victim_page`: from the tail back to the first page not locked.
unfoldable pub walk_back : ℕ → Lru → ℕ → Option ℕ
walk_back zero l p = none
walk_back (suc fuel) l p =
    let rest = walk_back fuel l (l.links.prev p) in
    if p == 0 then some 0 else if is_locked l p then rest else some p

-- `SwapManager::find_victim_page`: 0 on an empty list, and the tail if every page is locked.
unfoldable pub find_victim_page : ℕ → Lru → Option ℕ
find_victim_page fuel l = if l.tail == 0 then some 0 else elim (walk_back fuel l l.tail) [
  | none ↦ none
  | some p ↦ if p == 0 then some l.tail else some p
]
