-- ===== src/X86/Replacement.antt =====
-- The state of class PageReplacementManager in src/kernel/arch/x86/page_replacement.cc, and its
-- operations on one page and one algorithm's list. All lists go through the same `next` and `prev`
-- fields of `struct page_descriptor`. Algorithms are the numbers of `enum PageReplacementAlgorithm`.
pub mod Victims
pub mod Pages
pub mod Switch
mod Tests
use km_os.Prelude.{
  ℕ, zero, suc, ◌+◌, ◌-◌, ◌*◌, ◌/◌, ◌%◌, ◌^◌, Option, none, some, if◌then◌else◌, ◌==◌, ltb, leb,
  add32, sub32, mul32, Links, update, set_next, unlink, test_bit, set_bit,
}

-- `position` is the first word of the union (`lru_position`, `queue_position`,
-- `clock_hand_passed`), `reference_bit` its second.
pub record Descriptor : Type 0 where
  pub virtual_addr : ℕ
  pub physical_addr : ℕ
  pub flags : ℕ
  pub access_count : ℕ
  pub last_access_time : ℕ
  pub creation_time : ℕ
  pub process_id : ℕ
  pub position : ℕ
  pub reference_bit : ℕ

pub record ReplacementStats : Type 0 where
  pub total_replacements : ℕ
  pub page_faults : ℕ
  pub hits : ℕ
  pub misses : ℕ
  pub dirty_writebacks : ℕ
  pub total_access_time : ℕ
  pub algorithm_switches : ℕ

pub record Manager : Type 0 where
  pub current_algorithm : ℕ
  pub page : ℕ → Descriptor
  pub links : Links
  pub page_list_head : ℕ
  pub page_list_tail : ℕ
  pub total_pages : ℕ
  pub access_counter : ℕ
  pub stats : ℕ → ReplacementStats
  pub current_stats : ReplacementStats
  pub lru_head : ℕ
  pub lru_tail : ℕ
  pub fifo_head : ℕ
  pub fifo_tail : ℕ
  pub clock_hand : ℕ
  pub clock_size : ℕ

abbrev pub no_stats : ReplacementStats
no_stats = record {
  total_replacements = 0;
  page_faults = 0;
  hits = 0;
  misses = 0;
  dirty_writebacks = 0;
  total_access_time = 0;
  algorithm_switches = 0;
}

-- `PageReplacementManager::init`; blocks of memory keep what they hold.
unfoldable pub init : Manager → Manager
init s = record s {
  current_algorithm = 0;
  page_list_head = 0;
  page_list_tail = 0;
  total_pages = 0;
  access_counter = 0;
  stats = λ i. if ltb i 4 then no_stats else s.stats i;
  current_stats = no_stats;
  lru_head = 0;
  lru_tail = 0;
  fifo_head = 0;
  fifo_tail = 0;
  clock_hand = 0;
  clock_size = 0;
}

-- `access_counter++`, on a 64-bit counter.
abbrev pub tick : Manager → Manager
tick s = record s { access_counter = (s.access_counter + 1) % 2 ^ 64 }

abbrev pub write_page : ℕ → Descriptor → Manager → Manager
write_page p d s = record s { page = update s.page p d }

-- `page->…position = access_counter++`
abbrev pub stamp : ℕ → Manager → Manager
stamp p s = tick (write_page p (record (s.page p) { position = s.access_counter % 2 ^ 32 }) s)

-- `head->prev = page; page->next = head;`
abbrev pub link_before : ℕ → ℕ → Links → Links
link_before p head l = record { next = update l.next p head; prev = update l.prev head p }

-- The two `else` writes of a removal: the head moves if the page has no predecessor, the tail if it
-- has no successor.
abbrev pub head_without : ℕ → Links → ℕ → ℕ
head_without p l head = if l.prev p == 0 then l.next p else head

abbrev pub tail_without : ℕ → Links → ℕ → ℕ
tail_without p l tail =
    let m = set_next (l.prev p) (l.next p) l in if m.next p == 0 then m.prev p else tail

unfoldable pub lru_add_page : ℕ → Manager → Manager
lru_add_page p s =
    let t = stamp p s in
    if t.lru_head == 0
    then record t { lru_head = p; lru_tail = p }
    else record t { links = link_before p t.lru_head t.links; lru_head = p }

unfoldable pub lru_remove_page : ℕ → Manager → Manager
lru_remove_page p s = record s {
  links = unlink p s.links;
  lru_head = head_without p s.links s.lru_head;
  lru_tail = tail_without p s.links s.lru_tail;
}

unfoldable pub lru_update_access : ℕ → Manager → Manager
unfolding lru_add_page lru_remove_page
lru_update_access p s = lru_add_page p (lru_remove_page p s)

unfoldable pub fifo_add_page : ℕ → Manager → Manager
fifo_add_page p s =
    let t = stamp p s in
    if t.fifo_head == 0
    then record t { fifo_head = p; fifo_tail = p }
    else record t { links = link_before p t.fifo_head t.links; fifo_head = p }

unfoldable pub fifo_remove_page : ℕ → Manager → Manager
fifo_remove_page p s = record s {
  links = unlink p s.links;
  fifo_head = head_without p s.links s.fifo_head;
  fifo_tail = tail_without p s.links s.fifo_tail;
}

unfoldable pub clock_add_page : ℕ → Manager → Manager
clock_add_page p s =
    let t = write_page p (record (s.page p) { reference_bit = 1; position = 0 }) s in
    record t {
      clock_size = add32 t.clock_size 1;
      clock_hand = if t.clock_hand == 0 then p else t.clock_hand;
    }

-- `hand->next ? hand->next : page_list_head`
abbrev pub next_hand : Manager → ℕ → ℕ
next_hand s p = if s.links.next p == 0 then s.page_list_head else s.links.next p

unfoldable pub clock_remove_page : ℕ → Manager → Manager
clock_remove_page p s = record s {
  clock_hand =
      if s.clock_hand == p then (if next_hand s p == p then 0 else next_hand s p) else s.clock_hand;
  clock_size = sub32 s.clock_size 1;
}

unfoldable pub clock_update_access : ℕ → Manager → Manager
clock_update_access p s = write_page p (record (s.page p) { reference_bit = 1 }) s
