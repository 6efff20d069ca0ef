-- ===== src/X86/Replacement/Pages.antt =====
-- The operations of class PageReplacementManager on the page list.
pub mod Cycle
pub mod Clock
pub mod Removal
use km_os.Prelude.{
  ℕ, zero, suc, ◌+◌, ◌-◌, ◌*◌, ◌/◌, ◌%◌, ◌^◌, Option, none, some, if◌then◌else◌, ◌==◌, ltb, leb,
  add32, sub32, mul32, Links, update, set_next, set_prev, unlink, test_bit, set_bit, clear_bit,
}
use km_os.X86.Replacement.{
  Descriptor, Manager, tick, write_page, lru_add_page, lru_remove_page, lru_update_access,
  fifo_add_page, fifo_remove_page, clock_add_page, clock_remove_page, clock_update_access,
  head_without, tail_without,
}
use km_os.X86.Replacement.Victims.{
  lru_find_victim, fifo_find_victim, clock_find_victim, lru_enhanced_find_victim,
}

-- The two switches over the algorithm: 0 is LRU, 1 FIFO, 2 Clock, 3 Enhanced LRU.
unfoldable pub add_by : ℕ → ℕ → Manager → Manager
unfolding lru_add_page fifo_add_page clock_add_page
add_by algorithm p s =
    if algorithm == 0
    then lru_add_page p s
    else if algorithm == 3
    then lru_add_page p s
    else if algorithm == 1
    then fifo_add_page p s
    else if algorithm == 2
    then clock_add_page p s
    else s

unfoldable pub remove_by : ℕ → ℕ → Manager → Manager
unfolding lru_remove_page fifo_remove_page clock_remove_page
remove_by algorithm p s =
    if algorithm == 0
    then lru_remove_page p s
    else if algorithm == 3
    then lru_remove_page p s
    else if algorithm == 1
    then fifo_remove_page p s
    else if algorithm == 2
    then clock_remove_page p s
    else s

-- `find_page`, from the page `p` on.
unfoldable pub find_from : ℕ → Manager → ℕ → ℕ → Option ℕ
find_from zero s p addr = none
find_from (suc fuel) s p addr =
    let rest = find_from fuel s (s.links.next p) addr in
    if p == 0 then some 0 else if (s.page p).virtual_addr == addr then some p else rest

unfoldable pub find_page : ℕ → Manager → ℕ → Option ℕ
unfolding find_from
find_page fuel s addr = find_from fuel s s.page_list_head addr

-- A new descriptor, at the time `now`.
abbrev pub new_descriptor : ℕ → ℕ → ℕ → ℕ → ℕ → Descriptor
new_descriptor now virtual_addr physical_addr flags process_id = record {
  virtual_addr = virtual_addr;
  physical_addr = physical_addr;
  flags = flags;
  access_count = 1;
  last_access_time = now;
  creation_time = now;
  process_id = process_id;
  position = 0;
  reference_bit = 1;
}

-- `next` and `prev` of the new page and its link at the tail of the page list.
abbrev pub append_page : ℕ → Manager → Manager
append_page p s =
    let next = update s.links.next p 0 in
    let prev = update s.links.prev p 0 in
    if s.page_list_tail == 0
    then record s {
      links = record { next = next; prev = prev };
      page_list_head = p;
      page_list_tail = p;
    }
    else record s {
      links = record {
        next = update next s.page_list_tail p;
        prev = update prev p s.page_list_tail;
      };
      page_list_tail = p;
    }

-- `PageReplacementManager::add_page`, with the block that `kmalloc` returned and the current
-- process's id, 0 without one.
unfoldable pub add_page : ℕ → ℕ → ℕ → ℕ → ℕ → Manager → Manager
unfolding add_by
add_page block process_id virtual_addr physical_addr flags s =
    if block == 0
    then s
    else let d = new_descriptor s.access_counter virtual_addr physical_addr flags process_id in
      let t = append_page block (tick (write_page block d s)) in
      let u = add_by t.current_algorithm block t in record u { total_pages = add32 u.total_pages 1 }

-- `PageReplacementManager::remove_page` at the page found.
unfoldable pub drop_page : ℕ → Manager → Manager
unfolding remove_by
drop_page p s =
    let t = remove_by s.current_algorithm p s in
    record t {
      links = unlink p t.links;
      page_list_head = head_without p t.links t.page_list_head;
      page_list_tail = tail_without p t.links t.page_list_tail;
      total_pages = sub32 t.total_pages 1;
    }

unfoldable pub remove_page : ℕ → ℕ → Manager → Option Manager
unfolding find_page drop_page
remove_page fuel addr s = elim (find_page fuel s addr) [
  | none ↦ none
  | some p ↦ if p == 0 then some s else some (drop_page p s)
]

-- `PageReplacementManager::update_page_access` at the page found.
unfoldable pub access_page : ℕ → Manager → Manager
unfolding lru_update_access clock_update_access
access_page p s =
    let d = s.page p in
    let t = tick (
      write_page p
        (record d {
          access_count = add32 d.access_count 1;
          last_access_time = s.access_counter;
          flags = set_bit d.flags 0;
        })
        s) in
    let u = record t {
      current_stats = record t.current_stats { hits = add32 t.current_stats.hits 1 };
    } in
    if u.current_algorithm == 0
    then lru_update_access p u
    else if u.current_algorithm == 3
    then lru_update_access p u
    else if u.current_algorithm == 2
    then clock_update_access p u
    else u

unfoldable pub update_page_access : ℕ → ℕ → Manager → Option Manager
unfolding find_page access_page
update_page_access fuel addr s = elim (find_page fuel s addr) [
  | none ↦ none
  | some p ↦
      if p == 0
      then some (record s {
        current_stats = record s.current_stats { misses = add32 s.current_stats.misses 1 };
      })
      else some (access_page p s)
]

-- `mark_page_dirty` and `mark_page_clean`
abbrev pub flag_page : (ℕ → ℕ) → ℕ → ℕ → Manager → Option Manager
flag_page f fuel addr s = elim (find_page fuel s addr) [
  | none ↦ none
  | some p ↦
      if p == 0
      then some s
      else some (write_page p (record (s.page p) { flags = f (s.page p).flags }) s)
]

unfoldable pub mark_page_dirty : ℕ → ℕ → Manager → Option Manager
mark_page_dirty = flag_page (λ flags. set_bit flags 1)

unfoldable pub mark_page_clean : ℕ → ℕ → Manager → Option Manager
mark_page_clean = flag_page (λ flags. clear_bit flags 1)

abbrev pub with_state : Manager → Option ℕ → Option (ℕ × Manager)
with_state s none = none
with_state s (some v) = some (v, s)

-- The switch of `find_victim_page`.
unfoldable pub victim_by : ℕ → ℕ → Manager → Option (ℕ × Manager)
unfolding lru_find_victim fifo_find_victim clock_find_victim lru_enhanced_find_victim
victim_by fuel algorithm s =
    if algorithm == 1
    then with_state s (fifo_find_victim fuel s)
    else if algorithm == 2
    then clock_find_victim fuel s
    else if algorithm == 3
    then lru_enhanced_find_victim fuel s
    else with_state s (lru_find_victim fuel s)

-- The statistics of a victim, chosen since `start_time`.
abbrev pub count_victim : ℕ → ℕ → Manager → Manager
count_victim start_time v s =
    let c = s.current_stats in
    let spent = (s.access_counter + 2 ^ 64 - start_time) % 2 ^ 64 in
    tick (record s {
      current_stats = record c {
        total_replacements = add32 c.total_replacements 1;
        total_access_time = (c.total_access_time + spent) % 2 ^ 64;
        dirty_writebacks =
            if test_bit (s.page v).flags 1 then add32 c.dirty_writebacks 1 else c.dirty_writebacks;
      };
    })

unfoldable pub find_victim_page : ℕ → Manager → Option (ℕ × Manager)
unfolding victim_by
find_victim_page fuel s =
    if s.total_pages == 0 then some (0, s) else elim (victim_by fuel s.current_algorithm (tick s)) [
      | none ↦ none
      | some (v, t) ↦ if v == 0 then some (0, t) else some (v, count_victim s.access_counter v t)
    ]
