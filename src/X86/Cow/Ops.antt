-- ===== src/X86/Cow/Ops.antt =====
-- The operations of class COWManager on page directories, src/kernel/arch/x86/cow.cc. `fuel` bounds
-- the calls of `alloc_frame` and the loop over the pages, `lru` the loops over the resident list,
-- `steps` those over a range of addresses. Loading cr3 has no effect here.
use km_os.Prelude.{
  ℕ, zero, suc, ◌/◌, ◌*◌, ◌^◌, Bool, true, false, Option, none, some, if◌then◌else◌, ◌==◌, ltb, leb,
  add32, test_bit, update,
}
use km_os.X86.Paging.{Entry, pt_offset, find_table, set_entry, get_physical_addr}
use km_os.X86.Swap.{failure}
use km_os.X86.Memory.{Memory, set_dir}
use km_os.X86.Reclaim.{alloc_frame, unmap_page}
use km_os.X86.Mapping.{map_page}
use km_os.X86.Cow.{
  CowManager, find_cow_page, alloc_cow_page, inc_cow_ref, dec_cow_ref, set_memory, give_frame,
}

abbrev pub C : Type 0 → Type 0
C A = CowManager → Option (A × CowManager)

-- `table[page_idx].writable = w`
abbrev pub set_writable : ℕ → ℕ → (ℕ → Entry) → Bool → Memory → Memory
set_writable dir addr table w m =
    set_dir dir
      (set_entry (m.dirs dir) addr table (record (table (pt_offset addr)) { writable = w })) m

-- The branches that make the entry writable, `after` what follows the write.
unfoldable pub make_writable : (CowManager → CowManager) → ℕ → ℕ → C ℕ
make_writable after dir addr c = elim (find_table (c.memory.dirs dir) addr) [
  | none ↦ some (failure, c)
  | some table ↦ some (0, after (set_memory (set_writable dir addr table true c.memory) c))
]

-- The loop of `break_cow` that copies the page.
unfoldable pub copy_bytes : ℕ → ℕ → ℕ → (ℕ → ℕ) → ℕ → ℕ
copy_bytes zero old new contents = contents
copy_bytes (suc n) old new contents =
    copy_bytes n (add32 old 1) (add32 new 1) (update contents new (contents old))

-- The end of `break_cow`, with what `map_page` returned.
unfoldable pub finish_break : ℕ → ℕ → ℕ → C ℕ
finish_break p new result c =
    if result == 0
    then some (0, dec_cow_ref p c)
    else some (result, set_memory (give_frame new c.memory) c)

unfoldable pub after_map : ℕ → ℕ → CowManager → Option (ℕ × Memory) → Option (ℕ × CowManager)
after_map p new c none = none
after_map p new c (some (result, m)) = finish_break p new result (set_memory m c)

unfoldable pub after_call : CowManager → Option (ℕ × Memory) → Option (ℕ × CowManager)
after_call c none = none
after_call c (some (result, m)) = some (result, set_memory m c)

-- The page of a writable entry, found or made, gets a reference: 0, or -1.
unfoldable pub share_page : ℕ → ℕ → C ℕ
share_page phys p c =
    let (q, d) = alloc_cow_page phys c in
    if p == 0
    then (if q == 0 then some (failure, d) else some (0, inc_cow_ref q d))
    else some (0, inc_cow_ref p c)

abbrev pub copied_flags : Entry → ℕ
copied_flags e = if e.user then 5 else 1

unfoldable pub after_map_pages : CowManager → ℕ → Option (ℕ × Memory) → Option (ℕ × CowManager)
after_map_pages c frame none = none
after_map_pages c frame (some (result, m)) =
    if result == 0
    then some (0, set_memory m c)
    else some (result, set_memory (give_frame frame m) c)

module _ (distance : ℕ → ℕ → ℕ) (fuel lru : ℕ) where
  -- The rest of `break_cow` once it has a new frame.
  unfoldable pub remap : ℕ → ℕ → ℕ → ℕ → ℕ → C ℕ
  remap dir addr p old new c =
      after_map p new (record c { contents = copy_bytes 4096 old new c.contents })
        (map_page distance fuel lru dir addr new 7 (unmap_page dir addr c.memory))

  unfoldable pub with_frame :
      ℕ → ℕ → ℕ → ℕ → CowManager → Option (ℕ × Memory) → Option (ℕ × CowManager)
  with_frame dir addr p old c none = none
  with_frame dir addr p old c (some (new, m)) =
      if new == 0 then some (failure, set_memory m c) else remap dir addr p old new (set_memory m c)

  -- The cases of `break_cow` on the page found.
  unfoldable pub break_page : ℕ → ℕ → ℕ → ℕ → C ℕ
  break_page dir addr old p c =
      if p == 0
      then make_writable (λ d. d) dir addr c
      else if (c.page p).ref_count == 1
      then make_writable (dec_cow_ref p) dir addr c
      else with_frame dir addr p old c (alloc_frame distance fuel lru c.memory)

  -- `COWManager::break_cow`
  unfoldable pub break_cow : ℕ → ℕ → C ℕ
  break_cow dir addr c =
      let old = get_physical_addr (c.memory.dirs dir) addr in
      if old == 0
      then some (failure, c)
      else elim (find_cow_page fuel old c) [ none ↦ none | some p ↦ break_page dir addr old p c ]

  -- `COWManager::handle_cow_fault`
  unfoldable pub handle_cow_fault : ℕ → ℕ → ℕ → C ℕ
  handle_cow_fault dir virtual_addr error_code c =
      let addr = virtual_addr / 2 ^ 12 * 2 ^ 12 in
      let phys = get_physical_addr (c.memory.dirs dir) addr in
      if test_bit error_code 1
      then (if phys == 0 then some (failure, c) else elim (find_cow_page fuel phys c) [
        | none ↦ none
        | some p ↦
            if p == 0
            then make_writable (λ d. d) dir addr c
            else if leb (c.page p).ref_count 1
            then make_writable (λ d. d) dir addr c
            else break_cow dir addr c
      ])
      else some (failure, c)

  unfoldable pub protect : ℕ → ℕ → ℕ → (ℕ → Entry) → C ℕ
  protect src addr phys table c =
      let d = set_memory (set_writable src addr table false c.memory) c in
      if (table (pt_offset addr)).writable
      then elim (find_cow_page fuel phys d) [ none ↦ none | some p ↦ share_page phys p d ]
      else some (0, c)

  -- The body of `cow_copy_page_range`: 0 goes on.
  unfoldable pub after_protect : ℕ → ℕ → ℕ → ℕ → Option (ℕ × CowManager) → Option (ℕ × CowManager)
  after_protect dst addr phys flags none = none
  after_protect dst addr phys flags (some (status, d)) =
      if status == 0
      then after_call d (map_page distance fuel lru dst addr phys flags d.memory)
      else some (status, d)

  unfoldable pub copy_entry : ℕ → ℕ → ℕ → ℕ → (ℕ → Entry) → C ℕ
  copy_entry dst src addr phys table c =
      after_protect dst addr phys (copied_flags (table (pt_offset addr)))
        (protect src addr phys table c)

  unfoldable pub copy_page : ℕ → ℕ → ℕ → C ℕ
  copy_page dst src addr c =
      let phys = get_physical_addr (c.memory.dirs src) addr in
      if phys == 0 then some (0, c) else elim (find_table (c.memory.dirs src) addr) [
        | none ↦ some (0, c)
        | some table ↦
            if (table (pt_offset addr)).present
            then copy_entry dst src addr phys table c
            else some (0, c)
      ]

  -- The loops over a range stop at the first status that is not 0.
  unfoldable pub over_range : (ℕ → C ℕ) → ℕ → ℕ → ℕ → C ℕ
  over_range body zero addr end c = none
  over_range body (suc steps) addr end c =
      if ltb addr end
      then elim (body addr c) [
        | none ↦ none
        | some (status, d) ↦
            let rest = over_range body steps (add32 addr 4096) end d in
            if status == 0 then rest else some (status, d)
      ]
      else some (0, c)

  -- `COWManager::cow_copy_page_range`
  abbrev pub cow_copy_page_range : ℕ → ℕ → ℕ → ℕ → ℕ → C ℕ
  cow_copy_page_range steps dst src = over_range (copy_page dst src) steps

  -- The body of `cow_free_page_range`, and the function.
  unfoldable pub free_page_cow : ℕ → ℕ → C ℕ
  free_page_cow dir addr c =
      let phys = get_physical_addr (c.memory.dirs dir) addr in
      if phys == 0 then some (0, c) else elim (find_cow_page fuel phys c) [
        | none ↦ none
        | some p ↦
            let d = if p == 0 then c else dec_cow_ref p c in
            some (0, set_memory (unmap_page dir addr d.memory) d)
      ]

  abbrev pub cow_free_page_range : ℕ → ℕ → ℕ → ℕ → C ℕ
  cow_free_page_range steps dir = over_range (free_page_cow dir) steps

  -- The body of `map_pages`, and the function.
  unfoldable pub map_one : ℕ → ℕ → ℕ → C ℕ
  map_one dir flags addr c = elim (alloc_frame distance fuel lru c.memory) [
    | none ↦ none
    | some (frame, m) ↦
        if frame == 0
        then some (failure, set_memory m c)
        else after_map_pages c frame (map_page distance fuel lru dir addr frame flags m)
  ]

  abbrev pub map_pages : ℕ → ℕ → ℕ → ℕ → ℕ → C ℕ
  map_pages steps dir flags = over_range (map_one dir flags) steps

  -- `COWManager::unmap_pages`
  abbrev pub unmap_pages : ℕ → ℕ → ℕ → ℕ → C ℕ
  unmap_pages steps dir =
      over_range (λ addr c. some (0, set_memory (unmap_page dir addr c.memory) c)) steps
