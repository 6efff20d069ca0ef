-- ===== src/X86/Cow/Breaking.antt =====
-- `COWManager::break_cow` of src/kernel/arch/x86/cow.cc on a shared page, through
-- `VMM::unmap_page` and `VMM::map_page`.
use mathlib.Core.Path.{subst}
use km_os.Prelude.{
  ℕ, suc, ◌*◌, ◌/◌, ◌^◌, ◌-◌, Bool, ◌<◌, ◌≡◌, ◌≢◌, refl, sym, ap, ◌∙◌, true, false, none, some,
  arith, if◌then◌else◌, eq→==, ne→==-false, update,
}
use km_os.X86.Frames.{Frames, IsValid, take_frame, free_frame, in_use}
use km_os.X86.Frames.Laws.{Taken, take_frame-Taken, slot-free_frame}
use km_os.X86.Paging.{
  Entry, pd_offset, pt_offset, find_table, set_entry, mapped_entry, get_physical_addr,
}
use km_os.X86.Paging.Laws.{find_table-set, present_of_found}
use km_os.X86.Memory.{Memory, follow_up, set_dir}
use km_os.X86.Reclaim.{unmap_page}
use km_os.X86.Mapping.{get_page_table, write_entry, map_page}
use km_os.X86.Mapping.Laws.{alloc_frame-take}
use km_os.X86.Cow.{CowManager, cow_magic, find_cow_page, dec_cow_ref, set_refs, set_memory}
use km_os.X86.Cow.Ops.{
  copy_bytes, finish_break, after_map, remap, with_frame, break_page, break_cow,
}

-- A page whose table is there is mapped at once.
pub map_page-found :
    (distance : ℕ → ℕ → ℕ) (fuel lru dir addr phys flags : ℕ) (table : ℕ → Entry) (m : Memory)
    → find_table (m.dirs dir) addr ≡ some table
    → map_page distance fuel lru dir addr phys flags m
      ≡ some (0, set_dir dir (set_entry (m.dirs dir) addr table (mapped_entry phys flags)) m)
unfolding map_page get_page_table find_table
map_page-found distance fuel lru dir addr phys flags table m found =
    ap (follow_up (λ t. write_entry dir addr phys flags t)) there ∙ unfold write_entry in refl
  where
    present : ((m.dirs dir).tables (pd_offset addr)).present ≡ true
    present = present_of_found (m.dirs dir) addr table found

    listed :
        (b : Bool)
        → b ≡ true
        → (if b then (m.dirs dir).page_tables (pd_offset addr) else none) ≡ some table
        → (m.dirs dir).page_tables (pd_offset addr) ≡ some table
    listed b e f = sym (rw e refl) ∙ f

    there : get_page_table distance fuel lru dir addr m ≡ some (some table, m)
    there = rw (present, listed _ present found) refl

unmap_page-present :
    (dir addr : ℕ) (table : ℕ → Entry) (m : Memory)
    → find_table (m.dirs dir) addr ≡ some table
    → (table (pt_offset addr)).present ≡ true
    → unmap_page dir addr m
      ≡ set_dir dir
          (set_entry (m.dirs dir) addr table (record (table (pt_offset addr)) { present = false }))
          (record m { frames = free_frame ((table (pt_offset addr)).frame * 2 ^ 12) m.frames })
unfolding unmap_page
unmap_page-present dir addr table m found live = rw (found, live, unmap_page) refl

-- A page with two references or more loses one.
dec_cow_ref-shared :
    (p k : ℕ) (c : CowManager)
    → p ≢ 0
    → (c.page p).magic ≡ cow_magic
    → (c.page p).ref_count ≡ suc (suc k)
    → dec_cow_ref p c ≡ set_refs p (suc k) c
unfolding dec_cow_ref
dec_cow_ref-shared p k c live magic refs =
    rw (ne→==-false p 0 live, magic, left, ne→==-false (suc k) 0 (omega arith)) refl
  where
    left : (c.page p).ref_count - 1 ≡ suc k
    left = omega (arith, refs)

-- What follows the new frame: the page is mapped to it and the old frame is free.
remapped :
    (distance : ℕ → ℕ → ℕ) (fuel lru dir addr p k old new : ℕ) (table : ℕ → Entry) (c : CowManager)
    → find_table (c.memory.dirs dir) addr ≡ some table
    → (table (pt_offset addr)).present ≡ true
    → p ≢ 0
    → (c.page p).magic ≡ cow_magic
    → (c.page p).ref_count ≡ suc (suc k)
    → (t : CowManager) × (remap distance fuel lru dir addr p old new c ≡ some (0, t))
      × (t.memory.frames ≡ free_frame ((table (pt_offset addr)).frame * 2 ^ 12) c.memory.frames)
      × ((d : ℕ) → dir ≢ d → t.memory.dirs d ≡ c.memory.dirs d)
      × ((t.page p).ref_count ≡ suc k)
      × (t.cow_pages ≡ c.cow_pages)
unfolding remap finish_break after_map
remapped distance fuel lru dir addr p k old new table c found live there magic refs = (
  set_refs p (suc k) (set_memory m2 d),
  ap (after_map p new d) mapped ∙ ap (λ t. some (0, t)) counted,
  refl,
  λ q ne. rw (ne→==-false dir q ne) refl,
  rw (eq→== p p refl) refl,
  refl,
)
  where
    gone : Entry
    gone = record (table (pt_offset addr)) { present = false }

    m1 : Memory
    m1 = set_dir dir (set_entry (c.memory.dirs dir) addr table gone) (record c.memory {
      frames = free_frame ((table (pt_offset addr)).frame * 2 ^ 12) c.memory.frames;
    })

    d : CowManager
    d = record c { contents = copy_bytes 4096 old new c.contents }

    table' : ℕ → Entry
    table' = update table (pt_offset addr) gone

    m2 : Memory
    m2 = set_dir dir (set_entry (m1.dirs dir) addr table' (mapped_entry new 7)) m1

    found' : find_table (m1.dirs dir) addr ≡ some table'
    found' = rw (eq→== dir dir refl) (
        find_table-set (c.memory.dirs dir) addr addr table gone found
        ∙ rw (eq→== (pd_offset addr) (pd_offset addr) refl) refl)

    mapped : map_page distance fuel lru dir addr new 7 (unmap_page dir addr c.memory) ≡ some (0, m2)
    mapped =
        ap (map_page distance fuel lru dir addr new 7)
          (unmap_page-present dir addr table c.memory found live)
        ∙ map_page-found distance fuel lru dir addr new 7 table' m1 found'

    counted : dec_cow_ref p (set_memory m2 d) ≡ set_refs p (suc k) (set_memory m2 d)
    counted = dec_cow_ref-shared p k (set_memory m2 d) there magic refs

-- A page that is mapped in `dir` and has two references or more, where a frame is free: `break_cow`
-- returns 0 and takes one reference away, but `unmap_page` frees the old frame: no longer in use, it
-- is still what the other directories, which stay as they were, map.
pub break_cow-frees_shared :
    (distance : ℕ → ℕ → ℕ) (fuel lru dir addr p k new : ℕ) (f : Frames) (table : ℕ → Entry)
    (c : CowManager)
    → IsValid c.memory.frames
    → find_table (c.memory.dirs dir) addr ≡ some table
    → (table (pt_offset addr)).present ≡ true
    → (table (pt_offset addr)).frame < 2 ^ 20
    → get_physical_addr (c.memory.dirs dir) addr ≢ 0
    → find_cow_page (suc fuel) (get_physical_addr (c.memory.dirs dir) addr) c ≡ some p
    → p ≢ 0
    → (c.page p).magic ≡ cow_magic
    → (c.page p).ref_count ≡ suc (suc k)
    → take_frame c.memory.frames ≡ some (new, f)
    → new ≢ 0
    → (t : CowManager) × (break_cow distance (suc fuel) lru dir addr c ≡ some (0, t))
      × (in_use t.memory.frames ((table (pt_offset addr)).frame * 2 ^ 12) ≡ false)
      × ((d : ℕ) → dir ≢ d → t.memory.dirs d ≡ c.memory.dirs d)
      × ((t.page p).ref_count ≡ suc k)
unfolding break_cow break_page with_frame
break_cow-frees_shared distance fuel lru dir addr p k new f table c v found live small mapped listed
      there magic refs free fresh =
    let r =
      remapped distance (suc fuel) lru dir addr p k old new table (set_memory m c) found live there
        magic refs in
    (r.0, run ∙ r.1, rw r.2 freed, r.3, r.4)
  where
    old : ℕ
    old = get_physical_addr (c.memory.dirs dir) addr

    m : Memory
    m = record c.memory { frames = f }

    valid : IsValid f
    valid = (subst (Taken c.memory.frames) free (take_frame-Taken c.memory.frames v)).7

    run :
        break_cow distance (suc fuel) lru dir addr c
        ≡ remap distance (suc fuel) lru dir addr p old new (set_memory m c)
    run =
        rw
          (
            ne→==-false old 0 mapped,
            listed,
            ne→==-false p 0 there,
            refs,
            ne→==-false (suc (suc k)) 1 (omega arith),
            alloc_frame-take distance fuel lru new c.memory f free,
            ne→==-false new 0 fresh,
          )
          refl

    freed :
        in_use
          (free_frame ((table (pt_offset addr)).frame * 2 ^ 12) f)
          ((table (pt_offset addr)).frame * 2 ^ 12)
        ≡ false
    freed =
        slot-free_frame f ((table (pt_offset addr)).frame * 2 ^ 12)
          ((table (pt_offset addr)).frame * 2 ^ 12 / 4096) valid (omega arith)
        ∙ rw
            (eq→== ((table (pt_offset addr)).frame * 2 ^ 12 / 4096)
              ((table (pt_offset addr)).frame * 2 ^ 12 / 4096) refl)
            refl
