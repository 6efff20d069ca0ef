-- ===== src/X86/Cow/Forking.antt =====
-- `COWManager::cow_copy_page_range` of src/kernel/arch/x86/cow.cc on one page that the parent may
-- write.
use km_os.Prelude.{
  ℕ, ◌+◌, ◌<◌, ◌^◌, ◌≡◌, ◌≢◌, refl, sym, ap, ◌∙◌, true, false, List, [], ◌∷◌, some, inl, inr,
  length, All, Bool-cases, ◌/◌, eq→==, ne→==-false, Fresh, test_bit,
}
use km_os.X86.Paging.{Entry, pt_offset, find_table, set_entry, mapped_entry, get_physical_addr}
use km_os.X86.Paging.Laws.{entry_at, entry_at-set}
use km_os.X86.Memory.{Memory, set_dir}
use km_os.X86.Mapping.{map_page}
use km_os.X86.Cow.{CowManager, place_cow_page, alloc_cow_page, inc_cow_ref, set_refs, set_memory}
use km_os.X86.Cow.Ops.{
  set_writable, after_call, after_protect, share_page, protect, copied_flags, copy_entry, copy_page,
}
use km_os.X86.Cow.Counting.{Tracked, place_cow_page-Tracked, set_refs-Tracked, set_memory-Tracked}
use km_os.X86.Cow.Search.{Searched, find_cow_page-Searched}
use km_os.X86.Cow.Breaking.{map_page-found}

-- A page whose address no page of the list has is not found.
not_found :
    (c : CowManager) (phys q : ℕ) (xs : List ℕ)
    → All (λ p. (c.page p).physical_addr ≢ phys) xs
    → Searched c phys xs q
    → q ≡ 0
not_found c phys q xs a (inl f) = f.0
not_found c phys q [] a (inr f) = absurd f.0
not_found c phys q (x ∷ xs) a (inr (inl e, h)) = absurd (a.0 (rw (← e) h))
not_found c phys q (x ∷ xs) a (inr (inr e, h)) = not_found c phys q xs a.1 (inr (e, h))

-- The new page has two references at the end.
inc_placed :
    (p phys : ℕ) (c : CowManager)
    → p ≢ 0
    → inc_cow_ref p (place_cow_page p phys c) ≡ set_refs p 2 (place_cow_page p phys c)
unfolding inc_cow_ref place_cow_page
inc_placed p phys c n = rw (ne→==-false p 0 n, eq→== p p refl) refl

-- What a copied page looks like: `p` counts two references to its frame, the parent and the child
-- both map the frame, neither may write it.
pub record Copied (dst src addr phys p : ℕ) (e : Entry) (xs : List ℕ) (t : CowManager)
    : Type 0 where
  pub tracked : Tracked t (p ∷ xs)
  pub frame : (t.page p).physical_addr ≡ phys
  pub count : (t.page p).ref_count ≡ 2
  pub parent : entry_at (t.memory.dirs src) addr ≡ some (record e { writable = false })
  pub child :
      entry_at (t.memory.dirs dst) addr
      ≡ some (record { present = true; writable = false; user = e.user; frame = phys / 2 ^ 12 })

child_entry :
    (e : Entry) (phys : ℕ)
    → mapped_entry phys (copied_flags e)
      ≡ record { present = true; writable = false; user = e.user; frame = phys / 2 ^ 12 }
unfolding test_bit
child_entry e phys = elim (Bool-cases e.user) [ inl u ↦ rw u refl | inr u ↦ rw u refl ]

shared :
    (p phys : ℕ) (bs : List ℕ) (c : CowManager)
    → p ≢ 0
    → c.blocks ≡ p ∷ bs
    → share_page phys 0 c
      ≡ some (0, set_refs p 2 (place_cow_page p phys (record c { blocks = bs })))
unfolding share_page alloc_cow_page
shared p phys bs c n e =
    rw (e, ne→==-false p 0 n, ne→==-false p 0 n, inc_placed p phys (record c { blocks = bs }) n)
      refl

module _ (distance : ℕ → ℕ → ℕ) (fuel lru dst src addr phys p : ℕ) (bs xs : List ℕ)
    (table table' : ℕ → Entry) (c : CowManager) (apart : src ≢ dst)
    (found : find_table (c.memory.dirs src) addr ≡ some table)
    (found' : find_table (c.memory.dirs dst) addr ≡ some table')
    (writable : (table (pt_offset addr)).writable ≡ true) (n : p ≢ 0) (block : c.blocks ≡ p ∷ bs)
    (enough : length xs < fuel) (v : Tracked c xs)
    (unshared : All (λ q. (c.page q).physical_addr ≢ phys) xs) where
  abbrev e : Entry
  e = table (pt_offset addr)

  abbrev m : Memory
  m = set_writable src addr table false c.memory

  abbrev d : CowManager
  d = set_memory m c

  abbrev protected : CowManager
  protected = set_refs p 2 (place_cow_page p phys (record d { blocks = bs }))

  protect_run : protect distance fuel lru src addr phys table c ≡ some (0, protected)
  unfolding protect
  protect_run =
      let r = find_cow_page-Searched fuel phys d xs enough (set_memory-Tracked m c xs v) in
      rw (writable, r.1, not_found d phys r.0 xs unshared r.2) (shared p phys bs d n block)

  abbrev m' : Memory
  m' =
      set_dir dst (set_entry (c.memory.dirs dst) addr table' (mapped_entry phys (copied_flags e))) m

  other : m.dirs dst ≡ c.memory.dirs dst
  other = rw (ne→==-false src dst apart) refl

  map_run : map_page distance fuel lru dst addr phys (copied_flags e) m ≡ some (0, m')
  map_run =
      map_page-found distance fuel lru dst addr phys (copied_flags e) table' m (rw other found')
      ∙ ap
          (λ t.
            some (0, set_dir dst (set_entry t addr table' (mapped_entry phys (copied_flags e))) m))
          other

  copy_run :
      copy_entry distance fuel lru dst src addr phys table c ≡ some (0, set_memory m' protected)
  unfolding copy_entry after_protect after_call place_cow_page
  copy_run =
      ap (after_protect distance fuel lru dst addr phys (copied_flags e)) protect_run
      ∙ ap (after_call protected) map_run

  module _ (fresh : Fresh p xs) (bound : length xs + 1 < 2 ^ 32) where
    counted : Tracked protected (p ∷ xs)
    counted = set_refs-Tracked p 2 (place_cow_page p phys (record d { blocks = bs })) [] xs (
        place_cow_page-Tracked p phys (record d { blocks = bs }) xs n fresh bound
          (record {
            chain = v.chain;
            distinct = v.distinct;
            counted = v.counted;
            bounded = v.bounded;
            magic = v.magic;
          }))

    protected-Copied : Copied dst src addr phys p e xs (set_memory m' protected)
    unfolding place_cow_page
    protected-Copied = record {
      tracked = set_memory-Tracked m' protected (p ∷ xs) counted;
      frame = rw (eq→== p p refl) refl;
      count = rw (eq→== p p refl) refl;
      parent =
          rw (ne→==-false dst src (λ q. apart (sym q)), eq→== src src refl)
            (entry_at-set (c.memory.dirs src) addr addr table (record e { writable = false }) found
              ∙ rw (eq→== (addr / 2 ^ 12) (addr / 2 ^ 12) refl) refl);
      child = rw (eq→== dst dst refl) (
          entry_at-set (c.memory.dirs dst) addr addr table' (mapped_entry phys (copied_flags e))
            found'
          ∙ rw (eq→== (addr / 2 ^ 12) (addr / 2 ^ 12) refl)
              (ap (λ t. some t) (child_entry e phys)));
    }

copy_page-present :
    (distance : ℕ → ℕ → ℕ) (fuel lru dst src addr : ℕ) (table : ℕ → Entry) (c : CowManager)
    → get_physical_addr (c.memory.dirs src) addr ≢ 0
    → find_table (c.memory.dirs src) addr ≡ some table
    → (table (pt_offset addr)).present ≡ true
    → copy_page distance fuel lru dst src addr c
      ≡ copy_entry distance fuel lru dst src addr
          (get_physical_addr (c.memory.dirs src) addr)
          table
          c
unfolding copy_page
copy_page-present distance fuel lru dst src addr table c mapped found present =
    rw (ne→==-false (get_physical_addr (c.memory.dirs src) addr) 0 mapped, found, present) refl

-- For a page that the parent `src` maps and may write, that no list entry counts yet, a table for it
-- in the child `dst`, and a block from the slab cache: `cow_copy_page_range` goes on past the page,
-- which is then `Copied`.
pub copy_page-Copied :
    (distance : ℕ → ℕ → ℕ) (fuel lru dst src addr p : ℕ) (bs xs : List ℕ) (table table' : ℕ → Entry)
    (c : CowManager)
    → src ≢ dst
    → find_table (c.memory.dirs src) addr ≡ some table
    → find_table (c.memory.dirs dst) addr ≡ some table'
    → (table (pt_offset addr)).present ≡ true
    → (table (pt_offset addr)).writable ≡ true
    → get_physical_addr (c.memory.dirs src) addr ≢ 0
    → All (λ q. (c.page q).physical_addr ≢ get_physical_addr (c.memory.dirs src) addr) xs
    → Tracked c xs
    → length xs < fuel
    → length xs + 1 < 2 ^ 32
    → c.blocks ≡ p ∷ bs
    → p ≢ 0
    → Fresh p xs
    → (t : CowManager) × (copy_page distance fuel lru dst src addr c ≡ some (0, t))
      × Copied dst src addr
          (get_physical_addr (c.memory.dirs src) addr)
          p
          (table (pt_offset addr))
          xs
          t
copy_page-Copied distance fuel lru dst src addr p bs xs table table' c apart found found' present
      writable mapped unshared v enough bound block n fresh =
    (
      _,
      copy_page-present distance fuel lru dst src addr table c mapped found present
          ∙ copy_run distance fuel lru dst src addr phys p bs xs table table' c apart found found'
              writable n block enough v unshared,
      protected-Copied distance fuel lru dst src addr phys p bs xs table table' c apart found found'
          writable n block enough v unshared fresh bound,
    )
  where
    phys : ℕ
    phys = get_physical_addr (c.memory.dirs src) addr
