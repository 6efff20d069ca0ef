-- ===== src/X86/Mapping/Laws.antt =====
-- `VMM::map_page` and the translation.
use native.Mathlib.Decide.{ℕ_discrete}
use km_os.Prelude.{
  ℕ, suc, ◌+◌, ◌*◌, ◌/◌, ◌^◌, ◌<◌, ◌≡◌, ◌≢◌, ◌⊎◌, refl, sym, ap, ◌∙◌, true, false, List, Option,
  none, some, inl, inr, Bool-cases, Option-cases, if◌then◌else◌, ◌==◌, eq→==, ne→==-false, test_bit,
}
use km_os.X86.Frames.{Frames, take_frame, free_frame}
use km_os.X86.Paging.{
  Entry, PageDir, pd_offset, pt_offset, pg_offset, find_table, install_table, set_entry,
  mapped_entry, get_physical_addr, empty_entry,
}
use km_os.X86.Paging.Laws.{
  entry_of, translate, get_physical_addr-entry, get_physical_addr-install, get_physical_addr-map,
  find_table-install,
}
use km_os.X86.Swap.{failure}
use km_os.X86.Memory.{Memory, M, follow_up, ◌>>=◌, set_dir, next_block, blocks_left}
use km_os.X86.Reclaim.{alloc_frame}
use km_os.X86.Mapping.{drop_table, place_table, new_table, write_entry, get_page_table, map_page}

-- The translation of `x` after the page of `addr` is mapped.
abbrev pub mapped : ℕ → ℕ → ℕ → PageDir → ℕ → ℕ
mapped addr phys flags pd x =
    if x / 2 ^ 12 == addr / 2 ^ 12
    then (if test_bit flags 0 then phys / 2 ^ 12 * 2 ^ 12 + pg_offset x else 0)
    else get_physical_addr pd x

-- The page is mapped and 0 returned, or nothing translates otherwise than before and -1 is returned;
-- other directories stay.
pub record Outcome (dir addr phys flags : ℕ) (s : Memory) (ret : ℕ) (t : Memory) : Type 0 where
  pub here :
      ((ret ≡ 0)
        × ((x : ℕ) → get_physical_addr (t.dirs dir) x ≡ mapped addr phys flags (s.dirs dir) x))
      ⊎ ((ret ≡ failure)
          × ((x : ℕ) → get_physical_addr (t.dirs dir) x ≡ get_physical_addr (s.dirs dir) x))
  pub elsewhere : (d : ℕ) → dir ≢ d → t.dirs d ≡ s.dirs d

module _ (dir addr phys flags : ℕ) (range : phys < 2 ^ 32) where
  written :
      (table : ℕ → Entry) (pd : PageDir) (s : Memory)
      → find_table (s.dirs dir) addr ≡ some table
      → ((x : ℕ) → get_physical_addr (s.dirs dir) x ≡ get_physical_addr pd x)
      → (x : ℕ)
      → get_physical_addr
          ((set_dir dir (set_entry (s.dirs dir) addr table (mapped_entry phys flags)) s).dirs dir)
          x
        ≡ mapped addr phys flags pd x
  written table pd s found same x =
      rw (eq→== dir dir refl)
        (get_physical_addr-map (s.dirs dir) addr x phys flags table found range ∙ rw (same x) refl)

  -- A table that is not present is dropped.
  dropped :
      (pd : PageDir) (x : ℕ)
      → (pd.tables (pd_offset addr)).present ≡ false
      → get_physical_addr (drop_table pd addr) x ≡ get_physical_addr pd x
  dropped pd x absent =
      get_physical_addr-entry (drop_table pd addr) x
      ∙ ap (λ t. translate (entry_of t (pt_offset x)) x) table
      ∙ sym (get_physical_addr-entry pd x)
    where
      table : find_table (drop_table pd addr) x ≡ find_table pd x
      table =
          unfold find_table in
          elim (ℕ_discrete (pd_offset addr) (pd_offset x)) [
            | yes e ↦ rw (← e, absent) refl
            | no ne ↦ rw (ne→==-false (pd_offset addr) (pd_offset x) ne) refl
          ]

  -- A new table, where its two allocations have returned `p` and `block`, and the entry in it.
  installed :
      (block p : ℕ) (f : Frames) (h : List ℕ) (s : Memory)
      → find_table (s.dirs dir) addr ≡ none
      → ((s.dirs dir).tables (pd_offset addr)).present ≡ false
      → (ret : ℕ) × (t : Memory) × ((place_table dir addr p block >>= λ table.
              write_entry dir addr phys flags table)
            (record s { frames = f; heap = h })
          ≡ some (ret, t))
        × Outcome dir addr phys flags s ret t
  unfolding place_table write_entry
  installed block p f h s missing absent = elim (Bool-cases (block == 0)) [
    | inl failed ↦ (
      failure,
      record (set_dir dir (drop_table (s.dirs dir) addr) u) { frames = free_frame p f },
      ap (follow_up write) (no_block failed),
      record {
        here = inr (refl, λ x. rw (eq→== dir dir refl) (dropped (s.dirs dir) x absent));
        elsewhere = λ d n. rw (ne→==-false dir d n) refl;
      },
    )
    | inr there ↦ (
      0,
      set_dir dir (set_entry (v.dirs dir) addr (λ i. empty_entry) (mapped_entry phys flags)) v,
      ap (follow_up write) (a_block there),
      record {
        here = inl (refl, written (λ i. empty_entry) (s.dirs dir) v found same);
        elsewhere = λ d n. rw (ne→==-false dir d n) refl;
      },
    )
  ]
    where
      u : Memory
      u = record s { frames = f; heap = h }

      write : Option (ℕ → Entry) → M ℕ
      write table = write_entry dir addr phys flags table

      no_block :
          (block == 0) ≡ true
          → place_table dir addr p block u
            ≡ some (
              none,
              record (set_dir dir (drop_table (s.dirs dir) addr) u) { frames = free_frame p f },
            )
      no_block e = rw e refl

      v : Memory
      v = set_dir dir (install_table (s.dirs dir) addr p) u

      a_block :
          (block == 0) ≡ false → place_table dir addr p block u ≡ some (some (λ i. empty_entry), v)
      a_block e = rw e refl

      found : find_table (v.dirs dir) addr ≡ some (λ i. empty_entry)
      found = rw (eq→== dir dir refl) (find_table-install (s.dirs dir) addr p)

      same : (x : ℕ) → get_physical_addr (v.dirs dir) x ≡ get_physical_addr (s.dirs dir) x
      same x = rw (eq→== dir dir refl) (get_physical_addr-install (s.dirs dir) addr p x missing)

  -- The same, from the frame on.
  framed :
      (p : ℕ) (f : Frames) (s : Memory)
      → find_table (s.dirs dir) addr ≡ none
      → ((s.dirs dir).tables (pd_offset addr)).present ≡ false
      → (ret : ℕ) × (t : Memory) × ((new_table dir addr p >>= λ table.
              write_entry dir addr phys flags table)
            (record s { frames = f })
          ≡ some (ret, t))
        × Outcome dir addr phys flags s ret t
  unfolding new_table
  framed p f s missing absent = elim (Bool-cases (p == 0)) [
    | inl null ↦ (
      failure,
      record s { frames = f },
      ap (follow_up write) (no_frame null) ∙ unfold write_entry in refl,
      record { here = inr (refl, λ x. refl); elsewhere = λ d n. refl },
    )
    | inr there ↦
        let r = installed (next_block s.heap) p f (blocks_left s.heap) s missing absent in
        (r.0, r.1, ap (follow_up write) (made there) ∙ r.2, r.3)
  ]
    where
      u : Memory
      u = record s { frames = f }

      write : Option (ℕ → Entry) → M ℕ
      write table = write_entry dir addr phys flags table

      no_frame : (p == 0) ≡ true → new_table dir addr p u ≡ some (none, u)
      no_frame e = rw e refl

      made :
          (p == 0) ≡ false
          → new_table dir addr p u
            ≡ place_table dir addr p
                (next_block s.heap)
                (record s { frames = f; heap = blocks_left s.heap })
      made e = rw e refl

absent_table :
    (pd : PageDir) (addr : ℕ)
    → (pd.tables (pd_offset addr)).present ≡ false
    → find_table pd addr ≡ none
unfolding find_table
absent_table pd addr e = rw e refl

present_table :
    (pd : PageDir) (addr : ℕ) (table : ℕ → Entry)
    → (pd.tables (pd_offset addr)).present ≡ true
    → pd.page_tables (pd_offset addr) ≡ some table
    → find_table pd addr ≡ some table
unfolding find_table
present_table pd addr table e f = rw e f

-- The frame for a new table, if one is needed: the scan of `alloc_frame` succeeds.
pub alloc_frame-take :
    (distance : ℕ → ℕ → ℕ) (fuel lru p : ℕ) (s : Memory) (f : Frames)
    → take_frame s.frames ≡ some (p, f)
    → alloc_frame distance (suc fuel) lru s ≡ some (p, record s { frames = f })
unfolding alloc_frame
alloc_frame-take distance fuel lru p s f e = rw (e, alloc_frame) refl

-- For a 32-bit physical address, a free frame, and a directory whose present entries have their
-- tables: `map_page` returns. It returns 0, and the page translates as `mapped` says; or it returns
-- -1 and the directory translates every address as before. Other directories stay.
pub map_page-Outcome :
    (distance : ℕ → ℕ → ℕ) (fuel lru dir addr phys flags p : ℕ) (s : Memory) (f : Frames)
    → phys < 2 ^ 32
    → take_frame s.frames ≡ some (p, f)
    → (((s.dirs dir).tables (pd_offset addr)).present ≡ true
        → (s.dirs dir).page_tables (pd_offset addr) ≢ none)
    → (ret : ℕ) × (t : Memory) × (map_page distance (suc fuel) lru dir addr phys flags s
        ≡ some (ret, t))
      × Outcome dir addr phys flags s ret t
unfolding map_page get_page_table
map_page-Outcome distance fuel lru dir addr phys flags p s f range free tables =
    elim (Bool-cases ((s.dirs dir).tables (pd_offset addr)).present) [
      | inr absent ↦
          let r =
            framed dir addr phys flags range p f s (absent_table (s.dirs dir) addr absent) absent in
          (r.0, r.1, ap (follow_up write) (fresh absent) ∙ r.2, r.3)
      | inl present ↦ elim (Option-cases ((s.dirs dir).page_tables (pd_offset addr))) [
        | inl none_there ↦ absurd (tables present none_there)
        | inr (table, there) ↦ (
          0,
          set_dir dir (set_entry (s.dirs dir) addr table (mapped_entry phys flags)) s,
          ap (follow_up write) (kept table present there) ∙ unfold write_entry in refl,
          record {
            here = inl (
              refl,
              written dir addr phys flags range table (s.dirs dir) s
                  (present_table (s.dirs dir) addr table present there) (λ x. refl),
            );
            elsewhere = λ d n. rw (ne→==-false dir d n) refl;
          },
        )
      ]
    ]
  where
    write : Option (ℕ → Entry) → M ℕ
    write table = write_entry dir addr phys flags table

    fresh :
        ((s.dirs dir).tables (pd_offset addr)).present ≡ false
        → get_page_table distance (suc fuel) lru dir addr s
          ≡ new_table dir addr p (record s { frames = f })
    fresh e =
        rw e (
          ap (follow_up (λ q. new_table dir addr q))
            (alloc_frame-take distance fuel lru p s f free))

    kept :
        (table : ℕ → Entry)
        → ((s.dirs dir).tables (pd_offset addr)).present ≡ true
        → (s.dirs dir).page_tables (pd_offset addr) ≡ some table
        → get_page_table distance (suc fuel) lru dir addr s ≡ some (some table, s)
    kept table e g = rw (e, g) refl
