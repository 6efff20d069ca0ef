-- ===== src/X86/Reclaim/Unmap.antt =====
-- `VMM::unmap_page` and the translation.
use native.Mathlib.Decide.{ℕ_discrete}
use km_os.Prelude.{
  ℕ, ◌*◌, ◌/◌, ◌^◌, ◌≡◌, refl, ap, ◌∙◌, false, some, arith, Option-cases, Bool-cases, inl, inr,
  if◌then◌else◌, ◌==◌, eq→==, ne→==-false,
}
use km_os.X86.Frames.{Frames, free_frame}
use km_os.X86.Paging.{Entry, PageDir, pt_offset, find_table, set_entry, get_physical_addr}
use km_os.X86.Paging.Laws.{
  entry_at, entry_of, entry_at-set, translate, get_physical_addr-entry, find_table-same,
}
use km_os.X86.Memory.{Memory, set_dir}
use km_os.X86.Reclaim.{unmap_page}

-- The translation in one directory after the entry of `addr` is marked absent.
dropped :
    (pd : PageDir) (addr a : ℕ) (table : ℕ → Entry)
    → find_table pd addr ≡ some table
    → get_physical_addr
        (set_entry pd addr table (record (table (pt_offset addr)) { present = false }))
        a
      ≡ (if a / 2 ^ 12 == addr / 2 ^ 12 then 0 else get_physical_addr pd a)
dropped pd addr a table found =
    get_physical_addr-entry
      (set_entry pd addr table (record (table (pt_offset addr)) { present = false })) a
    ∙ rw
        (
          entry_at-set pd addr a table (record (table (pt_offset addr)) { present = false }) found,
          get_physical_addr-entry pd a,
        )
        (ground arith)

same_entry : (pd : PageDir) (a b : ℕ) → a / 2 ^ 12 ≡ b / 2 ^ 12 → entry_at pd a ≡ entry_at pd b
same_entry pd a b e =
    ap (λ t. entry_of t (pt_offset a)) (find_table-same pd a b tables)
    ∙ ap (λ i. entry_of (find_table pd b) i) slots
  where
    tables : a / 2 ^ 22 ≡ b / 2 ^ 22
    tables = omega arith

    slots : pt_offset a ≡ pt_offset b
    slots = omega arith

-- A page whose entry is absent translates to 0 already.
absent :
    (pd : PageDir) (addr a : ℕ)
    → ((x : ℕ) → translate (entry_at pd addr) x ≡ 0)
    → get_physical_addr pd a ≡ (if a / 2 ^ 12 == addr / 2 ^ 12 then 0 else get_physical_addr pd a)
absent pd addr a none_there = elim (ℕ_discrete (a / 2 ^ 12) (addr / 2 ^ 12)) [
  | yes e ↦ rw (eq→== (a / 2 ^ 12) (addr / 2 ^ 12) e) (
      get_physical_addr-entry pd a
      ∙ ap (λ t. translate t a) (same_entry pd a addr e)
      ∙ none_there a)
  | no ne ↦ rw (ne→==-false (a / 2 ^ 12) (addr / 2 ^ 12) ne) refl
]

-- After `unmap_page` in the directory `dir` no address of the page translates, and the others
-- translate as before.
pub unmap_page_lem :
    (dir addr a : ℕ) (s : Memory)
    → get_physical_addr ((unmap_page dir addr s).dirs dir) a
      ≡ (if a / 2 ^ 12 == addr / 2 ^ 12 then 0 else get_physical_addr (s.dirs dir) a)
unfolding unmap_page
unmap_page_lem dir addr a s = elim (Option-cases (find_table (s.dirs dir) addr)) [
  | inl missing ↦ rw (missing, unmap_page) (absent (s.dirs dir) addr a (λ x. rw missing refl))
  | inr (table, found) ↦ elim (Bool-cases (table (pt_offset addr)).present) [
    | inl live ↦
        rw (found, live, unmap_page, eq→== dir dir refl) (dropped (s.dirs dir) addr a table found)
    | inr dead ↦
        rw (found, dead, unmap_page) (absent (s.dirs dir) addr a (λ x. rw (found, dead) refl))
  ]
]

-- What `unmap_page` leaves alone.
pub record Kept (dir : ℕ) (s t : Memory) : Type 0 where
  pub current : t.current ≡ s.current
  pub swap : t.swap ≡ s.swap
  pub swapped_pages : (t.dirs dir).swapped_pages ≡ (s.dirs dir).swapped_pages

pub unmap_page-Kept : (dir addr : ℕ) (s : Memory) → Kept dir s (unmap_page dir addr s)
unfolding unmap_page set_entry
unmap_page-Kept dir addr s = elim (Option-cases (find_table (s.dirs dir) addr)) [
  | inl missing ↦
      rw (missing, unmap_page) (record { current = refl; swap = refl; swapped_pages = refl })
  | inr (table, found) ↦ elim (Bool-cases (table (pt_offset addr)).present) [
    | inl live ↦
        rw (found, live, unmap_page)
          (written
            (set_entry (s.dirs dir) addr table
              (record (table (pt_offset addr)) { present = false }))
            (free_frame ((table (pt_offset addr)).frame * 2 ^ 12) s.frames) refl)
    | inr dead ↦
        rw (found, dead, unmap_page) (record { current = refl; swap = refl; swapped_pages = refl })
  ]
]
  where
    written :
        (pd : PageDir) (f : Frames)
        → pd.swapped_pages ≡ (s.dirs dir).swapped_pages
        → Kept dir s (set_dir dir pd (record s { frames = f }))
    written pd f e = record {
      current = refl;
      swap = refl;
      swapped_pages = rw (eq→== dir dir refl) e;
    }
