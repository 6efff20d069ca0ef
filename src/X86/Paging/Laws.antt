-- ===== src/X86/Paging/Laws.antt =====
-- Page table entries and the translation of vmm.cc.
use native.Mathlib.Decide.{ℕ_discrete}
use km_os.Prelude.{
  ℕ, ◌+◌, ◌*◌, ◌/◌, ◌^◌, ◌<◌, ◌≡◌, ◌≢◌, refl, sym, ap, ◌∙◌, true, Option, none, some, if◌then◌else◌,
  ◌==◌, update, add32, arith, eq→==, ne→==-false, test_bit,
}
use km_os.X86.Paging.{
  pd_offset, pt_offset, pg_offset, Entry, PageDir, find_table, install_table, set_entry,
  mapped_entry, get_physical_addr, empty_entry,
}

-- Two addresses of one page, by their two table indices.
same_page :
    (a b : ℕ) → a / 2 ^ 12 ≢ b / 2 ^ 12 → pd_offset a ≡ pd_offset b → pt_offset a ≢ pt_offset b
same_page a b ne e q = ne (omega arith)

-- The entry for an address, where the directory has a table for it.
abbrev pub entry_of : Option (ℕ → Entry) → ℕ → Option Entry
entry_of none i = none
entry_of (some table) i = some (table i)

abbrev pub entry_at : PageDir → ℕ → Option Entry
entry_at pd addr = entry_of (find_table pd addr) (pt_offset addr)

pub present_of_found :
    (pd : PageDir) (addr : ℕ) (table : ℕ → Entry)
    → find_table pd addr ≡ some table
    → (pd.tables (pd_offset addr)).present ≡ true
unfolding find_table
present_of_found pd addr table found = ground arith

pub find_table-set :
    (pd : PageDir) (addr a : ℕ) (table : ℕ → Entry) (e : Entry)
    → find_table pd addr ≡ some table
    → find_table (set_entry pd addr table e) a ≡ (
        if pd_offset a == pd_offset addr
        then some (update table (pt_offset addr) e)
        else find_table pd a)
unfolding find_table set_entry
find_table-set pd addr a table e found = elim (ℕ_discrete (pd_offset a) (pd_offset addr)) [
  | yes same ↦
      rw (same, present_of_found pd addr table found, eq→== (pd_offset addr) (pd_offset addr) refl)
        refl
  | no other ↦
      rw
        (
          ne→==-false (pd_offset a) (pd_offset addr) other,
          ne→==-false (pd_offset addr) (pd_offset a) (λ q. other (sym q)),
        )
        refl
]

-- Where the directory has a table for `addr`, writing the entry of `addr` changes the entries of
-- the addresses on its page, and no other.
pub entry_at-set :
    (pd : PageDir) (addr a : ℕ) (table : ℕ → Entry) (e : Entry)
    → find_table pd addr ≡ some table
    → entry_at (set_entry pd addr table e) a
      ≡ (if a / 2 ^ 12 == addr / 2 ^ 12 then some e else entry_at pd a)
entry_at-set pd addr a table e found =
    rw (find_table-set pd addr a table e found) (elim (ℕ_discrete (pd_offset a) (pd_offset addr)) [
      | yes same ↦ rw (eq→== (pd_offset a) (pd_offset addr) same) (on_table same)
      | no other ↦
          rw
            (
              ne→==-false (pd_offset a) (pd_offset addr) other,
              ne→==-false (a / 2 ^ 12) (addr / 2 ^ 12) (λ q. other (omega arith)),
            )
            refl
    ])
  where
    here : pd_offset a ≡ pd_offset addr → find_table pd a ≡ some table
    here same = unfold find_table in rw same found

    on_table :
        pd_offset a ≡ pd_offset addr
        → some (update table (pt_offset addr) e (pt_offset a))
          ≡ (if a / 2 ^ 12 == addr / 2 ^ 12 then some e else entry_at pd a)
    on_table same = elim (ℕ_discrete (a / 2 ^ 12) (addr / 2 ^ 12)) [
      | yes q ↦
          rw
            (
              eq→== (a / 2 ^ 12) (addr / 2 ^ 12) q,
              eq→== (pt_offset addr) (pt_offset a) (omega arith),
            )
            refl
      | no nq ↦
          rw
            (
              ne→==-false (a / 2 ^ 12) (addr / 2 ^ 12) nq,
              ne→==-false (pt_offset addr) (pt_offset a) (λ w. same_page a addr nq same (sym w)),
              here same,
            )
            refl
    ]

-- The translation reads only the entry.
abbrev pub translate : Option Entry → ℕ → ℕ
translate none addr = 0
translate (some e) addr = if e.present then add32 (e.frame * 2 ^ 12) (pg_offset addr) else 0

pub get_physical_addr-entry :
    (pd : PageDir) (addr : ℕ) → get_physical_addr pd addr ≡ translate (entry_at pd addr) addr
unfolding get_physical_addr
get_physical_addr-entry pd addr = ground arith

-- A new table is found, and is empty; no other address has a new entry.
pub find_table-install :
    (pd : PageDir) (addr phys : ℕ)
    → find_table (install_table pd addr phys) addr ≡ some (λ i. empty_entry)
unfolding find_table install_table
find_table-install pd addr phys = rw (eq→== (pd_offset addr) (pd_offset addr) refl) refl

unmapped : (pd : PageDir) (addr : ℕ) → find_table pd addr ≡ none → get_physical_addr pd addr ≡ 0
unfolding get_physical_addr
unmapped pd addr e = rw (e, get_physical_addr) refl

empty_table :
    (pd : PageDir) (addr : ℕ)
    → find_table pd addr ≡ some (λ i. empty_entry)
    → get_physical_addr pd addr ≡ 0
unfolding get_physical_addr
empty_table pd addr e = rw (e, get_physical_addr) refl

-- Addresses under one directory entry have one table.
pub find_table-same :
    (pd : PageDir) (a b : ℕ) → pd_offset a ≡ pd_offset b → find_table pd a ≡ find_table pd b
unfolding find_table
find_table-same pd a b e = rw e refl

find_table-install_other :
    (pd : PageDir) (addr phys a : ℕ)
    → pd_offset addr ≢ pd_offset a
    → find_table (install_table pd addr phys) a ≡ find_table pd a
unfolding find_table install_table
find_table-install_other pd addr phys a ne = rw (ne→==-false (pd_offset addr) (pd_offset a) ne) refl

-- A new table changes no translation.
pub get_physical_addr-install :
    (pd : PageDir) (addr phys a : ℕ)
    → find_table pd addr ≡ none
    → get_physical_addr (install_table pd addr phys) a ≡ get_physical_addr pd a
get_physical_addr-install pd addr phys a missing =
    elim (ℕ_discrete (pd_offset addr) (pd_offset a)) [
      | yes same ↦
          empty_table (install_table pd addr phys) a (
            find_table-same (install_table pd addr phys) a addr (sym same)
            ∙ find_table-install pd addr phys)
          ∙ sym (unmapped pd a (find_table-same pd a addr (sym same) ∙ missing))
      | no ne ↦
          get_physical_addr-entry (install_table pd addr phys) a
          ∙ ap (λ t. translate (entry_of t (pt_offset a)) a)
              (find_table-install_other pd addr phys a ne)
          ∙ sym (get_physical_addr-entry pd a)
    ]

-- What `map_page` makes of the translation, once the table is there: the addresses of the page
-- translate into the frame if PG_PRESENT is set and to 0 if not; all others as before.
pub get_physical_addr-map :
    (pd : PageDir) (addr a phys flags : ℕ) (table : ℕ → Entry)
    → find_table pd addr ≡ some table
    → phys < 2 ^ 32
    → get_physical_addr (set_entry pd addr table (mapped_entry phys flags)) a ≡ (
        if a / 2 ^ 12 == addr / 2 ^ 12
        then (if test_bit flags 0 then phys / 2 ^ 12 * 2 ^ 12 + pg_offset a else 0)
        else get_physical_addr pd a)
get_physical_addr-map pd addr a phys flags table found h =
    get_physical_addr-entry (set_entry pd addr table (mapped_entry phys flags)) a
    ∙ rw
        (entry_at-set pd addr a table (mapped_entry phys flags) found, get_physical_addr-entry pd a)
        (ground (arith, exact))
  where
    exact : add32 (phys / 2 ^ 12 * 2 ^ 12) (pg_offset a) ≡ phys / 2 ^ 12 * 2 ^ 12 + pg_offset a
    exact = omega arith
