-- ===== src/X86/Reclaim/SwapOut.antt =====
-- Swapping out to a device that cannot write.
use mathlib.Core.Path.{subst}
use km_os.Prelude.{
  ℕ, zero, suc, ◌+◌, ◌*◌, ◌<◌, ◌≡◌, ◌≢◌, refl, false, List, [], ◌∷◌, Option, none, some, arith,
  Option-cases, Bool-cases, inl, inr, ◌==◌, ltb, length, ne→==-false, add32,
}
use km_os.X86.Bitmap.{find_clear, mark}
use km_os.X86.Paging.{get_physical_addr}
use km_os.X86.Lru.{find_victim_page}
use km_os.X86.Lru.Shape.{Lists}
use km_os.X86.Lru.Victim.{find_victim_page_lem}
use km_os.X86.Swap.{Device, allocate_swap_entry, past_device, free_swap_entry, swap_file_write_page}
use km_os.X86.Memory.{Memory, set_swap}
use km_os.X86.Reclaim.{swap_entry_id, device_at, swap_out_page, reclaim_loop, reclaim_pages}

-- Every write to the device fails.
abbrev pub CannotWrite : Device → Type 0
CannotWrite dev = (offset phys : ℕ) → dev.write_page offset phys ≢ 0

abbrev pub NoneWrites : List Device → Type 0
NoneWrites [] = Unit {0}
NoneWrites (dev ∷ devs) = CannotWrite dev × NoneWrites devs

-- The devices of this kernel: a file cannot be written.
pub file_CannotWrite : (dev : Device) → dev.write_page ≡ swap_file_write_page → CannotWrite dev
unfolding swap_file_write_page
file_CannotWrite dev e offset phys = rw e (omega arith)

abbrev NoneWritesAfter : Option (ℕ × ℕ × List Device) → Type 0
NoneWritesAfter none = Unit {0}
NoneWritesAfter (some (pos, offset, devs)) = NoneWrites devs

past_NoneWrites :
    (dev : Device) (r : Option (ℕ × ℕ × List Device))
    → CannotWrite dev
    → NoneWritesAfter r
    → NoneWritesAfter (past_device dev r)
past_NoneWrites dev none c a = tt
past_NoneWrites dev (some (pos, offset, devs)) c a = (c, a)

here_NoneWrites :
    (dev : Device) (devs : List Device) (r : Option (ℕ × ℕ)) (later : Option (ℕ × ℕ × List Device))
    → NoneWrites (dev ∷ devs)
    → NoneWritesAfter later
    → NoneWritesAfter (elim r [
      | none ↦ later
      | some (idx, bit) ↦
          some (0, idx * 32 + bit, record dev { bitmap = mark dev.bitmap idx bit } ∷ devs)
    ])
here_NoneWrites dev devs none later c a = a
here_NoneWrites dev devs (some (idx, bit)) later c a = c

allocate_NoneWrites :
    (devs : List Device) → NoneWrites devs → NoneWritesAfter (allocate_swap_entry devs)
unfolding allocate_swap_entry
allocate_NoneWrites [] c = tt
allocate_NoneWrites (dev ∷ devs) c = elim (Bool-cases (ltb dev.inuse_pages dev.pages)) [
  | inl room ↦ rw room (
      here_NoneWrites dev devs (find_clear dev.bitmap 0) _ c
        (past_NoneWrites dev (allocate_swap_entry devs) c.0 (allocate_NoneWrites devs c.1)))
  | inr full ↦
      rw full (past_NoneWrites dev (allocate_swap_entry devs) c.0 (allocate_NoneWrites devs c.1))
]

at_NoneWrites :
    (devs : List Device) (pos : ℕ) (dev : Device)
    → NoneWrites devs
    → device_at devs pos ≡ some dev
    → CannotWrite dev
at_NoneWrites [] pos dev c e = cc
at_NoneWrites (d ∷ devs) zero dev c e = let same : d ≡ dev = cc in subst CannotWrite same c.0
at_NoneWrites (d ∷ devs) (suc pos) dev c e = at_NoneWrites devs pos dev c.1 e

-- What a failed swap-out leaves alone.
pub record Untouched (s t : Memory) : Type 0 where
  pub dirs : t.dirs ≡ s.dirs
  pub frames : t.frames ≡ s.frames
  pub lru : t.swap.lru ≡ s.swap.lru
  pub used_swap_pages : t.swap.used_swap_pages ≡ s.swap.used_swap_pages
  pub swap_out_count : t.swap.swap_out_count ≡ s.swap.swap_out_count
  pub reclaim_attempts : t.swap.reclaim_attempts ≡ s.swap.reclaim_attempts

-- Only the devices may differ.
devices-Untouched :
    (devs : List Device) (s : Memory)
    → Untouched s (set_swap (record (s.swap) { devices = devs }) s)
devices-Untouched devs s = record {
  dirs = refl;
  frames = refl;
  lru = refl;
  used_swap_pages = refl;
  swap_out_count = refl;
  reclaim_attempts = refl;
}

module _ (distance : ℕ → ℕ → ℕ) (fuel : ℕ) where
  abbrev NoSwapOut : ℕ → Memory → Type 0
  NoSwapOut addr s =
      (t : Memory) × (swap_out_page distance fuel addr s ≡ some (0, t)) × Untouched s t

  mapped-NoSwapOut :
      (addr : ℕ) (s : Memory) (pos offset : ℕ) (devs : List Device)
      → NoneWrites devs
      → allocate_swap_entry s.swap.devices ≡ some (pos, offset, devs)
      → (get_physical_addr (s.dirs s.current) addr == 0) ≡ false
      → NoSwapOut addr s
  unfolding swap_out_page
  mapped-NoSwapOut addr s pos offset devs c e live = elim (Option-cases (device_at devs pos)) [
    | inl missing ↦ (
      set_swap (record (s.swap) { devices = devs }) s,
      rw (e, live, missing, swap_out_page) refl,
      devices-Untouched _ s,
    )
    | inr (dev, found) ↦ (
      set_swap
          (record (s.swap) {
            devices = free_swap_entry (swap_entry_id distance devs dev offset) devs;
          })
          s,
      rw
          (
            e,
            live,
            found,
            ne→==-false (dev.write_page offset (get_physical_addr (s.dirs s.current) addr)) 0 (
                at_NoneWrites devs pos dev c found offset
                  (get_physical_addr (s.dirs s.current) addr)),
            swap_out_page,
          )
          refl,
      devices-Untouched _ s,
    )
  ]

  swap_out_page-NoSwapOut : (addr : ℕ) (s : Memory) → NoneWrites s.swap.devices → NoSwapOut addr s
  unfolding swap_out_page
  swap_out_page-NoSwapOut addr s c = elim (Option-cases (allocate_swap_entry s.swap.devices)) [
    | inl e ↦ (s, rw (e, swap_out_page) refl, devices-Untouched _ s)
    | inr ((pos, offset, devs), e) ↦
        elim (Bool-cases (get_physical_addr (s.dirs s.current) addr == 0)) [
          | inl dead ↦ (
            set_swap (record (s.swap) { devices = devs }) s,
            rw (e, dead, swap_out_page) refl,
            devices-Untouched _ s,
          )
          | inr live ↦ mapped-NoSwapOut addr s pos offset devs (kept pos offset devs e) e live
        ]
  ]
    where
      kept :
          (pos offset : ℕ) (devs : List Device)
          → allocate_swap_entry s.swap.devices ≡ some (pos, offset, devs)
          → NoneWrites devs
      kept pos offset devs e = subst NoneWritesAfter e (allocate_NoneWrites s.swap.devices c)

  reclaim_once :
      (n target victim : ℕ) (s : Memory)
      → find_victim_page fuel s.swap.lru ≡ some victim
      → NoneWrites s.swap.devices
      → (t : Memory) × (reclaim_loop distance (suc n) fuel target 0 s ≡ some (0, t)) × Untouched s t
  unfolding reclaim_loop
  reclaim_once n target victim s e c = elim (Bool-cases (ltb 0 target)) [
    | inr done ↦ (s, rw done refl, devices-Untouched _ s)
    | inl more ↦ elim (Bool-cases (ltb 0 s.swap.lru.count)) [
      | inr bare ↦ (s, rw (more, bare) refl, devices-Untouched _ s)
      | inl listed ↦ elim (Bool-cases (victim == 0)) [
        | inl nobody ↦ (s, rw (more, listed, e, nobody, reclaim_loop) refl, devices-Untouched _ s)
        | inr somebody ↦
            let r = swap_out_page-NoSwapOut (s.swap.lru.page victim).virtual_addr s c in
            (r.0, rw (more, listed, e, somebody, r.1, reclaim_loop) refl, r.2)
      ]
    ]
  ]

-- The attempt is counted.
abbrev pub attempted : Memory → Memory
attempted s = set_swap (record (s.swap) { reclaim_attempts = add32 s.swap.reclaim_attempts 1 }) s

-- For a well-formed page list, fuel above its length, and devices that cannot write, as all of this
-- kernel are: `reclaim_pages` ends after one attempt, which it counts, and reports 0 pages. The
-- directories, the frames, the page list and the counts of swapped pages are as before.
pub reclaim_pages_nothing :
    (distance : ℕ → ℕ → ℕ) (fuel lru target : ℕ) (s : Memory) (xs : List ℕ)
    → Lists s.swap.lru xs
    → length xs < lru
    → NoneWrites s.swap.devices
    → (t : Memory) × (reclaim_pages distance (suc fuel) lru target s ≡ some (0, t))
      × Untouched (attempted s) t
unfolding reclaim_pages
reclaim_pages_nothing distance fuel lru target s xs v h c =
    reclaim_once distance lru fuel target _ (attempted s)
      (find_victim_page_lem s.swap.lru xs lru v h) c
