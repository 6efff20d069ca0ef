-- ===== src/X86/Swap/Slots.antt =====
-- The slots of swap devices: `SwapManager::allocate_swap_entry` and `free_swap_entry`.
use km_os.Prelude.{
  ℕ, zero, suc, ◌+◌, ◌*◌, ◌/◌, ◌%◌, ◌<◌, ◌≡◌, refl, ap, ◌∙◌, Bool, true, false, ◌&&◌, List, [], ◌∷◌,
  Option, none, some, if◌then◌else◌, ◌==◌, ltb, lt→ltb, inl, inr, Bool-cases, length, length-set,
  arith, set_bit, get_or,
}
use km_os.X86.Bitmap.{slot, Words, mark, find_clear}
use km_os.X86.Bitmap.Laws.{FirstFit, find_clear-FirstFit, slot-mark, slot-unmark, mark-Words}
use km_os.X86.Swap.{Device, allocate_swap_entry, past_device, free_slot}

-- The bitmap of every device has a bit for each of its pages.
abbrev pub IsSized : List Device → Type 0
IsSized [] = Unit {0}
IsSized (dev ∷ devs) = (Words dev.bitmap × (length dev.bitmap * 32 ≡ dev.pages)) × IsSized devs

-- The state of slot `k` of the device at `pos`; there is none to take past the last device.
abbrev pub taken : List Device → ℕ → ℕ → Bool
taken [] pos k = true
taken (dev ∷ devs) zero k = slot dev.bitmap k
taken (dev ∷ devs) (suc pos) k = taken devs pos k

abbrev pub pages_at : List Device → ℕ → ℕ
pages_at [] pos = 0
pages_at (dev ∷ devs) zero = dev.pages
pages_at (dev ∷ devs) (suc pos) = pages_at devs pos

-- One slot is changed to `b`.
abbrev pub Changed : List Device → List Device → ℕ → ℕ → Bool → Type 0
Changed devs devs' pos offset b =
    (p k : ℕ) → taken devs' p k ≡ (if p == pos && k == offset then b else taken devs p k)

abbrev pub Allocated : List Device → Option (ℕ × ℕ × List Device) → Type 0
Allocated devs none = Unit {0}
Allocated devs (some (pos, offset, devs')) =
    (taken devs pos offset ≡ false)
    × (offset < pages_at devs pos)
    × Changed devs devs' pos offset true
    × IsSized devs'
    × (pages_at devs' pos ≡ pages_at devs pos)

Allocated-past :
    (dev : Device) (devs : List Device) (r : Option (ℕ × ℕ × List Device))
    → Words dev.bitmap × (length dev.bitmap * 32 ≡ dev.pages)
    → Allocated devs r
    → Allocated (dev ∷ devs) (past_device dev r)
Allocated-past dev devs none w a = tt
Allocated-past dev devs (some (pos, offset, devs')) w a = (a.0, a.1, changed, (w, a.3), a.4)
  where
    changed : Changed (dev ∷ devs) (dev ∷ devs') (suc pos) offset true
    changed zero k = ground arith
    changed (suc p) k =
        a.2 p k ∙ ap (λ b. if b && k == offset then true else taken devs p k) (ground arith)

Allocated-here :
    (dev : Device) (devs : List Device) (r : Option (ℕ × ℕ)) (later : Option (ℕ × ℕ × List Device))
    → Words dev.bitmap × (length dev.bitmap * 32 ≡ dev.pages)
    → IsSized devs
    → FirstFit dev.bitmap r
    → Allocated (dev ∷ devs) later
    → Allocated (dev ∷ devs) (elim r [
      | none ↦ later
      | some (idx, bit) ↦
          some (0, idx * 32 + bit, record dev { bitmap = mark dev.bitmap idx bit } ∷ devs)
    ])
Allocated-here dev devs none later w s f a = a
Allocated-here dev devs (some (idx, bit)) later w s f a = (
  f.2,
  omega (arith, f.0, f.1, w.1),
  changed,
  (
    (
      mark-Words dev.bitmap idx bit f.1 w.0,
      rw (length-set dev.bitmap idx (set_bit (get_or dev.bitmap idx 0) bit)) w.1,
    ),
    s,
  ),
  refl,
)
  where
    changed :
        Changed
          (dev ∷ devs)
          (record dev { bitmap = mark dev.bitmap idx bit } ∷ devs)
          0
          (idx * 32 + bit)
          true
    changed zero k = slot-mark dev.bitmap idx bit k f.0 f.1
    changed (suc p) k = ground arith

-- Where the bitmaps fit their devices: a slot that `allocate_swap_entry` hands out was clear, lies
-- below the device's number of pages and is the one slot that changes.
pub allocate_swap_entry-Allocated :
    (devs : List Device) → IsSized devs → Allocated devs (allocate_swap_entry devs)
unfolding allocate_swap_entry
allocate_swap_entry-Allocated [] s = tt
allocate_swap_entry-Allocated (dev ∷ devs) s = elim (Bool-cases (ltb dev.inuse_pages dev.pages)) [
  | inl room ↦ rw room (
      Allocated-here dev devs (find_clear dev.bitmap 0) (past_device dev (allocate_swap_entry devs))
        s.0 s.1 (find_clear-FirstFit dev.bitmap s.0.0)
        (Allocated-past dev devs (allocate_swap_entry devs) s.0
          (allocate_swap_entry-Allocated devs s.1)))
  | inr full ↦ rw full (
      Allocated-past dev devs (allocate_swap_entry devs) s.0
        (allocate_swap_entry-Allocated devs s.1))
]

pub free_slot-Changed :
    (pos offset : ℕ) (devs : List Device)
    → IsSized devs
    → offset < pages_at devs pos
    → Changed devs (free_slot pos offset devs) pos offset false
unfolding free_slot
free_slot-Changed pos offset [] s h p k = absurd (omega arith)
free_slot-Changed zero offset (dev ∷ devs) s h zero k = rw (lt→ltb offset dev.pages h) (
    slot-unmark dev.bitmap (offset / 32) (offset % 32) k (omega (arith, s.0.1)) (omega arith)
    ∙ ap (λ j. if k == j then false else slot dev.bitmap k) (omega arith))
free_slot-Changed zero offset (dev ∷ devs) s h (suc p) k = ground arith
free_slot-Changed (suc pos) offset (dev ∷ devs) s h zero k = ground arith
free_slot-Changed (suc pos) offset (dev ∷ devs) s h (suc p) k =
    free_slot-Changed pos offset devs s.1 h p k
    ∙ ap (λ b. if b && k == offset then false else taken devs p k) (ground arith)

-- Where the bitmaps fit their devices: freeing the slot that was just handed out leaves every slot
-- of every device as it was before.
pub free_slot-allocate :
    (devs devs' : List Device) (pos offset p k : ℕ)
    → IsSized devs
    → allocate_swap_entry devs ≡ some (pos, offset, devs')
    → taken (free_slot pos offset devs') p k ≡ taken devs p k
free_slot-allocate devs devs' pos offset p k s e =
    ground (
      arith,
      free_slot-Changed pos offset devs' a.3 (omega (arith, a.1, a.4)) p k,
      a.2 p k,
      a.0,
      at,
    )
  where
    a : Allocated devs (some (pos, offset, devs'))
    a = rw e at (allocate_swap_entry-Allocated devs s)

    at : p ≡ pos → k ≡ offset → taken devs p k ≡ false
    at q r = rw (q, r) a.0
