-- ===== src/X86/Frames/Laws.antt =====
-- What `alloc_frame` takes and what `free_frame` gives back.
use km_os.Prelude.{
  ℕ, ◌+◌, ◌*◌, ◌/◌, ◌%◌, ◌^◌, ◌<◌, ◌≡◌, refl, ◌∙◌, true, false, none, some, ◌==◌, if◌then◌else◌,
  arith, add32, sub32, length-set, Option, mul32, lt→ltb, get_or, set_bit, clear_bit,
}
use km_os.X86.Bitmap.{find_clear, slot, mark}
use km_os.X86.Bitmap.Laws.{
  FirstFit, find_clear-FirstFit, slot-mark, slot-unmark, mark-Words, unmark-Words,
}
use km_os.X86.Frames.{Frames, frame_size, max_frames, take_frame, free_frame, in_use, IsValid}

-- What a call of the scan reports: no frame is free, or the lowest free one is now taken.
abbrev pub Taken : Frames → Option (ℕ × Frames) → Type 0
Taken f none = (k : ℕ) → k < max_frames → slot f.bitmap k ≡ true
Taken f (some (addr, g)) =
    (addr < 2 ^ 32)
    × (addr % frame_size ≡ 0)
    × (in_use f addr ≡ false)
    × ((k : ℕ) → k < addr / frame_size → slot f.bitmap k ≡ true)
    × ((k : ℕ) → slot g.bitmap k ≡ (if k == addr / frame_size then true else slot f.bitmap k))
    × (g.frames_used ≡ add32 f.frames_used 1)
    × (g.frame_count ≡ f.frame_count)
    × IsValid g

take_at :
    (f : Frames) (r : Option (ℕ × ℕ))
    → IsValid f
    → FirstFit f.bitmap r
    → Taken f (elim r [
      | none ↦ none
      | some (idx, bit) ↦ some (
        mul32 (idx * 32 + bit) frame_size,
        record f { bitmap = mark f.bitmap idx bit; frames_used = add32 f.frames_used 1 },
      )
    ])
take_at f none v s = λ k h. s k (omega (arith, v.size))
take_at f (some (idx, bit)) v s = (
  omega arith,
  omega (arith, exact),
  rw index s.2,
  λ k h. s.3 k (omega (arith, index)),
  λ k. rw index (slot-mark f.bitmap idx bit k s.0 s.1),
  refl,
  refl,
  record {
    words = mark-Words f.bitmap idx bit s.1 v.words;
    size = rw (length-set f.bitmap idx (set_bit (get_or f.bitmap idx 0) bit)) v.size;
  },
)
  where
    exact : mul32 (idx * 32 + bit) frame_size ≡ (idx * 32 + bit) * frame_size
    exact = omega (arith, s.0, s.1, v.size)

    index : mul32 (idx * 32 + bit) frame_size / frame_size ≡ idx * 32 + bit
    index = omega (arith, exact)

-- For a valid bitmap: `alloc_frame`'s scan reports failure only if every frame is in use.
-- Otherwise it returns the page-aligned address of the lowest free frame, and afterwards that frame
-- is in use, every other one is as before, `frames_used` is one more (modulo 2 ^ 32), `frame_count`
-- is as before and the bitmap is valid.
pub take_frame-Taken : (f : Frames) → IsValid f → Taken f (take_frame f)
unfolding take_frame
take_frame-Taken f v = take_at f (find_clear f.bitmap 0) v (find_clear-FirstFit f.bitmap v.words)

-- What `free_frame` changes, for the address of a frame.
pub slot-free_frame :
    (f : Frames) (addr k : ℕ)
    → IsValid f
    → addr < 2 ^ 32
    → slot (free_frame addr f).bitmap k
      ≡ (if k == addr / frame_size then false else slot f.bitmap k)
unfolding free_frame
slot-free_frame f addr k v h = rw (lt→ltb (addr / frame_size) max_frames (omega arith)) (
    slot-unmark f.bitmap (addr / frame_size / 32) (addr / frame_size % 32) k (omega (arith, v.size))
      (omega arith)
    ∙ rw same refl)
  where
    same : addr / frame_size / 32 * 32 + addr / frame_size % 32 ≡ addr / frame_size
    same = omega arith

pub frames_used-free_frame :
    (f : Frames) (addr : ℕ)
    → addr < 2 ^ 32
    → (free_frame addr f).frames_used ≡ sub32 f.frames_used 1
unfolding free_frame
frames_used-free_frame f addr h = rw (lt→ltb (addr / frame_size) max_frames (omega arith)) refl

pub free_frame-IsValid : (f : Frames) (addr : ℕ) → IsValid f → IsValid (free_frame addr f)
unfolding free_frame
free_frame-IsValid f addr v = ground (
  arith,
  unmark-Words f.bitmap (addr / frame_size / 32) (addr / frame_size % 32) v.words,
  length-set f.bitmap (addr / frame_size / 32)
      (clear_bit (get_or f.bitmap (addr / frame_size / 32) 0) (addr / frame_size % 32)),
)
