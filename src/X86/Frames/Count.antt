-- ===== src/X86/Frames/Count.antt =====
-- The counter `frames_used` of class VMM against the frames in use.
use native.Mathlib.Decide.{ℕ_discrete}
use km_os.Prelude.{
  ℕ, zero, suc, ◌+◌, ◌*◌, ◌/◌, ◌%◌, ◌^◌, ◌<◌, ◌≤◌, ◌≡◌, ◌≢◌, refl, sym, ap, ◌∙◌, Bool, true, false,
  some, if◌then◌else◌, arith, ltb, min, eq→==, ne→==-false, ◌++◌, replicate, get_or, length,
  length-append, length-replicate, get_or-replicate, test_bit-zero, test_bit-ones, Bool-cases, inl,
  inr, ltb→lt, ltb-false→le, le→ltb-false, lt→ltb,
}
use km_os.X86.Bitmap.{slot, Words, full_word}
use km_os.X86.Frames.{
  Frames, frame_size, max_frames, phys_mem_start, take_frame, free_frame, in_use, IsValid,
  init_frames,
}
use km_os.X86.Frames.Laws.{Taken, take_frame-Taken, slot-free_frame, frames_used-free_frame}

-- How many of the first `n` slots are set.
pub count : (ℕ → Bool) → ℕ → ℕ
count p zero = 0
count p (suc n) = count p n + (if p n then 1 else 0)

count-le : (p : ℕ → Bool) (n : ℕ) → count p n ≤ n
unfolding count
count-le p zero = omega arith
count-le p (suc n) = ground (arith, count-le p n)

count_same : (p q : ℕ → Bool) (n : ℕ) → ((k : ℕ) → k < n → q k ≡ p k) → count q n ≡ count p n
unfolding count
count_same p q zero h = refl
count_same p q (suc n) h = rw (h n (omega arith), count_same p q n (λ k l. h k (omega arith)))

-- Setting one clear slot adds one.
count_set :
    (p q : ℕ → Bool) (j n : ℕ)
    → j < n
    → p j ≡ false
    → q j ≡ true
    → ((k : ℕ) → k ≢ j → q k ≡ p k)
    → count q n ≡ count p n + 1
unfolding count
count_set p q j zero h a b same = absurd (omega arith)
count_set p q j (suc n) h a b same = elim (ℕ_discrete n j) [
  | yes e ↦ rw (e, a, b, count_same p q j (λ k l. same k (omega arith))) (omega arith)
  | no ne ↦ rw (same n ne) (omega (arith, count_set p q j n (omega arith) a b same))
]

count-ltb : (m n : ℕ) → count (λ k. ltb k m) n ≡ min m n
unfolding count
count-ltb m zero = omega arith
count-ltb m (suc n) = ground (arith, count-ltb m n)

abbrev pub Accounted : Frames → Type 0
Accounted f = f.frames_used ≡ count (slot f.bitmap) max_frames

slots_le : (f : Frames) → count (slot f.bitmap) max_frames ≤ max_frames
slots_le f = count-le (slot f.bitmap) max_frames

-- Taking a frame keeps `frames_used` the number of the frames in use.
pub take_frame-Accounted :
    (f g : Frames) (addr : ℕ)
    → IsValid f
    → Accounted f
    → take_frame f ≡ some (addr, g)
    → Accounted g
take_frame-Accounted f g addr v a e = omega (
  arith,
  t.5,
  slots_le f,
  a,
  count_set (slot f.bitmap) (slot g.bitmap) (addr / frame_size) max_frames (omega (arith, t.0)) t.2
      (rw (t.4 (addr / frame_size), eq→== (addr / frame_size) _ refl) refl)
      (λ k ne. rw (t.4 k, ne→==-false k (addr / frame_size) ne) refl),
)
  where
    t : Taken f (some (addr, g))
    t = rw e at (take_frame-Taken f v)

-- Freeing a frame that is in use keeps it so too.
pub free_frame-Accounted :
    (f : Frames) (addr : ℕ)
    → IsValid f
    → Accounted f
    → addr < 2 ^ 32
    → in_use f addr ≡ true
    → Accounted (free_frame addr f)
free_frame-Accounted f addr v a h used = omega (
  arith,
  frames_used-free_frame f addr h,
  slots_le f,
  a,
  count_set (slot (free_frame addr f).bitmap) (slot f.bitmap) (addr / frame_size) max_frames
      (omega arith)
      (rw (slot-free_frame f addr (addr / frame_size) v h, eq→== (addr / frame_size) _ refl) refl)
      used (λ k ne. rw (slot-free_frame f addr k v h, ne→==-false k (addr / frame_size) ne) refl),
)

-- Freeing a frame that is free already is not caught: `frames_used` no longer counts.
pub free_frame_twice :
    (f : Frames) (addr : ℕ)
    → IsValid f
    → Accounted f
    → addr < 2 ^ 32
    → in_use f addr ≡ false
    → ¬ Accounted (free_frame addr f)
free_frame_twice f addr v a h free b = omega (
  arith,
  frames_used-free_frame f addr h,
  slots_le f,
  a,
  b,
  count_same (slot f.bitmap) (slot (free_frame addr f).bitmap) max_frames unchanged,
)
  where
    unchanged : (k : ℕ) → k < max_frames → slot (free_frame addr f).bitmap k ≡ slot f.bitmap k
    unchanged k l = elim (ℕ_discrete k (addr / frame_size)) [
      | yes e ↦ rw (slot-free_frame f addr k v h, eq→== k (addr / frame_size) e, e) (sym free)
      | no ne ↦ rw (slot-free_frame f addr k v h, ne→==-false k (addr / frame_size) ne) refl
    ]

get_or_two :
    (m n i v : ℕ) → get_or (replicate m v ++ replicate n 0) i 0 ≡ (if ltb i m then v else 0)
get_or_two zero n i v = rw (le→ltb-false i 0 (omega arith)) (get_or-replicate n i 0)
get_or_two (suc m) n zero v = ground arith
get_or_two (suc m) n (suc i) v =
    get_or_two m n i v ∙ ap (λ b. if b then v else 0) (shift (ltb i m) refl)
  where
    shift : (b : Bool) → ltb i m ≡ b → ltb i m ≡ ltb (suc i) (suc m)
    shift b e = ground arith

slot_two : (m n k : ℕ) → slot (replicate m full_word ++ replicate n 0) k ≡ ltb k (m * 32)
slot_two m n k = elim (Bool-cases (ltb (k / 32) m)) [
  | inl low ↦
      rw (get_or_two m n (k / 32) full_word, low, lt→ltb k (m * 32) (omega (arith, ltb→lt _ _ low)))
        (test_bit-ones 32 full_word (k % 32) refl (omega arith))
  | inr high ↦
      rw
        (
          get_or_two m n (k / 32) full_word,
          high,
          le→ltb-false k (m * 32) (omega (arith, ltb-false→le _ _ high)),
        )
        (test_bit-zero (k % 32))
]

length_two : (m n v : ℕ) → length (replicate m v ++ replicate n 0) ≡ m + n
length_two m n v = omega (
  arith,
  length-append (replicate m v) (replicate n 0),
  length-replicate m v,
  length-replicate {A = ℕ} n 0,
)

Words-two : (m n v : ℕ) → v < 2 ^ 32 → Words (replicate m v ++ replicate n 0)
Words-two zero zero v h = tt
Words-two zero (suc n) v h = (omega arith, Words-two zero n v h)
Words-two (suc m) n v h = (h, Words-two m n v h)

-- At the start the bitmap is valid, the frames in use are those of the first megabyte, and
-- `frames_used` counts them.
pub init_frames_lem :
    IsValid init_frames
    × ((k : ℕ) → slot init_frames.bitmap k ≡ ltb k (phys_mem_start / frame_size))
    × Accounted init_frames
unfolding init_frames
init_frames_lem = (
  record {
    words = Words-two 8 32760 full_word (omega arith);
    size = omega (arith, length_two 8 32760 full_word);
  },
  slot_two 8 32760,
  sym (
      count_same (λ k. ltb k 256) _ max_frames (λ k h. slot_two 8 32760 k)
      ∙ count-ltb 256 max_frames),
)
