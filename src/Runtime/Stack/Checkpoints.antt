-- ===== src/Runtime/Stack/Checkpoints.antt =====
-- `alloc`, and checkpoints round it: src/kernel/runtime/stack.cc.
use mathlib.Core.Path.{subst}
use km_os.Prelude.{
  ℕ, ◌+◌, ◌*◌, ◌/◌, ◌^◌, ◌%◌, ◌<◌, ◌≤◌, ◌≡◌, ◌≢◌, refl, ap, ◌∙◌, true, false, List, ◌∷◌, arith,
  ◌==◌, Bool, ◌&&◌, not, le→ltb-false, Bool-cases, inl, inr, sym, eq→==, ne→==-false, leb, add32,
}
use km_os.Runtime.Stack.{
  StackFrame, StackAllocator, stack_canary, align_size, overflows, place, alloc_from, note_check,
  alloc,
}
use km_os.Runtime.Stack.Ops.{
  free_from, free_to_checkpoint, create_checkpoint, drop_checkpoints, restore_checkpoint,
}
use km_os.Runtime.Stack.Masks.{align_size-16}

-- A frame of the allocator in memory below 2 ^ 31.
pub record IsFrame (f : StackFrame) : Type 0 where
  pub positive : 0 < f.start
  pub above : f.start ≤ f.current
  pub below : f.current ≤ f.limit
  pub range : f.limit < 2 ^ 31
  pub canary : f.canary ≡ stack_canary

-- What `alloc` hands out: a pointer aligned to 16, at the old top or above; the size asked for fits
-- below the new top, which is within the frame. Older frames and the checkpoints stay.
pub record Allocated (size : ℕ) (f : StackFrame) (older : List StackFrame) (a : StackAllocator)
    (r : ℕ × StackAllocator) : Type 0 where
  pub top : ℕ
  pub frames : r.1.frames ≡ record f { current = top } ∷ older
  pub inside : top ≤ f.limit
  pub aligned : r.0 % 16 ≡ 0
  pub old : f.current ≤ r.0
  pub fits : r.0 + size ≤ top
  pub checkpoints : r.1.checkpoints ≡ a.checkpoints
  pub saved_pos : r.1.saved_pos ≡ a.saved_pos
  pub initialized : r.1.initialized ≡ a.initialized

module _ (size : ℕ) (f : StackFrame) (older : List StackFrame) (v : IsFrame f)
    (room : (f.current + 15) / 16 * 16 + (size + 15) / 16 * 16 ≤ f.limit) where
  pointer : align_size f.current 16 ≡ (f.current + 15) / 16 * 16
  pointer = align_size-16 f.current (omega (arith, v.below, v.range))

  bytes : align_size size 16 ≡ (size + 15) / 16 * 16
  bytes = align_size-16 size (omega (arith, room, v.range))

  fit : overflows (align_size size 16) 16 f ≡ false
  fit =
      le→ltb-false f.limit (add32 (align_size f.current 16) (align_size size 16))
        (omega (arith, pointer, bytes, room, v.range))

  place-Allocated :
      (b : StackAllocator)
      → Allocated size f older b (place (align_size f.current 16) (align_size size 16) f older b)
  unfolding place
  place-Allocated b = rw (intact b.overflow_detection) (record {
    top = add32 (align_size f.current 16) (align_size size 16);
    frames = refl;
    inside = omega (arith, pointer, bytes, room, v.range);
    aligned = omega (arith, pointer);
    old = omega (arith, pointer);
    fits = omega (arith, pointer, bytes, room, v.range);
    checkpoints = refl;
    saved_pos = refl;
    initialized = refl;
  })
    where
      intact : (x : Bool) → (x && not (f.canary == stack_canary)) ≡ false
      intact true = rw v.canary refl
      intact false = refl

  from-Allocated :
      (b : StackAllocator)
      → Allocated size f older b (alloc_from (align_size size 16) 16 (f ∷ older) b)
  unfolding alloc_from
  from-Allocated b = rw fit (place-Allocated b)

le→leb : (a b : ℕ) → a ≤ b → leb a b ≡ true
le→leb a b h = ground arith

note_check-keeps :
    (a : StackAllocator)
    → ((note_check a).checkpoints ≡ a.checkpoints)
      × ((note_check a).initialized ≡ a.initialized)
      × ((note_check a).saved_pos ≡ a.saved_pos)
unfolding note_check
note_check-keeps a = elim (Bool-cases a.overflow_detection) [
  | inl e ↦ rw e (refl, refl, refl)
  | inr e ↦ rw e (refl, refl, refl)
]

alloc_run :
    (size : ℕ) (f : StackFrame) (older : List StackFrame) (a : StackAllocator)
    → a.initialized ≡ true
    → a.frames ≡ f ∷ older
    → 0 < size
    → alloc size 16 a ≡ alloc_from (align_size size 16) 16 (f ∷ older) (note_check a)
unfolding alloc
alloc_run size f older a ready frames some_size =
    rw (ready, ne→==-false size 0 (omega arith)) refl
    ∙ ap (λ t. alloc_from (align_size size 16) 16 t (note_check a)) frames

-- In a ready allocator whose current frame has room for the rounded size above the rounded top:
-- `alloc` with the default alignment gives memory as `Allocated` says.
pub alloc-Allocated :
    (size : ℕ) (f : StackFrame) (older : List StackFrame) (a : StackAllocator)
    → IsFrame f
    → a.initialized ≡ true
    → a.frames ≡ f ∷ older
    → 0 < size
    → (f.current + 15) / 16 * 16 + (size + 15) / 16 * 16 ≤ f.limit
    → Allocated size f older a (alloc size 16 a)
alloc-Allocated size f older a v ready frames some_size room =
    subst (Allocated size f older a) (sym (alloc_run size f older a ready frames some_size))
      (record {
        top = r.top;
        frames = r.frames;
        inside = r.inside;
        aligned = r.aligned;
        old = r.old;
        fits = r.fits;
        checkpoints = r.checkpoints ∙ (note_check-keeps a).0;
        saved_pos = r.saved_pos ∙ (note_check-keeps a).2;
        initialized = r.initialized ∙ (note_check-keeps a).1;
      })
  where
    r :
        Allocated size f older
          (note_check a)
          (alloc_from (align_size size 16) 16 (f ∷ older) (note_check a))
    r = from-Allocated size f older v room (note_check a)

-- Where the current frame is as `f` but for its top, which is above, and the newest checkpoint saved
-- the top of `f`: the frame is `f` again and the checkpoint is gone.
restored :
    (p top : ℕ) (f : StackFrame) (older : List StackFrame) (rest : List ℕ) (a : StackAllocator)
    → IsFrame f
    → p ≢ 0
    → f.current ≤ top
    → a.initialized ≡ true
    → a.frames ≡ record f { current = top } ∷ older
    → a.checkpoints ≡ p ∷ rest
    → a.saved_pos p ≡ f.current
    → ((restore_checkpoint p a).frames ≡ f ∷ older) × ((restore_checkpoint p a).checkpoints ≡ rest)
unfolding restore_checkpoint free_to_checkpoint free_from drop_checkpoints
restored p top f older rest a v live above ready frames listed saved =
    rw
      (
        ne→==-false p 0 live,
        ready,
        saved,
        frames,
        ne→==-false f.current 0 (omega (arith, v.positive, v.above)),
        le→leb f.start f.current v.above,
        le→leb f.current top above,
        listed,
        eq→== p p refl,
      )
      (refl, refl)

marked :
    (p : ℕ) (f : StackFrame) (older : List StackFrame) (bs : List ℕ) (a : StackAllocator)
    → a.initialized ≡ true
    → a.frames ≡ f ∷ older
    → a.blocks ≡ p ∷ bs
    → p ≢ 0
    → ((create_checkpoint a).0 ≡ p)
      × ((create_checkpoint a).1.initialized ≡ true)
      × ((create_checkpoint a).1.frames ≡ f ∷ older)
      × ((create_checkpoint a).1.checkpoints ≡ p ∷ a.checkpoints)
      × ((create_checkpoint a).1.saved_pos p ≡ f.current)
unfolding create_checkpoint
marked p f older bs a ready frames block live =
    rw (ready, block, ne→==-false p 0 live, frames, eq→== p p refl) (refl, refl, refl, refl, refl)

-- In a ready allocator whose current frame has room for the rounded size above the rounded top, and
-- with a block from `kmalloc`: `create_checkpoint` returns that block, and after an `alloc` with the
-- default alignment `restore_checkpoint` of it leaves the frames and the checkpoints as they were.
pub restore_checkpoint-alloc :
    (size p : ℕ) (f : StackFrame) (older : List StackFrame) (bs : List ℕ) (a : StackAllocator)
    → IsFrame f
    → a.initialized ≡ true
    → a.frames ≡ f ∷ older
    → a.blocks ≡ p ∷ bs
    → p ≢ 0
    → 0 < size
    → (f.current + 15) / 16 * 16 + (size + 15) / 16 * 16 ≤ f.limit
    → ((create_checkpoint a).0 ≡ p)
      × ((restore_checkpoint p (alloc size 16 (create_checkpoint a).1).1).frames ≡ a.frames)
      × ((restore_checkpoint p (alloc size 16 (create_checkpoint a).1).1).checkpoints
          ≡ a.checkpoints)
restore_checkpoint-alloc size p f older bs a v ready frames block live some_size room =
    let b = (create_checkpoint a).1 in
    let made = marked p f older bs a ready frames block live in
    let r = alloc-Allocated size f older b v made.1 made.2 some_size room in
    let s =
      restored p r.top f older a.checkpoints (alloc size 16 b).1 v live
        (omega (arith, r.old, r.fits)) (r.initialized ∙ made.1) r.frames (r.checkpoints ∙ made.3)
        (ap (λ g. g p) r.saved_pos ∙ made.4) in
    (made.0, s.0 ∙ sym frames, s.1)
