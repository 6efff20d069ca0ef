-- ===== src/Runtime/Buddy/Tests.antt =====
-- The allocator on a zone of four pages: the first two are a free block of order 1, the others an
-- allocated one.
use native.Mathlib.Decide.{ℕ_discrete}
use km_os.Prelude.{
  ℕ, ◌≤◌, ◌≡◌, ◌⊎◌, refl, sym, ◌∙◌, ◌==◌, if◌then◌else◌, arith, List, [], ◌∷◌, inl, inr,
  ne→==-false, In,
}
use km_os.Runtime.Buddy.{Zone, buddy_magic, max_order, alloc_order, free_order}
use km_os.Runtime.Buddy.FreeLists.{Free}
use km_os.Runtime.Buddy.Taking.{Taken, alloc_order-Taken}
use km_os.Runtime.Buddy.RoundTrip.{free_order-alloc_order}

abbrev zone : Zone
zone = record {
  links = record { next = λ p. 0; prev = λ p. 0 };
  order = λ p. 1;
  magic = λ p. buddy_magic;
  allocated = λ p. p == 0x1002000;
  free_lists = λ i. if 1 == i then 0x1000000 else 0;
  free_blocks = λ i. if 1 == i then 1 else 0;
  memory_start = 0x1000000;
  memory_size = 0x4000;
  total_blocks = 4;
  allocated_blocks = 1;
}

abbrev blocks : ℕ → List ℕ
blocks i = if 1 == i then 0x1000000 ∷ [] else []

only : (i x : ℕ) → In x (blocks i) → (1 ≡ i) × (0x1000000 ≡ x)
only i x = elim (ℕ_discrete 1 i) [
  | yes e ↦ rw (← e) (λ m. elim m [ inl q ↦ (refl, sym q) | inr q ↦ absurd q ])
  | no ne ↦ rw (ne→==-false 1 i ne) (λ m. absurd m)
]

zone-Free : Free zone blocks
zone-Free = record {
  chain = λ i h. elim (ℕ_discrete 1 i) [
    | yes e ↦ rw (← e) (refl, omega arith, refl, refl)
    | no ne ↦ rw (ne→==-false 1 i ne) refl
  ];
  distinct =
      λ i. elim (ℕ_discrete 1 i) [ yes e ↦ rw (← e) (tt, tt) | no ne ↦ rw (ne→==-false 1 i ne) tt ];
  apart =
      λ i j x y m n. inl (sym (only i x m).0 ∙ (only j y n).0, sym (only i x m).1 ∙ (only j y n).1);
  marked = λ i x m. rw (← (only i x m).0, ← (only i x m).1) (refl, refl, refl);
}

alloc_order-Taken_example :
    ((alloc_order 0 zone ≡ (0, zone)) × ((i : ℕ) → 0 ≤ i → i ≤ max_order → blocks i ≡ []))
    ⊎ Taken 0 zone blocks (alloc_order 0 zone)
alloc_order-Taken_example = alloc_order-Taken 0 zone blocks zone-Free

free_order-alloc_order_example :
    ((alloc_order 0 zone).0 ≡ 0x1000014)
    × Free (free_order (alloc_order 0 zone).0 0 (alloc_order 0 zone).1) blocks
free_order-alloc_order_example =
    free_order-alloc_order 0 1 0 0x1000000 [] zone blocks zone-Free (omega arith) (omega arith)
      (λ i h g. rw (ne→==-false 1 i (omega (arith, g))) refl) refl refl (omega arith) refl
