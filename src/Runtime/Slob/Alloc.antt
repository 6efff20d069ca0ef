-- ===== src/Runtime/Slob/Alloc.antt =====
-- `SLOBAllocator::alloc` on a whole allocator: the search, the page of the block, and the taking.
use mathlib.Core.Path.{subst}
use km_os.Prelude.{
  ℕ, ◌+◌, ◌<◌, ◌≤◌, ◌≡◌, ◌≢◌, refl, sym, List, [], ◌∷◌, ◌++◌, arith, inl, inr, ne→==-false,
  le→ltb-false, length, All, All-map, In,
}
use km_os.Runtime.Slob.{Slob, find_free_block}
use km_os.Runtime.Slob.Ops.{slob_alloc, take_block, aligned_size}
use km_os.Runtime.Slob.BestFit.{BestFit, InPages, find_free_block-BestFit}
use km_os.Runtime.Slob.FreeList.{Ascending, FreeList}
use km_os.Runtime.Slob.Split.{Taken, take_block-Taken}
use km_os.Runtime.Slob.WellFormed.{Separate, PageOk, Ok, All-at, In-split, In-nonzero, find_page-In}

Separate-at :
    (sizes : ℕ → ℕ) (b : ℕ) (us vs : List ℕ)
    → Separate sizes (us ++ b ∷ vs)
    → All (λ v. b + sizes b ≤ v) vs
Separate-at sizes b [] vs s = s.0
Separate-at sizes b (u ∷ us) vs s = Separate-at sizes b us vs s.1

aligned_size-Bounds :
    (size : ℕ)
    → size ≤ 512
    → (0 < aligned_size size) × (aligned_size size ≤ 528) × (size + 16 ≤ aligned_size size)
aligned_size-Bounds size h = (ground arith, ground arith, ground arith)

allocating :
    (fuel size : ℕ) (s : Slob)
    → 0 < size
    → size ≤ 512
    → find_free_block fuel (aligned_size size) s ≢ 0
    → slob_alloc fuel size s
      ≡ take_block fuel (aligned_size size) (find_free_block fuel (aligned_size size) s) s
unfolding slob_alloc
allocating fuel size s h g ne =
    rw
      (
        ne→==-false size 0 (λ e. omega (arith, h, e)),
        le→ltb-false 512 size g,
        ne→==-false (find_free_block fuel (aligned_size size) s) 0 ne,
      )
      refl

-- The page, and the place in its free list, of the block that `alloc` takes.
pub record Allocated (fuel size : ℕ) (ps : List ℕ) (free : ℕ → List ℕ) (s : Slob) : Type 0 where
  pub page : ℕ
  pub block : ℕ
  pub before : List ℕ
  pub after : List ℕ
  pub listed : In page ps
  pub place : free page ≡ before ++ block ∷ after
  pub best : BestFit (aligned_size size) s.blocks.size ps free block
  pub taken : Taken page block (aligned_size size) before after s (slob_alloc fuel size s)

found_block :
    (fuel size n x q : ℕ) (ps : List ℕ) (free : ℕ → List ℕ) (s : Slob)
    → BestFit size s.blocks.size ps free n
    → In q ps
    → In x (free q)
    → size ≤ s.blocks.size x
    → s.blocks.size x < 0xffff_ffff
    → InPages ps free n × (n ≢ 0) × (size ≤ s.blocks.size n)
found_block fuel size n x q ps free s (inl f) mq mx le small = (f.0, f.1, f.2)
found_block fuel size n x q ps free s (inr f) mq mx le small =
    absurd (omega (arith, All-at _ x (free q) mx (All-at _ q ps mq f.1) le, small))

-- On a well-formed allocator where some free block has the needed bytes, `size` being from 1 to 512:
-- `alloc` takes a smallest such block, and what it returns and leaves is as for that block.
pub slob_alloc-Allocated :
    (fuel size q x : ℕ) (ps : List ℕ) (free : ℕ → List ℕ) (s : Slob)
    → Ok fuel ps free s
    → 0 < size
    → size ≤ 512
    → In q ps
    → In x (free q)
    → aligned_size size ≤ s.blocks.size x
    → Allocated fuel size ps free s
slob_alloc-Allocated fuel size q x ps free s ok h g mq mx fits = record {
  page = p;
  block = b;
  before = spl.0;
  after = spl.1;
  listed = f.0.1;
  place = spl.2;
  best = best;
  taken = subst (Taken p b need spl.0 spl.1 s) (sym (allocating fuel size s h g f.1)) (
      take_block-Taken fuel p b need s spl.0 spl.1
        (In-nonzero p s.page.page_links 0 s.pages ps f.0.1 ok.lists.0) f.1 bounds.0
        (omega (arith, bounds.1)) (omega (arith, page_ok.2, place.2)) f.2
        (Separate-at s.blocks.size b spl.0 spl.1 (subst (Separate s.blocks.size) spl.2 page_ok.1))
        (subst Ascending spl.2 page_ok.0) (subst (FreeList s p) spl.2 listed.0)
        (find_page-In fuel b p 0 s.pages s.page ps ok.enough f.0.1 ok.lists.0 ok.apart
          (All-map _ _ ps (λ r k. k.2) ok.ok) place.0 (omega (arith, place.1, place.2))));
}
  where
    need : ℕ
    need = aligned_size size

    bounds : (0 < need) × (need ≤ 528) × (size + 16 ≤ need)
    bounds = aligned_size-Bounds size g

    b : ℕ
    b = find_free_block fuel need s

    best : BestFit need s.blocks.size ps free b
    best = find_free_block-BestFit fuel need s ps free ok.enough ok.lists (omega (arith, bounds.1))

    small : s.blocks.size x < 0xffff_ffff
    small =
        let k = All-at (PageOk s free) q ps mq ok.ok in
        let i = All-at _ x (free q) mx k.3 in
        let c = All-at _ q ps mq ok.lists.1 in
        omega
          (arith, k.2, i.0, i.2, In-nonzero x s.blocks.links 0 (s.page.free_list q) (free q) mx c.0)

    f : InPages ps free b × (b ≢ 0) × (need ≤ s.blocks.size b)
    f = found_block fuel need b x q ps free s best mq mx fits small

    p : ℕ
    p = f.0.0

    spl : (us : List ℕ) × (vs : List ℕ) × (free p ≡ us ++ b ∷ vs)
    spl = In-split b (free p) f.0.2

    page_ok : PageOk s free p
    page_ok = All-at (PageOk s free) p ps f.0.1 ok.ok

    listed : FreeList s p (free p) × (length (free p) < fuel)
    listed = All-at _ p ps f.0.1 ok.lists.1

    place :
        (s.page.page_addr p ≤ b)
        × (0 < s.blocks.size b)
        × (b + s.blocks.size b ≤ s.page.page_addr p + s.page.total_size p)
    place = All-at _ b (free p) f.0.2 page_ok.3
