-- ===== src/Runtime/Slob/Tests.antt =====
-- The allocator with one page at 4096 whose free blocks lie at 4124 and 4252; the block between them is
-- in use.
use mathlib.Core.Path.{◌≡◌, refl}
use km_os.Prelude.{ℕ, [], ◌∷◌, arith, if◌then◌else◌, ◌==◌, ◌≤◌, inl, inr}
use km_os.Runtime.Buddy.{Zone}
use km_os.Runtime.Slob.{Slob, slob_magic, find_free_block}
use km_os.Runtime.Slob.Ops.{give_back, slob_alloc, slob_free}
use km_os.Runtime.Slob.Coalesce.{Coalesced}
use km_os.Runtime.Slob.GiveBack.{give_back-Coalesced}
use km_os.Runtime.Slob.Alloc.{Allocated, slob_alloc-Allocated}

abbrev no_zone : Zone
no_zone = record {
  links = record { next = λ p. 0; prev = λ p. 0 };
  order = λ p. 0;
  magic = λ p. 0;
  allocated = λ p. if p == 1 then km_os.Prelude.true else km_os.Prelude.false;
  free_lists = λ i. 0;
  free_blocks = λ i. 0;
  memory_start = 0;
  memory_size = 0;
  total_blocks = 0;
  allocated_blocks = 0;
}

abbrev two_blocks : Slob
two_blocks = record {
  blocks = record {
    links = record {
      next = λ p. if p == 4124 then 4252 else 0;
      prev = λ p. if p == 4252 then 4124 else 0;
    };
    size = λ p. if p == 4124 then 64 else if p == 4188 then 64 else if p == 4252 then 100 else 0;
    magic = λ p. if p == 4188 then slob_magic else 0;
  };
  page = record {
    page_addr = λ p. p;
    total_size = λ p. 4096;
    free_size = λ p. 164;
    fragmentation = λ p. 0;
    free_list = λ p. 4124;
    page_links = record { next = λ p. 0; prev = λ p. 0 };
  };
  pages = 4096;
  total_pages = 1;
  total_allocated = 64;
  total_free = 4068;
  fragmentation_threshold = 75;
  zone = no_zone;
}

slob_alloc-Allocated_example : Allocated 3 80 (4096 ∷ []) (λ p. 4124 ∷ 4252 ∷ []) two_blocks
slob_alloc-Allocated_example =
    slob_alloc-Allocated 3 80 4096 4252 (4096 ∷ []) (λ p. 4124 ∷ 4252 ∷ []) two_blocks
      (record {
        lists = (
          (refl, omega arith, refl, refl),
          ((((refl, omega arith, refl, (refl, omega arith, refl, refl)), omega arith)), tt),
        );
        ok = (
          (
            ((omega arith, tt), (tt, tt)),
            ((omega arith, tt), (tt, tt)),
            omega arith,
            (
              (omega arith, omega arith, omega arith),
              ((omega arith, omega arith, omega arith), tt),
            ),
          ),
          tt,
        );
        apart = (tt, tt);
        enough = omega arith;
      })
      (omega arith) (omega arith) (inl refl) (inr (inl refl)) (omega arith)

give_back-Coalesced_example :
    Coalesced 4096
      (4188 ∷ 4124 ∷ 4252 ∷ [])
      two_blocks.blocks.size
      (give_back 4 4096 4188 two_blocks)
give_back-Coalesced_example =
    give_back-Coalesced 4 4096 4188 two_blocks (4124 ∷ 4252 ∷ []) (omega arith) (omega arith)
      (omega arith) (omega arith, (omega arith, tt))
      (refl, omega arith, refl, (refl, omega arith, refl, refl)) ((omega arith, tt), (tt, tt))
      (omega arith, (omega arith, (omega arith, tt)))

-- The exact fit of 100 bytes is taken before the block that comes first.
exact_fit : find_free_block 3 100 two_blocks ≡ 4252
unfolding find_free_block
exact_fit = refl

-- 10 bytes are rounded to 16 and get a header: the block of 64 bytes at 4124 is not split.
small_alloc : (slob_alloc 3 10 two_blocks).0 ≡ 4140
unfolding slob_alloc
small_alloc = refl

-- The three blocks become one of 228 bytes.
joined : (slob_free 4 4204 two_blocks).blocks.size 4124 ≡ 228
unfolding slob_free
joined = refl

-- A block given back before the only free one, which it touches: the merge takes the fragmentation
-- of the page below 0.
below_zero :
    (give_back 4 4096 4188 (record two_blocks {
      page = record (two_blocks.page) { free_list = λ p. 4252 };
    })).page.fragmentation
      4096
    ≡ 0xffff_ffff
unfolding give_back
below_zero = refl
