-- ===== src/Runtime/Slab/Tests.antt =====
-- The allocator with one cache of 8 byte objects at 200, whose only slab, at 100, has 2 objects, at 1000
-- and 1008; and with a cache without objects at 300.
use mathlib.Core.Path.{◌≡◌, refl}
use km_os.Prelude.{ℕ, [], ◌∷◌, arith, if◌then◌else◌, ◌==◌, inr, false, replicate}
use km_os.Runtime.Buddy.{Zone}
use km_os.Runtime.Slab.{
  Slab, Cache, SlabAllocator, slab_magic, slab_create, grow_slab, align_up, calculate_num_objs,
  cache_create,
}
use km_os.Runtime.Slab.Caches.{cache_alloc, return_object}
use km_os.Runtime.Slab.Sizes.{kmem_cache_free, size_digits}
use km_os.Runtime.Slab.FreeObjects.{Created, slab_create-Created}
use km_os.Runtime.Slab.Allocating.{Allocated, cache_alloc-Allocated}
use km_os.Runtime.Slab.Freeing.{Returned, return_object-Returned}
use km_os.Runtime.Slab.Failures.{kmem_cache_free-Lost}

-- One free block of order 2 at 4096.
abbrev one_block : Zone
one_block = record {
  links = record { next = λ p. 0; prev = λ p. 0 };
  order = λ p. 2;
  magic = λ p. 0xBDD1234;
  allocated = λ p. false;
  free_lists = λ i. if i == 2 then 4096 else 0;
  free_blocks = λ i. if i == 2 then 1 else 0;
  memory_start = 4096;
  memory_size = 16384;
  total_blocks = 4;
  allocated_blocks = 0;
}

abbrev cache_of : ℕ → ℕ → ℕ → ℕ → Cache
cache_of size objs partial free = record {
  next = 0;
  name = replicate 32 0;
  obj_size = size;
  align = 8;
  flags = 0;
  num_objs_per_slab = objs;
  gfp_order = 0;
  slabs_full = 0;
  slabs_partial = partial;
  slabs_empty = 0;
  num_slabs = 1;
  num_active_objs = 0;
  num_free_objs = free;
  ctor = 0;
  dtor = 0;
}

abbrev small_slab : Slab
small_slab = record {
  mem = 1000;
  inuse = 0;
  free = 2;
  freelist = 1000;
  size = 8;
  order = 0;
  magic = slab_magic;
}

abbrev two_caches : SlabAllocator
two_caches = record {
  objs = record { next = λ p. if p == 1000 then 1008 else 0; magic = λ p. slab_magic };
  links = record { next = λ p. 0; prev = λ p. 0 };
  slab = λ p. small_slab;
  cache = λ c. if c == 200 then cache_of 8 2 100 2 else cache_of 8192 0 0 0;
  cache_chain = 200;
  size_caches = λ i. if i == 0 then 200 else 300;
  zone = one_block;
}

abbrev no_call : ℕ → ℕ → SlabAllocator → SlabAllocator
no_call f obj s = s

made : (slab_create 200 two_caches).0 ≡ 4116
unfolding slab_create
made = refl

mem_made : ((slab_create 200 two_caches).1.slab (slab_create 200 two_caches).0).mem ≡ 8212
unfolding slab_create
mem_made = refl

slab_create-Created_example :
    Created 200 (slab_create 200 two_caches).0 two_caches (slab_create 200 two_caches).1
slab_create-Created_example =
    slab_create-Created 200 two_caches (rw made (omega arith)) (omega arith)
      (omega (arith, mem_made)) (omega arith)

cache_alloc-Allocated_example :
    Allocated 200 100 1000 2 (1008 ∷ []) [] [] [] two_caches (cache_alloc no_call 200 two_caches)
cache_alloc-Allocated_example =
    cache_alloc-Allocated no_call 200 100 1000 2 (1008 ∷ []) [] [] [] two_caches (omega arith) refl
      (record {
        first = refl;
        second = (refl, omega arith, refl, refl);
        third = refl;
        distinct = tt;
        distinct_second = (tt, tt);
        distinct_third = tt;
        first_second = tt;
        first_third = tt;
        second_third = (tt, tt);
      })
      (record {
        threaded = (refl, omega arith, refl, (refl, omega arith, refl, refl));
        free = refl;
        inuse = refl;
        small = omega arith;
      })

-- With a third object, at 1016, in use.
abbrev three : SlabAllocator
three = record two_caches {
  slab = λ p. record small_slab { inuse = 1 };
  cache = λ c. cache_of 8 3 100 2;
}

return_object-Returned_example :
    Returned 200 100 1016 3 (1000 ∷ 1008 ∷ []) [] [] [] [] three (return_object 200 100 1016 three)
return_object-Returned_example =
    return_object-Returned 200 100 1016 3 (1000 ∷ 1008 ∷ []) [] [] [] [] three (omega arith)
      (omega arith, (omega arith, tt)) (omega arith) refl
      (record {
        first = refl;
        second = (refl, omega arith, refl, refl);
        third = refl;
        distinct = tt;
        distinct_second = (tt, tt);
        distinct_third = tt;
        first_second = tt;
        first_third = tt;
        second_third = (tt, tt);
      })
      (record {
        threaded = (refl, omega arith, refl, (refl, omega arith, refl, refl));
        free = refl;
        inuse = refl;
        small = omega arith;
      })

kmem_cache_free-Lost_example : kmem_cache_free no_call 2 9000 two_caches ≡ two_caches
kmem_cache_free-Lost_example =
    kmem_cache_free-Lost no_call 2 9000 [] (100 ∷ []) two_caches (omega arith) (omega arith) refl
      (refl, omega arith, refl, refl) tt (inr (omega arith), tt) (omega arith)

-- The caches that `init` makes for 8192 and 16384 bytes have no objects in a slab, the one for 4096
-- bytes has one.
no_objects : calculate_num_objs (align_up 8192 8) (grow_slab 32 (align_up 8192 8) 4096) ≡ 0
unfolding grow_slab
no_objects = refl

one_object : calculate_num_objs (align_up 4096 8) (grow_slab 32 (align_up 4096 8) 4096) ≡ 1
unfolding grow_slab
one_object = refl

-- "1024"
digits : size_digits 10 1024 [] ≡ 49 ∷ 48 ∷ 50 ∷ 52 ∷ []
unfolding size_digits
digits = refl

new_cache : (cache_create (49 ∷ []) 24 8 0 0 0 two_caches).0 ≡ 4116
unfolding cache_create
new_cache = refl
