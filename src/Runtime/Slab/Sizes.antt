-- ===== src/Runtime/Slab/Sizes.antt =====
-- The caches by size of class SlabAllocator in src/kernel/runtime/slab.cc: `init`, `find_size_cache`,
-- `kmem_cache_alloc` and `kmem_cache_free`.
use km_os.Prelude.{ℕ, zero, suc, ◌+◌, ◌/◌, ◌%◌, List, [], ◌∷◌, if◌then◌else◌, ◌==◌, leb, update}
use km_os.Runtime.Slab.{SlabAllocator, cache_create, cache_align, slab_magic}
use km_os.Runtime.Slab.Caches.{cache_alloc, cache_free}

abbrev pub size_cache_sizes : List ℕ
size_cache_sizes = 8 ∷ 16 ∷ 32 ∷ 64 ∷ 128 ∷ 256 ∷ 512 ∷ 1024 ∷ 2048 ∷ 4096 ∷ 8192 ∷ 16384 ∷ []

-- The digits of a size in `init`, from the last one, before `tail`; 10 rounds are enough for 32 bits.
unfoldable pub size_digits : ℕ → ℕ → List ℕ → List ℕ
size_digits zero n tail = tail
size_digits (suc k) n tail = if n == 0 then tail else size_digits k (n / 10) ((48 + n % 10) ∷ tail)

-- "size-" and the size.
abbrev pub cache_name : ℕ → List ℕ
cache_name size = 115 ∷ 105 ∷ 122 ∷ 101 ∷ 45 ∷ size_digits 10 size []

-- The loop of `init` from the index `i` on.
unfoldable pub init_from : List ℕ → ℕ → SlabAllocator → SlabAllocator
unfolding cache_create size_digits
init_from [] i s = s
init_from (size ∷ sizes) i s =
    let r = cache_create (cache_name size) size cache_align 0 0 0 s in
    init_from sizes (i + 1) (record (r.1) { size_caches = update r.1.size_caches i r.0 })

-- `SlabAllocator::init`
unfoldable pub init : SlabAllocator → SlabAllocator
unfolding init_from
init s =
    init_from size_cache_sizes 0
      (record s { cache_chain = 0; size_caches = λ i. if leb i 11 then 0 else s.size_caches i })

-- The loop of `find_size_cache` from the index `i` on.
unfoldable pub find_size_from : List ℕ → ℕ → ℕ → SlabAllocator → ℕ
find_size_from [] i size s = 0
find_size_from (n ∷ ns) i size s =
    if leb size n then s.size_caches i else find_size_from ns (i + 1) size s

-- `SlabAllocator::find_size_cache`
unfoldable pub find_size_cache : ℕ → SlabAllocator → ℕ
unfolding find_size_from
find_size_cache size s = find_size_from size_cache_sizes 0 size s

-- The loop of `kmem_cache_free`, with `k` rounds left: the first cache there is, 0 for none.
unfoldable pub first_cache : ℕ → ℕ → SlabAllocator → ℕ
first_cache zero i s = 0
first_cache (suc k) i s =
    let rest = first_cache k (i + 1) s in if s.size_caches i == 0 then rest else s.size_caches i

module _ (call : ℕ → ℕ → SlabAllocator → SlabAllocator) where
  -- `SlabAllocator::kmem_cache_alloc`: the object, 0 for none.
  unfoldable pub kmem_cache_alloc : ℕ → SlabAllocator → ℕ × SlabAllocator
  kmem_cache_alloc size s =
      let c = find_size_cache size s in if c == 0 then (0, s) else cache_alloc call c s

  -- `SlabAllocator::kmem_cache_free`
  unfoldable pub kmem_cache_free : ℕ → ℕ → SlabAllocator → SlabAllocator
  kmem_cache_free fuel obj s =
      let c = first_cache 12 0 s in
      if obj == 0
      then s
      else if s.objs.magic obj == slab_magic
      then (if c == 0 then s else cache_free call fuel c obj s)
      else s
