-- ===== src/Runtime/Slab/Large.antt =====
-- Objects larger than a slab in src/kernel/runtime/slab.cc: the caches for them, and `kmem_cache_alloc`.
use mathlib.Core.Path.{subst}
use km_os.Prelude.{
  ℕ, ◌<◌, ◌≡◌, ◌≢◌, ◌⊎◌, refl, sym, ◌∙◌, List, arith, false, Bool-cases, inl, inr, if◌then◌else◌,
  ◌==◌, leb, eq→==, ne→==-false, ==→eq, ==-false→ne,
}
use km_os.Runtime.Buddy.{Zone, alloc, alloc_order, free, min_block_size}
use km_os.Runtime.Slab.{
  SlabAllocator, align_up, cache_align, cache_create, calculate_num_objs, grow_slab, cache_header,
  slab_header, slab_create, fill_slab, slab_alloc_obj, thread_objects,
}
use km_os.Runtime.Slab.Caches.{add_slab, alloc_chosen, alloc_from, cache_alloc, choose_slab}
use km_os.Runtime.Slab.Sizes.{find_size_cache, find_size_from, kmem_cache_alloc}

-- A cache that has no objects: each of its slabs holds none, and its first partial slab, if any, has no
-- free one; it has no empty slab, since a slab only becomes empty when an object is freed.
pub record Barren (c : ℕ) (s : SlabAllocator) : Type 0 where
  pub none : (s.cache c).num_objs_per_slab ≡ 0
  pub no_empty : (s.cache c).slabs_empty ≡ 0
  pub spent : (s.cache c).slabs_partial ≢ 0 → (s.slab (s.cache c).slabs_partial).freelist ≡ 0

create_cases :
    (c : ℕ) (s : SlabAllocator)
    → ((z : Zone) × (slab_create c s ≡ (0, record s { zone = z })))
      ⊎ ((p : ℕ) × (mem : ℕ) × (z : Zone) × (p ≢ 0)
          × (slab_create c s ≡ (p, fill_slab c p mem z s)))
unfolding slab_create
create_cases c s = elim (Bool-cases ((alloc slab_header s.zone).0 == 0)) [
  | inl e ↦ inl ((alloc slab_header s.zone).1, rw e refl)
  | inr e ↦
      elim (Bool-cases ((alloc_order (s.cache c).gfp_order (alloc slab_header s.zone).1).0 == 0)) [
        | inl f ↦ inl (
          free (alloc slab_header s.zone).0
              (alloc_order (s.cache c).gfp_order (alloc slab_header s.zone).1).1,
          rw (e, f) refl,
        )
        | inr f ↦ inr (
          (alloc slab_header s.zone).0,
          (alloc_order (s.cache c).gfp_order (alloc slab_header s.zone).1).0,
          (alloc_order (s.cache c).gfp_order (alloc slab_header s.zone).1).1,
          ==-false→ne _ _ e,
          rw (e, f) refl,
        )
      ]
]

-- What `choose_slab` gives for such a cache: no slab, or one without a free object.
record Spent (c : ℕ) (r : ℕ × SlabAllocator) : Type 0 where
  barren : Barren c r.1
  empty : r.0 ≢ 0 → (r.1.slab r.0).freelist ≡ 0

add_slab-Spent :
    (c p mem : ℕ) (z : Zone) (s : SlabAllocator)
    → p ≢ 0
    → Barren c s
    → Spent c (p, add_slab c p (fill_slab c p mem z s))
unfolding add_slab fill_slab thread_objects
add_slab-Spent c p mem z s p0 b = record {
  barren = record {
    none = rw (eq→== c c refl) b.none;
    no_empty = rw (eq→== c c refl) b.no_empty;
    spent = λ q. rw (eq→== c c refl, eq→== p p refl, b.none) refl;
  };
  empty = λ q. rw (eq→== p p refl, b.none) refl;
}

-- The branches of `choose_slab` that a cache without empty slabs takes.
there_is :
    (c p : ℕ) (s : SlabAllocator) → p ≢ 0 → (s.cache c).slabs_partial ≡ p → choose_slab c s ≡ (p, s)
unfolding choose_slab
there_is c p s p0 e = rw (e, ne→==-false p 0 p0) refl

there_is_none :
    (c p : ℕ) (s t : SlabAllocator)
    → (s.cache c).slabs_partial ≡ 0
    → (s.cache c).slabs_empty ≡ 0
    → slab_create c s ≡ (p, t)
    → choose_slab c s ≡ (if p == 0 then (0, t) else (p, add_slab c p t))
unfolding choose_slab
there_is_none c p s t e f g = rw (e, f, g) refl

choose_slab-Spent : (c : ℕ) (s : SlabAllocator) → Barren c s → Spent c (choose_slab c s)
choose_slab-Spent c s b = elim (Bool-cases ((s.cache c).slabs_partial == 0)) [
  | inl e ↦ elim (create_cases c s) [
    | inl r ↦
        subst (Spent c)
          (sym (there_is_none c 0 s (record s { zone = r.0 }) (==→eq _ _ e) b.no_empty r.1))
          (record {
            barren = record { none = b.none; no_empty = b.no_empty; spent = b.spent };
            empty = λ q. absurd (q refl);
          })
    | inr r ↦
        subst (Spent c)
          (sym (
            there_is_none c r.0 s (fill_slab c r.0 r.1 r.2 s) (==→eq _ _ e) b.no_empty r.4
            ∙ rw (ne→==-false r.0 0 r.3) refl))
          (add_slab-Spent c r.0 r.1 r.2 s r.3 b)
  ]
  | inr e ↦
      subst (Spent c) (sym (there_is c (s.cache c).slabs_partial s (==-false→ne _ _ e) refl))
        (record { barren = b; empty = b.spent })
]

no_object : (p : ℕ) (s : SlabAllocator) → (s.slab p).freelist ≡ 0 → slab_alloc_obj p s ≡ (0, s)
unfolding slab_alloc_obj
no_object p s e = rw e refl

module _ (call : ℕ → ℕ → SlabAllocator → SlabAllocator) where
  from_none :
      (c p : ℕ) (s t : SlabAllocator) → slab_alloc_obj p s ≡ (0, t) → alloc_from call c p s ≡ (0, t)
  unfolding alloc_from
  from_none c p s t e = rw e refl

  no_object_chosen : (c : ℕ) (r : ℕ × SlabAllocator) → Spent c r → alloc_chosen call c r ≡ (0, r.1)
  unfolding alloc_chosen
  no_object_chosen c r h = elim (Bool-cases (r.0 == 0)) [
    | inl e ↦ rw e refl
    | inr e ↦ rw e (from_none c r.0 r.1 r.1 (no_object r.0 r.1 (h.empty (==-false→ne _ _ e))))
  ]

  -- Such a cache gives no object, and stays such a cache.
  pub cache_alloc-Barren :
      (c : ℕ) (s : SlabAllocator)
      → Barren c s
      → ((cache_alloc call c s).0 ≡ 0) × Barren c (cache_alloc call c s).1
  unfolding cache_alloc
  cache_alloc-Barren c s b = elim (Bool-cases (c == 0)) [
    | inl e ↦ rw e (refl, b)
    | inr e ↦
        let h = choose_slab-Spent c s b in
        rw (e, no_object_chosen c (choose_slab c s) h) (refl, h.barren)
  ]

large :
    (size : ℕ) (s : SlabAllocator)
    → 4096 < size
    → (find_size_cache size s ≡ s.size_caches 10)
      ⊎ (find_size_cache size s ≡ s.size_caches 11)
      ⊎ (find_size_cache size s ≡ 0)
unfolding find_size_cache find_size_from
large size s h =
    rw
      (
        over 8 (omega arith),
        over 16 (omega arith),
        over 32 (omega arith),
        over 64 (omega arith),
        over 128 (omega arith),
        over 256 (omega arith),
        over 512 (omega arith),
        over 1024 (omega arith),
        over 2048 (omega arith),
        over 4096 h,
      )
      (elim (Bool-cases (leb size 8192)) [
        | inl e ↦ inl (rw e refl)
        | inr e ↦ elim (Bool-cases (leb size 16384)) [
          | inl f ↦ inr (inl (rw (e, f) refl))
          | inr f ↦ inr (inr (rw (e, f) refl))
        ]
      ])
  where
    over : (n : ℕ) → n < size → leb size n ≡ false
    over n q = ground arith

module _ (call : ℕ → ℕ → SlabAllocator → SlabAllocator) where
  -- Where the caches of 8192 and 16384 bytes have no object in a slab, `kmem_cache_alloc` of more than
  -- 4096 bytes fails.
  pub kmem_cache_alloc-Large :
      (size : ℕ) (s : SlabAllocator)
      → 4096 < size
      → Barren (s.size_caches 10) s
      → Barren (s.size_caches 11) s
      → (kmem_cache_alloc call size s).0 ≡ 0
  unfolding kmem_cache_alloc
  kmem_cache_alloc-Large size s h a b = elim (large size s h) [
    | inl e ↦ served (s.size_caches 10) e a
    | inr (inl e) ↦ served (s.size_caches 11) e b
    | inr (inr e) ↦ rw e refl
  ]
    where
      served :
          (c : ℕ) → find_size_cache size s ≡ c → Barren c s → (kmem_cache_alloc call size s).0 ≡ 0
      served c e k = elim (Bool-cases (c == 0)) [
        | inl z ↦ rw (e, z) refl
        | inr z ↦ rw (e, z) ((cache_alloc-Barren call c s k).0)
      ]

-- `init` makes those two caches like that: a slab has 4096 bytes, and none of their objects fit.
pub cache_create-Barren :
    (name : List ℕ) (size : ℕ) (s : SlabAllocator)
    → calculate_num_objs
        (align_up size cache_align)
        (grow_slab 32 (align_up size cache_align) min_block_size)
      ≡ 0
    → (cache_create name size cache_align 0 0 0 s).0 ≢ 0
    → Barren
        (cache_create name size cache_align 0 0 0 s).0
        (cache_create name size cache_align 0 0 0 s).1
unfolding cache_create
cache_create-Barren name size s e ne = elim (Bool-cases ((alloc cache_header s.zone).0 == 0)) [
  | inl z ↦ absurd (ne (rw z refl))
  | inr z ↦
      let c = (alloc cache_header s.zone).0 in
      rw z (record {
        none = rw (eq→== c c refl) e;
        no_empty = rw (eq→== c c refl) refl;
        spent = λ q. absurd (q (rw (eq→== c c refl) refl));
      })
]
