-- ===== src/Runtime/Slab/Failures.antt =====
-- Where `kmem_cache_free` of src/kernel/runtime/slab.cc does nothing: objects that the first cache does
-- not hold.
use km_os.Prelude.{
  ℕ, zero, suc, ◌+◌, ◌*◌, ◌^◌, ◌<◌, ◌≤◌, ◌≡◌, ◌≢◌, ◌⊎◌, refl, List, [], ◌∷◌, arith, false, ◌&&◌,
  Bool-cases, inl, inr, ◌==◌, ltb, leb, eq→==, ne→==-false, length, Chain, All,
}
use km_os.Runtime.Buddy.{min_block_size}
use km_os.Runtime.Slab.{SlabAllocator, Slab, slab_magic}
use km_os.Runtime.Slab.Caches.{cache_free, find_slab}
use km_os.Runtime.Slab.Sizes.{first_cache, kmem_cache_free}

-- The memory of a slab does not hold `obj`.
abbrev pub Outside : ℕ → Slab → Type 0
Outside obj sl = (obj < sl.mem) ⊎ (sl.mem + 2 ^ sl.order * min_block_size ≤ obj)

not_inside :
    (obj : ℕ) (sl : Slab)
    → Outside obj sl
    → (leb sl.mem obj && ltb obj (sl.mem + 2 ^ sl.order * min_block_size)) ≡ false
not_inside obj sl (inl h) = ground arith
not_inside obj sl (inr h) = ground arith

find_slab-none :
    (fuel obj back p : ℕ) (s : SlabAllocator) (ps : List ℕ)
    → length ps < fuel
    → Chain s.links back p ps
    → All (λ q. Outside obj (s.slab q)) ps
    → find_slab fuel obj p s ≡ 0
unfolding find_slab
find_slab-none zero obj back p s ps h c a = absurd (omega arith)
find_slab-none (suc fuel) obj back p s [] h c a = rw (eq→== p 0 c) refl
find_slab-none (suc fuel) obj back p s (q ∷ ps) h c a =
    rw (c.0, ne→==-false q 0 c.1, not_inside obj (s.slab q) a.0)
      (find_slab-none fuel obj q (s.links.next q) s ps (omega arith) c.3 a.1)

first : (s : SlabAllocator) → s.size_caches 0 ≢ 0 → first_cache 12 0 s ≡ s.size_caches 0
unfolding first_cache
first s ne = rw (ne→==-false (s.size_caches 0) 0 ne) refl

module _ (call : ℕ → ℕ → SlabAllocator → SlabAllocator) where
  not_here :
      (fuel c obj : ℕ) (s : SlabAllocator)
      → find_slab fuel obj (s.cache c).slabs_full s ≡ 0
      → find_slab fuel obj (s.cache c).slabs_partial s ≡ 0
      → cache_free call fuel c obj s ≡ s
  unfolding cache_free
  not_here fuel c obj s e f = elim (Bool-cases (c == 0)) [
    | inl z ↦ rw z refl
    | inr z ↦ elim (Bool-cases (obj == 0)) [ inl w ↦ rw (z, w) refl | inr w ↦ rw (z, w, e, f) refl ]
  ]

  at_cache :
      (fuel c obj : ℕ) (s : SlabAllocator)
      → first_cache 12 0 s ≡ c
      → c ≢ 0
      → cache_free call fuel c obj s ≡ s
      → kmem_cache_free call fuel obj s ≡ s
  unfolding kmem_cache_free
  at_cache fuel c obj s e ne same = elim (Bool-cases (obj == 0)) [
    | inl z ↦ rw z refl
    | inr z ↦ elim (Bool-cases (s.objs.magic obj == slab_magic)) [
      | inl w ↦ rw (z, w, e, ne→==-false c 0 ne) same
      | inr w ↦ rw (z, w) refl
    ]
  ]

  -- An object that lies in no full or partial slab of the first cache by size is lost:
  -- `kmem_cache_free` changes nothing, whichever cache it came from. The lists are
  -- null-terminated, and the fuel is above their lengths.
  pub kmem_cache_free-Lost :
      (fuel obj : ℕ) (fs ps : List ℕ) (s : SlabAllocator)
      → length fs < fuel
      → length ps < fuel
      → Chain s.links 0 (s.cache (s.size_caches 0)).slabs_full fs
      → Chain s.links 0 (s.cache (s.size_caches 0)).slabs_partial ps
      → All (λ q. Outside obj (s.slab q)) fs
      → All (λ q. Outside obj (s.slab q)) ps
      → s.size_caches 0 ≢ 0
      → kmem_cache_free call fuel obj s ≡ s
  kmem_cache_free-Lost fuel obj fs ps s h g c d a b ne =
      at_cache fuel (s.size_caches 0) obj s (first s ne) ne (
        not_here fuel (s.size_caches 0) obj s
          (find_slab-none fuel obj 0 (s.cache (s.size_caches 0)).slabs_full s fs h c a)
          (find_slab-none fuel obj 0 (s.cache (s.size_caches 0)).slabs_partial s ps g d b))
