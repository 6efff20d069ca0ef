-- ===== src/Runtime/Slab/Allocating.antt =====
-- `SlabAllocator::cache_alloc` and the return of an object, on the three lists of the cache.
use mathlib.Core.Path.{subst}
use km_os.Prelude.{
  ℕ, ◌≡◌, ◌≢◌, refl, sym, ap, ◌∙◌, List, [], ◌∷◌, arith, Bool-cases, inl, inr, if◌then◌else◌, ◌==◌,
  eq→==, ne→==-false, length, add32, sub32,
}
use km_os.Runtime.Slab.{SlabAllocator, slab_alloc_obj, slab_magic}
use km_os.Runtime.Slab.Caches.{
  alloc_chosen, alloc_from, cache_alloc, choose_slab, construct, count_object,
}
use km_os.Runtime.Slab.FreeObjects.{Counted, slab_alloc_obj-Counted}
use km_os.Runtime.Slab.Lists.{Three, swap_lists, move_slab-Three}

-- The cache's full, partial and empty slabs.
abbrev pub SlabLists : ℕ → SlabAllocator → List ℕ → List ℕ → List ℕ → Type 0
SlabLists c s fs ps es =
    Three (s.cache c).slabs_full (s.cache c).slabs_partial (s.cache c).slabs_empty fs ps es s.links

-- The full and the partial slabs once the slab `p` has the free objects `xs`.
abbrev pub full_after : List ℕ → ℕ → List ℕ → List ℕ
full_after [] p fs = p ∷ fs
full_after (x ∷ xs) p fs = fs

abbrev pub partial_after : List ℕ → ℕ → List ℕ → List ℕ
partial_after [] p ps = ps
partial_after (x ∷ xs) p ps = p ∷ ps

pub Counted-same :
    (p n : ℕ) (xs : List ℕ) (s t : SlabAllocator)
    → s.objs ≡ t.objs
    → s.slab ≡ t.slab
    → Counted p n xs s
    → Counted p n xs t
Counted-same p n xs s t e f k = record {
  threaded = rw (← e, ← f) k.threaded;
  free = rw (← f) k.free;
  inuse = rw (← f) k.inuse;
  small = k.small;
}

count_object-memory :
    (c p : ℕ) (s : SlabAllocator)
    → (s.objs ≡ (count_object c p s).objs) × (s.slab ≡ (count_object c p s).slab)
unfolding count_object
count_object-memory c p s = elim (Bool-cases ((s.slab p).free == 0)) [
  | inl e ↦ rw e (refl, refl)
  | inr e ↦ rw e (refl, refl)
]

count_object-cache :
    (c p : ℕ) (s : SlabAllocator)
    → let t = count_object c p s in
      ((t.cache c).num_active_objs ≡ add32 (s.cache c).num_active_objs 1)
      × ((t.cache c).num_free_objs ≡ sub32 (s.cache c).num_free_objs 1)
      × ((t.cache c).ctor ≡ (s.cache c).ctor)
unfolding count_object
count_object-cache c p s = elim (Bool-cases ((s.slab p).free == 0)) [
  | inl e ↦ rw (e, eq→== c c refl) (refl, refl, refl)
  | inr e ↦ rw (e, eq→== c c refl) (refl, refl, refl)
]

count_object-Lists :
    (c p : ℕ) (s : SlabAllocator) (fs ps es xs : List ℕ)
    → (s.slab p).free ≡ length xs
    → SlabLists c s fs (p ∷ ps) es
    → SlabLists c (count_object c p s) (full_after xs p fs) (partial_after xs p ps) es
unfolding count_object
count_object-Lists c p s fs ps es [] e l =
    let k = s.cache c in
    let moved =
      move_slab-Three p k.slabs_partial k.slabs_full k.slabs_empty [] ps fs es s.links
        (swap_lists k.slabs_full k.slabs_partial k.slabs_empty fs (p ∷ ps) es s.links l) in
    rw (eq→== (s.slab p).free 0 e, eq→== c c refl) (swap_lists _ _ _ ps (p ∷ fs) es _ moved)
count_object-Lists c p s fs ps es (x ∷ xs) e l =
    rw (ne→==-false (s.slab p).free 0 (λ q. omega (arith, e, q)), eq→== c c refl) l

slab_alloc_obj-keeps :
    (p : ℕ) (s : SlabAllocator)
    → ((slab_alloc_obj p s).1.links ≡ s.links) × ((slab_alloc_obj p s).1.cache ≡ s.cache)
unfolding slab_alloc_obj
slab_alloc_obj-keeps p s = elim (Bool-cases ((s.slab p).freelist == 0)) [
  | inl e ↦ rw e (refl, refl)
  | inr e ↦ elim (Bool-cases (s.objs.magic (s.slab p).freelist == slab_magic)) [
    | inl f ↦ rw (e, f) (refl, refl)
    | inr f ↦ rw (e, f) (refl, refl)
  ]
]

-- What `cache_alloc` gives and leaves: `s` before, `r` after.
pub record Allocated (c p x n : ℕ) (xs fs ps es : List ℕ) (s : SlabAllocator)
    (r : ℕ × SlabAllocator) : Type 0 where
  pub obj : r.0 ≡ x
  pub counted : Counted p n xs r.1
  pub lists : SlabLists c r.1 (full_after xs p fs) (partial_after xs p ps) es
  pub active : (r.1.cache c).num_active_objs ≡ add32 (s.cache c).num_active_objs 1
  pub free : (r.1.cache c).num_free_objs ≡ sub32 (s.cache c).num_free_objs 1

choosing :
    (c p : ℕ) (s : SlabAllocator) → p ≢ 0 → (s.cache c).slabs_partial ≡ p → choose_slab c s ≡ (p, s)
unfolding choose_slab
choosing c p s p0 e = rw (e, ne→==-false p 0 p0) refl

module _ (call : ℕ → ℕ → SlabAllocator → SlabAllocator) where
  constructing :
      (c p obj : ℕ) (s : SlabAllocator)
      → (s.cache c).ctor ≡ 0
      → construct call c p obj s ≡ (obj, count_object c p s)
  unfolding construct
  constructing c p obj s e = plain (count_object c p s) ((count_object-cache c p s).2 ∙ e)
    where
      plain :
          (t : SlabAllocator)
          → (t.cache c).ctor ≡ 0
          → ◌≡◌ {A = (ℕ × SlabAllocator)}
              (if (t.cache c).ctor == 0 then (obj, t) else (obj, call (t.cache c).ctor obj t))
              (obj, t)
      plain t k = rw (eq→== (t.cache c).ctor 0 k) refl

  from_slab :
      (c p : ℕ) (s : SlabAllocator)
      → (slab_alloc_obj p s).0 ≢ 0
      → alloc_from call c p s ≡ construct call c p (slab_alloc_obj p s).0 (slab_alloc_obj p s).1
  unfolding alloc_from
  from_slab c p s ne = rw (ne→==-false (slab_alloc_obj p s).0 0 ne) refl

  allocating :
      (c p : ℕ) (s : SlabAllocator)
      → c ≢ 0
      → p ≢ 0
      → (s.cache c).slabs_partial ≡ p
      → cache_alloc call c s ≡ alloc_from call c p s
  unfolding cache_alloc alloc_chosen
  allocating c p s c0 p0 e =
      rw (ne→==-false c 0 c0) (ap (alloc_chosen call c) (choosing c p s p0 e) ∙ chosen c p s p0)
    where
      chosen :
          (c p : ℕ) (s : SlabAllocator) → p ≢ 0 → alloc_chosen call c (p, s) ≡ alloc_from call c p s
      chosen c p s p0 = rw (ne→==-false p 0 p0) refl

  -- For a cache without a constructor whose first partial slab has the free objects `x` and `xs`:
  -- `cache_alloc` returns `x`, and `xs` are left. The slab moves to the front of the full ones if no
  -- object is left, and stays otherwise; the three lists share no slab again, and the counters of
  -- the cache move by one.
  pub cache_alloc-Allocated :
      (c p x n : ℕ) (xs fs ps es : List ℕ) (s : SlabAllocator)
      → c ≢ 0
      → (s.cache c).ctor ≡ 0
      → SlabLists c s fs (p ∷ ps) es
      → Counted p n (x ∷ xs) s
      → Allocated c p x n xs fs ps es s (cache_alloc call c s)
  cache_alloc-Allocated c p x n xs fs ps es s c0 k l m =
      subst (Allocated c p x n xs fs ps es s)
        (sym (
          allocating c p s c0 l.second.1 l.second.0
          ∙ from_slab c p s (rw (o.0) m.threaded.1)
          ∙ constructing c p _ _ (rw (keep.1) k)))
        (record {
          obj = o.0;
          counted = Counted-same p n xs (slab_alloc_obj p s).1 _ mem.0 mem.1 o.1;
          lists =
              count_object-Lists c p (slab_alloc_obj p s).1 fs ps es xs o.1.free
                (rw (keep.0, keep.1) l);
          active =
              (count_object-cache c p (slab_alloc_obj p s).1).0
              ∙ ap (λ f. add32 (f c).num_active_objs 1) keep.1;
          free =
              (count_object-cache c p (slab_alloc_obj p s).1).1
              ∙ ap (λ f. sub32 (f c).num_free_objs 1) keep.1;
        })
    where
      o : ((slab_alloc_obj p s).0 ≡ x) × Counted p n xs (slab_alloc_obj p s).1
      o = slab_alloc_obj-Counted p n x xs s m

      keep : ((slab_alloc_obj p s).1.links ≡ s.links) × ((slab_alloc_obj p s).1.cache ≡ s.cache)
      keep = slab_alloc_obj-keeps p s

      mem :
          ((slab_alloc_obj p s).1.objs ≡ (count_object c p (slab_alloc_obj p s).1).objs)
          × ((slab_alloc_obj p s).1.slab ≡ (count_object c p (slab_alloc_obj p s).1).slab)
      mem = count_object-memory c p (slab_alloc_obj p s).1
