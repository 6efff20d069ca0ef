-- ===== src/Runtime/Slab/Freeing.antt =====
-- `SlabAllocator::cache_free` of src/kernel/runtime/slab.cc at the slab of the object, on the three lists
-- of the cache, and `kmem_cache_free` of an object that the first cache does not hold.
use km_os.Prelude.{
  ℕ, suc, ◌<◌, ◌≡◌, ◌≢◌, refl, ap, ◌∙◌, List, [], ◌∷◌, ◌++◌, arith, Bool, true, false, Bool-cases,
  inl, inr, if◌then◌else◌, ◌==◌, eq→==, ne→==-false, length, Fresh, add32, sub32,
}
use km_os.Runtime.Slab.{SlabAllocator, slab_free_obj}
use km_os.Runtime.Slab.Caches.{relist, return_object}
use km_os.Runtime.Slab.FreeObjects.{Counted, slab_free_obj-Counted}
use km_os.Runtime.Slab.Lists.{turn_lists, move_slab-Three}
use km_os.Runtime.Slab.Allocating.{SlabLists, Counted-same}

-- The lists before: the slab `p` is on the full list when it has no free object, and on the partial
-- list otherwise, at `us ++ p ∷ vs`; `rest` is the other one of the two.
abbrev pub full_before : List ℕ → List ℕ → List ℕ → List ℕ
full_before [] here rest = here
full_before (x ∷ xs) here rest = rest

abbrev pub partial_before : List ℕ → List ℕ → List ℕ → List ℕ
partial_before [] here rest = rest
partial_before (x ∷ xs) here rest = here

-- The lists after: `all` says that every object of the slab is free then.
abbrev pub full_freed : List ℕ → List ℕ → List ℕ → List ℕ
full_freed [] without rest = without
full_freed (x ∷ xs) without rest = rest

abbrev pub partial_freed : List ℕ → Bool → ℕ → List ℕ → List ℕ → List ℕ → List ℕ
partial_freed [] all p here without rest = p ∷ rest
partial_freed (x ∷ xs) all p here without rest = if all then without else here

abbrev pub empty_freed : List ℕ → Bool → ℕ → List ℕ → List ℕ
empty_freed [] all p es = es
empty_freed (x ∷ xs) all p es = if all then p ∷ es else es

slab_free_obj-keeps :
    (p x : ℕ) (s : SlabAllocator)
    → ((slab_free_obj p x s).links ≡ s.links) × ((slab_free_obj p x s).cache ≡ s.cache)
unfolding slab_free_obj
slab_free_obj-keeps p x s = (refl, refl)

relist-memory :
    (c p : ℕ) (was_full : Bool) (t : SlabAllocator)
    → (t.objs ≡ (relist c p was_full t).objs) × (t.slab ≡ (relist c p was_full t).slab)
unfolding relist
relist-memory c p true t = (refl, refl)
relist-memory c p false t = elim (Bool-cases ((t.slab p).free == (t.cache c).num_objs_per_slab)) [
  | inl e ↦ rw e (refl, refl)
  | inr e ↦ rw e (refl, refl)
]

relist-counters :
    (c p : ℕ) (was_full : Bool) (t : SlabAllocator)
    → let u = relist c p was_full t in
      ((u.cache c).num_active_objs ≡ sub32 (t.cache c).num_active_objs 1)
      × ((u.cache c).num_free_objs ≡ add32 (t.cache c).num_free_objs 1)
unfolding relist
relist-counters c p true t = rw (eq→== c c refl) (refl, refl)
relist-counters c p false t = elim (Bool-cases ((t.slab p).free == (t.cache c).num_objs_per_slab)) [
  | inl e ↦ rw (e, eq→== c c refl) (refl, refl)
  | inr e ↦ rw (e, eq→== c c refl) (refl, refl)
]

relist-Lists :
    (c p : ℕ) (t : SlabAllocator) (xs us vs rest es : List ℕ)
    → SlabLists c t (full_before xs (us ++ p ∷ vs) rest) (partial_before xs (us ++ p ∷ vs) rest) es
    → let all = (t.slab p).free == (t.cache c).num_objs_per_slab in
      SlabLists c
        (relist c p (length xs == 0) t)
        (full_freed xs (us ++ vs) rest)
        (partial_freed xs all p (us ++ p ∷ vs) (us ++ vs) rest)
        (empty_freed xs all p es)
unfolding relist
relist-Lists c p t [] us vs rest es l =
    let k = t.cache c in
    rw (eq→== c c refl)
      (move_slab-Three p k.slabs_full k.slabs_partial k.slabs_empty us vs rest es t.links l)
relist-Lists c p t (x ∷ xs) us vs rest es l =
    let k = t.cache c in
    let up =
      move_slab-Three p k.slabs_partial k.slabs_empty k.slabs_full us vs es rest t.links
        (turn_lists k.slabs_full k.slabs_partial k.slabs_empty rest (us ++ p ∷ vs) es t.links l) in
    elim (Bool-cases ((t.slab p).free == k.num_objs_per_slab)) [
      | inl e ↦
          rw (ne→==-false (length (x ∷ xs)) 0 (λ q. omega (arith, q)), e, eq→== c c refl)
            (turn_lists _ _ _ (p ∷ es) rest (us ++ vs) _
              (turn_lists _ _ _ (us ++ vs) (p ∷ es) rest _ up))
      | inr e ↦ rw (ne→==-false (length (x ∷ xs)) 0 (λ q. omega (arith, q)), e, eq→== c c refl) l
    ]

-- What the return of the object `x` leaves: `s` before, `t` after.
pub record Returned (c p x n : ℕ) (xs us vs rest es : List ℕ) (s t : SlabAllocator) : Type 0 where
  pub counted : Counted p n (x ∷ xs) t
  pub lists :
      SlabLists c t
        (full_freed xs (us ++ vs) rest)
        (partial_freed xs (suc (length xs) == n) p (us ++ p ∷ vs) (us ++ vs) rest)
        (empty_freed xs (suc (length xs) == n) p es)
  pub active : (t.cache c).num_active_objs ≡ sub32 (s.cache c).num_active_objs 1
  pub free : (t.cache c).num_free_objs ≡ add32 (s.cache c).num_free_objs 1

-- Giving back the object `x`, which is not free, to its slab `p` with the free objects `xs`, of `n` in
-- all: `x` is the first free object then. The slab goes to the front of the partial slabs if it was
-- full, to the front of the empty ones if all its objects are free and it was not full, and stays
-- otherwise; the three lists share no slab again, and the counters of the cache move by one.
pub return_object-Returned :
    (c p x n : ℕ) (xs us vs rest es : List ℕ) (s : SlabAllocator)
    → x ≢ 0
    → Fresh x xs
    → length xs < n
    → (s.cache c).num_objs_per_slab ≡ n
    → SlabLists c s (full_before xs (us ++ p ∷ vs) rest) (partial_before xs (us ++ p ∷ vs) rest) es
    → Counted p n xs s
    → Returned c p x n xs us vs rest es s (return_object c p x s)
unfolding return_object
return_object-Returned c p x n xs us vs rest es s x0 f h e l k = rw (k.free) (record {
  counted = Counted-same p n (x ∷ xs) t _ mem.0 mem.1 freed;
  lists = rw (← freed.free, ← number) (relist-Lists c p t xs us vs rest es (rw (keep.0, keep.1) l));
  active =
      (relist-counters c p (length xs == 0) t).0 ∙ ap (λ g. sub32 (g c).num_active_objs 1) keep.1;
  free = (relist-counters c p (length xs == 0) t).1 ∙ ap (λ g. add32 (g c).num_free_objs 1) keep.1;
})
  where
    t : SlabAllocator
    t = slab_free_obj p x s

    freed : Counted p n (x ∷ xs) t
    freed = slab_free_obj-Counted p n x xs s x0 f h k

    keep : (t.links ≡ s.links) × (t.cache ≡ s.cache)
    keep = slab_free_obj-keeps p x s

    number : (t.cache c).num_objs_per_slab ≡ n
    number = ap (λ g. (g c).num_objs_per_slab) keep.1 ∙ e

    mem :
        (t.objs ≡ (relist c p (length xs == 0) t).objs)
        × (t.slab ≡ (relist c p (length xs == 0) t).slab)
    mem = relist-memory c p (length xs == 0) t
