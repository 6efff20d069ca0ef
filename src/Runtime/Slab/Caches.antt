-- ===== src/Runtime/Slab/Caches.antt =====
-- The caches of class SlabAllocator in src/kernel/runtime/slab.cc: allocating and freeing objects,
-- destroying and reaping. `call f obj` is what the constructor or destructor at `f` does.
use km_os.Prelude.{
  ℕ, zero, suc, ◌+◌, ◌*◌, ◌^◌, Bool, ◌&&◌, ◌||◌, not, if◌then◌else◌, ◌==◌, ltb, leb, update,
  set_prev, add32, sub32,
}
use km_os.Runtime.Buddy.{free, min_block_size}
use km_os.Runtime.Slab.{
  SlabAllocator, Cache, set_cache, slab_create, slab_destroy, slab_alloc_obj, slab_free_obj,
  move_slab,
}

-- `cache_alloc`: a slab of the cache with a free object, 0 for none.
unfoldable pub take_empty : ℕ → SlabAllocator → SlabAllocator
unfolding move_slab
take_empty c s =
    let cache = s.cache c in
    let m = move_slab cache.slabs_empty cache.slabs_partial cache.slabs_empty s.links in
    set_cache c (record cache { slabs_empty = m.from; slabs_partial = m.to })
      (record s { links = m.links })

unfoldable pub add_slab : ℕ → ℕ → SlabAllocator → SlabAllocator
add_slab c p s =
    let cache = s.cache c in
    set_cache c (record cache { slabs_partial = p; num_slabs = add32 cache.num_slabs 1 })
      (record s {
        links =
            set_prev cache.slabs_partial p
              (record (s.links) { next = update s.links.next p cache.slabs_partial });
      })

unfoldable pub choose_slab : ℕ → SlabAllocator → ℕ × SlabAllocator
choose_slab c s =
    let cache = s.cache c in
    let r = slab_create c s in
    if cache.slabs_partial == 0
    then (if cache.slabs_empty == 0
        then (if r.0 == 0 then (0, r.1) else (r.0, add_slab c r.0 r.1))
        else (cache.slabs_empty, take_empty c s))
    else (cache.slabs_partial, s)

-- `cache_alloc` after an object has been taken from the slab `p`: the counters, and the move of a slab
-- without free objects.
unfoldable pub count_object : ℕ → ℕ → SlabAllocator → SlabAllocator
unfolding move_slab
count_object c p s =
    let cache = s.cache c in
    let counted : Cache = record cache {
      num_active_objs = add32 cache.num_active_objs 1;
      num_free_objs = sub32 cache.num_free_objs 1;
    } in
    let m = move_slab cache.slabs_partial cache.slabs_full p s.links in
    if (s.slab p).free == 0
    then set_cache c (record counted { slabs_partial = m.from; slabs_full = m.to })
        (record s { links = m.links })
    else set_cache c counted s

-- The loop of `cache_free` over a list of slabs: the one that holds `obj`, 0 for none.
unfoldable pub find_slab : ℕ → ℕ → ℕ → SlabAllocator → ℕ
find_slab zero obj p s = 0
find_slab (suc k) obj p s =
    let sl = s.slab p in
    let rest = find_slab k obj (s.links.next p) s in
    if p == 0
    then 0
    else if leb sl.mem obj && ltb obj (sl.mem + 2 ^ sl.order * min_block_size)
    then p
    else rest

-- `cache_free` once the object is free again: the counters, and the move of the slab.
unfoldable pub relist : ℕ → ℕ → Bool → SlabAllocator → SlabAllocator
unfolding move_slab
relist c p was_full t =
    let cache = t.cache c in
    let counted : Cache = record cache {
      num_active_objs = sub32 cache.num_active_objs 1;
      num_free_objs = add32 cache.num_free_objs 1;
    } in
    let up = move_slab cache.slabs_full cache.slabs_partial p t.links in
    let down = move_slab cache.slabs_partial cache.slabs_empty p t.links in
    if was_full
    then set_cache c (record counted { slabs_full = up.from; slabs_partial = up.to })
        (record t { links = up.links })
    else if (t.slab p).free == cache.num_objs_per_slab
    then set_cache c (record counted { slabs_partial = down.from; slabs_empty = down.to })
        (record t { links = down.links })
    else set_cache c counted t

-- `cache_free` at the slab `p` of the object.
unfoldable pub return_object : ℕ → ℕ → ℕ → SlabAllocator → SlabAllocator
return_object c p obj s = relist c p ((s.slab p).free == 0) (slab_free_obj p obj s)

module _ (call : ℕ → ℕ → SlabAllocator → SlabAllocator) where
  -- The end of `cache_alloc`: the counters, and the constructor.
  unfoldable pub construct : ℕ → ℕ → ℕ → SlabAllocator → ℕ × SlabAllocator
  unfolding count_object
  construct c p obj s =
      let t = count_object c p s in
      let ctor = (t.cache c).ctor in if ctor == 0 then (obj, t) else (obj, call ctor obj t)

  -- `cache_alloc` at the slab `p`.
  unfoldable pub alloc_from : ℕ → ℕ → SlabAllocator → ℕ × SlabAllocator
  unfolding slab_alloc_obj construct
  alloc_from c p s =
      let obj = slab_alloc_obj p s in if obj.0 == 0 then (0, obj.1) else construct c p obj.0 obj.1

  -- `cache_alloc` once a slab is chosen, 0 for none.
  unfoldable pub alloc_chosen : ℕ → ℕ × SlabAllocator → ℕ × SlabAllocator
  alloc_chosen c slab = if slab.0 == 0 then (0, slab.1) else alloc_from c slab.0 slab.1

  -- `SlabAllocator::cache_alloc`: the object, 0 for none.
  unfoldable pub cache_alloc : ℕ → SlabAllocator → ℕ × SlabAllocator
  cache_alloc c s = if c == 0 then (0, s) else alloc_chosen c (choose_slab c s)

  -- `SlabAllocator::cache_free`
  unfoldable pub cache_free : ℕ → ℕ → ℕ → SlabAllocator → SlabAllocator
  unfolding find_slab return_object
  cache_free fuel c obj s =
      let cache = s.cache c in
      let full = find_slab fuel obj cache.slabs_full s in
      let p = if full == 0 then find_slab fuel obj cache.slabs_partial s else full in
      let called = if cache.dtor == 0 then s else call cache.dtor obj s in
      if c == 0 || obj == 0 then s else if p == 0 then s else return_object c p obj called

-- A loop of `cache_destroy` over a list of slabs: the rest of the list, and the state.
unfoldable pub destroy_slabs : ℕ → ℕ → ℕ → SlabAllocator → ℕ × SlabAllocator
unfolding slab_destroy
destroy_slabs zero c p s = (p, s)
destroy_slabs (suc k) c p s =
    let rest = destroy_slabs k c (s.links.next p) (slab_destroy c p s) in
    if p == 0 then (0, s) else rest

-- The loop of `cache_destroy` along the chain of caches: the predecessor of `c`, 0 for none.
unfoldable pub find_before : ℕ → ℕ → ℕ → SlabAllocator → ℕ
find_before zero c p s = p
find_before (suc k) c p s =
    let rest = find_before k c (s.cache p).next s in
    if p == 0 then 0 else if (s.cache p).next == c then p else rest

abbrev pub leave_chain : ℕ → ℕ → SlabAllocator → SlabAllocator
leave_chain fuel c s =
    let p = find_before fuel c s.cache_chain s in
    if s.cache_chain == c
    then record s { cache_chain = (s.cache c).next }
    else if p == 0
    then s
    else set_cache p (record (s.cache p) { next = (s.cache c).next }) s

-- `SlabAllocator::cache_destroy`
unfoldable pub cache_destroy : ℕ → ℕ → SlabAllocator → SlabAllocator
unfolding destroy_slabs find_before free
cache_destroy fuel c s =
    let full = destroy_slabs fuel c (s.cache c).slabs_full s in
    let t = set_cache c (record (full.1.cache c) { slabs_full = full.0 }) full.1 in
    let partial = destroy_slabs fuel c (t.cache c).slabs_partial t in
    let u = set_cache c (record (partial.1.cache c) { slabs_partial = partial.0 }) partial.1 in
    let empty = destroy_slabs fuel c (u.cache c).slabs_empty u in
    let v = set_cache c (record (empty.1.cache c) { slabs_empty = empty.0 }) empty.1 in
    let w = leave_chain fuel c v in if c == 0 then s else record w { zone = free c w.zone }

-- The inner loop of `cache_reap`.
unfoldable pub reap_empty : ℕ → ℕ → SlabAllocator → SlabAllocator
unfolding slab_destroy
reap_empty zero c s = s
reap_empty (suc k) c s =
    let cache = s.cache c in
    let p = cache.slabs_empty in
    let next = s.links.next p in
    let t =
      set_cache c (record cache { slabs_empty = next })
        (record s { links = set_prev next 0 s.links }) in
    let rest = reap_empty k c (slab_destroy c p t) in
    if not (p == 0) && ltb 1 cache.num_slabs then rest else s

-- Its outer loop.
unfoldable pub reap_from : ℕ → ℕ → ℕ → SlabAllocator → SlabAllocator
unfolding reap_empty
reap_from zero fuel c s = s
reap_from (suc k) fuel c s =
    let t = reap_empty fuel c s in
    let rest = reap_from k fuel (t.cache c).next t in if c == 0 then s else rest

-- `SlabAllocator::cache_reap`
unfoldable pub cache_reap : ℕ → SlabAllocator → SlabAllocator
unfolding reap_from
cache_reap fuel s = reap_from fuel fuel s.cache_chain s
