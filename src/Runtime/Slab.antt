-- ===== src/Runtime/Slab.antt =====
-- The allocator of src/kernel/runtime/slab.cc over the buddy allocator. Objects, slabs and caches are
-- addresses; a loop over a list takes fuel, and stops where it is when the fuel runs out. A
-- constructor or destructor is an address of code that is not here: `call f obj` is what calling it
-- does to the allocator's state.
pub mod Caches
pub mod Sizes
pub mod Moves
pub mod FreeObjects
pub mod Lists
pub mod Allocating
pub mod Freeing
pub mod Failures
pub mod Large
mod Tests
use km_os.Prelude.{
  ℕ, zero, suc, ◌+◌, ◌-◌, ◌*◌, ◌/◌, ◌%◌, ◌^◌, List, [], ◌∷◌, ◌++◌, Bool, true, false, ◌&&◌, ◌||◌,
  not, if◌then◌else◌, ◌==◌, ltb, leb, update, get_or, replicate, Links, unlink, push_front, add32,
  sub32, mul32,
}
use Prim.Native.Nat.{bit_and}
use km_os.Runtime.Buddy.{Zone, alloc, alloc_order, free, free_order, get_order, min_block_size}

abbrev pub slab_magic : ℕ
slab_magic = 0x5AB1234

abbrev pub cache_align : ℕ
cache_align = 8

abbrev pub slab_max_size : ℕ
slab_max_size = 4096

-- `sizeof(struct slab)` and `sizeof(struct slab_cache)`
abbrev pub slab_header : ℕ
slab_header = 36

abbrev pub cache_header : ℕ
cache_header = 88

-- `sizeof(struct slab_obj)`
abbrev pub obj_header : ℕ
obj_header = 8

-- `struct slab_obj`
pub record Objects : Type 0 where
  pub next : ℕ → ℕ
  pub magic : ℕ → ℕ

-- `struct slab`, less its links.
pub record Slab : Type 0 where
  pub mem : ℕ
  pub inuse : ℕ
  pub free : ℕ
  pub freelist : ℕ
  pub size : ℕ
  pub order : ℕ
  pub magic : ℕ

-- `struct slab_cache`
pub record Cache : Type 0 where
  pub next : ℕ
  pub name : List ℕ
  pub obj_size : ℕ
  pub align : ℕ
  pub flags : ℕ
  pub num_objs_per_slab : ℕ
  pub gfp_order : ℕ
  pub slabs_full : ℕ
  pub slabs_partial : ℕ
  pub slabs_empty : ℕ
  pub num_slabs : ℕ
  pub num_active_objs : ℕ
  pub num_free_objs : ℕ
  pub ctor : ℕ
  pub dtor : ℕ

-- Class SlabAllocator, with the memory it manages and the allocator it draws slabs from.
pub record SlabAllocator : Type 0 where
  pub objs : Objects
  pub links : Links
  pub slab : ℕ → Slab
  pub cache : ℕ → Cache
  pub cache_chain : ℕ
  pub size_caches : ℕ → ℕ
  pub zone : Zone

abbrev pub set_slab : ℕ → Slab → SlabAllocator → SlabAllocator
set_slab p v s = record s { slab = update s.slab p v }

abbrev pub set_cache : ℕ → Cache → SlabAllocator → SlabAllocator
set_cache c v s = record s { cache = update s.cache c v }

-- The loop of `cache_create` that copies a name, with `k` bytes left.
unfoldable pub copy_name : ℕ → List ℕ → List ℕ → List ℕ
copy_name zero name old = old
copy_name (suc k) [] old = old
copy_name (suc k) (c ∷ name) [] = []
copy_name (suc k) (c ∷ name) (o ∷ old) = if c == 0 then o ∷ old else c ∷ copy_name k name old

-- The loop of `cache_create` that doubles the size of a slab; 32 rounds are enough for 32 bits.
unfoldable pub grow_slab : ℕ → ℕ → ℕ → ℕ
grow_slab zero obj_size slab_size = slab_size
grow_slab (suc k) obj_size slab_size =
    if ltb slab_size (mul32 obj_size 8) && ltb slab_size slab_max_size
    then grow_slab k obj_size (slab_size * 2)
    else slab_size

-- `calculate_num_objs`, for objects of one byte or more.
abbrev pub calculate_num_objs : ℕ → ℕ → ℕ
calculate_num_objs obj_size slab_size = slab_size / obj_size

-- `(size + align - 1) & ~(align - 1)`
abbrev pub align_up : ℕ → ℕ → ℕ
align_up size align = bit_and (sub32 (add32 size align) 1) (0xffff_ffff - sub32 align 1)

-- `SlabAllocator::cache_create`: the cache, 0 for none.
unfoldable pub cache_create : List ℕ → ℕ → ℕ → ℕ → ℕ → ℕ → SlabAllocator → ℕ × SlabAllocator
unfolding alloc get_order copy_name grow_slab
cache_create name size align flags ctor dtor s =
    let r = alloc cache_header s.zone in
    let c = r.0 in
    let obj_size = align_up size align in
    let slab_size = grow_slab 32 obj_size min_block_size in
    if c == 0 then (0, record s { zone = r.1 }) else (
      c,
      record s {
        zone = r.1;
        cache = update s.cache c (record {
          next = s.cache_chain;
          name = copy_name 32 name (s.cache c).name;
          obj_size = obj_size;
          align = align;
          flags = flags;
          num_objs_per_slab = calculate_num_objs obj_size slab_size;
          gfp_order = get_order slab_size;
          slabs_full = 0;
          slabs_partial = 0;
          slabs_empty = 0;
          num_slabs = 0;
          num_active_objs = 0;
          num_free_objs = 0;
          ctor = ctor;
          dtor = dtor;
        });
        cache_chain = c;
      },
    )

-- The loop of `slab_create` over the objects, from the address `obj` on, `n` of them left. For objects
-- of 8 bytes or more: smaller ones share bytes with the next one's header, which the maps leave out.
unfoldable pub thread_objects : ℕ → ℕ → ℕ → ℕ → Objects → ℕ × Objects
thread_objects zero obj_size obj freelist o = (freelist, o)
thread_objects (suc n) obj_size obj freelist o =
    thread_objects n obj_size (add32 obj obj_size) obj
      (record { next = update o.next obj freelist; magic = update o.magic obj slab_magic })

-- `slab_create` at the header `p` and the memory `mem`, the zone being `z` then.
unfoldable pub fill_slab : ℕ → ℕ → ℕ → Zone → SlabAllocator → SlabAllocator
unfolding thread_objects
fill_slab c p mem z s =
    let cache = s.cache c in
    let threaded = thread_objects cache.num_objs_per_slab cache.obj_size mem 0 s.objs in
    record s {
      zone = z;
      slab = update s.slab p (record {
        mem = mem;
        inuse = 0;
        free = cache.num_objs_per_slab;
        freelist = threaded.0;
        size = cache.obj_size;
        order = cache.gfp_order;
        magic = slab_magic;
      });
      links = record { next = update s.links.next p 0; prev = update s.links.prev p 0 };
      objs = threaded.1;
      cache =
          update s.cache c
            (record cache { num_free_objs = add32 cache.num_free_objs cache.num_objs_per_slab });
    }

-- `SlabAllocator::slab_create`: the slab, 0 for none.
unfoldable pub slab_create : ℕ → SlabAllocator → ℕ × SlabAllocator
unfolding alloc alloc_order free fill_slab
slab_create c s =
    let r = alloc slab_header s.zone in
    let m = alloc_order (s.cache c).gfp_order r.1 in
    if r.0 == 0
    then (0, record s { zone = r.1 })
    else if m.0 == 0
    then (0, record s { zone = free r.0 m.1 })
    else (r.0, fill_slab c r.0 m.0 m.1 s)

-- `SlabAllocator::slab_destroy`
unfoldable pub slab_destroy : ℕ → ℕ → SlabAllocator → SlabAllocator
unfolding free free_order
slab_destroy c p s =
    let sl = s.slab p in
    let cache = s.cache c in
    if p == 0 || not (sl.magic == slab_magic)
    then s
    else set_cache c
        (record cache {
          num_free_objs = sub32 cache.num_free_objs sl.free;
          num_slabs = sub32 cache.num_slabs 1;
        })
        (record s { zone = free p (free_order sl.mem sl.order s.zone) })

-- `SlabAllocator::slab_alloc_obj`: the object, 0 for none.
unfoldable pub slab_alloc_obj : ℕ → SlabAllocator → ℕ × SlabAllocator
slab_alloc_obj p s =
    let sl = s.slab p in
    let obj = sl.freelist in
    if obj == 0
    then (0, s)
    else if s.objs.magic obj == slab_magic
    then (
      obj,
      set_slab p
          (record sl {
            freelist = s.objs.next obj;
            inuse = add32 sl.inuse 1;
            free = sub32 sl.free 1;
          })
          s,
    )
    else (0, s)

-- `SlabAllocator::slab_free_obj`
unfoldable pub slab_free_obj : ℕ → ℕ → SlabAllocator → SlabAllocator
slab_free_obj p obj s =
    let sl = s.slab p in
    set_slab p (record sl { freelist = obj; inuse = sub32 sl.inuse 1; free = add32 sl.free 1 })
      (record s {
        objs = record {
          next = update s.objs.next obj sl.freelist;
          magic = update s.objs.magic obj slab_magic;
        };
      })

-- `SlabAllocator::move_slab` from the list `from` to the list `to`: their new heads and the links.
pub record Moved : Type 0 where
  pub from : ℕ
  pub to : ℕ
  pub links : Links

unfoldable pub move_slab : ℕ → ℕ → ℕ → Links → Moved
unfolding unlink push_front
move_slab from to p l = record {
  from = if l.prev p == 0 then l.next p else from;
  to = p;
  links = push_front p to (unlink p l);
}
