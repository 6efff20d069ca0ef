-- ===== src/Runtime/Slab/FreeObjects.antt =====
-- The free objects of a slab in src/kernel/runtime/slab.cc: `slab_create`, `slab_alloc_obj` and
-- `slab_free_obj`.
use mathlib.Core.Path.{subst}
use km_os.Prelude.{
  ℕ, zero, suc, ◌+◌, ◌*◌, ◌^◌, ◌<◌, ◌≤◌, ◌≡◌, ◌≢◌, refl, sym, ap, ◌∙◌, add32, List, [], ◌∷◌, arith,
  false, Bool-cases, inl, inr, ◌==◌, eq→==, ne→==-false, ==-false→ne, length, All, All-map, Fresh,
  update,
}
use native.Mathlib.Nat.{suc-mul}
use km_os.Runtime.Buddy.{Zone, alloc, alloc_order}
use km_os.Runtime.Slab.{
  SlabAllocator, Objects, slab_magic, thread_objects, slab_create, slab_alloc_obj, slab_free_obj,
  slab_header, obj_header, fill_slab,
}

-- From `p` on, the objects are `xs`; each is marked.
abbrev pub Threaded : Objects → ℕ → List ℕ → Type 0
Threaded o p [] = p ≡ 0
Threaded o p (x ∷ xs) = (p ≡ x) × (x ≢ 0) × (o.magic x ≡ slab_magic) × Threaded o (o.next x) xs

-- The slab's free objects are `xs`, and its counters say so; `n` objects it has in all.
pub record Counted (p n : ℕ) (xs : List ℕ) (s : SlabAllocator) : Type 0 where
  pub threaded : Threaded s.objs (s.slab p).freelist xs
  pub free : (s.slab p).free ≡ length xs
  pub inuse : (s.slab p).inuse + length xs ≡ n
  pub small : n < 2 ^ 32

-- The objects that `slab_create` puts on a list before `xs`, the last one first.
abbrev pub objects_from : ℕ → ℕ → ℕ → List ℕ → List ℕ
objects_from zero obj_size obj xs = xs
objects_from (suc n) obj_size obj xs = objects_from n obj_size (obj + obj_size) (obj ∷ xs)

Threaded-push :
    (o : Objects) (x p q : ℕ) (xs : List ℕ)
    → Fresh x xs
    → Threaded o q xs
    → Threaded (record { next = update o.next x p; magic = update o.magic x slab_magic }) q xs
Threaded-push o x p q [] f t = t
Threaded-push o x p q (y ∷ ys) f t = (
  t.0,
  t.1,
  rw (ne→==-false x y f.0) t.2,
  rw (ne→==-false x y f.0) (Threaded-push o x p (o.next y) ys f.1 t.3),
)

Threaded-cons :
    (o : Objects) (x p : ℕ) (xs : List ℕ)
    → x ≢ 0
    → Fresh x xs
    → Threaded o p xs
    → Threaded (record { next = update o.next x p; magic = update o.magic x slab_magic }) x (x ∷ xs)
Threaded-cons o x p xs x0 f t =
    (refl, x0, rw (eq→== x x refl) refl, rw (eq→== x x refl) (Threaded-push o x p p xs f t))

below-Fresh : (x : ℕ) (xs : List ℕ) → All (λ y. y < x) xs → Fresh x xs
below-Fresh x [] a = tt
below-Fresh x (y ∷ ys) a = (λ e. omega (arith, a.0, e), below-Fresh x ys a.1)

thread_objects-Threaded :
    (n obj_size obj freelist : ℕ) (o : Objects) (xs : List ℕ)
    → 0 < obj_size
    → 0 < obj
    → obj + n * obj_size < 2 ^ 32
    → All (λ y. y < obj) xs
    → Threaded o freelist xs
    → let r = thread_objects n obj_size obj freelist o in
      Threaded r.1 r.0 (objects_from n obj_size obj xs)
unfolding thread_objects
thread_objects-Threaded zero obj_size obj freelist o xs h g b a t = t
thread_objects-Threaded (suc n) obj_size obj freelist o xs h g b a t =
    subst
      (λ q.
        let r = thread_objects n obj_size q obj pushed in
        Threaded r.1 r.0 (objects_from n obj_size (obj + obj_size) (obj ∷ xs)))
      (sym step)
      (thread_objects-Threaded n obj_size (obj + obj_size) obj pushed (obj ∷ xs) h (omega arith)
        (omega (arith, b, suc-mul n obj_size))
        (omega arith, All-map _ _ xs (λ y q. omega (arith, q, h)) a)
        (Threaded-cons o obj freelist xs (λ e. omega (arith, e, g)) (below-Fresh obj xs a) t))
  where
    pushed : Objects
    pushed = record { next = update o.next obj freelist; magic = update o.magic obj slab_magic }

    step : add32 obj obj_size ≡ obj + obj_size
    step = omega (arith, b, suc-mul n obj_size)

objects_from-length :
    (n obj_size obj : ℕ) (xs : List ℕ) → length (objects_from n obj_size obj xs) ≡ n + length xs
objects_from-length zero obj_size obj xs = omega arith
objects_from-length (suc n) obj_size obj xs =
    omega (arith, objects_from-length n obj_size (obj + obj_size) (obj ∷ xs))

-- Objects of `obj_size` bytes between two addresses, none of them overlapping the next.
abbrev pub Packed : ℕ → ℕ → ℕ → List ℕ → Type 0
Packed low high obj_size [] = Unit {0}
Packed low high obj_size (x ∷ xs) = (low ≤ x) × (x + obj_size ≤ high) × Packed low x obj_size xs

Packed-high :
    (low high high' obj_size : ℕ) (xs : List ℕ)
    → high ≤ high'
    → Packed low high obj_size xs
    → Packed low high' obj_size xs
Packed-high low high high' obj_size [] h p = tt
Packed-high low high high' obj_size (x ∷ xs) h p = (p.0, omega (arith, p.1, h), p.2)

objects_from-Packed :
    (n obj_size low obj : ℕ) (xs : List ℕ)
    → low ≤ obj
    → Packed low obj obj_size xs
    → Packed low (obj + n * obj_size) obj_size (objects_from n obj_size obj xs)
objects_from-Packed zero obj_size low obj xs h p = Packed-high low obj _ obj_size xs (omega arith) p
objects_from-Packed (suc n) obj_size low obj xs h p =
    subst (λ k. Packed low k obj_size (objects_from (suc n) obj_size obj xs)) step
      (objects_from-Packed n obj_size low (obj + obj_size) (obj ∷ xs) (omega arith)
        (h, omega arith, p))
  where
    step : obj + obj_size + n * obj_size ≡ obj + suc n * obj_size
    step = omega (arith, suc-mul n obj_size)

-- A new slab: all its objects are free, and lie one beside the other in the slab's memory.
pub record Created (c p : ℕ) (s t : SlabAllocator) : Type 0 where
  pub objects : List ℕ
  pub counted : Counted p (s.cache c).num_objs_per_slab objects t
  pub number : length objects ≡ (s.cache c).num_objs_per_slab
  pub packed :
      Packed
        (t.slab p).mem
        ((t.slab p).mem + (s.cache c).num_objs_per_slab * (s.cache c).obj_size)
        (s.cache c).obj_size
        objects

creating :
    (c : ℕ) (s : SlabAllocator)
    → ((alloc slab_header s.zone).0 == 0) ≡ false
    → ((alloc_order (s.cache c).gfp_order (alloc slab_header s.zone).1).0 == 0) ≡ false
    → let r = alloc slab_header s.zone in
      let m = alloc_order (s.cache c).gfp_order r.1 in
      slab_create c s ≡ (r.0, fill_slab c r.0 m.0 m.1 s)
unfolding slab_create
creating c s e f = rw (e, f) refl

fill_slab-Created :
    (c p mem : ℕ) (z : Zone) (s : SlabAllocator)
    → mem ≢ 0
    → 0 < (s.cache c).obj_size
    → mem + (s.cache c).num_objs_per_slab * (s.cache c).obj_size < 2 ^ 32
    → (s.cache c).num_objs_per_slab < 2 ^ 32
    → Created c p s (fill_slab c p mem z s)
unfolding fill_slab
fill_slab-Created c p mem z s m0 h b g = record {
  objects = objects_from (s.cache c).num_objs_per_slab (s.cache c).obj_size mem [];
  counted = record {
    threaded = rw (eq→== p p refl) (
        thread_objects-Threaded (s.cache c).num_objs_per_slab (s.cache c).obj_size mem 0 s.objs [] h
          (omega arith) b tt refl);
    free = rw (eq→== p p refl) (sym all);
    inuse = rw (eq→== p p refl) (omega (arith, all));
    small = g;
  };
  number = all;
  packed = rw (eq→== p p refl) (
      objects_from-Packed (s.cache c).num_objs_per_slab (s.cache c).obj_size mem mem []
        (omega arith) tt);
}
  where
    all :
        length (objects_from (s.cache c).num_objs_per_slab (s.cache c).obj_size mem [])
        ≡ (s.cache c).num_objs_per_slab
    all =
        omega (arith, objects_from-length (s.cache c).num_objs_per_slab (s.cache c).obj_size mem [])

-- Where `slab_create` succeeds, for a cache with objects of 8 bytes or more, the size of the header
-- that a free one holds, fewer than 2^32 of them, which end below 2^32: the free list of the new slab has the cache's number of marked objects, the counters say so,
-- and the objects lie without overlap from the start of the slab's memory on.
pub slab_create-Created :
    (c : ℕ) (s : SlabAllocator)
    → (slab_create c s).0 ≢ 0
    → obj_header ≤ (s.cache c).obj_size
    → ((slab_create c s).1.slab (slab_create c s).0).mem
        + (s.cache c).num_objs_per_slab * (s.cache c).obj_size
      < 2 ^ 32
    → (s.cache c).num_objs_per_slab < 2 ^ 32
    → Created c (slab_create c s).0 s (slab_create c s).1
unfolding slab_create
slab_create-Created c s ok h b g = elim (Bool-cases ((alloc slab_header s.zone).0 == 0)) [
  | inl e ↦ absurd (ok (rw e refl))
  | inr e ↦
      elim (Bool-cases ((alloc_order (s.cache c).gfp_order (alloc slab_header s.zone).1).0 == 0)) [
        | inl f ↦ absurd (ok (rw (e, f) refl))
        | inr f ↦
            subst (λ r. Created c r.0 s r.1) (sym (creating c s e f))
              (fill_slab-Created c (alloc slab_header s.zone).0
                (alloc_order (s.cache c).gfp_order (alloc slab_header s.zone).1).0
                (alloc_order (s.cache c).gfp_order (alloc slab_header s.zone).1).1 s
                (==-false→ne _ _ f) (omega (arith, h)) (below e f) g)
      ]
]
  where
    below :
        ((alloc slab_header s.zone).0 == 0) ≡ false
        → ((alloc_order (s.cache c).gfp_order (alloc slab_header s.zone).1).0 == 0) ≡ false
        → (alloc_order (s.cache c).gfp_order (alloc slab_header s.zone).1).0
            + (s.cache c).num_objs_per_slab * (s.cache c).obj_size
          < 2 ^ 32
    below e f =
        subst (λ m. m + (s.cache c).num_objs_per_slab * (s.cache c).obj_size < 2 ^ 32)
          (ap (λ r. (r.1.slab r.0).mem) (creating c s e f) ∙ placed) b
      where
        placed :
            ((fill_slab c
                (alloc slab_header s.zone).0
                (alloc_order (s.cache c).gfp_order (alloc slab_header s.zone).1).0
                (alloc_order (s.cache c).gfp_order (alloc slab_header s.zone).1).1
                s).slab
              (alloc slab_header s.zone).0).mem
            ≡ (alloc_order (s.cache c).gfp_order (alloc slab_header s.zone).1).0
        placed = unfold fill_slab in rw (eq→== (alloc slab_header s.zone).0 _ refl) refl

-- Taking an object from a slab with free objects gives the first of them; the others are left.
pub slab_alloc_obj-Counted :
    (p n x : ℕ) (xs : List ℕ) (s : SlabAllocator)
    → Counted p n (x ∷ xs) s
    → ((slab_alloc_obj p s).0 ≡ x) × Counted p n xs (slab_alloc_obj p s).1
unfolding slab_alloc_obj
slab_alloc_obj-Counted p n x xs s k =
    rw (k.threaded.0, ne→==-false x 0 k.threaded.1, k.threaded.2)
      (
        refl,
        record {
          threaded = rw (eq→== p p refl) k.threaded.3;
          free = rw (eq→== p p refl) (omega (arith, k.free, k.inuse, k.small));
          inuse = rw (eq→== p p refl) (omega (arith, k.inuse, k.small));
          small = k.small;
        },
      )

-- Giving an object back that is not free makes it the first free one.
pub slab_free_obj-Counted :
    (p n x : ℕ) (xs : List ℕ) (s : SlabAllocator)
    → x ≢ 0
    → Fresh x xs
    → length xs < n
    → Counted p n xs s
    → Counted p n (x ∷ xs) (slab_free_obj p x s)
unfolding slab_free_obj
slab_free_obj-Counted p n x xs s x0 f h k = record {
  threaded = rw (eq→== p p refl) (Threaded-cons s.objs x (s.slab p).freelist xs x0 f k.threaded);
  free = rw (eq→== p p refl) (omega (arith, k.free, k.inuse, k.small));
  inuse = rw (eq→== p p refl) (omega (arith, k.inuse, k.small, h));
  small = k.small;
}
