-- ===== src/Runtime/Buddy/RoundTrip.antt =====
-- `alloc_order` and then `free_order`, src/kernel/runtime/buddy.cc.
use mathlib.Core.Path.{subst}
use km_os.Prelude.{
  ℕ, ◌+◌, ◌-◌, ◌*◌, ◌<◌, ◌≤◌, ◌≡◌, refl, sym, ap, ◌∙◌, true, false, List, [], ◌∷◌, arith, inl, inr,
  ◌==◌, eq→==, ne→==-false, le→ltb-false, In, update, Chain, add32, sub32,
}
use km_os.Runtime.Buddy.{
  Zone, block_size, max_order, header_size, remove_from_free_list, split_block, take_block,
  alloc_order, flip_index, coalesce_block, free_order,
}
use km_os.Runtime.Buddy.FreeLists.{Marked, Free, Lone, size_positive, set_allocated-Free}
use km_os.Runtime.Buddy.Removing.{remove_from_free_list-Free, removed-Lone}
use km_os.Runtime.Buddy.Taking.{split_lists, split_block-Free}
use km_os.Runtime.Buddy.Merging.{buddy_of}
use km_os.Runtime.Buddy.Returning.{Kept, split_block-Kept, beside, find_order-found, given_back}

-- The block is back on its list, in the state that `take_block` leaves.
module _ (k order q b : ℕ) (vs : List ℕ) (z : Zone) (xs : ℕ → List ℕ) (v : Free z xs)
    (h : order + k ≤ max_order) (listed : xs (order + k) ≡ b ∷ vs)
    (at_q : b ≡ z.memory_start + q * block_size (order + k))
    (fits : b + block_size (order + k) ≤ z.memory_start + z.memory_size)
    (used : z.allocated (buddy_of z (order + k) q) ≡ true) where
  head : Chain z.links 0 (z.free_lists (order + k)) (b ∷ vs)
  head = subst (Chain z.links 0 (z.free_lists (order + k))) listed (v.chain (order + k) h)

  mark : Marked z (order + k) b
  mark = v.marked (order + k) b (subst (In b) (sym listed) (inl refl))

  start : Zone
  start = remove_from_free_list b (order + k) z

  start-Free : Free start (update xs (order + k) vs)
  unfolding start
  start-Free = remove_from_free_list-Free z xs v (order + k) b [] vs h listed

  lone : Lone (order + k) b (update xs (order + k) vs)
  lone = removed-Lone z xs v (order + k) b [] vs h listed

  cut : Zone
  cut = split_block k order b start

  -- The zone at the call of `coalesce_block`.
  freed : ℕ → Zone
  freed n = record cut {
    allocated = update (update cut.allocated b true) b false;
    allocated_blocks = n;
  }

  cut-Kept : Kept b (b + block_size (order + k)) order start cut
  unfolding cut start remove_from_free_list
  cut-Kept = split_block-Kept k order b (b + block_size (order + k)) start (omega arith) mark.2

  freed-Free : (n : ℕ) → Free (freed n) (split_lists k order b (update xs (order + k) vs))
  unfolding freed cut
  freed-Free n =
      let parts = split_block-Free k order b start (update xs (order + k) vs) h start-Free lone in
      set_allocated-Free _ _
        (set_allocated-Free cut _ parts.0 order b parts.1 true cut.allocated_blocks) order b parts.1
        false n

  back-Free : (n : ℕ) → Free (coalesce_block (max_order - order) b order (freed n)) xs
  unfolding freed start remove_from_free_list
  back-Free n =
      given_back k order q b (freed n) z xs vs h head.1
        (at_q ∙ ap (λ i. i + q * block_size (order + k)) (sym cut-Kept.start))
        (omega (arith, fits, cut-Kept.start, cut-Kept.size)) lone listed cut-Kept.order
        (cut-Kept.magic ∙ mark.0) (rw (eq→== b b refl) refl) still (freed-Free n)
    where
      other : (b == buddy_of z (order + k) q) ≡ false
      other = ne→==-false b (buddy_of z (order + k) q) (λ e. elim (beside z (order + k) q b at_q) [
        | inl o ↦ omega (arith, o, e, size_positive (order + k))
        | inr o ↦ omega (arith, o, e)
      ])

      still : (freed n).allocated (buddy_of (freed n) (order + k) q) ≡ true
      still =
          ap (λ i. (freed n).allocated (i + flip_index q * block_size (order + k))) cut-Kept.start
          ∙ rw other
              (cut-Kept.outside (buddy_of z (order + k) q) (beside z (order + k) q b at_q) ∙ used)

  taking :
      (free_order (take_block order (order + k) z).0 order (take_block order (order + k) z).1)
      ≡ coalesce_block (max_order - order) b order (freed (sub32 (add32 cut.allocated_blocks 1) 1))
  unfolding free_order take_block freed cut start
  taking =
      rw
        (
          head.0,
          rounds,
          past,
          ne→==-false (b + header_size) 0 (omega arith),
          le→ltb-false max_order order (omega (arith, h)),
        )
        refl
    where
      rounds : order + k - order ≡ k
      rounds = omega arith

      past : b + header_size - header_size ≡ b
      past = omega arith

returned :
    (k order q b : ℕ) (vs : List ℕ) (z : Zone) (xs : ℕ → List ℕ)
    → Free z xs
    → order + k ≤ max_order
    → xs (order + k) ≡ b ∷ vs
    → b ≡ z.memory_start + q * block_size (order + k)
    → b + block_size (order + k) ≤ z.memory_start + z.memory_size
    → z.allocated (buddy_of z (order + k) q) ≡ true
    → Free
        (free_order (take_block order (order + k) z).0 order (take_block order (order + k) z).1)
        xs
returned k order q b vs z xs v h listed at_q fits used =
    subst (λ t. Free t xs) (sym (taking k order q b vs z xs v h listed at_q fits used))
      (back-Free k order q b vs z xs v h listed at_q fits used _)

-- For well-formed free lists, where the first list with a block from `order` on is that of the order
-- `found`, its first block lies at a multiple of its size in the zone, and the buddy of that block is
-- allocated: `alloc_order` returns the pointer past that block's header, and `free_order` of it merges
-- the halves back, so that the free lists are as they were.
pub free_order-alloc_order :
    (order found q b : ℕ) (vs : List ℕ) (z : Zone) (xs : ℕ → List ℕ)
    → Free z xs
    → order ≤ found
    → found ≤ max_order
    → ((i : ℕ) → order ≤ i → i < found → xs i ≡ [])
    → xs found ≡ b ∷ vs
    → b ≡ z.memory_start + q * block_size found
    → b + block_size found ≤ z.memory_start + z.memory_size
    → z.allocated (buddy_of z found q) ≡ true
    → ((alloc_order order z).0 ≡ b + header_size)
      × Free (free_order (alloc_order order z).0 order (alloc_order order z).1) xs
unfolding alloc_order
free_order-alloc_order order found q b vs z xs v h g empty listed at_q fits used =
    rw
      (
        le→ltb-false max_order order (omega (arith, h, g)),
        find_order-found order found b vs z xs v h g empty listed,
        le→ltb-false max_order found g,
      )
      (pointer, back)
  where
    whole : order + (found - order) ≡ found
    whole = omega (arith, h)

    pointer : (take_block order found z).0 ≡ b + header_size
    pointer =
        unfold take_block in
        ap (λ i. i + header_size)
          (subst (Chain z.links 0 (z.free_lists found)) listed (v.chain found g)).0

    back : Free (free_order (take_block order found z).0 order (take_block order found z).1) xs
    back =
        subst (λ i. Free (free_order (take_block order i z).0 order (take_block order i z).1) xs)
          whole
          (returned (found - order) order q b vs z xs v (omega (arith, whole, g))
            (ap xs whole ∙ listed) (at_q ∙ ap (λ i. z.memory_start + q * block_size i) (sym whole))
            (omega (arith, fits, ap block_size whole))
            (ap (λ i. z.allocated (buddy_of z i q)) whole ∙ used))
