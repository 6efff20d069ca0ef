-- ===== src/Runtime/Buddy/Taking.antt =====
-- `BuddyAllocator::alloc_order` of src/kernel/runtime/buddy.cc on the free lists: the search, and the
-- block that is split.
use native.Mathlib.Decide.{ℕ_discrete}
use native.Mathlib.Nat.{pow-suc}
use mathlib.Core.Path.{subst}
use km_os.Prelude.{
  ℕ, zero, suc, ◌+◌, ◌-◌, ◌<◌, ◌≤◌, ◌≡◌, ◌≢◌, ◌⊎◌, refl, sym, ap, ◌∙◌, true, false, List, [], ◌∷◌,
  arith, inl, inr, Bool-cases, ◌==◌, eq→==, ==→eq, ==-false→ne, ltb, ltb→lt, ltb-false→le, update,
  Chain,
}
use km_os.Runtime.Buddy.{
  Zone, block_size, max_order, header_size, write_header, add_to_free_list, remove_from_free_list,
  find_order, split_block, take_block, alloc_order,
}
use km_os.Runtime.Buddy.FreeLists.{
  Free, Lone, size_positive, add_to_free_list-Free, write_header-Free, set_order-Free,
  set_allocated-Free, In-push,
}
use km_os.Runtime.Buddy.Removing.{remove_from_free_list-Free, removed-Lone}

-- The lists after a block of order `target + k` is split down to `target`: each time the upper half
-- goes on its list.
abbrev pub split_lists : ℕ → ℕ → ℕ → (ℕ → List ℕ) → ℕ → List ℕ
split_lists zero target block xs = xs
split_lists (suc k) target block xs =
    split_lists k target block
      (update xs (target + k) ((block + block_size (target + k)) ∷ xs (target + k)))

pub size_twice : (i : ℕ) → block_size (suc i) ≡ block_size i + block_size i
size_twice i = omega (arith, pow-suc 2 i)

pub next_size : (a k : ℕ) → block_size (a + suc k) ≡ block_size (a + k) + block_size (a + k)
next_size a k = ap block_size (omega arith) ∙ size_twice (a + k)

-- Half a block shares no byte with a free one if the whole does not.
lower_half : (a k b : ℕ) (xs : ℕ → List ℕ) → Lone (a + suc k) b xs → Lone (a + k) b xs
lower_half a k b xs h j y m = elim (h j y m) [
  | inl q ↦ inl (omega (arith, q, next_size a k))
  | inr q ↦ inr q
]

upper_half :
    (a k b : ℕ) (xs : ℕ → List ℕ) → Lone (a + suc k) b xs → Lone (a + k) (b + block_size (a + k)) xs
upper_half a k b xs h j y m = elim (h j y m) [
  | inl q ↦ inl (omega (arith, q, next_size a k))
  | inr q ↦ inr (omega (arith, q))
]

pub half-Lone :
    (a k b : ℕ) (xs : ℕ → List ℕ)
    → Lone (a + suc k) b xs
    → Lone (a + k) b (update xs (a + k) ((b + block_size (a + k)) ∷ xs (a + k)))
half-Lone a k b xs lone j y m = elim (In-push xs (a + k) (b + block_size (a + k)) j y m) [
  | inl e ↦ inl (omega (arith, e.1))
  | inr n ↦ lower_half a k b xs lone j y n
]

-- One round of the split.
unfoldable pub split_once : ℕ → ℕ → Zone → Zone
split_once order block z =
    let buddy = block + block_size order in
    let t = add_to_free_list buddy order (write_header buddy order z) in
    record t { order = update t.order block order }

pub split_once-Free :
    (a k b : ℕ) (z : Zone) (xs : ℕ → List ℕ)
    → a + suc k ≤ max_order
    → Free z xs
    → Lone (a + suc k) b xs
    → let ys = update xs (a + k) ((b + block_size (a + k)) ∷ xs (a + k)) in
      Free (split_once (a + k) b z) ys × Lone (a + k) b ys
unfolding split_once
split_once-Free a k b z xs h v lone =
    let w = write_header-Free z xs v (a + k) buddy (upper_half a k b xs lone) (a + k) in
    let u =
      add_to_free_list-Free (write_header buddy (a + k) z) xs w.0 (a + k) buddy (omega arith)
        (λ e. omega (arith, e, size_positive (a + k))) (upper_half a k b xs lone) w.1 in
    (
      set_order-Free (add_to_free_list buddy (a + k) (write_header buddy (a + k) z)) ys u (a + k) b
          still (a + k),
      still,
    )
  where
    buddy : ℕ
    buddy = b + block_size (a + k)

    ys : ℕ → List ℕ
    ys = update xs (a + k) (buddy ∷ xs (a + k))

    still : Lone (a + k) b ys
    still = half-Lone a k b xs lone

pub split_block-Free :
    (k target b : ℕ) (z : Zone) (xs : ℕ → List ℕ)
    → target + k ≤ max_order
    → Free z xs
    → Lone (target + k) b xs
    → Free (split_block k target b z) (split_lists k target b xs)
      × Lone target b (split_lists k target b xs)
unfolding split_block split_once
split_block-Free zero target b z xs h v lone = (v, subst (λ i. Lone i b xs) (omega arith) lone)
split_block-Free (suc k) target b z xs h v lone =
    let r = split_once-Free target k b z xs h v lone in
    split_block-Free k target b (split_once (target + k) b z) _ (omega arith) r.0 r.1

-- The list that the search stops at, and those before.
pub record FirstList (order : ℕ) (z : Zone) (xs : ℕ → List ℕ) (found : ℕ) : Type 0 where
  pub above : order ≤ found
  pub empty : (i : ℕ) → order ≤ i → i < found → xs i ≡ []
  pub stops : found ≤ max_order → z.free_lists found ≢ 0

pub empty_list :
    (z : Zone) (xs : ℕ → List ℕ) (i : ℕ)
    → Free z xs
    → i ≤ max_order
    → z.free_lists i ≡ 0
    → xs i ≡ []
empty_list z xs i v h e = go (xs i) (v.chain i h)
  where
    go : (ys : List ℕ) → Chain z.links 0 (z.free_lists i) ys → ys ≡ []
    go [] c = refl
    go (y ∷ ys) c = absurd (c.1 (sym c.0 ∙ e))

pub find_order-FirstList :
    (k order : ℕ) (z : Zone) (xs : ℕ → List ℕ)
    → order + k ≡ max_order + 1
    → Free z xs
    → FirstList order z xs (find_order k order z)
unfolding find_order
find_order-FirstList zero order z xs h v = record {
  above = omega arith;
  empty = λ i p q. absurd (omega (arith, p, q));
  stops = λ q. absurd (omega (arith, h, q));
}
find_order-FirstList (suc k) order z xs h v = elim (Bool-cases (z.free_lists order == 0)) [
  | inr here ↦ rw here (record {
    above = omega arith;
    empty = λ i p q. absurd (omega (arith, p, q));
    stops = λ q. ==-false→ne _ _ here;
  })
  | inl none_here ↦
      let r = find_order-FirstList k (order + 1) z xs (omega arith) v in
      rw none_here (record {
        above = omega (arith, r.above);
        empty = λ i p q. elim (ℕ_discrete order i) [
          | yes e ↦ rw (← e) (empty_list z xs order v (omega arith) (==→eq _ _ none_here))
          | no ne ↦ r.empty i (omega (arith, p, ne)) q
        ];
        stops = r.stops;
      })
]

-- What `alloc_order` has taken: the first block of the first list that has one, `found`, split down to
-- `order`; its rest is on the lists, and the memory handed out, past the header, shares no byte with
-- a free block.
pub record Taken (order : ℕ) (z : Zone) (xs : ℕ → List ℕ) (r : ℕ × Zone) : Type 0 where
  pub found : ℕ
  pub block : ℕ
  pub others : List ℕ
  pub in_range : found ≤ max_order
  pub first : FirstList order z xs found
  pub listed : xs found ≡ block ∷ others
  pub pointer : r.0 ≡ block + header_size
  pub free : Free r.1 (split_lists (found - order) order block (update xs found others))
  pub lone : Lone order block (split_lists (found - order) order block (update xs found others))
  pub allocated : r.1.allocated block ≡ true

taken :
    (order found : ℕ) (z : Zone) (xs : ℕ → List ℕ) (b : ℕ) (vs : List ℕ)
    → found ≤ max_order
    → FirstList order z xs found
    → Free z xs
    → z.free_lists found ≡ b
    → xs found ≡ b ∷ vs
    → Taken order z xs (take_block order found z)
unfolding take_block
taken order found z xs b vs h first v head listed = rw head (record {
  found = found;
  block = b;
  others = vs;
  in_range = h;
  first = first;
  listed = listed;
  pointer = refl;
  free = set_allocated-Free t lists parts.0 order b parts.1 true _;
  lone = parts.1;
  allocated = rw (eq→== b b refl) refl;
})
  where
    whole : order + (found - order) ≡ found
    whole = omega (arith, first.above)

    t : Zone
    t = split_block (found - order) order b (remove_from_free_list b found z)

    lists : ℕ → List ℕ
    lists = split_lists (found - order) order b (update xs found vs)

    parts : Free t lists × Lone order b lists
    parts =
        split_block-Free (found - order) order b (remove_from_free_list b found z)
          (update xs found vs) (omega (arith, whole, h))
          (remove_from_free_list-Free z xs v found b [] vs h listed)
          (subst (λ i. Lone i b (update xs found vs)) (sym whole)
            (removed-Lone z xs v found b [] vs h listed))

-- On free lists that are well formed, of blocks that share no byte: `alloc_order` takes a block as
-- `Taken` says, or no list from `order` up to MAX_ORDER has a block, and it returns null and changes
-- nothing.
pub alloc_order-Taken :
    (order : ℕ) (z : Zone) (xs : ℕ → List ℕ)
    → Free z xs
    → ((alloc_order order z ≡ (0, z)) × ((i : ℕ) → order ≤ i → i ≤ max_order → xs i ≡ []))
      ⊎ Taken order z xs (alloc_order order z)
unfolding alloc_order
alloc_order-Taken order z xs v = elim (Bool-cases (ltb max_order order)) [
  | inl large ↦ rw large (inl (refl, λ i p q. absurd (omega (arith, ltb→lt _ _ large, p, q))))
  | inr fits ↦ elim (Bool-cases (ltb max_order found)) [
    | inl none_there ↦
        rw (fits, none_there)
          (inl (refl, λ i p q. (first fits).empty i p (omega (arith, ltb→lt _ _ none_there, q))))
    | inr there ↦ rw (fits, there) (inr (block (first fits) (ltb-false→le _ _ there)))
  ]
]
  where
    found : ℕ
    found = find_order (max_order + 1 - order) order z

    first : ltb max_order order ≡ false → FirstList order z xs found
    first fits =
        find_order-FirstList (max_order + 1 - order) order z xs
          (omega (arith, ltb-false→le _ _ fits)) v

    block :
        FirstList order z xs found → found ≤ max_order → Taken order z xs (take_block order found z)
    block f h = go (xs found) refl (v.chain found h)
      where
        go :
            (ys : List ℕ)
            → xs found ≡ ys
            → Chain z.links 0 (z.free_lists found) ys
            → Taken order z xs (take_block order found z)
        go [] e c = absurd (f.stops h c)
        go (y ∷ ys) e c = taken order found z xs y ys h f v c.0 e
