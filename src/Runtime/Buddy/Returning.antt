-- ===== src/Runtime/Buddy/Returning.antt =====
-- What a split leaves alone, and the way back through `coalesce_block`, src/kernel/runtime/buddy.cc.
use native.Mathlib.Nat.{add-mul}
use mathlib.Core.Path.{subst}
use km_os.Prelude.{
  ℕ, zero, suc, ◌+◌, ◌-◌, ◌*◌, ◌%◌, ◌<◌, ◌≤◌, ◌≡◌, ◌≢◌, ◌⊎◌, refl, sym, ap, ◌∙◌, true, false, List,
  [], ◌∷◌, arith, inl, inr, Bool-cases, ◌==◌, eq→==, ne→==-false, ==-false→ne, ltb, ltb→lt,
  ltb-false→le, update, Chain,
}
use km_os.Runtime.Buddy.{
  Zone, block_size, max_order, buddy_magic, add_to_free_list, find_order, split_block, flip_index,
  find_buddy, coalesce_block,
}
use km_os.Runtime.Buddy.FreeLists.{Free, Lone, size_positive, add_to_free_list-Free}
use km_os.Runtime.Buddy.Taking.{split_lists, next_size, split_once, FirstList, find_order-FirstList}
use km_os.Runtime.Buddy.Merging.{buddy_of, update-undo, taken_buddy, merge_all}

-- What a split of the block `b`, which ends at `end`, leaves alone.
pub record Kept (b end target : ℕ) (z t : Zone) : Type 0 where
  pub start : t.memory_start ≡ z.memory_start
  pub size : t.memory_size ≡ z.memory_size
  pub magic : t.magic b ≡ z.magic b
  pub order : t.order b ≡ target
  pub outside : (c : ℕ) → (end ≤ c) ⊎ (c < b) → t.allocated c ≡ z.allocated c

split_once-Kept :
    (k target b end : ℕ) (z t : Zone)
    → b + block_size (target + suc k) ≤ end
    → Kept b end target (split_once (target + k) b z) t
    → Kept b end target z t
unfolding split_once add_to_free_list
split_once-Kept k target b end z t h r = record {
  start = r.start;
  size = r.size;
  magic = r.magic ∙ rw (ne→==-false c b above) refl;
  order = r.order;
  outside = λ a o. r.outside a o ∙ rw (ne→==-false c a (apart a o)) refl;
}
  where
    c : ℕ
    c = b + block_size (target + k)

    above : c ≢ b
    above q = omega (arith, q, size_positive (target + k))

    apart : (a : ℕ) → (end ≤ a) ⊎ (a < b) → c ≢ a
    apart a (inl o) q = omega (arith, q, o, h, next_size target k, size_positive (target + k))
    apart a (inr o) q = omega (arith, q, o)

pub split_block-Kept :
    (k target b end : ℕ) (z : Zone)
    → b + block_size (target + k) ≤ end
    → z.order b ≡ target + k
    → Kept b end target z (split_block k target b z)
unfolding split_block split_once
split_block-Kept zero target b end z h e = record {
  start = refl;
  size = refl;
  magic = refl;
  order = omega (arith, e);
  outside = λ c o. refl;
}
split_block-Kept (suc k) target b end z h e =
    split_once-Kept k target b end z (split_block k target b (split_once (target + k) b z)) h (
      split_block-Kept k target b end (split_once (target + k) b z)
        (omega (arith, h, next_size target k)) (rw (eq→== b b refl) refl))

-- The buddy of a block lies beside it.
pub beside :
    (z : Zone) (o q b : ℕ)
    → b ≡ z.memory_start + q * block_size o
    → (b + block_size o ≤ buddy_of z o q) ⊎ (buddy_of z o q < b)
beside z o q b e = elim (Bool-cases (q % 2 == 0)) [
  | inl even ↦ rw even (inl (omega (arith, e, add-mul q 1 (block_size o))))
  | inr odd ↦
      rw odd (inr (omega (arith, e, add-mul (q - 1) 1 (block_size o), whole odd, size_positive o)))
]
  where
    whole : (q % 2 == 0) ≡ false → (q - 1 + 1) * block_size o ≡ q * block_size o
    whole odd = ap (λ i. i * block_size o) (omega (arith, ==-false→ne _ _ odd))

stop :
    (j b o : ℕ) (z : Zone) → find_buddy b o z ≡ 0 → coalesce_block j b o z ≡ add_to_free_list b o z
unfolding coalesce_block
stop zero b o z e = refl
stop (suc j) b o z e = rw e refl

pub find_order-found :
    (order found b : ℕ) (vs : List ℕ) (z : Zone) (xs : ℕ → List ℕ)
    → Free z xs
    → order ≤ found
    → found ≤ max_order
    → ((i : ℕ) → order ≤ i → i < found → xs i ≡ [])
    → xs found ≡ b ∷ vs
    → find_order (max_order + 1 - order) order z ≡ found
find_order-found order found b vs z xs v h g empty listed = omega (arith, low, high)
  where
    f : ℕ
    f = find_order (max_order + 1 - order) order z

    r : FirstList order z xs f
    r = find_order-FirstList (max_order + 1 - order) order z xs (omega (arith, h, g)) v

    bare : (i : ℕ) → i ≤ max_order → xs i ≡ [] → z.free_lists i ≡ 0
    bare i p e = subst (Chain z.links 0 (z.free_lists i)) e (v.chain i p)

    low : found ≤ f
    low = elim (Bool-cases (ltb f found)) [
      | inl less ↦ absurd (
          r.stops (omega (arith, ltb→lt _ _ less, g))
            (bare f (omega (arith, ltb→lt _ _ less, g)) (empty f r.above (ltb→lt _ _ less))))
      | inr more ↦ ltb-false→le _ _ more
    ]

    high : f ≤ found
    high = elim (Bool-cases (ltb found f)) [
      | inl less ↦
          let c = subst (Chain z.links 0 (z.free_lists found)) listed (v.chain found g) in
          absurd (c.1 (sym c.0 ∙ bare found g (r.empty found h (ltb→lt _ _ less))))
      | inr more ↦ ltb-false→le _ _ more
    ]

-- The way back from order `target` to `target + k`, and the end of `coalesce_block` there.
pub given_back :
    (k target q b : ℕ) (s z : Zone) (xs : ℕ → List ℕ) (vs : List ℕ)
    → target + k ≤ max_order
    → b ≢ 0
    → b ≡ s.memory_start + q * block_size (target + k)
    → b + block_size (target + k) ≤ s.memory_start + s.memory_size
    → Lone (target + k) b (update xs (target + k) vs)
    → xs (target + k) ≡ b ∷ vs
    → s.order b ≡ target
    → s.magic b ≡ buddy_magic
    → s.allocated b ≡ false
    → s.allocated (buddy_of s (target + k) q) ≡ true
    → Free s (split_lists k target b (update xs (target + k) vs))
    → Free (coalesce_block (max_order - target) b target s) xs
given_back k target q b s z xs vs h b0 at_q fits lone listed order magic allocated used v =
    let r =
      merge_all k (max_order - (target + k)) (max_order - target) target q b s
        (update xs (target + k) vs) (omega (arith, h)) h b0 at_q fits lone order v in
    let here : update xs (target + k) vs (target + k) ≡ vs =
      rw (eq→== (target + k) (target + k) refl) refl in
    let put =
      add_to_free_list-Free r.0 (update xs (target + k) vs) r.2.free (target + k) b h b0 lone
        (ap (λ f. f b) r.2.magic ∙ magic, ap (λ f. f b) r.2.allocated ∙ allocated, r.2.order) in
    let alone =
      taken_buddy r.0 (target + k) q b
        (at_q ∙ ap (λ i. i + q * block_size (target + k)) (sym r.2.start))
        (ap (λ f. f (buddy_of r.0 (target + k) q)) r.2.allocated
          ∙ ap (λ i. s.allocated (i + flip_index q * block_size (target + k))) r.2.start
          ∙ used) in
    subst (λ t. Free t xs) (sym (r.1 ∙ stop (max_order - (target + k)) b (target + k) r.0 alone))
      (subst (Free (add_to_free_list b (target + k) r.0))
        (ap (λ w. update (update xs (target + k) vs) (target + k) (b ∷ w)) here
          ∙ update-undo xs (target + k) vs (b ∷ vs) listed)
        put)
