-- ===== src/Runtime/Buddy/Merging.antt =====
-- `BuddyAllocator::free_order` of src/kernel/runtime/buddy.cc after `alloc_order`: the halves that the
-- split made are found again and merged.
use native.Mathlib.Decide.{ℕ_discrete}
use native.Mathlib.Nat.{mul_assoc, add-mul, div-eq_of_eq-mul_left}
use mathlib.Core.Path.{subst, fun_ext}
use km_os.Prelude.{
  ℕ, zero, suc, ◌+◌, ◌-◌, ◌*◌, ◌/◌, ◌%◌, ◌<◌, ◌≤◌, ◌≡◌, ◌≢◌, refl, sym, ap, ◌∙◌, true, false, Bool,
  List, [], ◌∷◌, arith, inl, if◌then◌else◌, eq→==, ne→==-false, leb, le→ltb-false, In, update,
  unlink,
}
use km_os.Runtime.Buddy.{
  Zone, block_size, max_order, remove_from_free_list, flip_index, find_buddy, coalesce_block,
}
use km_os.Runtime.Buddy.FreeLists.{Marked, Free, Lone, size_positive, set_order-Free}
use km_os.Runtime.Buddy.Removing.{remove_from_free_list-Free}
use km_os.Runtime.Buddy.Taking.{split_lists, size_twice, next_size, half-Lone}

-- A list that is put back undoes the change.
pub update-undo :
    (xs : ℕ → List ℕ) (i : ℕ) (ys zs : List ℕ) → xs i ≡ zs → update (update xs i ys) i zs ≡ xs
update-undo xs i ys zs h = fun_ext λ j. elim (ℕ_discrete i j) [
  | yes e ↦ rw (e, eq→== j j refl) (sym h ∙ ap xs e)
  | no ne ↦ rw (ne→==-false i j ne) refl
]

-- The block of order `o` at the index `q` from the start of the zone, and its buddy.
abbrev pub buddy_of : Zone → ℕ → ℕ → ℕ
buddy_of z o q = z.memory_start + flip_index q * block_size o

index_of :
    (z : Zone) (o q b : ℕ)
    → b ≡ z.memory_start + q * block_size o
    → (b - z.memory_start) / block_size o ≡ q
index_of z o q b e = div-eq_of_eq-mul_left {n = block_size o} (size_positive o) (omega (arith, e))

gt→leb-false : (a b : ℕ) → b < a → leb a b ≡ false
gt→leb-false a b h = ground arith

free_buddy :
    (z : Zone) (o q b c : ℕ)
    → b ≡ z.memory_start + q * block_size o
    → buddy_of z o q ≡ c
    → c < z.memory_start + z.memory_size
    → Marked z o c
    → find_buddy b o z ≡ c
unfolding find_buddy
free_buddy z o q b c e f h k =
    rw
      (
        index_of z o q b e,
        f,
        gt→leb-false (z.memory_start + z.memory_size) c h,
        k.0,
        k.1,
        k.2,
        eq→== o o refl,
      )
      refl

nobody : (p q : Bool) → ◌≡◌ {A = ℕ} (if p then 0 else if q then 0 else 0) 0
nobody true q = refl
nobody false true = refl
nobody false false = refl

pub taken_buddy :
    (z : Zone) (o q b : ℕ)
    → b ≡ z.memory_start + q * block_size o
    → z.allocated (buddy_of z o q) ≡ true
    → find_buddy b o z ≡ 0
unfolding find_buddy
taken_buddy z o q b e h = rw (index_of z o q b e, h) (nobody _ _)

double : (q s : ℕ) → q * (s + s) ≡ q * 2 * s
double q s = ap (λ n. q * n) (omega arith) ∙ sym (mul_assoc q 2 s)

-- The buddy of a block with an even index is the next one.
next_buddy :
    (z : Zone) (o q b : ℕ)
    → b ≡ z.memory_start + q * 2 * block_size o
    → buddy_of z o (q * 2) ≡ b + block_size o
next_buddy z o q b e =
    rw (eq→== (q * 2 % 2) 0 (omega arith)) (omega (arith, e, add-mul (q * 2) 1 (block_size o)))

-- What a merge of the halves leaves alone, or says of the block `b`.
pub record Merged (b o : ℕ) (s t : Zone) (xs : ℕ → List ℕ) : Type 0 where
  pub free : Free t xs
  pub start : t.memory_start ≡ s.memory_start
  pub size : t.memory_size ≡ s.memory_size
  pub allocated : t.allocated ≡ s.allocated
  pub magic : t.magic ≡ s.magic
  pub order : t.order b ≡ o

-- One round of `coalesce_block`, where the upper half is on its list.
merge_once :
    (j o q b : ℕ) (s : Zone) (xs : ℕ → List ℕ)
    → suc o ≤ max_order
    → b ≢ 0
    → b ≡ s.memory_start + q * block_size (suc o)
    → b + block_size (suc o) ≤ s.memory_start + s.memory_size
    → Lone (suc o) b xs
    → Free s (update xs o ((b + block_size o) ∷ xs o))
    → (t : Zone) × (coalesce_block (suc j) b o s ≡ coalesce_block j b (suc o) t)
      × Merged b (suc o) s t xs
unfolding coalesce_block
merge_once j o q b s xs h b0 at_q fits lone v = (
  t,
  run,
  record {
    free = subst (Free t) undone (
        set_order-Free removed (update ys o (xs o)) gone (suc o) b
          (subst (Lone (suc o) b) (sym undone) lone) (suc o));
    start = unfold remove_from_free_list in refl;
    size = unfold remove_from_free_list in refl;
    allocated = unfold remove_from_free_list in refl;
    magic = unfold remove_from_free_list in refl;
    order = rw (eq→== b b refl) refl;
  },
)
  where
    c : ℕ
    c = b + block_size o

    ys : ℕ → List ℕ
    ys = update xs o (c ∷ xs o)

    on_list : ys o ≡ c ∷ xs o
    on_list = rw (eq→== o o refl) refl

    removed : Zone
    removed = remove_from_free_list c o s

    t : Zone
    t = record removed { order = update removed.order b (suc o) }

    undone : update ys o (xs o) ≡ xs
    undone = update-undo xs o (c ∷ xs o) (xs o) refl

    gone : Free removed (update ys o (xs o))
    gone = remove_from_free_list-Free s ys v o c [] (xs o) (omega arith) on_list

    even : b ≡ s.memory_start + q * 2 * block_size o
    even = omega (arith, at_q, ap (λ n. q * n) (size_twice o), double q (block_size o))

    found : find_buddy b o s ≡ c
    found =
        free_buddy s o (q * 2) b c even (next_buddy s o q b even)
          (omega (arith, fits, size_twice o, size_positive o))
          (v.marked o c (subst (In c) (sym on_list) (inl refl)))

    next : o + 1 ≡ suc o
    next = omega arith

    run : coalesce_block (suc j) b o s ≡ coalesce_block j b (suc o) t
    run =
        rw (found, ne→==-false c 0 (λ e. b0 (omega (arith, e))), le→ltb-false c b (omega arith))
          (unfold remove_from_free_list unlink in
            ap (λ n. coalesce_block j b n (record removed { order = update removed.order b n }))
              next)

-- All the halves of a split, merged one after the other.
pub merge_all :
    (k j n target q b : ℕ) (s : Zone) (xs : ℕ → List ℕ)
    → n ≡ k + j
    → target + k ≤ max_order
    → b ≢ 0
    → b ≡ s.memory_start + q * block_size (target + k)
    → b + block_size (target + k) ≤ s.memory_start + s.memory_size
    → Lone (target + k) b xs
    → s.order b ≡ target
    → Free s (split_lists k target b xs)
    → (t : Zone) × (coalesce_block n b target s ≡ coalesce_block j b (target + k) t)
      × Merged b (target + k) s t xs
merge_all zero j n target q b s xs e h b0 at_q fits lone order v = (
  s,
  ap (λ i. coalesce_block i b target s) rounds ∙ ap (λ i. coalesce_block j b i s) same,
  record {
    free = v;
    start = refl;
    size = refl;
    allocated = refl;
    magic = refl;
    order = order ∙ same;
  },
)
  where
    rounds : n ≡ j
    rounds = omega (arith, e)

    same : target ≡ target + 0
    same = omega arith
merge_all (suc k) j n target q b s xs e h b0 at_q fits lone order v =
    let r =
      merge_all k (suc j) n target (q * 2) b s ys (omega (arith, e)) (omega arith) b0
        (omega
          (arith, at_q, ap (λ i. q * i) (next_size target k), double q (block_size (target + k))))
        (omega (arith, fits, next_size target k)) (half-Lone target k b xs lone) order v in
    let w =
      merge_once j (target + k) q b r.0 xs (omega arith) b0
        (at_q
          ∙ ap (λ i. s.memory_start + q * block_size i) (sym next)
          ∙ ap (λ i. i + q * block_size (suc (target + k))) (sym r.2.start))
        (omega (arith, fits, ap block_size next, r.2.start, r.2.size))
        (subst (λ i. Lone i b xs) (sym next) lone) r.2.free in
    subst
      (λ i. (t : Zone) × (coalesce_block n b target s ≡ coalesce_block j b i t) × Merged b i s t xs)
      next
      (
        w.0,
        r.1 ∙ w.1,
        record {
          free = w.2.free;
          start = w.2.start ∙ r.2.start;
          size = w.2.size ∙ r.2.size;
          allocated = w.2.allocated ∙ r.2.allocated;
          magic = w.2.magic ∙ r.2.magic;
          order = w.2.order;
        },
      )
  where
    ys : ℕ → List ℕ
    ys = update xs (target + k) ((b + block_size (target + k)) ∷ xs (target + k))

    next : suc (target + k) ≡ target + suc k
    next = omega arith
