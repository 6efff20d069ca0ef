-- ===== src/Runtime/Slob/Coalesce.antt =====
-- `merge_free_blocks` and `free` of src/kernel/runtime/slob.cc on a page's free list.
use mathlib.Core.Path.{subst}
use km_os.Prelude.{
  ℕ, ◌<◌, ◌≡◌, ◌≢◌, refl, sym, ap, ◌∙◌, List, [], ◌∷◌, arith, eq→==, ne→==-false, length, Chain,
  Fresh-zero,
}
use km_os.Runtime.Slob.{Blocks, Slob, merge_from, merge_free_blocks}
use km_os.Runtime.Slob.FreeList.{Ascending, FreeList}
use km_os.Runtime.Slob.Merge.{Apart, Below4G, Merged, cover, merge_from-Merged}

-- A page's list after a merge, `xs` before it.
pub record Coalesced (page : ℕ) (xs : List ℕ) (sizes : ℕ → ℕ) (t : Slob) : Type 0 where
  pub list : List ℕ
  pub chain : FreeList t page list
  pub ascending : Ascending list
  pub apart : Apart t.blocks.size list
  pub same : (p : ℕ) → cover t.blocks.size p list ≡ cover sizes p xs

merging :
    (fuel page x : ℕ) (s : Slob)
    → page ≢ 0
    → s.page.free_list page ≡ x
    → x ≢ 0
    → let t = merge_free_blocks fuel page s in
      (t.blocks ≡ (merge_from fuel x s.blocks (s.page.fragmentation page)).0)
      × (t.page.free_list ≡ s.page.free_list)
unfolding merge_free_blocks
merging fuel page x s p0 e x0 = rw (ne→==-false page 0 p0, e, ne→==-false x 0 x0) (refl, refl)

-- The merged list, seen from the allocator `t` that holds it.
coalesce :
    (page x : ℕ) (xs : List ℕ) (b c : Blocks) (t : Slob)
    → Merged 0 x xs b c
    → c ≡ t.blocks
    → t.page.free_list page ≡ x
    → Coalesced page (x ∷ xs) b.size t
coalesce page x xs b c t r e f = record {
  list = x ∷ m.rest;
  chain = subst (λ h. Chain t.blocks.links 0 h (x ∷ m.rest)) (sym f) m.chain;
  ascending = m.ascending;
  apart = m.apart;
  same = m.same;
}
  where
    m : Merged 0 x xs b t.blocks
    m = subst (Merged 0 x xs b) e r

-- On a page's ascending null-terminated free list of blocks below 2^32, with fuel above its length,
-- `merge_free_blocks` leaves an ascending list in which no block ends where the next begins, and each
-- address lies in as many free blocks as before. The first block of each page's list stays the same.
pub merge_free_blocks-Coalesced :
    (fuel page : ℕ) (s : Slob) (xs : List ℕ)
    → length xs < fuel
    → page ≢ 0
    → FreeList s page xs
    → Ascending xs
    → Below4G s.blocks.size xs
    → Coalesced page xs s.blocks.size (merge_free_blocks fuel page s)
      × ((merge_free_blocks fuel page s).page.free_list ≡ s.page.free_list)
unfolding merge_free_blocks
merge_free_blocks-Coalesced fuel page s [] h p0 c a below =
    rw (ne→==-false page 0 p0, eq→== (s.page.free_list page) 0 c)
      (record { list = []; chain = c; ascending = tt; apart = tt; same = λ p. refl }, refl)
merge_free_blocks-Coalesced fuel page s (x ∷ xs) h p0 c a below = (
  coalesce page x xs s.blocks _ (merge_free_blocks fuel page s)
      (merge_from-Merged fuel 0 x (s.page.fragmentation page) xs s.blocks (omega arith) (record {
        chain = (refl, c.1, c.2, c.3);
        ascending = a;
        below = below;
        back_apart = Fresh-zero s.blocks.links 0 (s.page.free_list page) (x ∷ xs) c;
      }))
      (sym e.0) (ap (λ f. f page) e.1 ∙ c.0),
  e.1,
)
  where
    e :
        let t = merge_free_blocks fuel page s in
        (t.blocks ≡ (merge_from fuel x s.blocks (s.page.fragmentation page)).0)
        × (t.page.free_list ≡ s.page.free_list)
    e = merging fuel page x s p0 c.0 c.1
