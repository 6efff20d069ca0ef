-- ===== src/Runtime/Slob/GiveBack.antt =====
-- `SLOBAllocator::free` on the free list of the block's page.
use mathlib.Core.Path.{subst}
use km_os.Prelude.{
  ℕ, suc, ◌<◌, ◌≡◌, ◌≢◌, refl, sym, ap, ◌∙◌, List, [], ◌∷◌, arith, ◌==◌, ltb, length, Chain,
  Bool-cases, inl, inr, Fresh, Links, sub32,
}
use km_os.Runtime.Slob.{Slob, add_free_block, merge_free_blocks, free_page, page_header}
use km_os.Runtime.Slob.Ops.{give_back, release, returned}
use km_os.Runtime.Slob.FreeList.{Ascending, FreeList, insert, add_free_block-Ascending}
use km_os.Runtime.Slob.Merge.{Below4G, cover}
use km_os.Runtime.Slob.Coalesce.{Coalesced, merge_free_blocks-Coalesced}

add_free_block-size :
    (fuel page b : ℕ) (s : Slob) → (add_free_block fuel page b s).blocks.size ≡ s.blocks.size
unfolding add_free_block
add_free_block-size fuel page b s = ground arith

free_page-keeps :
    (page : ℕ) (s : Slob)
    → ((free_page page s).blocks ≡ s.blocks)
      × ((free_page page s).page.free_list ≡ s.page.free_list)
unfolding free_page
free_page-keeps page s = elim (Bool-cases (page == 0)) [
  | inl e ↦ rw e (refl, refl)
  | inr e ↦ rw e (refl, refl)
]

release-keeps :
    (page : ℕ) (s : Slob)
    → (s.blocks ≡ (release page s).blocks) × (s.page.free_list ≡ (release page s).page.free_list)
unfolding release
release-keeps page s =
    elim (Bool-cases (s.page.free_size page == sub32 (s.page.total_size page) page_header)) [
      | inl e ↦ elim (Bool-cases (ltb 1 s.total_pages)) [
        | inl f ↦ let k = free_page-keeps page s in rw (e, f) (sym k.0, sym k.1)
        | inr f ↦ rw (e, f) (refl, refl)
      ]
      | inr e ↦ rw e (refl, refl)
    ]

insert-cover :
    (sizes : ℕ → ℕ) (p b : ℕ) (xs : List ℕ) → cover sizes p (insert b xs) ≡ cover sizes p (b ∷ xs)
insert-cover sizes p b [] = refl
insert-cover sizes p b (x ∷ xs) = elim (Bool-cases (ltb b x)) [
  | inl e ↦ rw e refl
  | inr e ↦ rw e (omega (arith, insert-cover sizes p b xs))
]

insert-Below4G :
    (sizes : ℕ → ℕ) (b : ℕ) (xs : List ℕ) → Below4G sizes (b ∷ xs) → Below4G sizes (insert b xs)
insert-Below4G sizes b [] h = h
insert-Below4G sizes b (x ∷ xs) h = elim (Bool-cases (ltb b x)) [
  | inl e ↦ rw e h
  | inr e ↦ rw e (h.1.0, insert-Below4G sizes b xs (h.0, h.1.1))
]

insert-length : (b : ℕ) (xs : List ℕ) → length (insert b xs) ≡ suc (length xs)
insert-length b [] = refl
insert-length b (x ∷ xs) = elim (Bool-cases (ltb b x)) [
  | inl e ↦ rw e refl
  | inr e ↦ rw e (ap suc (insert-length b xs))
]

move_to :
    (page : ℕ) (xs ys : List ℕ) (f g : ℕ → ℕ) (s t : Slob)
    → ((p : ℕ) → cover f p xs ≡ cover g p ys)
    → s.blocks ≡ t.blocks
    → s.page.free_list ≡ t.page.free_list
    → Coalesced page xs f s
    → Coalesced page ys g t
move_to page xs ys f g s t c e h r = record {
  list = r.list;
  chain = subst (λ k. Chain k.0 0 (k.1 page) r.list) both r.chain;
  ascending = r.ascending;
  apart = rw (← e) r.apart;
  same = λ p. rw (← e) (r.same p ∙ c p);
}
  where
    both :
        ◌≡◌ {A = (Links × (ℕ → ℕ))}
          (s.blocks.links, s.page.free_list)
          (t.blocks.links, t.page.free_list)
    both = rw (e, h) refl

-- Giving back a block that is not on its page's ascending null-terminated free list, all of them below
-- 2^32, with fuel above the length of the new list: the list is ascending again, no block of it ends
-- where the next begins, and each address lies in as many free blocks as it lay in before, plus one
-- if it lies in the block.
pub give_back-Coalesced :
    (fuel page b : ℕ) (s : Slob) (xs : List ℕ)
    → suc (length xs) < fuel
    → page ≢ 0
    → b ≢ 0
    → Fresh b xs
    → FreeList s page xs
    → Ascending xs
    → Below4G s.blocks.size (b ∷ xs)
    → Coalesced page (b ∷ xs) s.blocks.size (give_back fuel page b s)
unfolding give_back
give_back-Coalesced fuel page b s xs h p0 b0 f c a below =
    let r = returned page b s in
    let grown = add_free_block fuel page b r in
    let listed = add_free_block-Ascending fuel page b r xs (omega arith) p0 b0 f a c in
    let sizes : grown.blocks.size ≡ s.blocks.size = add_free_block-size fuel page b r in
    let merged =
      merge_free_blocks-Coalesced fuel page grown (insert b xs) (omega (arith, insert-length b xs))
        p0 listed.0 listed.1 (rw sizes (insert-Below4G s.blocks.size b xs below)) in
    let kept = release-keeps page (merge_free_blocks fuel page grown) in
    move_to page (insert b xs) (b ∷ xs) grown.blocks.size s.blocks.size _ _
      (λ p. rw sizes (insert-cover s.blocks.size p b xs)) kept.0 kept.1 merged.0
