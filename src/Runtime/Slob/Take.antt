-- ===== src/Runtime/Slob/Take.antt =====
-- `remove_free_block`, `split_block` and the taking of a block in `SLOBAllocator::alloc`.
use mathlib.Core.Path.{subst}
use km_os.Prelude.{
  ℕ, ◌≡◌, ◌≢◌, refl, sym, ap, ◌∙◌, List, [], ◌∷◌, ◌++◌, Bool-cases, inl, inr, if◌then◌else◌, ◌==◌,
  eq→==, ne→==-false, ==→eq, ==-false→ne, Chain, Chain-Agree, Agree, Links, Fresh, Distinct, update,
  unlink, unlink-Chain, head_is_first, Fresh-zero, Distinct-Fresh, add32,
}
use km_os.Runtime.Slob.{Slob, remove_free_block, find_page, block_header, slob_magic}
use km_os.Runtime.Slob.Ops.{claim, mark_taken}
use km_os.Runtime.Slob.FreeList.{FreeList, OnlyPage}

cleared :
    (l : Links) (b : ℕ) (xs : List ℕ)
    → Fresh b xs
    → Agree l (record { next = update l.next b 0; prev = update l.prev b 0 }) xs
cleared l b [] f = tt
cleared l b (x ∷ xs) f =
    (rw (ne→==-false b x f.0) refl, rw (ne→==-false b x f.0) refl, cleared l b xs f.1)

first_after :
    (page b after : ℕ) (f : ℕ → ℕ)
    → (if f page == b then update f page after else f) page
      ≡ (if b == f page then after else f page)
first_after page b after f = elim (Bool-cases (f page == b)) [
  | inl e ↦ rw (e, eq→== page page refl, eq→== b (f page) (sym (==→eq _ _ e))) refl
  | inr e ↦ rw (e, ne→==-false b (f page) (λ q. ==-false→ne _ _ e (sym q))) refl
]

new_first :
    (page b q after : ℕ) (f : ℕ → ℕ)
    → page ≢ q
    → (if f page == b then update f page after else f) q ≡ f q
new_first page b q after f ne = elim (Bool-cases (f page == b)) [
  | inl e ↦ rw (e, ne→==-false page q ne) refl
  | inr e ↦ rw e refl
]

-- `remove_free_block` of a block on a page's null-terminated free list leaves the list of the others,
-- and no other page has a new first block.
remove_free_block-FreeList :
    (page b : ℕ) (s : Slob) (us vs : List ℕ)
    → page ≢ 0
    → b ≢ 0
    → Distinct (us ++ b ∷ vs)
    → FreeList s page (us ++ b ∷ vs)
    → let t = remove_free_block page b s in
      FreeList t page (us ++ vs) × OnlyPage page s t × (t.blocks.size ≡ s.blocks.size)
unfolding remove_free_block unlink
remove_free_block-FreeList page b s us vs p0 b0 d c =
    rw (ne→==-false page 0 p0, ne→==-false b 0 b0)
      (
        Chain-Agree (unlink b l) _ 0 _ (us ++ vs)
            (cleared (unlink b l) b (us ++ vs) (Distinct-Fresh b us vs d)) chain,
        λ q ne. new_first page b q (l.next b) s.page.free_list ne,
        refl,
      )
  where
    l : Links
    l = s.blocks.links

    nulls : Fresh 0 (us ++ b ∷ vs)
    nulls = Fresh-zero l 0 (s.page.free_list page) (us ++ b ∷ vs) c

    chain :
        Chain
          (unlink b l)
          0
          ((if s.page.free_list page == b
              then update s.page.free_list page (l.next b)
              else s.page.free_list)
            page)
          (us ++ vs)
    chain =
        subst (λ h. Chain (unlink b l) 0 h (us ++ vs))
          (head_is_first l b (l.next b) 0 (s.page.free_list page) us vs d c
            ∙ sym (first_after page b (l.next b) s.page.free_list))
          (unlink-Chain l b 0 (s.page.free_list page) us vs d nulls c)

-- A claimed block is off its page's list and marked.
pub record Claimed (page b : ℕ) (zs : List ℕ) (s : Slob) (r : ℕ × Slob) : Type 0 where
  pub pointer : r.0 ≡ add32 b block_header
  pub chain : FreeList r.1 page zs
  pub others : OnlyPage page s r.1
  pub sizes : r.1.blocks.size ≡ s.blocks.size
  pub mark : r.1.blocks.magic b ≡ slob_magic

mark_taken-Claimed :
    (page b : ℕ) (zs : List ℕ) (s t : Slob)
    → page ≢ 0
    → FreeList t page zs
    → OnlyPage page s t
    → t.blocks.size ≡ s.blocks.size
    → Claimed page b zs s (mark_taken page b t)
unfolding mark_taken
mark_taken-Claimed page b zs s t p0 c o e =
    rw (ne→==-false page 0 p0)
      (record { pointer = refl; chain = c; others = o; sizes = e; mark = rw (eq→== b b refl) refl })

claiming :
    (fuel page b : ℕ) (s : Slob)
    → find_page fuel b s.pages s.page ≡ page
    → claim fuel b s ≡ mark_taken page b (remove_free_block page b s)
unfolding claim
claiming fuel page b s e = ap (λ p. mark_taken p b (remove_free_block p b s)) e

pub claim-Claimed :
    (fuel page b : ℕ) (s : Slob) (us vs : List ℕ)
    → page ≢ 0
    → b ≢ 0
    → find_page fuel b s.pages s.page ≡ page
    → Distinct (us ++ b ∷ vs)
    → FreeList s page (us ++ b ∷ vs)
    → Claimed page b (us ++ vs) s (claim fuel b s)
claim-Claimed fuel page b s us vs p0 b0 found d c =
    let r = remove_free_block-FreeList page b s us vs p0 b0 d c in
    subst (Claimed page b (us ++ vs) s) (sym (claiming fuel page b s found))
      (mark_taken-Claimed page b (us ++ vs) s (remove_free_block page b s) p0 r.0 r.1 r.2)
