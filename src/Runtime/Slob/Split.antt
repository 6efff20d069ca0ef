-- ===== src/Runtime/Slob/Split.antt =====
-- The split of a block in `SLOBAllocator::alloc`, and `alloc` at the block found.
use km_os.Prelude.{
  ℕ, ◌+◌, ◌-◌, ◌^◌, ◌<◌, ◌≤◌, ◌≡◌, ◌≢◌, refl, ap, ◌∙◌, List, [], ◌∷◌, ◌++◌, arith, false,
  Bool-cases, inl, inr, ◌&&◌, if◌then◌else◌, ltb, leb, eq→==, ne→==-false, ltb→lt, ltb-false→le,
  le→ltb-false, All, All-map, Fresh, Distinct, update, Fresh-append, Distinct-Fresh, insert_after,
  insert_after-Chain, add32, ◌%◌, lt→ltb,
}
use km_os.Runtime.Slob.{Slob, split_block, find_page, block_header, slob_magic}
use km_os.Runtime.Slob.Ops.{take_block, claim, split_for}
use km_os.Runtime.Slob.FreeList.{Ascending, Ascending-Distinct, FreeList, OnlyPage}
use km_os.Runtime.Slob.Merge.{cover}
use km_os.Runtime.Slob.Take.{Claimed, claim-Claimed}

cover-append :
    (f : ℕ → ℕ) (p : ℕ) (xs ys : List ℕ) → cover f p (xs ++ ys) ≡ cover f p xs + cover f p ys
cover-append f p [] ys = omega arith
cover-append f p (x ∷ xs) ys = omega (arith, cover-append f p xs ys)

-- Two writes of sizes are not seen by the other blocks.
cover-apart :
    (f : ℕ → ℕ) (p b n v w : ℕ) (xs : List ℕ)
    → Fresh b xs
    → Fresh n xs
    → cover (update (update f n v) b w) p xs ≡ cover f p xs
cover-apart f p b n v w [] g h = refl
cover-apart f p b n v w (x ∷ xs) g h =
    rw (ne→==-false b x g.0, ne→==-false n x h.0, cover-apart f p b n v w xs g.1 h.1) refl

still_bounds :
    (x b n : ℕ) (us vs : List ℕ)
    → b < n
    → All (λ y. x < y) (us ++ b ∷ vs)
    → All (λ y. x < y) (us ++ b ∷ n ∷ vs)
still_bounds x b n [] vs h a = (a.0, (omega (arith, a.0, h), a.1))
still_bounds x b n (u ∷ us) vs h a = (a.0, still_bounds x b n us vs h a.1)

-- A block between `b` and what follows it.
between :
    (b n : ℕ) (us vs : List ℕ)
    → b < n
    → All (λ v. n < v) vs
    → Ascending (us ++ b ∷ vs)
    → Ascending (us ++ b ∷ n ∷ vs)
between b n [] vs h g a = ((h, a.0), (g, a.1))
between b n (u ∷ us) vs h g a = (still_bounds u b n us vs h a.0, between b n us vs h g a.1)

new_block-Fresh :
    (b n : ℕ) (us vs : List ℕ)
    → b < n
    → All (λ v. n < v) vs
    → Ascending (us ++ b ∷ vs)
    → Fresh n (us ++ b ∷ vs)
new_block-Fresh b n [] vs h g a = (λ e. omega (arith, h, e), later vs g)
  where
    later : (xs : List ℕ) → All (λ v. n < v) xs → Fresh n xs
    later [] k = tt
    later (x ∷ xs) k = (λ e. omega (arith, k.0, e), later xs k.1)
new_block-Fresh b n (u ∷ us) vs h g a =
    (λ e. omega (arith, e, h, first us a.0), new_block-Fresh b n us vs h g a.1)
  where
    first : (ws : List ℕ) → All (λ y. u < y) (ws ++ b ∷ vs) → u < b
    first [] k = k.0
    first (w ∷ ws) k = first ws k.1

abbrev halves : (ℕ → ℕ) → ℕ → ℕ → ℕ → ℕ
halves f b size = update (update f (b + size) (f b - size)) b size

halves-cover :
    (f : ℕ → ℕ) (p b size : ℕ) (us vs : List ℕ)
    → 0 < size
    → size < f b
    → Distinct (us ++ b ∷ vs)
    → Fresh (b + size) (us ++ b ∷ vs)
    → cover (halves f b size) p (us ++ b ∷ (b + size) ∷ vs) ≡ cover f p (us ++ b ∷ vs)
halves-cover f p b size us vs h g d n =
    rw
      (
        cover-append (halves f b size) p us (b ∷ (b + size) ∷ vs),
        cover-append f p us (b ∷ vs),
        cover-apart f p b (b + size) (f b - size) size us (before us d)
            (Fresh-append (b + size) us (b ∷ vs) n).0,
        cover-apart f p b (b + size) (f b - size) size vs (after us d)
            (Fresh-append (b + size) us (b ∷ vs) n).1.1,
        eq→== b b refl,
        ne→==-false b (b + size) (λ e. omega (arith, e, h)),
        eq→== (b + size) (b + size) refl,
      )
      (ground arith)
  where
    before : (ws : List ℕ) → Distinct (ws ++ b ∷ vs) → Fresh b ws
    before ws k = (Fresh-append b ws vs (Distinct-Fresh b ws vs k)).0

    after : (ws : List ℕ) → Distinct (ws ++ b ∷ vs) → Fresh b vs
    after ws k = (Fresh-append b ws vs (Distinct-Fresh b ws vs k)).1

splitting :
    (size b : ℕ) (s : Slob)
    → size + 32 < 2 ^ 32
    → b + size < 2 ^ 32
    → size + 32 < s.blocks.size b
    → let t = split_for size b s in
      (t.blocks.links ≡ insert_after b (b + size) s.blocks.links)
      × (t.blocks.size ≡ halves s.blocks.size b size)
      × (t.page ≡ s.page)
      × (t.pages ≡ s.pages)
unfolding split_for split_block
splitting size b s h g k =
    rw
      (
        small 16 size (omega arith),
        small 16 (size + 16) (omega arith),
        lt→ltb (size + 16 + 16) (s.blocks.size b) (omega arith),
        gt→leb-false (s.blocks.size b) (size + 16) (omega arith),
        small size b g,
      )
      (refl, refl, refl, refl)
  where
    small : (m n : ℕ) → n + m < 2 ^ 32 → (n + m) % 2 ^ 32 ≡ n + m
    small m n q = omega arith

    gt→leb-false : (m n : ℕ) → n < m → leb m n ≡ false
    gt→leb-false m n q = ground arith

whole :
    (size b : ℕ) (s : Slob)
    → size + 32 < 2 ^ 32
    → s.blocks.size b ≤ size + 32
    → split_for size b s ≡ s
unfolding split_for
whole size b s h k =
    rw
      (
        small 16 size (omega arith),
        small 16 (size + 16) (omega arith),
        le→ltb-false (size + 16 + 16) (s.blocks.size b) (omega arith),
      )
      refl
  where
    small : (m n : ℕ) → n + m < 2 ^ 32 → (n + m) % 2 ^ 32 ≡ n + m
    small m n q = omega arith

-- The list after the split: the new block follows the old one.
record Split (page b : ℕ) (us vs : List ℕ) (s t : Slob) : Type 0 where
  tail : List ℕ
  chain : FreeList t page (us ++ b ∷ tail)
  ascending : Ascending (us ++ b ∷ tail)
  same : (p : ℕ) → cover t.blocks.size p (us ++ b ∷ tail) ≡ cover s.blocks.size p (us ++ b ∷ vs)
  firsts : t.page ≡ s.page
  pages : t.pages ≡ s.pages

split_for-Split :
    (page b size : ℕ) (s : Slob) (us vs : List ℕ)
    → b ≢ 0
    → 0 < size
    → size + 32 < 2 ^ 32
    → b + s.blocks.size b < 2 ^ 32
    → size ≤ s.blocks.size b
    → All (λ v. b + s.blocks.size b ≤ v) vs
    → Ascending (us ++ b ∷ vs)
    → FreeList s page (us ++ b ∷ vs)
    → Split page b us vs s (split_for size b s) × (size ≤ (split_for size b s).blocks.size b)
split_for-Split page b size s us vs b0 h g below fits g2 a c =
    elim (Bool-cases (ltb (size + 32) (s.blocks.size b))) [
      | inl e ↦
          let k : size + 32 < s.blocks.size b = ltb→lt _ _ e in
          let f = splitting size b s g (omega (arith, k, below)) k in
          let later : All (λ v. b + size < v) vs = All-map _ _ vs (λ v q. omega (arith, q, k)) g2 in
          let n : Fresh (b + size) (us ++ b ∷ vs) =
            new_block-Fresh b (b + size) us vs (omega (arith, h)) later a in
          let d = Ascending-Distinct (us ++ b ∷ vs) a in
          (
            record {
              tail = (b + size) ∷ vs;
              chain =
                  rw (f.0, f.2)
                    (insert_after-Chain s.blocks.links b (b + size) 0 (s.page.free_list page) us vs
                      (λ q. omega (arith, q, h)) n d c);
              ascending = between b (b + size) us vs (omega (arith, h)) later a;
              same = λ p.
                  rw (f.1) (halves-cover s.blocks.size p b size us vs h (omega (arith, k)) d n);
              firsts = f.2;
              pages = f.3;
            },
            rw (f.1, eq→== b b refl) (omega arith),
          )
      | inr e ↦ rw (whole size b s g (ltb-false→le _ _ e)) (
        record {
          tail = vs;
          chain = c;
          ascending = a;
          same = λ p. refl;
          firsts = refl;
          pages = refl;
        },
        fits,
      )
    ]

-- What `alloc` returns at the free block `b` of a page, whose free list was `us ++ b ∷ vs`.
pub record Taken (page b size : ℕ) (us vs : List ℕ) (s : Slob) (r : ℕ × Slob) : Type 0 where
  pub pointer : r.0 ≡ add32 b block_header
  pub enough : size ≤ r.1.blocks.size b
  pub list : List ℕ
  pub chain : FreeList r.1 page list
  pub ascending : Ascending list
  pub others : OnlyPage page s r.1
  pub mark : r.1.blocks.magic b ≡ slob_magic
  pub same :
      (p : ℕ)
      → cover s.blocks.size p (us ++ b ∷ vs)
        ≡ (if leb b p && ltb p (b + r.1.blocks.size b) then 1 else 0) + cover r.1.blocks.size p list

drop-Ascending : (b : ℕ) (us vs : List ℕ) → Ascending (us ++ b ∷ vs) → Ascending (us ++ vs)
drop-Ascending b [] vs a = a.1
drop-Ascending b (u ∷ us) vs a = (fewer us a.0, drop-Ascending b us vs a.1)
  where
    fewer : (ws : List ℕ) → All (λ y. u < y) (ws ++ b ∷ vs) → All (λ y. u < y) (ws ++ vs)
    fewer [] k = k.1
    fewer (w ∷ ws) k = (k.0, fewer ws k.1)

taken :
    (page b size : ℕ) (us vs : List ℕ) (s t : Slob) (r : ℕ × Slob) (sp : Split page b us vs s t)
    → size ≤ t.blocks.size b
    → Claimed page b (us ++ sp.tail) t r
    → Taken page b size us vs s r
taken page b size us vs s t r sp fits c = record {
  pointer = c.pointer;
  enough = rw (c.sizes) fits;
  list = us ++ sp.tail;
  chain = c.chain;
  ascending = drop-Ascending b us sp.tail sp.ascending;
  others = λ q ne. c.others q ne ∙ ap (λ k. k.free_list q) sp.firsts;
  mark = c.mark;
  same = λ p. rw (c.sizes) (
      omega (
        arith,
        sp.same p,
        cover-append t.blocks.size p us (b ∷ sp.tail),
        cover-append t.blocks.size p us sp.tail,
      ));
}

-- Where `alloc` takes the free block `b` of a page's ascending null-terminated free list, `size` bytes
-- with the header being needed, the block having at least as many and ending below 2^32 and at or
-- before the next ones: it returns the address past the header. The block is marked, still has
-- `size` bytes or more, and is off the free list, which is ascending. Each address lies in as many
-- blocks, the free ones and this one, as it lay in free blocks before.
pub take_block-Taken :
    (fuel page b size : ℕ) (s : Slob) (us vs : List ℕ)
    → page ≢ 0
    → b ≢ 0
    → 0 < size
    → size + 32 < 2 ^ 32
    → b + s.blocks.size b < 2 ^ 32
    → size ≤ s.blocks.size b
    → All (λ v. b + s.blocks.size b ≤ v) vs
    → Ascending (us ++ b ∷ vs)
    → FreeList s page (us ++ b ∷ vs)
    → find_page fuel b s.pages s.page ≡ page
    → Taken page b size us vs s (take_block fuel size b s)
unfolding take_block
take_block-Taken fuel page b size s us vs p0 b0 h g below fits g2 a c found =
    let r = split_for-Split page b size s us vs b0 h g below fits g2 a c in
    let sp = r.0 in
    let t = split_for size b s in
    taken page b size us vs s t (claim fuel b t) sp r.1 (
      claim-Claimed fuel page b t us sp.tail p0 b0 (rw (sp.pages, sp.firsts) found)
        (Ascending-Distinct (us ++ b ∷ sp.tail) sp.ascending) sp.chain)
