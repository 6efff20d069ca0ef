-- ===== src/Runtime/Slob/BestFit.antt =====
-- `find_free_block` over null-terminated lists of pages and of free blocks.
use km_os.Prelude.{
  ℕ, zero, suc, ◌<◌, ◌≤◌, ◌≡◌, ◌≢◌, refl, sym, List, [], ◌∷◌, arith, Bool-cases, inl, inr, ◌⊎◌,
  true, false, ◌&&◌, ◌==◌, ltb, leb, eq→==, ne→==-false, ==→eq, length, Chain, All, All-map, In,
}
use mathlib.Core.Path.{subst}
use km_os.Runtime.Slob.{
  Blocks, Pages, Slob, Search, exact, so_far, scan_blocks, scan_pages, find_free_block, block_found,
}

-- A block of `size` bytes or more has `bound` bytes or more.
abbrev pub NoBetter : ℕ → ℕ → (ℕ → ℕ) → ℕ → Type 0
NoBetter size bound sizes block = size ≤ sizes block → bound ≤ sizes block

-- What a search holds: nothing, with the initial bound; or a block of a list that fits, with its size.
data Holds (P : ℕ → Type 0) (size : ℕ) (sizes : ℕ → ℕ) : ℕ → ℕ → Type 0 where
  nothing : Holds P size sizes 0 0xffff_ffff
  fit :
      (block : ℕ)
      → P block
      → block ≢ 0
      → size ≤ sizes block
      → Holds P size sizes block (sizes block)

-- The bound of a search on its size.
abbrev bound_of : ℕ → Search → ℕ
bound_of size (exact block) = size
bound_of size (so_far best best_size) = best_size

abbrev Sound : (ℕ → Type 0) → ℕ → (ℕ → ℕ) → Search → Type 0
Sound P size sizes (exact block) = P block × (block ≢ 0) × (sizes block ≡ size)
Sound P size sizes (so_far best best_size) = Holds P size sizes best best_size

no_better : (size : ℕ) (sizes : ℕ → ℕ) (xs : List ℕ) → All (NoBetter size size sizes) xs
no_better size sizes [] = tt
no_better size sizes (x ∷ xs) = (λ q. q, no_better size sizes xs)

smaller : (a b c : ℕ) → (leb a b && ltb b c) ≡ true → (a ≤ b) × (b < c)
smaller a b c h = (ground arith, ground arith)

larger : (a b c : ℕ) → (leb a b && ltb b c) ≡ false → a ≤ b → c ≤ b
larger a b c h q = ground arith

-- After a search through `xs`, the bound before it being `before`.
abbrev Outcome : (ℕ → Type 0) → ℕ → ℕ → (ℕ → ℕ) → List ℕ → Search → Type 0
Outcome P size before sizes xs r =
    Sound P size sizes r
    × (bound_of size r ≤ before)
    × (size ≤ bound_of size r)
    × All (NoBetter size (bound_of size r) sizes) xs

carry :
    (P : ℕ → Type 0) (size before : ℕ) (sizes : ℕ → ℕ) (xs : List ℕ) (r r' : Search)
    → r ≡ r'
    → Outcome P size before sizes xs r'
    → Outcome P size before sizes xs r
carry P size before sizes xs r r' e o = subst (Outcome P size before sizes xs) (sym e) o

scan_blocks-Best :
    (P : ℕ → Type 0) (fuel size : ℕ) (b : Blocks) (back block best best_size : ℕ) (xs : List ℕ)
    → length xs < fuel
    → Chain b.links back block xs
    → All P xs
    → size ≤ best_size
    → Holds P size b.size best best_size
    → Outcome P size best_size b.size xs (scan_blocks fuel size b block best best_size)
unfolding scan_blocks
scan_blocks-Best P zero size b back block best best_size xs h c a le s = absurd (omega arith)
scan_blocks-Best P (suc fuel) size b back block best best_size [] h c a le s =
    carry P size best_size b.size [] _ (so_far best best_size) (rw (eq→== block 0 c) refl)
      (s, omega arith, le, tt)
scan_blocks-Best P (suc fuel) size b back block best best_size (x ∷ xs) h c a le s =
    elim (Bool-cases (leb size (b.size x) && ltb (b.size x) best_size)) [
      | inl better ↦ elim (Bool-cases (b.size x == size)) [
        | inl same ↦
            carry P size best_size b.size (x ∷ xs) _ (exact x)
              (rw (c.0, ne→==-false x 0 c.1, better, same) refl)
              ((a.0, c.1, ==→eq _ _ same), le, omega arith, (λ q. q, no_better size b.size xs))
        | inr more ↦
            let fits = smaller size (b.size x) best_size better in
            let r =
              scan_blocks-Best P fuel size b x (b.links.next x) x (b.size x) xs (omega arith) c.3
                a.1 fits.0 (fit x a.0 c.1 fits.0) in
            carry P size best_size b.size (x ∷ xs) _
              (scan_blocks fuel size b (b.links.next x) x (b.size x))
              (rw (c.0, ne→==-false x 0 c.1, better, more) refl)
              (r.0, omega (arith, r.1, fits.1), r.2, (λ q. r.1, r.3))
      ]
      | inr worse ↦
          let r =
            scan_blocks-Best P fuel size b x (b.links.next x) best best_size xs (omega arith) c.3
              a.1 le s in
          carry P size best_size b.size (x ∷ xs) _
            (scan_blocks fuel size b (b.links.next x) best best_size)
            (rw (c.0, ne→==-false x 0 c.1, worse) refl)
            (
              r.0,
              r.1,
              r.2,
              (λ q. omega (arith, r.1, larger size (b.size x) best_size worse q), r.3),
            )
    ]

-- The free blocks of the pages, `free p` those of the page `p`.
abbrev pub FreeLists : ℕ → Slob → List ℕ → (ℕ → List ℕ) → Type 0
FreeLists fuel s ps free =
    Chain s.page.page_links 0 s.pages ps
    × All (λ p. Chain s.blocks.links 0 (s.page.free_list p) (free p) × (length (free p) < fuel)) ps

abbrev pub InPages : List ℕ → (ℕ → List ℕ) → ℕ → Type 0
InPages ps free block = (p : ℕ) × In p ps × In block (free p)

abbrev Outcomes : (ℕ → Type 0) → ℕ → ℕ → (ℕ → ℕ) → List ℕ → (ℕ → List ℕ) → Search → Type 0
Outcomes P size before sizes ps free r =
    Sound P size sizes r
    × (bound_of size r ≤ before)
    × (size ≤ bound_of size r)
    × All (λ p. All (NoBetter size (bound_of size r) sizes) (free p)) ps

no_betters :
    (size : ℕ) (sizes : ℕ → ℕ) (ps : List ℕ) (free : ℕ → List ℕ)
    → All (λ p. All (NoBetter size size sizes) (free p)) ps
no_betters size sizes [] free = tt
no_betters size sizes (p ∷ ps) free = (no_better size sizes (free p), no_betters size sizes ps free)

carry_all :
    (P : ℕ → Type 0) (size before : ℕ) (sizes : ℕ → ℕ) (ps : List ℕ) (free : ℕ → List ℕ)
    (r r' : Search)
    → r ≡ r'
    → Outcomes P size before sizes ps free r'
    → Outcomes P size before sizes ps free r
carry_all P size before sizes ps free r r' e o =
    subst (Outcomes P size before sizes ps free) (sym e) o

scan_pages-Best :
    (P : ℕ → Type 0) (k fuel size : ℕ) (b : Blocks) (pg : Pages) (back page : ℕ) (found : Search)
    (ps : List ℕ) (free : ℕ → List ℕ)
    → length ps < k
    → Chain pg.page_links back page ps
    → All (λ p. Chain b.links 0 (pg.free_list p) (free p) × (length (free p) < fuel)) ps
    → All (λ p. All P (free p)) ps
    → size ≤ bound_of size found
    → Sound P size b.size found
    → Outcomes P size (bound_of size found) b.size ps free (scan_pages k fuel size b pg page found)
unfolding scan_pages
scan_pages-Best P zero fuel size b pg back page found ps free h c f a le s = absurd (omega arith)
scan_pages-Best P (suc k) fuel size b pg back page (exact block) ps free h c f a le s =
    (s, omega arith, le, no_betters size b.size ps free)
scan_pages-Best P (suc k) fuel size b pg back page (so_far best best_size) [] free h c f a le s =
    carry_all P size best_size b.size [] free _ (so_far best best_size) (rw (eq→== page 0 c) refl)
      (s, omega arith, le, tt)
scan_pages-Best P (suc k) fuel size b pg back page (so_far best best_size) (p ∷ ps) free h c f a le
      s =
    let here =
      scan_blocks-Best P fuel size b 0 (pg.free_list p) best best_size (free p) f.0.1 f.0.0 a.0 le
        s in
    let there =
      scan_pages-Best P k fuel size b pg p (pg.page_links.next p)
        (scan_blocks fuel size b (pg.free_list p) best best_size) ps free (omega arith) c.3 f.1 a.1
        here.2 here.0 in
    carry_all P size best_size b.size (p ∷ ps) free _ _ (rw (c.0, ne→==-false p 0 c.1) refl) (
      there.0,
      omega (arith, there.1, here.1),
      there.2,
      (All-map _ _ (free p) (λ x q r. omega (arith, q r, there.1)) here.3, there.3),
    )

In-here :
    (ps qs : List ℕ) (free : ℕ → List ℕ)
    → ((p : ℕ) → In p ps → In p qs)
    → All (λ p. All (InPages qs free) (free p)) ps
In-here [] qs free sub = tt
In-here (p ∷ ps) qs free sub =
    (blocks (free p) (λ x q. q), In-here ps qs free (λ r m. sub r (inr m)))
  where
    blocks : (xs : List ℕ) → ((x : ℕ) → In x xs → In x (free p)) → All (InPages qs free) xs
    blocks [] into = tt
    blocks (x ∷ xs) into =
        ((p, sub p (inl refl), into x (inl refl)), blocks xs (λ y m. into y (inr m)))

-- The block found is free and fits, and no free block that fits is smaller; or none is found.
abbrev pub BestFit : ℕ → (ℕ → ℕ) → List ℕ → (ℕ → List ℕ) → ℕ → Type 0
BestFit size sizes ps free block =
    (InPages ps free block
      × (block ≢ 0)
      × (size ≤ sizes block)
      × All (λ p. All (NoBetter size (sizes block) sizes) (free p)) ps)
    ⊎ ((block ≡ 0) × All (λ p. All (NoBetter size 0xffff_ffff sizes) (free p)) ps)

outcome_found :
    (size : ℕ) (sizes : ℕ → ℕ) (ps : List ℕ) (free : ℕ → List ℕ) (r : Search)
    → Outcomes (InPages ps free) size 0xffff_ffff sizes ps free r
    → BestFit size sizes ps free (block_found r)
outcome_found size sizes ps free (exact block) o =
    inl (o.0.0, o.0.1, omega (arith, o.0.2), rw (o.0.2) o.3)
outcome_found size sizes ps free (so_far best best_size) o = held best best_size o.0 o.3
  where
    held :
        (v n : ℕ)
        → Holds (InPages ps free) size sizes v n
        → All (λ p. All (NoBetter size n sizes) (free p)) ps
        → BestFit size sizes ps free v
    held v n nothing a = inr (refl, a)
    held v n (fit block m ne le) a = inl (m, ne, le, a)

-- On null-terminated lists of pages and of free blocks, with fuel above their lengths: the block of
-- `find_free_block` is a free block of `size` bytes or more, and no other such block is smaller; where
-- there is none, it is 0, and every free block has fewer than `size` bytes (or 0xFFFFFFFF and more).
pub find_free_block-BestFit :
    (fuel size : ℕ) (s : Slob) (ps : List ℕ) (free : ℕ → List ℕ)
    → length ps < fuel
    → FreeLists fuel s ps free
    → size ≤ 0xffff_ffff
    → BestFit size s.blocks.size ps free (find_free_block fuel size s)
unfolding find_free_block
find_free_block-BestFit fuel size s ps free h f le = outcome_found size s.blocks.size ps free _ (
    scan_pages-Best (InPages ps free) fuel fuel size s.blocks s.page 0 s.pages
      (so_far 0 0xffff_ffff) ps free h f.0 f.1 (In-here ps ps free (λ p m. m)) le nothing)
