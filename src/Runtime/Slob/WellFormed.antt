-- ===== src/Runtime/Slob/WellFormed.antt =====
-- A well-formed allocator of src/kernel/runtime/slob.cc, and the search for the page of a block.
use mathlib.Core.Path.{subst}
use km_os.Prelude.{
  ℕ, zero, suc, ◌+◌, ◌^◌, ◌<◌, ◌≤◌, ◌≡◌, ◌≢◌, refl, sym, ap, List, [], ◌∷◌, ◌++◌, arith, true,
  Bool-cases, inl, inr, ◌⊎◌, ◌&&◌, ltb, leb, ne→==-false, length, Chain, Links, All, In, add32,
}
use km_os.Runtime.Slob.{Slob, Pages, find_page}
use km_os.Runtime.Slob.BestFit.{FreeLists}
use km_os.Runtime.Slob.FreeList.{Ascending}

-- Each block ends at or before the next ones.
abbrev pub Separate : (ℕ → ℕ) → List ℕ → Type 0
Separate sizes [] = Unit {0}
Separate sizes (x ∷ xs) = All (λ y. x + sizes x ≤ y) xs × Separate sizes xs

-- The blocks of a page are separate, in ascending order, and lie within the page.
abbrev pub PageOk : Slob → (ℕ → List ℕ) → ℕ → Type 0
PageOk s free p =
    Ascending (free p)
    × Separate s.blocks.size (free p)
    × (s.page.page_addr p + s.page.total_size p < 2 ^ 32)
    × All
        (λ b.
          (s.page.page_addr p ≤ b)
          × (0 < s.blocks.size b)
          × (b + s.blocks.size b ≤ s.page.page_addr p + s.page.total_size p))
        (free p)

abbrev pub PagesApart : Pages → List ℕ → Type 0
PagesApart pg [] = Unit {0}
PagesApart pg (p ∷ ps) =
    All
      (λ q.
        (pg.page_addr p + pg.total_size p ≤ pg.page_addr q)
        ⊎ (pg.page_addr q + pg.total_size q ≤ pg.page_addr p))
      ps
    × PagesApart pg ps

-- A well-formed allocator with the pages `ps` and their free blocks.
pub record Ok (fuel : ℕ) (ps : List ℕ) (free : ℕ → List ℕ) (s : Slob) : Type 0 where
  pub lists : FreeLists fuel s ps free
  pub ok : All (PageOk s free) ps
  pub apart : PagesApart s.page ps
  pub enough : length ps < fuel

pub All-at : (P : ℕ → Type 0) (x : ℕ) (xs : List ℕ) → In x xs → All P xs → P x
All-at P x [] m a = absurd m
All-at P x (y ∷ ys) (inl e) a = subst P (sym e) a.0
All-at P x (y ∷ ys) (inr m) a = All-at P x ys m a.1

pub In-split : (x : ℕ) (xs : List ℕ) → In x xs → (us : List ℕ) × (vs : List ℕ) × (xs ≡ us ++ x ∷ vs)
In-split x [] m = absurd m
In-split x (y ∷ ys) (inl e) = ([], ys, rw e refl)
In-split x (y ∷ ys) (inr m) = let r = In-split x ys m in (y ∷ r.0, r.1, ap (λ zs. y ∷ zs) r.2)

pub In-nonzero :
    (x : ℕ) (l : Links) (back page : ℕ) (ps : List ℕ) → In x ps → Chain l back page ps → x ≢ 0
In-nonzero x l back page [] m c = absurd m
In-nonzero x l back page (p ∷ ps) (inl e) c = rw e c.1
In-nonzero x l back page (p ∷ ps) (inr m) c = In-nonzero x l p _ ps m c.3

outside :
    (a n b : ℕ) → a + n < 2 ^ 32 → (leb a b && ltb b (add32 a n)) ≡ true → (a ≤ b) × (b < a + n)
outside a n b h e = (ground arith, ground arith)

within : (a n b : ℕ) → a + n < 2 ^ 32 → a ≤ b → b < a + n → (leb a b && ltb b (add32 a n)) ≡ true
within a n b h g k = ground arith

-- The search for the page of a block finds it.
pub find_page-In :
    (fuel b p back page : ℕ) (pg : Pages) (ps : List ℕ)
    → length ps < fuel
    → In p ps
    → Chain pg.page_links back page ps
    → PagesApart pg ps
    → All (λ q. pg.page_addr q + pg.total_size q < 2 ^ 32) ps
    → pg.page_addr p ≤ b
    → b < pg.page_addr p + pg.total_size p
    → find_page fuel b page pg ≡ p
unfolding find_page
find_page-In zero b p back page pg ps h m c a w lo hi = absurd (omega arith)
find_page-In (suc fuel) b p back page pg [] h m c a w lo hi = absurd m
find_page-In (suc fuel) b p back page pg (q ∷ ps) h (inl e) c a w lo hi =
    rw
      (
        c.0,
        ne→==-false q 0 c.1,
        within (pg.page_addr q) (pg.total_size q) b w.0 (rw (← e) lo) (rw (← e) hi),
      )
      (sym e)
find_page-In (suc fuel) b p back page pg (q ∷ ps) h (inr m) c a w lo hi =
    elim (Bool-cases (leb (pg.page_addr q) b && ltb b (add32 (pg.page_addr q) (pg.total_size q)))) [
      | inl e ↦
          let k = outside (pg.page_addr q) (pg.total_size q) b w.0 e in
          absurd (clash k.0 k.1 (All-at _ p ps m a.0))
      | inr e ↦
          rw (c.0, ne→==-false q 0 c.1, e)
            (find_page-In fuel b p q _ pg ps (omega arith) m c.3 a.1 w.1 lo hi)
    ]
  where
    clash :
        pg.page_addr q ≤ b
        → b < pg.page_addr q + pg.total_size q
        → (pg.page_addr q + pg.total_size q ≤ pg.page_addr p)
          ⊎ (pg.page_addr p + pg.total_size p ≤ pg.page_addr q)
        → ⊥
    clash x y (inl z) = omega arith
    clash x y (inr z) = omega arith
