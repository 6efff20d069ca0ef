-- ===== src/Runtime/Slob/Merge.antt =====
-- `merge_free_blocks` on one page's free list.
use mathlib.Core.Path.{subst}
use km_os.Prelude.{
  ℕ, zero, suc, ◌+◌, ◌^◌, ◌<◌, ◌≡◌, ◌≢◌, refl, sym, ◌∙◌, List, [], ◌∷◌, arith, Bool-cases, inl, inr,
  true, false, ◌&&◌, if◌then◌else◌, ◌==◌, ltb, leb, eq→==, ne→==-false, ==→eq, ==-false→ne, length,
  Chain, All, Fresh, unlink, unlink-Chain, add32, sub32,
}
use km_os.Runtime.Slob.{Blocks, absorb, merge_from}
use km_os.Runtime.Slob.FreeList.{Ascending, Ascending-Distinct, lower_bound}

-- How many of the blocks the address `p` lies in.
abbrev pub cover : (ℕ → ℕ) → ℕ → List ℕ → ℕ
cover sizes p [] = 0
cover sizes p (x ∷ xs) = (if leb x p && ltb p (x + sizes x) then 1 else 0) + cover sizes p xs

-- No block ends where the next one begins.
abbrev pub Apart : (ℕ → ℕ) → List ℕ → Type 0
Apart sizes [] = Unit {0}
Apart sizes (x ∷ []) = Unit {0}
Apart sizes (x ∷ y ∷ xs) = (x + sizes x ≢ y) × Apart sizes (y ∷ xs)

-- The blocks lie below 2^32.
abbrev pub Below4G : (ℕ → ℕ) → List ℕ → Type 0
Below4G sizes xs = All (λ x. x + sizes x < 2 ^ 32) xs

absorb-unlink :
    (x y : ℕ) (b : Blocks) → x ≢ 0 → b.links.prev y ≡ x → (absorb x y b).links ≡ unlink y b.links
unfolding absorb unlink
absorb-unlink x y b x0 e = rw (e, ne→==-false x 0 x0) refl

-- What `absorb` leaves of blocks that are neither of the two, nor the next one.
absorb-outside :
    (x y q : ℕ) (b : Blocks) (ys : List ℕ)
    → Chain b.links y (b.links.next y) ys
    → Fresh q (x ∷ y ∷ ys)
    → x ≢ y
    → let m = absorb x y b in
      (m.links.next q ≡ b.links.next q) × (m.links.prev q ≡ b.links.prev q) × (m.size q ≡ b.size q)
unfolding absorb
absorb-outside x y q b [] c f ne =
    rw (ne→==-false x y ne, c, ne→==-false x q (λ e. f.0 (sym e))) (refl, refl, refl)
absorb-outside x y q b (z ∷ zs) c f ne =
    rw
      (
        ne→==-false x y ne,
        c.0,
        ne→==-false x q (λ e. f.0 (sym e)),
        ne→==-false z 0 c.1,
        ne→==-false z q (λ e. f.1.1.0 (sym e)),
      )
      (refl, refl, refl)

absorb-size :
    (x y q : ℕ) (b : Blocks)
    → (absorb x y b).size q ≡ (if x == q then add32 (b.size x) (b.size y) else b.size q)
unfolding absorb
absorb-size x y q b = refl

cover-same :
    (f g : ℕ → ℕ) (p x v : ℕ) (xs : List ℕ)
    → ((q : ℕ) → g q ≡ (if x == q then v else f q))
    → Fresh x xs
    → cover g p xs ≡ cover f p xs
cover-same f g p x v [] e a = refl
cover-same f g p x v (y ∷ ys) e a =
    rw (e y, ne→==-false x y a.0, cover-same f g p x v ys e a.1) refl

Below4G-same :
    (f g : ℕ → ℕ) (x v : ℕ) (xs : List ℕ)
    → ((q : ℕ) → g q ≡ (if x == q then v else f q))
    → Fresh x xs
    → Below4G f xs
    → Below4G g xs
Below4G-same f g x v [] e a b = tt
Below4G-same f g x v (y ∷ ys) e a b =
    (rw (e y, ne→==-false x y a.0) (b.0), Below4G-same f g x v ys e a.1 b.1)

-- A free list from `x` on before and after the merge.
pub record Merged (back x : ℕ) (xs : List ℕ) (b c : Blocks) : Type 0 where
  pub rest : List ℕ
  pub chain : Chain c.links back x (x ∷ rest)
  pub apart : Apart c.size (x ∷ rest)
  pub ascending : Ascending (x ∷ rest)
  pub same : (p : ℕ) → cover c.size p (x ∷ rest) ≡ cover b.size p (x ∷ xs)
  pub outside :
      (q : ℕ)
      → Fresh q (x ∷ xs)
      → (c.links.next q ≡ b.links.next q)
        × (c.links.prev q ≡ b.links.prev q)
        × (c.size q ≡ b.size q)

-- A free list before the merge.
pub record Mergeable (back x : ℕ) (xs : List ℕ) (b : Blocks) : Type 0 where
  pub chain : Chain b.links back x (x ∷ xs)
  pub ascending : Ascending (x ∷ xs)
  pub below : Below4G b.size (x ∷ xs)
  pub back_apart : Fresh back (x ∷ xs)

absorb-Mergeable :
    (back x y : ℕ) (xs : List ℕ) (b : Blocks)
    → Mergeable back x (y ∷ xs) b
    → add32 x (b.size x) ≡ y
    → Mergeable back x xs (absorb x y b)
absorb-Mergeable back x y xs b m here = record {
  chain =
      subst (λ l. Chain l back x (x ∷ xs)) (sym (absorb-unlink x y b m.chain.1 m.chain.3.2))
        (unlink-Chain b.links y back x (x ∷ []) xs (Ascending-Distinct (x ∷ y ∷ xs) m.ascending)
          m.back_apart m.chain);
  ascending = (m.ascending.0.1, m.ascending.1.1);
  below = (
    size,
    Below4G-same b.size (absorb x y b).size x _ xs (λ q. absorb-size x y q b)
        (Ascending-Distinct (x ∷ y ∷ xs) m.ascending).0.1 m.below.1.1,
  );
  back_apart = (m.back_apart.0, m.back_apart.1.1);
}
  where
    size : x + (absorb x y b).size x < 2 ^ 32
    size = rw (absorb-size x y x b, eq→== x x refl) (omega (arith, m.below.0, m.below.1.0, here))

absorb-cover :
    (back x y p : ℕ) (xs : List ℕ) (b : Blocks)
    → Mergeable back x (y ∷ xs) b
    → add32 x (b.size x) ≡ y
    → cover (absorb x y b).size p (x ∷ xs) ≡ cover b.size p (x ∷ y ∷ xs)
absorb-cover back x y p xs b m here =
    rw
      (
        absorb-size x y x b,
        eq→== x x refl,
        cover-same b.size (absorb x y b).size p x _ xs (λ q. absorb-size x y q b)
            (Ascending-Distinct (x ∷ y ∷ xs) m.ascending).0.1,
      )
      (joined x y (b.size x) (b.size y) p (cover b.size p xs) m.below.0 m.below.1.0 here)
  where
    joined :
        (x y m n p c : ℕ)
        → x + m < 2 ^ 32
        → y + n < 2 ^ 32
        → add32 x m ≡ y
        → (if leb x p && ltb p (x + add32 m n) then 1 else 0) + c
          ≡ (if leb x p && ltb p (x + m) then 1 else 0)
            + ((if leb y p && ltb p (y + n) then 1 else 0) + c)
    joined x y m n p c h g e = ground arith

-- The step to the next block keeps a Merged rest Merged.
advance :
    (back x y : ℕ) (xs : List ℕ) (b c : Blocks)
    → Mergeable back x (y ∷ xs) b
    → x + b.size x ≢ y
    → Merged x y xs b c
    → Merged back x (y ∷ xs) b c
advance back x y xs b c m ne r = record {
  rest = y ∷ r.rest;
  chain = (refl, m.chain.1, kept.1 ∙ m.chain.2, rw (kept.0, m.chain.3.0) r.chain);
  apart = (rw (kept.2) ne, r.apart);
  ascending =
      ((m.ascending.0.0, lower_bound x y r.rest m.ascending.0.0 r.ascending.0), r.ascending);
  same = λ p. rw (kept.2, r.same p) refl;
  outside = λ q f. r.outside q f.1;
}
  where
    kept :
        (c.links.next x ≡ b.links.next x)
        × (c.links.prev x ≡ b.links.prev x)
        × (c.size x ≡ b.size x)
    kept = r.outside x (Ascending-Distinct (x ∷ y ∷ xs) m.ascending).0

-- So does the step that takes a block in.
take_in :
    (back x y : ℕ) (xs : List ℕ) (b c : Blocks)
    → Mergeable back x (y ∷ xs) b
    → add32 x (b.size x) ≡ y
    → Merged back x xs (absorb x y b) c
    → Merged back x (y ∷ xs) b c
take_in back x y xs b c m here r = record {
  rest = r.rest;
  chain = r.chain;
  apart = r.apart;
  ascending = r.ascending;
  same = λ p. r.same p ∙ absorb-cover back x y p xs b m here;
  outside = λ q f.
      let o = r.outside q (f.0, f.1.1) in
      let w =
        absorb-outside x y q b xs m.chain.3.3 f (Ascending-Distinct (x ∷ y ∷ xs) m.ascending).0.0 in
      (o.0 ∙ w.0, o.1 ∙ w.1, o.2 ∙ w.2);
}

absorbing :
    (fuel x y frag : ℕ) (b : Blocks)
    → x ≢ 0
    → b.links.next x ≡ y
    → y ≢ 0
    → (add32 x (b.size x) == y) ≡ true
    → merge_from (suc fuel) x b frag ≡ merge_from fuel x (absorb x y b) (sub32 frag 1)
unfolding merge_from
absorbing fuel x y frag b x0 n y0 e = rw (ne→==-false x 0 x0, n, ne→==-false y 0 y0, e) refl

advancing :
    (fuel x y frag : ℕ) (b : Blocks)
    → x ≢ 0
    → b.links.next x ≡ y
    → y ≢ 0
    → (add32 x (b.size x) == y) ≡ false
    → merge_from (suc fuel) x b frag ≡ merge_from fuel y b frag
unfolding merge_from
advancing fuel x y frag b x0 n y0 e = rw (ne→==-false x 0 x0, n, ne→==-false y 0 y0, e) refl

tail : (back x y : ℕ) (xs : List ℕ) (b : Blocks) → Mergeable back x (y ∷ xs) b → Mergeable x y xs b
tail back x y xs b m = record {
  chain = (refl, m.chain.3.1, m.chain.3.2, m.chain.3.3);
  ascending = m.ascending.1;
  below = m.below.1;
  back_apart = (Ascending-Distinct (x ∷ y ∷ xs) m.ascending).0;
}

pub merge_from-Merged :
    (fuel back x frag : ℕ) (xs : List ℕ) (b : Blocks)
    → length xs < fuel
    → Mergeable back x xs b
    → Merged back x xs b (merge_from fuel x b frag).0
unfolding merge_from
merge_from-Merged zero back x frag xs b h m = absurd (omega arith)
merge_from-Merged (suc fuel) back x frag [] b h m =
    rw (ne→==-false x 0 m.chain.1, eq→== _ 0 m.chain.3)
      (record {
        rest = [];
        chain = m.chain;
        apart = tt;
        ascending = (tt, tt);
        same = λ p. refl;
        outside = λ q f. (refl, refl, refl);
      })
merge_from-Merged (suc fuel) back x frag (y ∷ xs) b h m =
    elim (Bool-cases (add32 x (b.size x) == y)) [
      | inl e ↦
          subst (λ r. Merged back x (y ∷ xs) b r.0)
            (sym (absorbing fuel x y frag b m.chain.1 m.chain.3.0 m.chain.3.1 e))
            (take_in back x y xs b _ m (==→eq _ _ e) (
              merge_from-Merged fuel back x (sub32 frag 1) xs (absorb x y b) (omega arith)
                (absorb-Mergeable back x y xs b m (==→eq _ _ e))))
      | inr e ↦
          subst (λ r. Merged back x (y ∷ xs) b r.0)
            (sym (advancing fuel x y frag b m.chain.1 m.chain.3.0 m.chain.3.1 e))
            (advance back x y xs b _ m (not_here e)
              (merge_from-Merged fuel x y frag xs b (omega arith) (tail back x y xs b m)))
    ]
  where
    not_here : (add32 x (b.size x) == y) ≡ false → x + b.size x ≢ y
    not_here e q = ==-false→ne (add32 x (b.size x)) y e (omega (arith, m.below.0, q))
