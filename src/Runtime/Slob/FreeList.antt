-- ===== src/Runtime/Slob/FreeList.antt =====
-- A page's free list: `add_free_block` and `remove_free_block` on lists of blocks by address.
use km_os.Prelude.{
  ℕ, zero, suc, ◌<◌, ◌≡◌, ◌≢◌, refl, sym, ap, List, [], ◌∷◌, ◌++◌, arith, Bool-cases, inl, inr,
  if◌then◌else◌, ltb, eq→==, ne→==-false, ltb→lt, ltb-false→le, lt→ltb, le→ltb-false, length, Chain,
  All, true, false, Links, Fresh, Distinct, insert_after, insert_after-Chain, push_front,
  push_front-Chain,
}
use mathlib.Core.Path.{subst}
use km_os.Runtime.Slob.{Slob, put_first, add_free_block, find_place}

abbrev pub Ascending : List ℕ → Type 0
Ascending [] = Unit {0}
Ascending (x ∷ xs) = All (λ y. x < y) xs × Ascending xs

-- Where a block belongs.
abbrev pub insert : ℕ → List ℕ → List ℕ
insert block [] = block ∷ []
insert block (x ∷ xs) = if ltb block x then block ∷ x ∷ xs else x ∷ insert block xs

above-Fresh : (x : ℕ) (xs : List ℕ) → All (λ y. x < y) xs → Fresh x xs
above-Fresh x [] a = tt
above-Fresh x (y ∷ ys) a = (λ e. omega (arith, a.0, e), above-Fresh x ys a.1)

pub Ascending-Distinct : (xs : List ℕ) → Ascending xs → Distinct xs
Ascending-Distinct [] a = tt
Ascending-Distinct (x ∷ xs) a = (above-Fresh x xs a.0, Ascending-Distinct xs a.1)

pub lower_bound : (b x : ℕ) (xs : List ℕ) → b < x → All (λ y. x < y) xs → All (λ y. b < y) xs
lower_bound b x [] h a = tt
lower_bound b x (y ∷ ys) h a = (omega (arith, a.0), lower_bound b x ys h a.1)

insert-above :
    (b x : ℕ) (xs : List ℕ) → x < b → All (λ y. x < y) xs → All (λ y. x < y) (insert b xs)
insert-above b x [] h a = (h, tt)
insert-above b x (y ∷ ys) h a = elim (Bool-cases (ltb b y)) [
  | inl e ↦ rw e (h, a)
  | inr e ↦ rw e (a.0, insert-above b x ys h a.1)
]

insert-Ascending : (b : ℕ) (xs : List ℕ) → Fresh b xs → Ascending xs → Ascending (insert b xs)
insert-Ascending b [] f a = (tt, tt)
insert-Ascending b (x ∷ xs) f a = elim (Bool-cases (ltb b x)) [
  | inl e ↦ rw e ((ltb→lt b x e, lower_bound b x xs (ltb→lt b x e) a.0), a)
  | inr e ↦ rw e (insert-above b x xs (later e) a.0, insert-Ascending b xs f.1 a.1)
]
  where
    later : ltb b x ≡ false → x < b
    later e = omega (arith, ltb-false→le b x e, f.0)

-- The block after which `find_place` inserts.
record Place (b c : ℕ) (xs : List ℕ) : Type 0 where
  before : List ℕ
  after : List ℕ
  whole : xs ≡ before ++ c ∷ after
  inserted : insert b xs ≡ before ++ c ∷ b ∷ after

find_place-Place :
    (fuel b x : ℕ) (l : Links) (xs : List ℕ)
    → length xs < fuel
    → x < b
    → Fresh b xs
    → Ascending (x ∷ xs)
    → Chain l x (l.next x) xs
    → Place b (find_place fuel b x l) (x ∷ xs)
unfolding find_place
find_place-Place zero b x l xs h lt f a c = absurd (omega arith)
find_place-Place (suc fuel) b x l [] h lt f a c = rw (eq→== _ 0 c) (record {
  before = [];
  after = [];
  whole = refl;
  inserted = rw (le→ltb-false b x (omega arith)) refl;
})
find_place-Place (suc fuel) b x l (y ∷ ys) h lt f a c = elim (Bool-cases (ltb y b)) [
  | inl e ↦
      let r = find_place-Place fuel b y l ys (omega arith) (ltb→lt y b e) f.1 a.1 c.3 in
      rw (c.0, ne→==-false y 0 c.1, e)
        (record {
          before = x ∷ r.before;
          after = r.after;
          whole = ap (λ zs. x ∷ zs) r.whole;
          inserted = rw (le→ltb-false b x (omega arith)) (ap (λ zs. x ∷ zs) r.inserted);
        })
  | inr e ↦
      rw (c.0, ne→==-false y 0 c.1, e)
        (record {
          before = [];
          after = y ∷ ys;
          whole = refl;
          inserted =
              rw
                (
                  le→ltb-false b x (omega arith),
                  lt→ltb b y (omega (arith, ltb-false→le y b e, f.0)),
                )
                refl;
        })
]

-- The free list of a page, and what a change of the page `page` leaves of the others.
abbrev pub FreeList : Slob → ℕ → List ℕ → Type 0
FreeList s page xs = Chain s.blocks.links 0 (s.page.free_list page) xs

abbrev pub OnlyPage : ℕ → Slob → Slob → Type 0
OnlyPage page s t = (q : ℕ) → page ≢ q → t.page.free_list q ≡ s.page.free_list q

insert_middle :
    (l : Links) (b c head : ℕ) (xs : List ℕ)
    → b ≢ 0
    → Fresh b xs
    → Distinct xs
    → Chain l 0 head xs
    → Place b c xs
    → Chain (insert_after c b l) 0 head (insert b xs)
insert_middle l b c head xs b0 f d k p = rw (p.inserted) (
    insert_after-Chain l c b 0 head p.before p.after b0 (subst (Fresh b) p.whole f)
      (subst Distinct p.whole d) (subst (Chain l 0 head) p.whole k))

added_first :
    (fuel page b : ℕ) (s : Slob)
    → page ≢ 0
    → b ≢ 0
    → s.page.free_list page ≢ 0
    → ltb b (s.page.free_list page) ≡ true
    → add_free_block fuel page b s
      ≡ put_first page b (push_front b (s.page.free_list page) s.blocks.links) s
unfolding add_free_block push_front
added_first fuel page b s p0 b0 h0 e =
    rw (ne→==-false page 0 p0, ne→==-false b 0 b0, ne→==-false (s.page.free_list page) 0 h0, e) refl

added_middle :
    (fuel page b : ℕ) (s : Slob)
    → page ≢ 0
    → b ≢ 0
    → s.page.free_list page ≢ 0
    → ltb b (s.page.free_list page) ≡ false
    → let t = add_free_block fuel page b s in
      (t.blocks.links
        ≡ insert_after (find_place fuel b (s.page.free_list page) s.blocks.links) b s.blocks.links)
      × (t.page.free_list ≡ s.page.free_list)
unfolding add_free_block
added_middle fuel page b s p0 b0 h0 e =
    rw (ne→==-false page 0 p0, ne→==-false b 0 b0, ne→==-false (s.page.free_list page) 0 h0, e)
      (refl, refl)

put_first-FreeList :
    (page b : ℕ) (l : Links) (s : Slob) (xs : List ℕ)
    → Chain l 0 b xs
    → FreeList (put_first page b l s) page xs × OnlyPage page s (put_first page b l s)
put_first-FreeList page b l s xs c =
    (rw (eq→== page page refl) c, λ q ne. rw (ne→==-false page q ne) refl)

-- Adding a block that is not on a page's ascending null-terminated free list, with fuel above its
-- length: the list has the block at its place, is ascending, and no other page has a new first block.
pub add_free_block-Ascending :
    (fuel page b : ℕ) (s : Slob) (xs : List ℕ)
    → length xs < fuel
    → page ≢ 0
    → b ≢ 0
    → Fresh b xs
    → Ascending xs
    → FreeList s page xs
    → let t = add_free_block fuel page b s in
      FreeList t page (insert b xs) × Ascending (insert b xs) × OnlyPage page s t
unfolding add_free_block push_front
add_free_block-Ascending fuel page b s [] h p0 b0 f a c =
    rw (ne→==-false page 0 p0, ne→==-false b 0 b0, eq→== (s.page.free_list page) 0 c)
      (
        (ground arith, b0, ground arith, ground arith),
        (tt, tt),
        λ q ne. rw (ne→==-false page q ne) refl,
      )
add_free_block-Ascending fuel page b s (x ∷ xs) h p0 b0 f a c = elim (Bool-cases (ltb b x)) [
  | inl e ↦
      let r =
        put_first-FreeList page b (push_front b (s.page.free_list page) s.blocks.links) s
          (b ∷ x ∷ xs)
          (push_front-Chain b (s.page.free_list page) s.blocks.links (x ∷ xs) b0 f
            (Ascending-Distinct (x ∷ xs) a) c) in
      subst
        (λ t.
          FreeList t page (insert b (x ∷ xs)) × Ascending (insert b (x ∷ xs)) × OnlyPage page s t)
        (sym (added_first fuel page b s p0 b0 head (rw (c.0) e)))
        (rw e (r.0), insert-Ascending b (x ∷ xs) f a, r.1)
  | inr e ↦
      let m = added_middle fuel page b s p0 b0 head (rw (c.0) e) in
      let place =
        find_place-Place fuel b x s.blocks.links xs (omega arith)
          (omega (arith, ltb-false→le b x e, f.0)) f.1 a c.3 in
      (
        rw (m.0, m.1, c.0)
            (insert_middle s.blocks.links b _ x (x ∷ xs) b0 f (Ascending-Distinct (x ∷ xs) a)
              (refl, c.1, c.2, c.3) place),
        insert-Ascending b (x ∷ xs) f a,
        λ q ne. rw (m.1) refl,
      )
]
  where
    head : s.page.free_list page ≢ 0
    head = rw (c.0) c.1
