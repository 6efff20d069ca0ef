-- ===== src/Prelude/Unlink.antt =====
-- Taking a node out of a doubly linked list: the writes of `unlink` on a list.
use Prim.Native.Nat.{ℕ}
use mathlib.Core.Path.{◌≡◌, refl, sym, subst, ◌∙◌}
use mathlib.Core.Logic.{◌≢◌, ◌⊎◌, inl, inr}
use mathlib.Core.List.{List, [], ◌∷◌, ◌++◌}
use native.Mathlib.Omega.{arith}
use km_os.Prelude.Tests.{◌==◌, if◌then◌else◌, ne→==-false, eq→==}
use native.Mathlib.Decide.{ℕ_discrete}
use km_os.Prelude.Chains.{Links, Fresh, Distinct, Chain, Agree, Fresh-append, Chain-Agree, unlink}

-- A stretch of a list: past its last node `back'` the next one is `head'`.
abbrev pub Segment : Links → ℕ → ℕ → List ℕ → ℕ → ℕ → Type 0
Segment l back head [] back' head' = (back ≡ back') × (head ≡ head')
Segment l back head (x ∷ xs) back' head' =
    (head ≡ x) × (x ≢ 0) × (l.prev x ≡ back) × Segment l x (l.next x) xs back' head'

pub Chain-split :
    (l : Links) (n back head : ℕ) (xs ys : List ℕ)
    → Chain l back head (xs ++ n ∷ ys)
    → Segment l back head xs (l.prev n) n × (n ≢ 0) × Chain l n (l.next n) ys
Chain-split l n back head [] ys c = ((sym c.2, c.0), c.1, c.3)
Chain-split l n back head (x ∷ xs) ys c =
    let r = Chain-split l n x (l.next x) xs ys c.3 in ((c.0, c.1, c.2, r.0), r.1, r.2)

Chain-join :
    (l : Links) (back head back' head' : ℕ) (xs ys : List ℕ)
    → Segment l back head xs back' head'
    → Chain l back' head' ys
    → Chain l back head (xs ++ ys)
Chain-join l back head back' head' [] ys s c = rw (s.0, s.1) c
Chain-join l back head back' head' (x ∷ xs) ys s c =
    (s.0, s.1, s.2, Chain-join l x (l.next x) back' head' xs ys s.3 c)

-- The predecessor of what follows a stretch is a node of it.
Segment-back :
    (l : Links) (p back head back' head' : ℕ) (xs : List ℕ)
    → p ≢ back
    → Fresh p xs
    → Segment l back head xs back' head'
    → p ≢ back'
Segment-back l p back head back' head' [] ne f s = rw (← s.0) ne
Segment-back l p back head back' head' (x ∷ xs) ne f s =
    Segment-back l p x (l.next x) back' head' xs f.0 f.1 s.3

-- The head after a removal: `prev` null means that the node was the first.
abbrev pub head_after : List ℕ → ℕ → ℕ → ℕ
head_after [] head after = after
head_after (x ∷ xs) head after = head

Segment-relink :
    (l m : Links) (n after back head back' : ℕ) (xs : List ℕ)
    → Distinct xs
    → Fresh back xs
    → ((p : ℕ) → p ≢ back' → m.next p ≡ l.next p)
    → ((p : ℕ) → (m.prev p ≡ l.prev p) ⊎ (p ≡ after))
    → (back' ≢ 0 → m.next back' ≡ after)
    → Fresh after xs
    → Segment l back head xs back' n
    → Segment m back (head_after xs head after) xs back' after
Segment-relink l m n after back head back' [] d fb nx pv last fa s = (s.0, refl)
Segment-relink l m n after back head back' (x ∷ []) d fb nx pv last fa s =
    (s.0, s.1, ground (arith, pv x, s.2), (s.3.0, ground (arith, s.3.0, s.1, last)))
Segment-relink l m n after back head back' (x ∷ y ∷ xs) d fb nx pv last fa s = (
  s.0,
  s.1,
  ground (arith, pv x, s.2),
  rw (nx x inner)
      (Segment-relink l m n after x (l.next x) back' (y ∷ xs) d.1 d.0 nx pv last fa.1 s.3),
)
  where
    inner : x ≢ back'
    inner = Segment-back l x y (l.next y) back' n xs d.0.0 d.0.1 s.3.3

Agree-outside :
    (l m : Links) (back head : ℕ) (ys : List ℕ)
    → ((p : ℕ) → p ≢ back → m.next p ≡ l.next p)
    → ((p : ℕ) → p ≢ head → m.prev p ≡ l.prev p)
    → Fresh back ys
    → Fresh head ys
    → Agree l m ys
Agree-outside l m back head [] nx pv fb fh = tt
Agree-outside l m back head (y ∷ ys) nx pv fb fh = (
  nx y (λ e. fb.0 (sym e)),
  pv y (λ e. fh.0 (sym e)),
  Agree-outside l m back head ys nx pv fb.1 fh.1,
)

Chain-relink :
    (l m : Links) (n back head : ℕ) (ys : List ℕ)
    → Distinct ys
    → Fresh back ys
    → ((p : ℕ) → p ≢ back → m.next p ≡ l.next p)
    → ((p : ℕ) → p ≢ head → m.prev p ≡ l.prev p)
    → (head ≢ 0 → m.prev head ≡ back)
    → Chain l n head ys
    → Chain m back head ys
Chain-relink l m n back head [] d fb nx pv first c = c
Chain-relink l m n back head (y ∷ ys) d fb nx pv first c = (
  c.0,
  c.1,
  ground (arith, c.0, c.1, first),
  rw (nx y (λ e. fb.0 (sym e))) (
      Chain-Agree l m y (l.next y) ys (Agree-outside l m back head ys nx pv fb.1 (rw (c.0) d.0))
        c.3),
)

-- The nodes of a chain are not null.
pub Fresh-zero : (l : Links) (back head : ℕ) (xs : List ℕ) → Chain l back head xs → Fresh 0 xs
Fresh-zero l back head [] c = tt
Fresh-zero l back head (x ∷ xs) c = (λ e. c.1 (sym e), Fresh-zero l x (l.next x) xs c.3)

pub Distinct-append : (xs ys : List ℕ) → Distinct (xs ++ ys) → Distinct xs × Distinct ys
Distinct-append [] ys d = (tt, d)
Distinct-append (x ∷ xs) ys d =
    let r = Distinct-append xs ys d.1 in (((Fresh-append x xs ys d.0).0, r.0), r.1)

-- Neighbours of `n` in a chain of distinct nodes.
neighbours_apart :
    (l : Links) (n back head back' : ℕ) (xs ys : List ℕ)
    → Distinct (xs ++ n ∷ ys)
    → Fresh back (xs ++ n ∷ ys)
    → Segment l back head xs back' n
    → Fresh back' (n ∷ ys)
neighbours_apart l n back head back' [] ys d f s = subst (λ b. Fresh b (n ∷ ys)) s.0 f
neighbours_apart l n back head back' (x ∷ xs) ys d f s =
    neighbours_apart l n x (l.next x) back' xs ys d.1 d.0 s.3

pub head_apart :
    (l : Links) (n head : ℕ) (xs ys : List ℕ)
    → Fresh 0 xs
    → Distinct (xs ++ ys)
    → Chain l n head ys
    → Fresh head xs
head_apart l n head xs [] z d c = rw (c) z
head_apart l n head [] (y ∷ ys) z d c = tt
head_apart l n head (x ∷ xs) (y ∷ ys) z d c =
    let r = Fresh-append x xs (y ∷ ys) d.0 in
    (rw (c.0) (λ e. r.1.0 (sym e)), head_apart l n head xs (y ∷ ys) z.1 d.1 c)

-- What `unlink` writes: the two links round the node.
record Relinked (n : ℕ) (l m : Links) : Type 0 where
  nx : (p : ℕ) → p ≢ l.prev n → m.next p ≡ l.next p
  pv : (p : ℕ) → p ≢ l.next n → m.prev p ≡ l.prev p
  forward : l.prev n ≢ 0 → m.next (l.prev n) ≡ l.next n
  backward : l.next n ≢ 0 → m.prev (l.next n) ≡ l.prev n

unlink-Relinked : (n : ℕ) (l : Links) → l.prev n ≢ n → Relinked n l (unlink n l)
unfolding unlink
unlink-Relinked n l h = record {
  nx = λ p q. ground arith;
  pv = λ p q. ground arith;
  forward = λ q. ground arith;
  backward = λ q. ground arith;
}

pub Fresh-join : (n : ℕ) (xs ys : List ℕ) → Fresh n xs → Fresh n ys → Fresh n (xs ++ ys)
Fresh-join n [] ys f g = g
Fresh-join n (x ∷ xs) ys f g = (f.0, Fresh-join n xs ys f.1 g)

pub Fresh-drop : (p n : ℕ) (xs ys : List ℕ) → Fresh p (xs ++ n ∷ ys) → Fresh p (xs ++ ys)
Fresh-drop p n xs ys f = let r = Fresh-append p xs (n ∷ ys) f in Fresh-join p xs ys r.0 r.1.1

-- Without one of its nodes the list is still one of distinct nodes, and the node is none of them.
pub Distinct-drop : (n : ℕ) (xs ys : List ℕ) → Distinct (xs ++ n ∷ ys) → Distinct (xs ++ ys)
Distinct-drop n [] ys d = d.1
Distinct-drop n (x ∷ xs) ys d = (Fresh-drop x n xs ys d.0, Distinct-drop n xs ys d.1)

pub Distinct-Fresh : (n : ℕ) (xs ys : List ℕ) → Distinct (xs ++ n ∷ ys) → Fresh n (xs ++ ys)
Distinct-Fresh n [] ys d = d.0
Distinct-Fresh n (x ∷ xs) ys d =
    (λ e. (Fresh-append x xs (n ∷ ys) d.0).1.0 (sym e), Distinct-Fresh n xs ys d.1)

Relinked-Chain :
    (l m : Links) (n back head : ℕ) (xs ys : List ℕ)
    → Relinked n l m
    → Distinct (xs ++ n ∷ ys)
    → Fresh back (xs ++ n ∷ ys)
    → Chain l back head (xs ++ n ∷ ys)
    → Chain m back (head_after xs head (l.next n)) (xs ++ ys)
Relinked-Chain l m n back head xs ys r d f c =
    Chain-join m back _ (l.prev n) (l.next n) xs ys front rear
  where
    parts : Segment l back head xs (l.prev n) n × (n ≢ 0) × Chain l n (l.next n) ys
    parts = Chain-split l n back head xs ys c

    apart : Fresh (l.prev n) (n ∷ ys)
    apart = neighbours_apart l n back head (l.prev n) xs ys d f parts.0

    halves : Distinct xs × Distinct (n ∷ ys)
    halves = Distinct-append xs (n ∷ ys) d

    nulls : Fresh 0 xs × Fresh 0 (n ∷ ys)
    nulls = Fresh-append 0 xs (n ∷ ys) (Fresh-zero l back head (xs ++ n ∷ ys) c)

    either : (p : ℕ) → (m.prev p ≡ l.prev p) ⊎ (p ≡ l.next n)
    either p = elim (ℕ_discrete p (l.next n)) [ yes e ↦ inr e | no ne ↦ inl (r.pv p ne) ]

    front : Segment m back (head_after xs head (l.next n)) xs (l.prev n) (l.next n)
    front =
        Segment-relink l m n (l.next n) back head (l.prev n) xs halves.0
          (Fresh-append back xs (n ∷ ys) f).0 r.nx either r.forward
          (head_apart l n (l.next n) xs ys nulls.0 (Distinct-drop n xs ys d) parts.2) parts.0

    rear : Chain m (l.prev n) (l.next n) ys
    rear =
        Chain-relink l m n (l.prev n) (l.next n) ys halves.1.1 apart.1 r.nx r.pv r.backward parts.2

-- `unlink` leaves the list of the other nodes.
pub unlink-Chain :
    (l : Links) (n back head : ℕ) (xs ys : List ℕ)
    → Distinct (xs ++ n ∷ ys)
    → Fresh back (xs ++ n ∷ ys)
    → Chain l back head (xs ++ n ∷ ys)
    → Chain (unlink n l) back (head_after xs head (l.next n)) (xs ++ ys)
unlink-Chain l n back head xs ys d f c =
    Relinked-Chain l (unlink n l) n back head xs ys (unlink-Relinked n l self) d f c
  where
    self : l.prev n ≢ n
    self =
        (neighbours_apart l n back head (l.prev n) xs ys d f
          (Chain-split l n back head xs ys c).0).0

-- A node is the first of its list exactly when its `prev` is null.
pub prev_of_first :
    (l : Links) (n head : ℕ) (xs ys : List ℕ)
    → Chain l 0 head (xs ++ n ∷ ys)
    → head_after xs head (l.next n) ≡ (if l.prev n == 0 then l.next n else head)
prev_of_first l n head [] ys c = rw c.2
prev_of_first l n head (x ∷ xs) ys c = rw (ne→==-false _ _ (inner x (l.next x) xs c.1 c.3))
  where
    inner : (b h : ℕ) (zs : List ℕ) → b ≢ 0 → Chain l b h (zs ++ n ∷ ys) → l.prev n ≢ 0
    inner b h [] b0 k = rw (k.2) b0
    inner b h (z ∷ zs) b0 k = inner z (l.next z) zs k.1 k.3

-- The node itself keeps its own links.
pub unlink_self :
    (l : Links) (n back head : ℕ) (xs ys : List ℕ)
    → Distinct (xs ++ n ∷ ys)
    → Fresh back (xs ++ n ∷ ys)
    → Chain l back head (xs ++ n ∷ ys)
    → ((unlink n l).next n ≡ l.next n) × ((unlink n l).prev n ≡ l.prev n)
unlink_self l n back head xs ys d f c =
    (r.nx n (λ e. self (sym e)), r.pv n (ahead ys parts.1 rest parts.2))
  where
    parts : Segment l back head xs (l.prev n) n × (n ≢ 0) × Chain l n (l.next n) ys
    parts = Chain-split l n back head xs ys c

    self : l.prev n ≢ n
    self = (neighbours_apart l n back head (l.prev n) xs ys d f parts.0).0

    r : Relinked n l (unlink n l)
    r = unlink-Relinked n l self

    rest : Fresh n ys
    rest = (Distinct-append xs (n ∷ ys) d).1.0

    ahead : (zs : List ℕ) → n ≢ 0 → Fresh n zs → Chain l n (l.next n) zs → n ≢ l.next n
    ahead [] n0 g k = rw k n0
    ahead (z ∷ zs) n0 g k = rw (k.0) g.0

-- The node is the head exactly when nothing stands before it.
pub head_is_first :
    (l : Links) (n after back head : ℕ) (xs ys : List ℕ)
    → Distinct (xs ++ n ∷ ys)
    → Chain l back head (xs ++ n ∷ ys)
    → head_after xs head after ≡ (if n == head then after else head)
head_is_first l n after back head [] ys d c = rw (eq→== n head (sym c.0))
head_is_first l n after back head (x ∷ xs) ys d c =
    rw (ne→==-false n head (λ e. (Fresh-append x xs (n ∷ ys) d.0).1.0 (sym c.0 ∙ sym e)))

-- A list that neither neighbour is on does not see the removal.
pub unlink-Agree :
    (n : ℕ) (l : Links) (ys : List ℕ)
    → Fresh (l.prev n) ys
    → Fresh (l.next n) ys
    → Agree l (unlink n l) ys
unfolding unlink
unlink-Agree n l [] f g = tt
unlink-Agree n l (y ∷ ys) f g = (ground arith, ground arith, unlink-Agree n l ys f.1 g.1)
