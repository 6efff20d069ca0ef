-- ===== src/Prelude/Chains.antt =====
-- Doubly linked lists in memory, as the kernel's C structures hold them: each node has a `next` and
-- a `prev` field, and 0 is the null pointer. The components below link and unlink by field writes;
-- here is what such a list is, and that the two idioms keep it one.
use km_os.Prelude.Tests.{◌==◌, if◌then◌else◌, ne→==-false}
use Prim.Native.Nat.{ℕ}
use mathlib.Core.Path.{◌≡◌, refl, ◌∙◌}
use mathlib.Core.Logic.{◌≢◌}
use mathlib.Core.List.{List, [], ◌∷◌, ◌++◌}
use native.Mathlib.Omega.{arith}

-- A write `p->field = v`.
abbrev pub update {ℓ} : {A : Type ℓ} → (ℕ → A) → ℕ → A → ℕ → A
update f p v q = if p == q then v else f q

pub record Links : Type 0 where
  pub next : ℕ → ℕ
  pub prev : ℕ → ℕ

-- `if (p) p->prev = v` and `if (p) p->next = v`
abbrev pub set_prev : ℕ → ℕ → Links → Links
set_prev p v l = record l { prev = if p == 0 then l.prev else update l.prev p v }

abbrev pub set_next : ℕ → ℕ → Links → Links
set_next p v l = record l { next = if p == 0 then l.next else update l.next p v }

abbrev pub Fresh : ℕ → List ℕ → Type 0
Fresh n [] = Unit {0}
Fresh n (x ∷ xs) = (n ≢ x) × Fresh n xs

abbrev pub Distinct : List ℕ → Type 0
Distinct [] = Unit {0}
Distinct (x ∷ xs) = Fresh x xs × Distinct xs

-- From `head`, whose predecessor is `back`, the nodes are `xs`, and the last one's `next` is null.
abbrev pub Chain : Links → ℕ → ℕ → List ℕ → Type 0
Chain l back head [] = head ≡ 0
Chain l back head (x ∷ xs) = (head ≡ x) × (x ≢ 0) × (l.prev x ≡ back) × Chain l x (l.next x) xs

abbrev pub Agree : Links → Links → List ℕ → Type 0
Agree l m [] = Unit {0}
Agree l m (x ∷ xs) = (m.next x ≡ l.next x) × (m.prev x ≡ l.prev x) × Agree l m xs

pub Fresh-append : (n : ℕ) (xs ys : List ℕ) → Fresh n (xs ++ ys) → Fresh n xs × Fresh n ys
Fresh-append n [] ys f = (tt, f)
Fresh-append n (x ∷ xs) ys f = let r = Fresh-append n xs ys f.1 in ((f.0, r.0), r.1)

pub Chain-Agree :
    (l m : Links) (back head : ℕ) (xs : List ℕ)
    → Agree l m xs
    → Chain l back head xs
    → Chain m back head xs
Chain-Agree l m back head [] a c = c
Chain-Agree l m back head (x ∷ xs) a c =
    (c.0, c.1, a.1 ∙ c.2, rw (a.0) (Chain-Agree l m x (l.next x) xs a.2 c.3))

-- Linking a node in at the front:
-- `n->next = head; n->prev = 0; if (head) head->prev = n;`
unfoldable pub push_front : ℕ → ℕ → Links → Links
push_front n head l =
    set_prev head n (record { next = update l.next n head; prev = update l.prev n 0 })

pub push_front-Agree :
    (n head : ℕ) (l : Links) (xs : List ℕ)
    → Fresh n xs
    → Fresh head xs
    → Agree l (push_front n head l) xs
unfolding push_front
push_front-Agree n head l [] f g = tt
push_front-Agree n head l (x ∷ xs) f g =
    (rw (ne→==-false n x f.0), ground arith, push_front-Agree n head l xs f.1 g.1)

pub push_front-Chain :
    (n head : ℕ) (l : Links) (xs : List ℕ)
    → n ≢ 0
    → Fresh n xs
    → Distinct xs
    → Chain l 0 head xs
    → Chain (push_front n head l) 0 n (n ∷ xs)
unfolding push_front
push_front-Chain n head l [] n0 f d c = ground arith
push_front-Chain n head l (x ∷ xs) n0 f d c =
    (refl, n0, ground arith, (ground arith, c.1, ground arith, rest))
  where
    same : (push_front n head l).next x ≡ l.next x
    same = ground arith

    away : Fresh head xs
    away = rw (c.0) d.0

    rest : Chain (push_front n head l) x ((push_front n head l).next x) xs
    rest = rw same (Chain-Agree l _ x (l.next x) xs (push_front-Agree n head l xs f.1 away) c.3)

-- Taking a node out:
-- `if (n->prev) n->prev->next = n->next; if (n->next) n->next->prev = n->prev;`
unfoldable pub unlink : ℕ → Links → Links
unlink n l = let m = set_next (l.prev n) (l.next n) l in set_prev (m.next n) (m.prev n) m
