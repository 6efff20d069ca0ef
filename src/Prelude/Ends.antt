-- ===== src/Prelude/Ends.antt =====
-- The ends of a doubly linked list: its last node, linking a node in at the tail, and what the two
-- `else` branches of a removal leave in the head and the tail.
use Prim.Native.Nat.{ℕ}
use mathlib.Core.Path.{◌≡◌, refl, sym, ap, ◌∙◌}
use mathlib.Core.Logic.{◌≢◌}
use mathlib.Core.List.{List, [], ◌∷◌, ◌++◌, append-nil}
use km_os.Prelude.Tests.{◌==◌, if◌then◌else◌, eq→==, ne→==-false}
use km_os.Prelude.Chains.{Links, Chain, Distinct, Fresh}

abbrev pub last_or : ℕ → List ℕ → ℕ
last_or d [] = d
last_or d (x ∷ xs) = last_or x xs

pub last_nonzero :
    (l : Links) (back x : ℕ) (xs : List ℕ) → x ≢ 0 → Chain l x (l.next x) xs → last_or x xs ≢ 0
last_nonzero l back x [] n c = n
last_nonzero l back x (y ∷ xs) n c = last_nonzero l x y xs c.1 c.3

pub last-append : (d x : ℕ) (us vs : List ℕ) → last_or d (us ++ x ∷ vs) ≡ last_or x vs
last-append d x [] vs = refl
last-append d x (u ∷ us) vs = last-append u x us vs

pub last_apart : (p v : ℕ) (vs : List ℕ) → Fresh p (v ∷ vs) → p ≢ last_or v vs
last_apart p v [] f = f.0
last_apart p v (w ∷ vs) f = last_apart p w vs f.1

pub prev_is_last :
    (l : Links) (p back head : ℕ) (us vs : List ℕ)
    → Chain l back head (us ++ p ∷ vs)
    → l.prev p ≡ last_or back us
prev_is_last l p back head [] vs c = c.2
prev_is_last l p back head (u ∷ us) vs c = prev_is_last l p u (l.next u) us vs c.3

-- The links after `p` is appended to a list that ends in `last`.
pub record Linked (p last : ℕ) (l m : Links) : Type 0 where
  pub own_next : m.next p ≡ 0
  pub own_prev : m.prev p ≡ last
  pub next_last : last ≢ 0 → m.next last ≡ p
  pub prev : (q : ℕ) → p ≢ q → m.prev q ≡ l.prev q
  pub next : (q : ℕ) → p ≢ q → last ≢ q → m.next q ≡ l.next q

last_after : (x v : ℕ) (vs : List ℕ) → Fresh x (v ∷ vs) → last_or v vs ≢ x
last_after x v vs f e = last_apart x v vs f (sym e)

append_node :
    (l m : Links) (p back head : ℕ) (x : ℕ) (xs : List ℕ)
    → p ≢ 0
    → Linked p (last_or x xs) l m
    → Fresh p (x ∷ xs)
    → Distinct (x ∷ xs)
    → Chain l back head (x ∷ xs)
    → Chain m back head (x ∷ (xs ++ p ∷ []))
append_node l m p back head x [] p0 k f d c =
    (c.0, c.1, k.prev x f.0 ∙ c.2, (k.next_last c.1, p0, k.own_prev, k.own_next))
append_node l m p back head x (y ∷ ys) p0 k f d c = (
  c.0,
  c.1,
  k.prev x f.0 ∙ c.2,
  rw (k.next x f.0 (last_after x y ys d.0)) (append_node l m p x (l.next x) y ys p0 k f.1 d.1 c.3),
)

-- Appending a node that is not in the list puts it at the end; in an empty list it is the head.
pub append-Chain :
    (l m : Links) (p head : ℕ) (xs : List ℕ)
    → p ≢ 0
    → Linked p (last_or 0 xs) l m
    → Fresh p xs
    → Distinct xs
    → Chain l 0 head xs
    → Chain m 0 (if last_or 0 xs == 0 then p else head) (xs ++ p ∷ [])
append-Chain l m p head [] p0 k f d c = (refl, p0, k.own_prev, k.own_next)
append-Chain l m p head (x ∷ xs) p0 k f d c =
    rw (ne→==-false (last_or x xs) 0 (last_nonzero l 0 x xs c.1 c.3))
      (append_node l m p 0 head x xs p0 k f d c)

-- Where the removed node had no successor, its predecessor is the new tail.
pub tail_after :
    (l : Links) (p tail back head : ℕ) (us vs : List ℕ)
    → tail ≡ last_or back (us ++ p ∷ vs)
    → Chain l back head (us ++ p ∷ vs)
    → (if l.next p == 0 then l.prev p else tail) ≡ last_or back (us ++ vs)
tail_after l p tail back head us vs e c = by_end vs e c
  where
    next_of : (b h : ℕ) (zs ws : List ℕ) → Chain l b h (zs ++ p ∷ ws) → Chain l p (l.next p) ws
    next_of b h [] ws k = k.3
    next_of b h (z ∷ zs) ws k = next_of z (l.next z) zs ws k.3

    by_end :
        (ws : List ℕ)
        → tail ≡ last_or back (us ++ p ∷ ws)
        → Chain l back head (us ++ p ∷ ws)
        → (if l.next p == 0 then l.prev p else tail) ≡ last_or back (us ++ ws)
    by_end [] q k =
        rw (eq→== (l.next p) 0 (next_of back head us [] k))
          (prev_is_last l p back head us [] k ∙ ap (last_or back) (sym (append-nil us)))
    by_end (w ∷ ws) q k =
        let n = next_of back head us (w ∷ ws) k in
        rw (ne→==-false (l.next p) 0 (λ z. n.1 (sym n.0 ∙ z)))
          (q ∙ last-append back p us (w ∷ ws) ∙ sym (last-append back w us ws))
