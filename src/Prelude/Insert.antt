-- ===== src/Prelude/Insert.antt =====
-- Linking a node in after another one: the writes of the sorted insertion and of the splits.
use Prim.Native.Nat.{ℕ}
use mathlib.Core.Path.{◌≡◌, sym, ◌∙◌}
use mathlib.Core.Logic.{◌≢◌}
use mathlib.Core.List.{List, [], ◌∷◌, ◌++◌}
use native.Mathlib.Omega.{arith}
use km_os.Prelude.Chains.{
  Links, Fresh, Distinct, Chain, Agree, Fresh-append, Chain-Agree, update, set_prev,
}
use km_os.Prelude.Unlink.{
  Chain-split, Fresh-zero, head_apart, Distinct-append, Distinct-drop, Segment,
}

-- `n->next = c->next; n->prev = c; if (c->next) c->next->prev = n; c->next = n;`
unfoldable pub insert_after : ℕ → ℕ → Links → Links
insert_after c n l =
    let m : Links = record { next = update l.next n (l.next c); prev = update l.prev n c } in
    let k : Links = set_prev (m.next c) n m in record { next = update k.next c n; prev = k.prev }

-- What it writes, where `n` is neither `c` nor what follows `c`.
record Inserted (c n : ℕ) (l m : Links) : Type 0 where
  own_next : m.next n ≡ l.next c
  own_prev : m.prev n ≡ c
  forward : m.next c ≡ n
  backward : l.next c ≢ 0 → m.prev (l.next c) ≡ n
  nx : (q : ℕ) → n ≢ q → c ≢ q → m.next q ≡ l.next q
  pv : (q : ℕ) → n ≢ q → l.next c ≢ q → m.prev q ≡ l.prev q

insert_after-Inserted :
    (c n : ℕ) (l : Links) → n ≢ c → n ≢ l.next c → Inserted c n l (insert_after c n l)
unfolding insert_after
insert_after-Inserted c n l h g = record {
  own_next = ground arith;
  own_prev = ground arith;
  forward = ground arith;
  backward = λ q. ground arith;
  nx = λ q a b. ground arith;
  pv = λ q a b. ground arith;
}

Inserted-Agree :
    (c n : ℕ) (l m : Links) (ys : List ℕ)
    → Inserted c n l m
    → Fresh n ys
    → Fresh c ys
    → Fresh (l.next c) ys
    → Agree l m ys
Inserted-Agree c n l m [] i fn fc fa = tt
Inserted-Agree c n l m (y ∷ ys) i fn fc fa =
    (i.nx y fn.0 fc.0, i.pv y fn.0 fa.0, Inserted-Agree c n l m ys i fn.1 fc.1 fa.1)

after_node :
    (c n : ℕ) (l m : Links) (ys : List ℕ)
    → Inserted c n l m
    → Fresh n ys
    → Fresh c ys
    → Distinct ys
    → Chain l c (l.next c) ys
    → Chain m n (l.next c) ys
after_node c n l m [] i fn fc d k = k
after_node c n l m (y ∷ ys) i fn fc d k = (
  k.0,
  k.1,
  back,
  rw (i.nx y fn.0 fc.0)
      (Chain-Agree l m y (l.next y) ys (Inserted-Agree c n l m ys i fn.1 fc.1 (rw (k.0) d.0)) k.3),
)
  where
    back : m.prev y ≡ n
    back = rw (← k.0) (i.backward (rw (k.0) k.1))

node_joins :
    (c n back head : ℕ) (l m : Links) (xs ys : List ℕ)
    → Inserted c n l m
    → n ≢ 0
    → Fresh n (xs ++ c ∷ ys)
    → Fresh (l.next c) xs
    → l.next c ≢ c
    → Distinct (xs ++ c ∷ ys)
    → Chain l back head (xs ++ c ∷ ys)
    → Chain m back head (xs ++ c ∷ n ∷ ys)
node_joins c n back head l m [] ys i n0 f fx fc d k = (
  k.0,
  k.1,
  i.pv c f.0 fc ∙ k.2,
  (i.forward, n0, i.own_prev, rw (i.own_next) (after_node c n l m ys i f.1 d.0 d.1 k.3)),
)
node_joins c n back head l m (x ∷ xs) ys i n0 f fx fc d k = (
  k.0,
  k.1,
  i.pv x f.0 fx.0 ∙ k.2,
  rw (i.nx x f.0 (λ e. (Fresh-append x xs (c ∷ ys) d.0).1.0 (sym e)))
      (node_joins c n x (l.next x) l m xs ys i n0 f.1 fx.1 fc d.1 k.3),
)

-- The links of the node that stands before `n` lead past it.
pub insert_after-Chain :
    (l : Links) (c n back head : ℕ) (xs ys : List ℕ)
    → n ≢ 0
    → Fresh n (xs ++ c ∷ ys)
    → Distinct (xs ++ c ∷ ys)
    → Chain l back head (xs ++ c ∷ ys)
    → Chain (insert_after c n l) back head (xs ++ c ∷ n ∷ ys)
insert_after-Chain l c n back head xs ys n0 f d k =
    node_joins c n back head l (insert_after c n l) xs ys
      (insert_after-Inserted c n l away.1.0 (next_apart ys n n0 away.1.1 parts.2)) n0 f
      (head_apart l c (l.next c) xs ys nulls.0 (Distinct-drop c xs ys d) parts.2)
      (λ e. next_apart ys c parts.1 halves.1.0 parts.2 (sym e)) d k
  where
    parts : Segment l back head xs (l.prev c) c × (c ≢ 0) × Chain l c (l.next c) ys
    parts = Chain-split l c back head xs ys k

    away : Fresh n xs × Fresh n (c ∷ ys)
    away = Fresh-append n xs (c ∷ ys) f

    halves : Distinct xs × Distinct (c ∷ ys)
    halves = Distinct-append xs (c ∷ ys) d

    nulls : Fresh 0 xs × Fresh 0 (c ∷ ys)
    nulls = Fresh-append 0 xs (c ∷ ys) (Fresh-zero l back head (xs ++ c ∷ ys) k)

    next_apart : (zs : List ℕ) (p : ℕ) → p ≢ 0 → Fresh p zs → Chain l c (l.next c) zs → p ≢ l.next c
    next_apart [] p p0 g q = rw q p0
    next_apart (z ∷ zs) p p0 g q = rw (q.0) g.0
