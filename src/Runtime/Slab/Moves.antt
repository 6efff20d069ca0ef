-- ===== src/Runtime/Slab/Moves.antt =====
-- `move_slab` of src/kernel/runtime/slab.cc on two lists of slabs.
use mathlib.Core.Path.{subst}
use km_os.Prelude.{
  ℕ, ◌≢◌, sym, List, [], ◌∷◌, ◌++◌, Chain, Chain-Agree, Links, Fresh, Distinct, unlink,
  unlink-Chain, unlink-Agree, push_front-Chain, push_front-Agree, prev_of_first, Fresh-zero,
  Fresh-append, Fresh-join, Distinct-Fresh,
}
use km_os.Runtime.Slab.{move_slab}

-- No node of one list is on the other.
abbrev pub Foreign : List ℕ → List ℕ → Type 0
Foreign [] ys = Unit {0}
Foreign (x ∷ xs) ys = Fresh x ys × Foreign xs ys

pub Foreign-at : (n : ℕ) (us vs ys : List ℕ) → Foreign (us ++ n ∷ vs) ys → Fresh n ys
Foreign-at n [] vs ys f = f.0
Foreign-at n (u ∷ us) vs ys f = Foreign-at n us vs ys f.1

pub Foreign-flip : (x : ℕ) (xs ys : List ℕ) → Foreign xs (x ∷ ys) → Fresh x xs × Foreign xs ys
Foreign-flip x [] ys f = (tt, tt)
Foreign-flip x (z ∷ xs) ys f =
    let r = Foreign-flip x xs ys f.1 in ((λ e. f.0.0 (sym e), r.0), (f.0.1, r.1))

-- Past a stretch: the predecessor of a node is the null pointer or a node of the list.
pub prev-Foreign :
    (l : Links) (n back head : ℕ) (us vs ys : List ℕ)
    → Chain l back head (us ++ n ∷ vs)
    → Fresh back ys
    → Foreign (us ++ n ∷ vs) ys
    → Fresh (l.prev n) ys
prev-Foreign l n back head [] vs ys c b f = subst (λ p. Fresh p ys) (sym c.2) b
prev-Foreign l n back head (u ∷ us) vs ys c b f = prev-Foreign l n u (l.next u) us vs ys c.3 f.0 f.1

pub next-Foreign :
    (l : Links) (n back head : ℕ) (us vs ys : List ℕ)
    → Chain l back head (us ++ n ∷ vs)
    → Fresh 0 ys
    → Foreign (us ++ n ∷ vs) ys
    → Fresh (l.next n) ys
next-Foreign l n back head [] [] ys c z f = subst (λ p. Fresh p ys) (sym c.3) z
next-Foreign l n back head [] (v ∷ vs) ys c z f = subst (λ p. Fresh p ys) (sym c.3.0) f.1.0
next-Foreign l n back head (u ∷ us) vs ys c z f = next-Foreign l n u (l.next u) us vs ys c.3 z f.1

-- A slab between two lists.
pub record OnLists (p from to : ℕ) (us vs ws : List ℕ) (l : Links) : Type 0 where
  pub chain : Chain l 0 from (us ++ p ∷ vs)
  pub other : Chain l 0 to ws
  pub distinct : Distinct (us ++ p ∷ vs)
  pub distinct_other : Distinct ws
  pub foreign : Foreign (us ++ p ∷ vs) ws

pub Foreign-drop : (p : ℕ) (us vs ys : List ℕ) → Foreign (us ++ p ∷ vs) ys → Foreign (us ++ vs) ys
Foreign-drop p [] vs ys f = f.1
Foreign-drop p (u ∷ us) vs ys f = (f.0, Foreign-drop p us vs ys f.1)

pub first-Foreign :
    (l : Links) (back head : ℕ) (ws ys : List ℕ)
    → Chain l back head ws
    → Fresh 0 ys
    → Foreign ys ws
    → Fresh head ys
first-Foreign l back head [] ys c z f = subst (λ p. Fresh p ys) (sym c) z
first-Foreign l back head (w ∷ ws) ys c z f =
    subst (λ p. Fresh p ys) (sym c.0) (Foreign-flip w ys ws f).0

not_null : (l : Links) (p back head : ℕ) (us vs : List ℕ) → Chain l back head (us ++ p ∷ vs) → p ≢ 0
not_null l p back head [] vs c = c.1
not_null l p back head (u ∷ us) vs c = not_null l p u (l.next u) us vs c.3

-- The slab leaves the one list and becomes the first of the other.
pub move_slab-Chain :
    (p from to : ℕ) (us vs ws : List ℕ) (l : Links)
    → OnLists p from to us vs ws l
    → let m = move_slab from to p l in
      Chain m.links 0 m.from (us ++ vs) × Chain m.links 0 m.to (p ∷ ws)
unfolding move_slab
move_slab-Chain p from to us vs ws l o = (
  Chain-Agree (unlink p l) _ 0 _ (us ++ vs)
      (push_front-Agree p to (unlink p l) (us ++ vs) (Distinct-Fresh p us vs o.distinct) (
        first-Foreign l 0 to ws (us ++ vs) o.other
          (Fresh-join 0 us vs (Fresh-append 0 us (p ∷ vs) nulls).0
            (Fresh-append 0 us (p ∷ vs) nulls).1.1)
          (Foreign-drop p us vs ws o.foreign)))
      (subst (λ h. Chain (unlink p l) 0 h (us ++ vs)) (prev_of_first l p from us vs o.chain)
        (unlink-Chain l p 0 from us vs o.distinct nulls o.chain)),
  push_front-Chain p to (unlink p l) ws (not_null l p 0 from us vs o.chain)
      (Foreign-at p us vs ws o.foreign) o.distinct_other
      (Chain-Agree l (unlink p l) 0 to ws
        (unlink-Agree p l ws
          (prev-Foreign l p 0 from us vs ws o.chain (Fresh-zero l 0 to ws o.other) o.foreign)
          (next-Foreign l p 0 from us vs ws o.chain (Fresh-zero l 0 to ws o.other) o.foreign))
        o.other),
)
  where
    nulls : Fresh 0 (us ++ p ∷ vs)
    nulls = Fresh-zero l 0 from (us ++ p ∷ vs) o.chain
