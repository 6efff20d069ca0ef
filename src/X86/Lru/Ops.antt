-- ===== src/X86/Lru/Ops.antt =====
-- The writes of the operations of the page list of swap.cc, on the representation of the list.
use km_os.Prelude.{
  last_or, last_nonzero, last-append, last_apart, prev_is_last, ℕ, ◌+◌, ◌^◌, ◌<◌, ◌≡◌, ◌≢◌, refl,
  sym, ap, ◌∙◌, List, [], ◌∷◌, ◌++◌, ◌==◌, if◌then◌else◌, arith, length, length-append, Links,
  Chain, Distinct, Fresh, eq→==, ne→==-false, push_front, push_front-Chain, unlink, unlink-Chain,
  unlink_self, head_is_first, Distinct-drop,
}
use mathlib.Core.List.{append-nil}
use km_os.X86.Lru.{Lru, add_to_lru, drop_node}
use km_os.X86.Lru.Shape.{Lists}

pub add_to_lru-Lists :
    (l : Lru) (node addr : ℕ) (xs : List ℕ)
    → node ≢ 0
    → Fresh node xs
    → length xs + 1 < 2 ^ 32
    → Lists l xs
    → Lists (add_to_lru node addr l) (node ∷ xs)
unfolding add_to_lru
add_to_lru-Lists l node addr xs n f h v = rw (ne→==-false node 0 n) (record {
  chain = unfold push_front in push_front-Chain node l.head l.links xs n f v.distinct v.chain;
  distinct = (f, v.distinct);
  tail_last = last xs v.chain v.tail_last;
  counted = omega (arith, v.counted);
  bounded = omega arith;
})
  where
    last :
        (ys : List ℕ)
        → Chain l.links 0 l.head ys
        → l.tail ≡ last_or 0 ys
        → (if l.tail == 0 then node else l.tail) ≡ last_or node ys
    last [] c e = rw (eq→== l.tail 0 e) refl
    last (y ∷ ys) c e =
        rw (ne→==-false l.tail 0 (λ q. last_nonzero l.links 0 y ys c.1 c.3 (sym e ∙ q))) e

module _ (l : Lru) (p : ℕ) (us vs : List ℕ) (v : Lists l (us ++ p ∷ vs)) where
  alone : Fresh 0 (us ++ p ∷ vs)
  alone = nulls l.links 0 l.head (us ++ p ∷ vs) v.chain
    where
      nulls : (m : Links) (b h : ℕ) (zs : List ℕ) → Chain m b h zs → Fresh 0 zs
      nulls m b h [] c = tt
      nulls m b h (z ∷ zs) c = (λ e. c.1 (sym e), nulls m z (m.next z) zs c.3)

  own_links :
      ((unlink p l.links).next p ≡ l.links.next p) × ((unlink p l.links).prev p ≡ l.links.prev p)
  own_links = unlink_self l.links p 0 l.head us vs v.distinct alone v.chain

  pub rest-Chain :
      Chain
        (unlink p l.links)
        0
        (if p == l.head then (unlink p l.links).next p else l.head)
        (us ++ vs)
  rest-Chain =
      rw (own_links.0, ← head_is_first l.links p (l.links.next p) 0 l.head us vs v.distinct v.chain)
        (unlink-Chain l.links p 0 l.head us vs v.distinct alone v.chain)

  pub rest_tail : (if p == l.tail then (unlink p l.links).prev p else l.tail) ≡ last_or 0 (us ++ vs)
  rest_tail =
      rw (own_links.1, prev_is_last l.links p 0 l.head us vs v.chain)
        (by_end vs v.tail_last v.distinct)
    where
      by_end :
          (ws : List ℕ)
          → l.tail ≡ last_or 0 (us ++ p ∷ ws)
          → Distinct (us ++ p ∷ ws)
          → (if p == l.tail then last_or 0 us else l.tail) ≡ last_or 0 (us ++ ws)
      by_end [] e d =
          rw (eq→== p l.tail (sym (e ∙ last-append 0 p us [])))
            (ap (last_or 0) (sym (append-nil us)))
      by_end (w ∷ ws) e d =
          rw
            (ne→==-false p l.tail
              (λ q. last_apart p w ws (tail_fresh us d) (q ∙ e ∙ last-append 0 p us (w ∷ ws))))
            (e ∙ last-append 0 p us (w ∷ ws) ∙ sym (last-append 0 w us ws))
        where
          tail_fresh : (zs : List ℕ) → Distinct (zs ++ p ∷ w ∷ ws) → Fresh p (w ∷ ws)
          tail_fresh [] g = g.0
          tail_fresh (z ∷ zs) g = tail_fresh zs g.1

  pub fewer : length (us ++ p ∷ vs) ≡ length (us ++ vs) + 1
  fewer = omega (arith, length-append us (p ∷ vs), length-append us vs)

  -- Dropping a node leaves the list of the others.
  pub drop_node-Lists : Lists (drop_node p l) (us ++ vs)
  unfolding drop_node
  drop_node-Lists = record {
    chain = rest-Chain;
    distinct = Distinct-drop p us vs v.distinct;
    tail_last = rest_tail;
    counted = omega (arith, v.counted, v.bounded, fewer);
    bounded = omega (arith, v.bounded, fewer);
  }
