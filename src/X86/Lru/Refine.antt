-- ===== src/X86/Lru/Refine.antt =====
-- The page list of swap.cc as a plain list of page addresses, most recently used first.
use km_os.Prelude.{
  last_or, last_nonzero, ℕ, ◌+◌, ◌^◌, ◌<◌, ◌≡◌, ◌≢◌, refl, sym, ap, ◌∙◌, List, [], ◌∷◌, ◌++◌, map,
  some, inl, inr, ◌==◌, if◌then◌else◌, arith, length, Chain, Fresh, eq→==, ne→==-false,
  push_front-Chain, unlink, Distinct-drop, Distinct-Fresh,
}
use mathlib.Core.Path.{subst}
use km_os.X86.Lru.{Lru, add_to_lru, find_lru, drop_node, remove_from_lru, touch, update_page_access}
use km_os.X86.Lru.Shape.{Lists, Absent, Found, find_lru_total}
use km_os.X86.Lru.Ops.{add_to_lru-Lists, drop_node-Lists, rest-Chain, rest_tail, fewer}

-- The pages listed, in order.
abbrev pub contents : Lru → List ℕ → List ℕ
contents l xs = map (λ p. (l.page p).virtual_addr) xs

-- The list without the first entry that is `a`.
abbrev pub remove_first : ℕ → List ℕ → List ℕ
remove_first a [] = []
remove_first a (x ∷ xs) = if x == a then xs else x ∷ remove_first a xs

remove_first-Absent :
    (l : Lru) (a : ℕ) (xs : List ℕ) → Absent l a xs → remove_first a (contents l xs) ≡ contents l xs
remove_first-Absent l a [] h = refl
remove_first-Absent l a (x ∷ xs) h =
    rw (ne→==-false (l.page x).virtual_addr a h.0, remove_first-Absent l a xs h.1)

remove_first_found :
    (l : Lru) (a p : ℕ) (us vs : List ℕ)
    → Absent l a us
    → (l.page p).virtual_addr ≡ a
    → remove_first a (contents l (us ++ p ∷ vs)) ≡ contents l (us ++ vs)
remove_first_found l a p [] vs h e = rw (eq→== (l.page p).virtual_addr a e)
remove_first_found l a p (u ∷ us) vs h e =
    rw (ne→==-false (l.page u).virtual_addr a h.0, remove_first_found l a p us vs h.1 e)

-- Only the addresses in the nodes matter.
contents_same :
    (l m : Lru) (xs : List ℕ)
    → ((p : ℕ) → (m.page p).virtual_addr ≡ (l.page p).virtual_addr)
    → contents m xs ≡ contents l xs
contents_same l m [] h = refl
contents_same l m (x ∷ xs) h = rw (h x, contents_same l m xs h)

contents-add :
    (l : Lru) (node addr : ℕ) (xs : List ℕ)
    → node ≢ 0
    → Fresh node xs
    → contents (add_to_lru node addr l) xs ≡ contents l xs
unfolding add_to_lru
contents-add l node addr [] n f = refl
contents-add l node addr (x ∷ xs) n f =
    rw (contents-add l node addr xs n f.1, ne→==-false node 0 n, ne→==-false node x f.0)

first-add :
    (l : Lru) (node addr : ℕ) → node ≢ 0 → ((add_to_lru node addr l).page node).virtual_addr ≡ addr
unfolding add_to_lru
first-add l node addr n = rw (ne→==-false node 0 n, eq→== node node refl)

touch-page : (l : Lru) (p q : ℕ) → ((touch p l).page q).virtual_addr ≡ (l.page q).virtual_addr
unfolding touch
touch-page l p q = ground arith

drop_node-page :
    (l : Lru) (p q : ℕ) → ((drop_node p l).page q).virtual_addr ≡ (l.page q).virtual_addr
unfolding drop_node
drop_node-page l p q = refl

-- A page that is used goes to the front.
touch-Lists :
    (l : Lru) (p : ℕ) (us vs : List ℕ) → Lists l (us ++ p ∷ vs) → Lists (touch p l) (p ∷ us ++ vs)
unfolding touch
touch-Lists l p [] vs v = rw (eq→== p l.head (sym (v.chain.0))) (record {
  chain = v.chain;
  distinct = v.distinct;
  tail_last = v.tail_last;
  counted = v.counted;
  bounded = v.bounded;
})
touch-Lists l p (u ∷ us) vs v =
    rw
      (
        ne→==-false p l.head apart,
        rest_tail l p (u ∷ us) vs v,
        ne→==-false (last_or u (us ++ vs)) 0 inhabited,
      )
      (record {
        chain =
            push_front-Chain p l.head (unlink p l.links) (u ∷ us ++ vs) nonnull
              (Distinct-Fresh p (u ∷ us) vs v.distinct) (Distinct-drop p (u ∷ us) vs v.distinct)
              kept;
        distinct =
            (Distinct-Fresh p (u ∷ us) vs v.distinct, Distinct-drop p (u ∷ us) vs v.distinct);
        tail_last = refl;
        counted = omega (arith, v.counted, fewer l p (u ∷ us) vs v);
        bounded = omega (arith, v.bounded, fewer l p (u ∷ us) vs v);
      })
  where
    apart : p ≢ l.head
    apart e = (Distinct-Fresh p (u ∷ us) vs v.distinct).0 (e ∙ v.chain.0)

    nonnull : p ≢ 0
    nonnull = node_nonzero 0 l.head (u ∷ us) v.chain
      where
        node_nonzero : (b h : ℕ) (zs : List ℕ) → Chain l.links b h (zs ++ p ∷ vs) → p ≢ 0
        node_nonzero b h [] c = c.1
        node_nonzero b h (z ∷ zs) c = node_nonzero z (l.links.next z) zs c.3

    kept : Chain (unlink p l.links) 0 l.head (u ∷ us ++ vs)
    kept = rw (ne→==-false p l.head apart) at (rest-Chain l p (u ∷ us) vs v)

    inhabited : last_or u (us ++ vs) ≢ 0
    inhabited = last_nonzero (unlink p l.links) 0 u (us ++ vs) kept.1 kept.3

-- For a well-formed list and fuel above its length, `remove_from_lru` ends, leaves a well-formed
-- list, and its contents are the old ones without the first entry for the page.
pub remove_from_lru_refines :
    (l : Lru) (xs : List ℕ) (fuel addr : ℕ)
    → Lists l xs
    → length xs < fuel
    → (m : Lru) × (ys : List ℕ) × (remove_from_lru fuel addr l ≡ some m)
      × Lists m ys
      × (contents m ys ≡ remove_first addr (contents l xs))
unfolding remove_from_lru
remove_from_lru_refines l xs fuel addr v h = go (find_lru_total fuel l 0 l.head addr xs h v.chain)
  where
    go :
        (q : ℕ) × (find_lru fuel l l.head addr ≡ some q) × Found l addr xs q
        → (m : Lru) × (ys : List ℕ) × (remove_from_lru fuel addr l ≡ some m)
          × Lists m ys
          × (contents m ys ≡ remove_first addr (contents l xs))
    go (q, e, inl f) = (
      l,
      xs,
      rw (e, eq→== q 0 f.0, remove_from_lru) refl,
      v,
      sym (remove_first-Absent l addr xs f.1),
    )
    go (q, e, inr (us, vs, split, before, at_q, n)) = (
      drop_node q l,
      us ++ vs,
      rw (e, ne→==-false q 0 n, remove_from_lru) refl,
      drop_node-Lists l q us vs (subst (Lists l) split v),
      contents_same l (drop_node q l) (us ++ vs) (drop_node-page l q)
          ∙ sym (
              ap (λ t. remove_first addr (contents l t)) split
              ∙ remove_first_found l addr q us vs before at_q),
    )

-- For a well-formed list, fuel above its length, and a node from `kmalloc` that is not null and not
-- in the list: `update_page_access` ends, leaves a well-formed list, and puts the page first, before
-- the old contents without their first entry for it.
pub update_page_access_refines :
    (l : Lru) (xs : List ℕ) (fuel node addr : ℕ)
    → Lists l xs
    → length xs < fuel
    → length xs + 1 < 2 ^ 32
    → node ≢ 0
    → Fresh node xs
    → (m : Lru) × (ys : List ℕ) × (update_page_access fuel node addr l ≡ some m)
      × Lists m ys
      × (contents m ys ≡ addr ∷ remove_first addr (contents l xs))
unfolding update_page_access
update_page_access_refines l xs fuel node addr v h room n0 fresh =
    go (find_lru_total fuel l 0 l.head addr xs h v.chain)
  where
    go :
        (q : ℕ) × (find_lru fuel l l.head addr ≡ some q) × Found l addr xs q
        → (m : Lru) × (ys : List ℕ) × (update_page_access fuel node addr l ≡ some m)
          × Lists m ys
          × (contents m ys ≡ addr ∷ remove_first addr (contents l xs))
    go (q, e, inl f) = (
      add_to_lru node addr l,
      node ∷ xs,
      rw (e, eq→== q 0 f.0, update_page_access) refl,
      add_to_lru-Lists l node addr xs n0 fresh room v,
      rw (
        first-add l node addr n0,
        contents-add l node addr xs n0 fresh,
        remove_first-Absent l addr xs f.1,
      ),
    )
    go (q, e, inr (us, vs, split, before, at_q, n)) = (
      touch q l,
      q ∷ us ++ vs,
      rw (e, ne→==-false q 0 n, update_page_access) refl,
      touch-Lists l q us vs (subst (Lists l) split v),
      rw (touch-page l q q, at_q, contents_same l (touch q l) (us ++ vs) (touch-page l q))
          (ap (λ t. addr ∷ t)
            (sym (
              ap (λ t. remove_first addr (contents l t)) split
              ∙ remove_first_found l addr q us vs before at_q))),
    )
