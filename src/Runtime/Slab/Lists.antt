-- ===== src/Runtime/Slab/Lists.antt =====
-- The three lists of slabs of a cache in src/kernel/runtime/slab.cc, and a slab that moves from one to
-- another.
use km_os.Prelude.{
  ℕ, sym, List, [], ◌∷◌, ◌++◌, Chain, Chain-Agree, Links, Fresh, Distinct, unlink, unlink-Agree,
  push_front-Agree, Distinct-Fresh, Distinct-drop, Fresh-zero,
}
use km_os.Runtime.Slab.{move_slab}
use km_os.Runtime.Slab.Moves.{
  Foreign, Foreign-at, Foreign-drop, Foreign-flip, first-Foreign, move_slab-Chain, next-Foreign,
  prev-Foreign,
}

-- Three null-terminated lists that share no node.
pub record Three (a b d : ℕ) (xs ys zs : List ℕ) (l : Links) : Type 0 where
  pub first : Chain l 0 a xs
  pub second : Chain l 0 b ys
  pub third : Chain l 0 d zs
  pub distinct : Distinct xs
  pub distinct_second : Distinct ys
  pub distinct_third : Distinct zs
  pub first_second : Foreign xs ys
  pub first_third : Foreign xs zs
  pub second_third : Foreign ys zs

Foreign-nil : (xs : List ℕ) → Foreign xs []
Foreign-nil [] = tt
Foreign-nil (x ∷ xs) = (tt, Foreign-nil xs)

Foreign-cons : (x : ℕ) (xs ys : List ℕ) → Fresh x xs → Foreign xs ys → Foreign xs (x ∷ ys)
Foreign-cons x [] ys f g = tt
Foreign-cons x (z ∷ xs) ys f g = (((λ e. f.0 (sym e)), g.0), Foreign-cons x xs ys f.1 g.1)

Foreign-sym : (xs ys : List ℕ) → Foreign xs ys → Foreign ys xs
Foreign-sym xs [] f = tt
Foreign-sym xs (y ∷ ys) f = let r = Foreign-flip y xs ys f in (r.0, Foreign-sym xs ys r.1)

pub swap_lists :
    (a b d : ℕ) (xs ys zs : List ℕ) (l : Links) → Three a b d xs ys zs l → Three b a d ys xs zs l
swap_lists a b d xs ys zs l t = record {
  first = t.second;
  second = t.first;
  third = t.third;
  distinct = t.distinct_second;
  distinct_second = t.distinct;
  distinct_third = t.distinct_third;
  first_second = Foreign-sym xs ys t.first_second;
  first_third = t.second_third;
  second_third = t.first_third;
}

pub turn_lists :
    (a b d : ℕ) (xs ys zs : List ℕ) (l : Links) → Three a b d xs ys zs l → Three b d a ys zs xs l
turn_lists a b d xs ys zs l t = record {
  first = t.second;
  second = t.third;
  third = t.first;
  distinct = t.distinct_second;
  distinct_second = t.distinct_third;
  distinct_third = t.distinct;
  first_second = t.second_third;
  first_third = Foreign-sym xs ys t.first_second;
  second_third = Foreign-sym xs zs t.first_third;
}

-- The slab `p` moves from the first list to the front of the second; the third stays.
pub move_slab-Three :
    (p a b d : ℕ) (us vs ys zs : List ℕ) (l : Links)
    → Three a b d (us ++ p ∷ vs) ys zs l
    → let m = move_slab a b p l in Three m.from m.to d (us ++ vs) (p ∷ ys) zs m.links
unfolding move_slab
move_slab-Three p a b d us vs ys zs l t = record {
  first = moved.0;
  second = moved.1;
  third =
      Chain-Agree (unlink p l) _ 0 d zs
        (push_front-Agree p b (unlink p l) zs (Foreign-at p us vs zs t.first_third)
          (first-Foreign l 0 b ys zs t.second nulls (Foreign-sym ys zs t.second_third)))
        (Chain-Agree l (unlink p l) 0 d zs
          (unlink-Agree p l zs (prev-Foreign l p 0 a us vs zs t.first nulls t.first_third)
            (next-Foreign l p 0 a us vs zs t.first nulls t.first_third))
          t.third);
  distinct = Distinct-drop p us vs t.distinct;
  distinct_second = (Foreign-at p us vs ys t.first_second, t.distinct_second);
  distinct_third = t.distinct_third;
  first_second =
      Foreign-cons p (us ++ vs) ys (Distinct-Fresh p us vs t.distinct)
        (Foreign-drop p us vs ys t.first_second);
  first_third = Foreign-drop p us vs zs t.first_third;
  second_third = (Foreign-at p us vs zs t.first_third, t.second_third);
}
  where
    nulls : Fresh 0 zs
    nulls = Fresh-zero l 0 d zs t.third

    moved :
        let m = move_slab a b p l in
        Chain m.links 0 m.from (us ++ vs) × Chain m.links 0 m.to (p ∷ ys)
    moved = move_slab-Chain p a b us vs ys l (record {
      chain = t.first;
      other = t.second;
      distinct = t.distinct;
      distinct_other = t.distinct_second;
      foreign = t.first_second;
    })
