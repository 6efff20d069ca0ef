-- ===== src/Runtime/Buddy/Removing.antt =====
-- Taking a block off a free list: `remove_from_free_list` of src/kernel/runtime/buddy.cc.
use native.Mathlib.Decide.{ℕ_discrete}
use mathlib.Core.Path.{subst}
use km_os.Prelude.{
  ℕ, ◌≤◌, ◌≡◌, ◌≢◌, refl, sym, ◌∙◌, List, [], ◌∷◌, ◌++◌, inl, inr, Bool-cases, if◌then◌else◌, ◌==◌,
  eq→==, ne→==-false, In, Chain, Distinct, Fresh, update, Chain-Agree, unlink, unlink-Chain,
  unlink-Agree, prev_of_first, Distinct-drop, Fresh-zero,
}
use km_os.Runtime.Buddy.{Zone, max_order, remove_from_free_list}
use km_os.Runtime.Buddy.FreeLists.{Free, Lone, Fresh-In, neighbours, other-Fresh, null-Fresh}

module _ (z : Zone) (xs : ℕ → List ℕ) (v : Free z xs) where
  module _ (i b : ℕ) (us vs : List ℕ) (h : i ≤ max_order) (listed : xs i ≡ us ++ b ∷ vs) where
    In-drop : (j y : ℕ) → In y (update xs i (us ++ vs) j) → In y (xs j)
    In-drop j y = elim (ℕ_discrete i j) [
      | yes e ↦ rw (← e, eq→== i i refl, listed) (skip us)
      | no ne ↦ rw (ne→==-false i j ne) (λ m. m)
    ]
      where
        skip : (ws : List ℕ) → In y (ws ++ vs) → In y (ws ++ b ∷ vs)
        skip [] m = inr m
        skip (w ∷ ws) (inl e) = inl e
        skip (w ∷ ws) (inr m) = inr (skip ws m)

    here : (ws : List ℕ) → In b (ws ++ b ∷ vs)
    here [] = inl refl
    here (w ∷ ws) = inr (here ws)

    own : Distinct (us ++ b ∷ vs)
    own = subst Distinct listed (v.distinct i)

    chain : Chain z.links 0 (z.free_lists i) (us ++ b ∷ vs)
    chain = subst (Chain z.links 0 (z.free_lists i)) listed (v.chain i h)

    heads : ℕ → ℕ
    heads = if z.links.prev b == 0 then update z.free_lists i (z.links.next b) else z.free_lists

    heads_here : heads i ≡ (if z.links.prev b == 0 then z.links.next b else z.free_lists i)
    unfolding heads
    heads_here = elim (Bool-cases (z.links.prev b == 0)) [
      | inl q ↦ rw (q, eq→== i i refl) refl
      | inr q ↦ rw q refl
    ]

    heads_other : (j : ℕ) → i ≢ j → heads j ≡ z.free_lists j
    unfolding heads
    heads_other j ne = elim (Bool-cases (z.links.prev b == 0)) [
      | inl q ↦ rw (q, ne→==-false i j ne) refl
      | inr q ↦ rw q refl
    ]

    chain_here : Chain (unlink b z.links) 0 (heads i) (us ++ vs)
    chain_here =
        subst (λ q. Chain (unlink b z.links) 0 q (us ++ vs))
          (prev_of_first z.links b (z.free_lists i) us vs chain ∙ sym heads_here)
          (unlink-Chain z.links b 0 (z.free_lists i) us vs own
            (Fresh-zero z.links 0 (z.free_lists i) (us ++ b ∷ vs) chain) chain)

    chain_other : (j : ℕ) → j ≤ max_order → i ≢ j → Chain (unlink b z.links) 0 (heads j) (xs j)
    chain_other j g ne =
        subst (λ q. Chain (unlink b z.links) 0 q (xs j)) (sym (heads_other j ne))
          (Chain-Agree z.links (unlink b z.links) 0 (z.free_lists j) (xs j)
            (unlink-Agree b z.links (xs j) apart_from.0 apart_from.1) (v.chain j g))
      where
        apart_from : Fresh (z.links.prev b) (xs j) × Fresh (z.links.next b) (xs j)
        apart_from =
            neighbours (λ q. Fresh q (xs j)) z.links b 0 (z.free_lists i) us vs
              (null-Fresh z xs v j g) (null-Fresh z xs v j g)
              (λ x m. other-Fresh z xs v i j x ne (subst (In x) (sym listed) m)) chain

    drop_chain :
        (j : ℕ) → j ≤ max_order → Chain (unlink b z.links) 0 (heads j) (update xs i (us ++ vs) j)
    drop_chain j g = elim (ℕ_discrete i j) [
      | yes e ↦
          subst (λ k. Chain (unlink b z.links) 0 (heads k) (update xs i (us ++ vs) k)) e
            (rw (eq→== i i refl) chain_here)
      | no ne ↦ rw (ne→==-false i j ne) (chain_other j g ne)
    ]

    drop-Distinct : (j : ℕ) → Distinct (update xs i (us ++ vs) j)
    drop-Distinct j = elim (ℕ_discrete i j) [
      | yes e ↦ rw (e, eq→== j j refl) (Distinct-drop b us vs own)
      | no ne ↦ rw (ne→==-false i j ne) (v.distinct j)
    ]

    -- A block of a list comes off it.
    pub remove_from_free_list-Free : Free (remove_from_free_list b i z) (update xs i (us ++ vs))
    unfolding remove_from_free_list heads
    remove_from_free_list-Free = record {
      chain = drop_chain;
      distinct = drop-Distinct;
      apart = λ j k x y m n. v.apart j k x y (In-drop j x m) (In-drop k y n);
      marked = λ j x m. v.marked j x (In-drop j x m);
    }

    -- It shares no byte with those that stay.
    pub removed-Lone : Lone i b (update xs i (us ++ vs))
    removed-Lone j y m =
        elim (v.apart i j b y (subst (In b) (sym listed) (here us)) (In-drop j y m)) [
          | inl e ↦ absurd (gone e.0 e.1 m)
          | inr a ↦ a
        ]
      where
        absent : (ws : List ℕ) → Distinct (ws ++ b ∷ vs) → Fresh b (ws ++ vs)
        absent [] d = d.0
        absent (w ∷ ws) d =
            ((λ q. Fresh-In w b (ws ++ b ∷ vs) d.0 (here ws) (sym q)), absent ws d.1)

        gone : i ≡ j → b ≡ y → In y (update xs i (us ++ vs) j) → ⊥
        gone e f =
            rw (← e, ← f, eq→== i i refl) (λ m'. Fresh-In b b (us ++ vs) (absent us own) m' refl)
