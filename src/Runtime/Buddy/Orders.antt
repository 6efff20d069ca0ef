-- ===== src/Runtime/Buddy/Orders.antt =====
-- The order that class BuddyAllocator chooses for a size: `get_order`.
use km_os.Prelude.{
  ℕ, zero, suc, ◌+◌, ◌*◌, ◌^◌, ◌<◌, ◌≤◌, ◌≡◌, refl, ap, ◌∙◌, arith, true, ltb, ltb→lt, ltb-false→le,
  Bool-cases, inl, inr,
}
use native.Mathlib.Decide.{ℕ_discrete}
use native.Mathlib.Nat.{pow-suc}
use km_os.Runtime.Buddy.{block_size, max_order, min_block_size, raise_order, get_order}

-- `order` is the least order from `from` on whose blocks hold `size` bytes, or MAX_ORDER.
pub record Fits (from size order : ℕ) : Type 0 where
  pub bounded : order ≤ max_order
  pub holds : order < max_order → size ≤ block_size order
  pub least : (j : ℕ) → from ≤ j → j < order → block_size j < size

doubled : (order : ℕ) → block_size order * 2 ≡ block_size (order + 1)
doubled order = omega (arith, pow-suc 2 order, ap (λ n. 2 ^ n) (next order))
  where
    next : (n : ℕ) → n + 1 ≡ suc n
    next n = omega arith

raise_order-Fits :
    (k size order size_here : ℕ)
    → order + k ≡ max_order
    → size_here ≡ block_size order
    → Fits order size (raise_order k size order size_here)
unfolding raise_order
raise_order-Fits zero size order size_here e h = record {
  bounded = omega arith;
  holds = λ l. absurd (omega arith);
  least = λ j a b. absurd (omega arith);
}
raise_order-Fits (suc k) size order size_here e h = elim (Bool-cases (ltb size_here size)) [
  | inr enough ↦ rw enough (record {
    bounded = omega arith;
    holds = λ l. omega (arith, ltb-false→le size_here size enough);
    least = λ j a b. absurd (omega arith);
  })
  | inl small ↦
      let r =
        raise_order-Fits k size (order + 1) (size_here * 2) (omega arith)
          (ap (λ n. n * 2) h ∙ doubled order) in
      rw small (record { bounded = r.bounded; holds = r.holds; least = below small r.least })
]
  where
    below :
        {o : ℕ}
        → ltb size_here size ≡ true
        → ((j : ℕ) → order + 1 ≤ j → j < o → block_size j < size)
        → (j : ℕ) → order ≤ j
        → j < o
        → block_size j < size
    below small f j a b = elim (ℕ_discrete order j) [
      | yes same ↦ rw (← same) (omega (arith, ltb→lt size_here size small, h))
      | no other ↦ f j (omega arith) b
    ]

-- `get_order` is the least order whose blocks hold the size, or MAX_ORDER if none below it does.
pub get_order-Fits : (size : ℕ) → Fits 0 size (get_order size)
unfolding get_order
get_order-Fits size = raise_order-Fits max_order size 0 min_block_size refl refl
