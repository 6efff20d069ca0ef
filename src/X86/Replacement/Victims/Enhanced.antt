-- ===== src/X86/Replacement/Victims/Enhanced.antt =====
-- `lru_enhanced_find_victim` on a null-terminated page list.
use km_os.Prelude.{
  ℕ, zero, suc, ◌+◌, ◌%◌, ◌^◌, ◌<◌, ◌≤◌, ◌≡◌, refl, List, [], ◌∷◌, some, arith, Bool-cases, inl,
  inr, ◌⊎◌, if◌then◌else◌, ltb, eq→==, ne→==-false, ltb→lt, ltb-false→le, length, test_bit, Chain,
}
use km_os.X86.Replacement.{Manager, Descriptor, tick}
use km_os.X86.Replacement.Victims.{score_at, calculate_page_score, lowest, lru_enhanced_find_victim}

-- The unlocked pages with their scores. Computing a score advances the clock by one.
abbrev pub scores : (ℕ → Descriptor) → ℕ → List ℕ → List (ℕ × ℕ)
scores page now [] = []
scores page now (x ∷ xs) =
    if test_bit (page x).flags 3
    then scores page now xs
    else (x, score_at now (page x)) ∷ scores page ((now + 1) % 2 ^ 64) xs

abbrev pub AtLeast : ℕ → List (ℕ × ℕ) → Type 0
AtLeast best [] = Unit {0}
AtLeast best ((x, score) ∷ rest) = (best ≤ score) × AtLeast best rest

abbrev pub Among : ℕ → ℕ → List (ℕ × ℕ) → Type 0
Among v score [] = ⊥
Among v score ((x, own) ∷ rest) = ((v ≡ x) × (score ≡ own)) ⊎ Among v score rest

-- `v` beats `best` with the lowest score of all; or nothing beats `best`, and `v` is `old`.
abbrev pub Best : ℕ → ℕ → ℕ → List (ℕ × ℕ) → Type 0
Best best old v ss =
    ((v ≡ old) × AtLeast best ss)
    ⊎ ((score : ℕ) × Among v score ss × (score < best) × AtLeast score ss)

better-Best :
    (best old x score v : ℕ) (ss : List (ℕ × ℕ))
    → score < best
    → Best score x v ss
    → Best best old v ((x, score) ∷ ss)
better-Best best old x score v ss h (inl (e, a)) = inr (score, inl (e, refl), h, (omega arith, a))
better-Best best old x score v ss h (inr (c, m, l, a)) =
    inr (c, inr m, omega arith, (omega arith, a))

same-Best :
    (best old x score v : ℕ) (ss : List (ℕ × ℕ))
    → best ≤ score
    → Best best old v ss
    → Best best old v ((x, score) ∷ ss)
same-Best best old x score v ss h (inl (e, a)) = inl (e, (h, a))
same-Best best old x score v ss h (inr (c, m, l, a)) = inr (c, inr m, l, (omega arith, a))

lowest-Best :
    (fuel best old back p : ℕ) (s : Manager) (xs : List ℕ)
    → length xs < fuel
    → Chain s.links back p xs
    → (v : ℕ) × (t : Manager) × (lowest fuel best old p s ≡ some (v, t))
      × Best best old v (scores s.page s.access_counter xs)
unfolding lowest calculate_page_score
lowest-Best zero best old back p s xs h c = absurd (omega arith)
lowest-Best (suc fuel) best old back p s [] h c = (old, s, rw (eq→== p 0 c) refl, inl (refl, tt))
lowest-Best (suc fuel) best old back p s (x ∷ xs) h c =
    elim (Bool-cases (test_bit (s.page x).flags 3)) [
      | inl locked ↦
          let r = lowest-Best fuel best old x (s.links.next x) s xs (omega arith) c.3 in
          (r.0, r.1, rw (c.0, ne→==-false x 0 c.1, locked) r.2, rw locked r.3)
      | inr free ↦ elim (Bool-cases (ltb (score_at s.access_counter (s.page x)) best)) [
        | inl beats ↦
            let r =
              lowest-Best fuel (score_at s.access_counter (s.page x)) x x (s.links.next x) (tick s)
                xs (omega arith) c.3 in
            (
              r.0,
              r.1,
              rw (c.0, ne→==-false x 0 c.1, free, beats) r.2,
              rw free (better-Best best old x _ r.0 _ (ltb→lt _ _ beats) r.3),
            )
        | inr loses ↦
            let r = lowest-Best fuel best old x (s.links.next x) (tick s) xs (omega arith) c.3 in
            (
              r.0,
              r.1,
              rw (c.0, ne→==-false x 0 c.1, free, loses) r.2,
              rw free (same-Best best old x _ r.0 _ (ltb-false→le _ _ loses) r.3),
            )
      ]
    ]

-- On a null-terminated page list, with fuel above its length, `lru_enhanced_find_victim` ends. Its
-- victim is an unlocked page of the list whose score is below 0xFFFFFFFF and the lowest of all
-- unlocked pages; where there is no such page, it is 0.
pub lru_enhanced_find_victim-Best :
    (fuel : ℕ) (s : Manager) (xs : List ℕ)
    → length xs < fuel
    → Chain s.links 0 s.page_list_head xs
    → (v : ℕ) × (t : Manager) × (lru_enhanced_find_victim fuel s ≡ some (v, t))
      × Best 0xffff_ffff 0 v (scores s.page s.access_counter xs)
unfolding lru_enhanced_find_victim
lru_enhanced_find_victim-Best fuel s xs h c =
    lowest-Best fuel 0xffff_ffff 0 0 s.page_list_head s xs h c
