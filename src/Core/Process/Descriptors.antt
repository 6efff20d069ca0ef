-- ===== src/Core/Process/Descriptors.antt =====
-- The table of open files of class Process: `addFile`, `getFile` and `deleteFile`.
use km_os.Prelude.{
  ℕ, zero, suc, ◌+◌, ◌-◌, ◌^◌, ◌<◌, ◌≡◌, ◌≢◌, ◌⊎◌, refl, sym, ap, ◌∙◌, arith, false, inl, inr,
  Bool-cases, ◌==◌, eq→==, ne→==-false, ==→eq, ==-false→ne, leb, update,
}
use km_os.Core.Process.{OpenFile, max_file, add_from, add_file, get_file, delete_file}

-- No descriptor is free and nothing changes; or the lowest free one now holds the file.
abbrev pub LowestFree : ℕ → ℕ → (ℕ → OpenFile) → ℕ × (ℕ → OpenFile) → Type 0
LowestFree f m table r =
    (((fd : ℕ) → fd < max_file → (table fd).fp ≢ 0) × (r ≡ (2 ^ 32 - 1, table)))
    ⊎ ((fd : ℕ) × (fd < max_file)
        × ((table fd).fp ≡ 0)
        × ((j : ℕ) → j < fd → (table j).fp ≢ 0)
        × (r ≡ (fd, update table fd (record { mode = m; ptr = 0; fp = f }))))

add_from-LowestFree :
    (k i f m : ℕ) (table : ℕ → OpenFile)
    → f ≢ 0
    → i + k ≡ max_file
    → ((j : ℕ) → j < i → (table j).fp ≢ 0)
    → LowestFree f m table (add_from k i f m table)
unfolding add_from
add_from-LowestFree zero i f m table n e used = inl (λ fd h. used fd (omega arith), refl)
add_from-LowestFree (suc k) i f m table n e used = elim (Bool-cases ((table i).fp == 0)) [
  | inl free ↦ rw (free, ne→==-false f 0 n) (inr (i, omega arith, ==→eq _ _ free, used, refl))
  | inr taken ↦ rw taken (add_from-LowestFree k (i + 1) f m table n (omega arith) (more taken))
]
  where
    more : ((table i).fp == 0) ≡ false → (j : ℕ) → j < i + 1 → (table j).fp ≢ 0
    more t j h = elim (Bool-cases (j == i)) [
      | inl e ↦ rw (==→eq j i e) (==-false→ne _ _ t)
      | inr ne ↦ used j (before j h (==-false→ne j i ne))
    ]
      where
        before : (j : ℕ) → j < i + 1 → j ≢ i → j < i
        before j h n = omega arith

-- `addFile` of a file takes the lowest free descriptor, and if there is none it returns -1 and
-- changes nothing.
pub add_file-LowestFree :
    (f m : ℕ) (table : ℕ → OpenFile) → f ≢ 0 → LowestFree f m table (add_file f m table)
unfolding add_file
add_file-LowestFree f m table n =
    add_from-LowestFree max_file 0 f m table n refl (λ j h. absurd (omega arith))

found :
    (f m fd : ℕ) (table : ℕ → OpenFile)
    → fd < max_file
    → get_file fd (update table fd (record { mode = m; ptr = 0; fp = f })) ≡ f
unfolding get_file
found f m fd table h = rw (low fd h, eq→== fd fd refl) refl
  where
    low : (n : ℕ) → n < max_file → leb max_file n ≡ false
    low n l = ground arith

gone : (fd : ℕ) (table : ℕ → OpenFile) → fd < max_file → get_file fd (delete_file fd table) ≡ 0
unfolding get_file delete_file
gone fd table h = rw (low fd h, eq→== fd fd refl) refl
  where
    low : (n : ℕ) → n < max_file → leb max_file n ≡ false
    low n l = ground arith

-- After `addFile` of a file has returned a descriptor of the table, `getFile` finds the file under it,
-- and after `deleteFile` of the descriptor it finds none.
pub get_file-add_file :
    (f m fd : ℕ) (table : ℕ → OpenFile)
    → f ≢ 0
    → (add_file f m table).0 ≡ fd
    → fd < max_file
    → (get_file fd (add_file f m table).1 ≡ f)
      × (get_file fd (delete_file fd (add_file f m table).1) ≡ 0)
get_file-add_file f m fd table n e h = elim (add_file-LowestFree f m table n) [
  | inl (full, r) ↦ absurd (omega (arith, ap (λ p. p.0) r, e))
  | inr (k, l, free, below, r) ↦ (
    ap (λ p. get_file fd p.1) r
        ∙ ap (λ j. get_file fd (update table j (record { mode = m; ptr = 0; fp = f })))
            (sym (ap (λ p. p.0) r) ∙ e)
        ∙ found f m fd table h,
    gone fd (add_file f m table).1 h,
  )
]
