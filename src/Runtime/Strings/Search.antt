-- ===== src/Runtime/Strings/Search.antt =====
-- Searching a string for a byte: `strchr` of string.cc.
use km_os.Prelude.{
  ℕ, zero, suc, ◌+◌, ◌<◌, ◌≤◌, ◌≡◌, ◌≢◌, ◌⊎◌, refl, sym, ap, ◌∙◌, List, [], ◌∷◌, some, arith, ◌==◌,
  ne→==-false, length, Bool-cases, inl, inr, ==→eq, ==-false→ne,
}
use km_os.Runtime.Strings.{Bytes, strchr}
use km_os.Runtime.Strings.Shape.{CString}

-- `r` is null and no byte of the string is `ch`; or `ch` stands at `r`, the null byte counting as one
-- of the string, and nowhere before.
abbrev pub FirstAt : Bytes → ℕ → ℕ → ℕ → ℕ → Type 0
FirstAt m s n ch r =
    ((r ≡ 0) × ((j : ℕ) → j ≤ n → m (s + j) ≢ ch))
    ⊎ ((i : ℕ) × (i ≤ n) × (r ≡ s + i) × (m r ≡ ch) × ((j : ℕ) → j < i → m (s + j) ≢ ch))

later-FirstAt :
    (m : Bytes) (s n ch r : ℕ) → m s ≢ ch → FirstAt m (s + 1) n ch r → FirstAt m s (suc n) ch r
later-FirstAt m s n ch r ne (inl (e, f)) = inl (e, away)
  where
    away : (j : ℕ) → j ≤ suc n → m (s + j) ≢ ch
    away zero h = rw (plain s) ne
      where
        plain : (x : ℕ) → x + 0 ≡ x
        plain x = omega arith
    away (suc j) h = λ q. f j (omega arith) (ap m (omega arith) ∙ q)
later-FirstAt m s n ch r ne (inr (i, h, e, c, f)) = inr (suc i, omega arith, omega arith, c, away)
  where
    away : (j : ℕ) → j < suc i → m (s + j) ≢ ch
    away zero l = rw (plain s) ne
      where
        plain : (x : ℕ) → x + 0 ≡ x
        plain x = omega arith
    away (suc j) l = λ q. f j (omega arith) (ap m (omega arith) ∙ q)

here-FirstAt : (m : Bytes) (s n ch : ℕ) → m s ≡ ch → FirstAt m s n ch s
here-FirstAt m s n ch e = inr (0, omega arith, omega arith, e, λ j l. absurd (omega arith))

-- With fuel above the length, `strchr` ends and returns the first place of the byte in the string,
-- its null byte included, or null.
pub strchr-FirstAt :
    (fuel : ℕ) (m : Bytes) (s ch : ℕ) (xs : List ℕ)
    → length xs < fuel
    → CString m s xs
    → (r : ℕ) × (strchr fuel m s ch ≡ some r) × FirstAt m s (length xs) ch r
unfolding strchr
strchr-FirstAt zero m s ch xs h c = absurd (omega arith)
strchr-FirstAt (suc fuel) m s ch [] h c = elim (Bool-cases (ch == 0)) [
  | inl null ↦ (s, rw (c, null) refl, here-FirstAt m s 0 ch (c ∙ sym (==→eq ch 0 null)))
  | inr other ↦
      (0, rw (c, other) refl, inl (refl, λ j l q. ==-false→ne ch 0 other (sym q ∙ at_null j l)))
]
  where
    at_null : (j : ℕ) → j ≤ 0 → m (s + j) ≡ 0
    at_null j l = ap m (omega arith) ∙ c
strchr-FirstAt (suc fuel) m s ch (x ∷ xs) h c = elim (Bool-cases (x == ch)) [
  | inl hit ↦ (
    s,
    rw (c.0, ne→==-false x 0 c.1, hit) refl,
    here-FirstAt m s (suc (length xs)) ch (c.0 ∙ ==→eq x ch hit),
  )
  | inr miss ↦
      let r = strchr-FirstAt fuel m (s + 1) ch xs (omega arith) c.2 in
      (
        r.0,
        rw (c.0, ne→==-false x 0 c.1, miss) r.1,
        later-FirstAt m s (length xs) ch r.0 (λ q. ==-false→ne x ch miss (sym c.0 ∙ q)) r.2,
      )
]
