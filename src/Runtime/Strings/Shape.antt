-- ===== src/Runtime/Strings/Shape.antt =====
-- What a C string is, and how `strlen` and `strcmp` of string.cc read it.
use km_os.Prelude.{
  same_bytes, ℕ, zero, suc, ◌+◌, ◌<◌, ◌≡◌, ◌≢◌, refl, sym, ap, ◌∙◌, Bool, true, false, List, [],
  ◌∷◌, some, arith, if◌then◌else◌, ◌==◌, eq→==, ne→==-false, length, Bool-cases, inl, inr,
}
use km_os.Runtime.Strings.{Bytes, count_bytes, strlen, compare_bytes, strcmp}

-- At `s` stand the bytes of `xs`, none of them null, and then a null byte.
abbrev pub CString : Bytes → ℕ → List ℕ → Type 0
CString m s [] = m s ≡ 0
CString m s (x ∷ xs) = (m s ≡ x) × (x ≢ 0) × CString m (s + 1) xs

count_bytes_lem :
    (fuel : ℕ) (m : Bytes) (s i : ℕ) (xs : List ℕ)
    → length xs < fuel
    → CString m s xs
    → count_bytes fuel m s i ≡ some (i + length xs)
unfolding count_bytes
count_bytes_lem zero m s i xs h c = absurd (omega arith)
count_bytes_lem (suc fuel) m s i [] h c = rw (eq→== (m s) 0 c) (ap some (omega arith))
count_bytes_lem (suc fuel) m s i (x ∷ xs) h c =
    rw (ne→==-false (m s) 0 (λ e. c.1 (sym c.0 ∙ e)))
      (count_bytes_lem fuel m (s + 1) (i + 1) xs (omega arith) c.2 ∙ ap some (omega arith))

-- With fuel above the length, `strlen` of a string ends and returns the number of its bytes.
pub strlen_lem :
    (fuel : ℕ) (m : Bytes) (s : ℕ) (xs : List ℕ)
    → length xs < fuel
    → CString m s xs
    → strlen fuel m s ≡ some (length xs)
unfolding strlen
strlen_lem fuel m s xs h c = count_bytes_lem fuel m s 0 xs h c ∙ ap some (omega arith)

abbrev verdict : Bool → ℕ
verdict true = 0
verdict false = 1

compare_bytes_lem :
    (fuel : ℕ) (m : Bytes) (dst src i p q : ℕ) (xs ys : List ℕ)
    → p ≡ dst + i
    → q ≡ src + i
    → length xs < fuel
    → CString m p xs
    → CString m q ys
    → compare_bytes fuel m dst src i ≡ some (verdict (same_bytes xs ys))
unfolding compare_bytes
compare_bytes_lem zero m dst src i p q xs ys e f h c d = absurd (omega arith)
compare_bytes_lem (suc fuel) m dst src i p q [] [] e f h c d = rw (← e, ← f, c, d) refl
compare_bytes_lem (suc fuel) m dst src i p q [] (y ∷ ys) e f h c d =
    rw (← e, ← f, c, d.0, ne→==-false 0 y (λ z. d.1 (sym z))) refl
compare_bytes_lem (suc fuel) m dst src i p q (x ∷ xs) [] e f h c d =
    rw (← e, ← f, c.0, d, ne→==-false x 0 c.1) refl
compare_bytes_lem (suc fuel) m dst src i p q (x ∷ xs) (y ∷ ys) e f h c d =
    elim (Bool-cases (x == y)) [
      | inl same ↦
          rw (← e, ← f, c.0, d.0, same, ne→==-false y 0 d.1)
            (compare_bytes_lem fuel m dst src (i + 1) (p + 1) (q + 1) xs ys (omega arith)
              (omega arith) (omega arith) c.2 d.2)
      | inr other ↦ rw (← e, ← f, c.0, d.0, other) refl
    ]

-- With fuel above the first length, `strcmp` of two strings ends; it returns 0 if they have the same
-- bytes, and 1 if not.
pub strcmp_lem :
    (fuel : ℕ) (m : Bytes) (dst src : ℕ) (xs ys : List ℕ)
    → length xs < fuel
    → CString m dst xs
    → CString m src ys
    → strcmp fuel m dst src ≡ some (if same_bytes xs ys then 0 else 1)
unfolding strcmp
strcmp_lem fuel m dst src xs ys h c d =
    compare_bytes_lem fuel m dst src 0 dst src xs ys (omega arith) (omega arith) h c d
    ∙ ap some (said (same_bytes xs ys))
  where
    said : (b : Bool) → verdict b ≡ (if b then 0 else 1)
    said true = refl
    said false = refl
