-- ===== src/Runtime/Strings/Copy.antt =====
-- Copying: `memcpy`, `strcpy` and `strcat` of string.cc between regions that do not overlap.
use km_os.Prelude.{
  ℕ, zero, suc, ◌+◌, ◌^◌, ◌<◌, ◌≤◌, ◌≡◌, ◌≢◌, ◌⊎◌, refl, sym, ap, ◌∙◌, List, [], ◌∷◌, ◌++◌, some,
  arith, ◌==◌, eq→==, ne→==-false, lt→ltb, length, update, Bool-cases, inl, inr, ==→eq, ==-false→ne,
}
use km_os.Runtime.Strings.{Bytes, copy_bytes, memcpy, copy_string, strcpy, strcat}
use km_os.Runtime.Strings.Shape.{CString, strlen_lem}

-- The bytes of `t` are those of `m`, but for `n` bytes at `dest`, which are those of `m` at `src`.
pub record Copied (n : ℕ) (m : Bytes) (dest src : ℕ) (t : Bytes) : Type 0 where
  pub inside : (j : ℕ) → j < n → t (dest + j) ≡ m (src + j)
  pub outside : (q : ℕ) → (q < dest) ⊎ (dest + n ≤ q) → t q ≡ m q

abbrev pub Apart : ℕ → ℕ → ℕ → Type 0
Apart n dest src = (dest + n ≤ src) ⊎ (src + n ≤ dest)

-- After `i` rounds.
abbrev Begun : ℕ → Bytes → ℕ → ℕ → Bytes → Type 0
Begun i m dest src t = Copied i m dest src t

one_more :
    (i n : ℕ) (m t : Bytes) (dest src : ℕ)
    → i < n
    → Apart n dest src
    → Copied i m dest src t
    → Copied (suc i) m dest src (update t (dest + i) (t (src + i)))
one_more i n m t dest src h a c = record {
  inside = λ j l. elim (Bool-cases (dest + i == dest + j)) [
    | inl e ↦ rw e (still ∙ ap (λ k. m (src + k)) (same j (==→eq _ _ e)))
    | inr e ↦ rw e (c.inside j (strictly j l (==-false→ne _ _ e)))
  ];
  outside = λ q o. rw (ne→==-false (dest + i) q (beyond q o)) (c.outside q (wider q o));
}
  where
    same : (j : ℕ) → dest + i ≡ dest + j → i ≡ j
    same j e = omega arith

    strictly : (j : ℕ) → j < suc i → dest + i ≢ dest + j → j < i
    strictly j l e = omega arith

    beyond : (q : ℕ) → (q < dest) ⊎ (dest + suc i ≤ q) → dest + i ≢ q
    beyond q o = omega arith

    wider : (q : ℕ) → (q < dest) ⊎ (dest + suc i ≤ q) → (q < dest) ⊎ (dest + i ≤ q)
    wider q o = omega arith

    still : t (src + i) ≡ m (src + i)
    still = c.outside (src + i) (omega arith)

copy_bytes-Copied :
    (k i n : ℕ) (m t : Bytes) (dest src : ℕ)
    → i + k ≡ n
    → Apart n dest src
    → Copied i m dest src t
    → Copied n m dest src (copy_bytes k i t dest src)
unfolding copy_bytes
copy_bytes-Copied zero i n m t dest src e a c = rw (← e) (rw (plain i) c)
  where
    plain : (x : ℕ) → x + 0 ≡ x
    plain x = omega arith
copy_bytes-Copied (suc k) i n m t dest src e a c =
    copy_bytes-Copied k (i + 1) n m _ dest src (omega arith) a
      (rw (next i) (one_more i n m t dest src (omega arith) a c))
  where
    next : (x : ℕ) → x + 1 ≡ suc x
    next x = omega arith

nothing : (m : Bytes) (dest src : ℕ) → Copied 0 m dest src m
nothing m dest src = record { inside = λ j l. absurd (omega arith); outside = λ q o. refl }

-- For a length below 2^31 and regions that do not overlap, `memcpy` copies the bytes and changes no
-- other.
pub memcpy-Copied :
    (m : Bytes) (dest src n : ℕ)
    → n < 2 ^ 31
    → Apart n dest src
    → Copied n m dest src (memcpy m dest src n)
unfolding memcpy
memcpy-Copied m dest src n h a =
    rw (lt→ltb n (2 ^ 31) h)
      (copy_bytes-Copied n 0 n m m dest src (omega arith) a (nothing m dest src))

copy_string-Copied :
    (fuel i n : ℕ) (m t : Bytes) (dest src p : ℕ) (xs : List ℕ)
    → p ≡ src + i
    → n ≡ i + length xs
    → length xs < fuel
    → Apart (suc n) dest src
    → CString m p xs
    → Copied i m dest src t
    → (u : Bytes) × (copy_string fuel t dest src i ≡ some (n, u)) × Copied (suc n) m dest src u
unfolding copy_string
copy_string-Copied zero i n m t dest src p xs e l h a s c = absurd (omega arith)
copy_string-Copied (suc fuel) i n m t dest src p [] e l h a s c = (
  update t (dest + i) (t (src + i)),
  rw (eq→== _ 0 (c.outside (src + i) (omega arith) ∙ ap m (sym e) ∙ s))
      (ap (λ k. some (k, update t (dest + i) (t (src + i)))) (omega arith)),
  rw (total i n l) (one_more i (suc n) m t dest src (omega arith) a c),
)
  where
    total : (x y : ℕ) → y ≡ x + 0 → y ≡ x
    total x y q = omega arith
copy_string-Copied (suc fuel) i n m t dest src p (x ∷ xs) e l h a s c =
    let r =
      copy_string-Copied fuel (i + 1) n m (update t (dest + i) (t (src + i))) dest src (p + 1) xs
        (omega arith) (omega arith) (omega arith) a s.2
        (rw (next i) (one_more i (suc n) m t dest src (omega arith) a c)) in
    (
      r.0,
      rw
          (ne→==-false _ 0
            (λ z. s.1 (sym (c.outside (src + i) (omega arith) ∙ ap m (sym e) ∙ s.0) ∙ z)))
          r.1,
      r.2,
    )
  where
    next : (y : ℕ) → y + 1 ≡ suc y
    next y = omega arith

Copied-CString :
    (m t : Bytes) (i n dest src p q : ℕ) (xs : List ℕ)
    → p ≡ src + i
    → q ≡ dest + i
    → n ≡ i + length xs
    → Copied (suc n) m dest src t
    → CString m p xs
    → CString t q xs
Copied-CString m t i n dest src p q [] e f l c s =
    ap t f ∙ c.inside i (omega arith) ∙ ap m (sym e) ∙ s
Copied-CString m t i n dest src p q (x ∷ xs) e f l c s = (
  ap t f ∙ c.inside i (omega arith) ∙ ap m (sym e) ∙ s.0,
  s.1,
  Copied-CString m t (i + 1) n dest src (p + 1) (q + 1) xs (omega arith) (omega arith) (omega arith)
      c s.2,
)

-- With fuel above the length, and where the string and its null byte do not overlap the destination:
-- `strcpy` ends, returns the length, leaves the string at the destination and changes no other byte.
pub strcpy_lem :
    (fuel : ℕ) (m : Bytes) (dest src : ℕ) (xs : List ℕ)
    → length xs < fuel
    → Apart (suc (length xs)) dest src
    → CString m src xs
    → (t : Bytes) × (strcpy fuel m dest src ≡ some (length xs, t))
      × CString t dest xs
      × Copied (suc (length xs)) m dest src t
unfolding strcpy
strcpy_lem fuel m dest src xs h a s =
    let r =
      copy_string-Copied fuel 0 (length xs) m m dest src src xs (omega arith) (omega arith) h a s
        (nothing m dest src) in
    (
      r.0,
      r.1,
      Copied-CString m r.0 0 (length xs) dest src src dest xs (omega arith) (omega arith)
          (omega arith) r.2 s,
      r.2,
    )

-- At `p` stand the bytes of `xs`, whatever follows.
abbrev pub Holds : Bytes → ℕ → List ℕ → Type 0
Holds m p [] = Unit {0}
Holds m p (x ∷ xs) = (m p ≡ x) × Holds m (p + 1) xs

CString-Holds : (m : Bytes) (p : ℕ) (xs : List ℕ) → CString m p xs → Holds m p xs
CString-Holds m p [] s = tt
CString-Holds m p (x ∷ xs) s = (s.0, CString-Holds m (p + 1) xs s.2)

Holds-append :
    (m : Bytes) (p q : ℕ) (xs ys : List ℕ)
    → q ≡ p + length xs
    → Holds m p xs
    → Holds m q ys
    → Holds m p (xs ++ ys)
Holds-append m p q [] ys e h k = rw (same e) at k
  where
    same : q ≡ p + 0 → q ≡ p
    same z = omega arith
Holds-append m p q (x ∷ xs) ys e h k = (h.0, Holds-append m (p + 1) q xs ys (omega arith) h.1 k)

Holds-before :
    (m t : Bytes) (n dest src p : ℕ) (xs : List ℕ)
    → p + length xs ≤ dest
    → Copied n m dest src t
    → Holds m p xs
    → Holds t p xs
Holds-before m t n dest src p [] e c h = tt
Holds-before m t n dest src p (x ∷ xs) e c h =
    (c.outside p (omega arith) ∙ h.0, Holds-before m t n dest src (p + 1) xs (omega arith) c h.1)

Holds-Copied :
    (m t : Bytes) (i n dest src p q : ℕ) (xs : List ℕ)
    → p ≡ src + i
    → q ≡ dest + i
    → n ≡ i + length xs
    → Copied n m dest src t
    → Holds m p xs
    → Holds t q xs
Holds-Copied m t i n dest src p q [] e f l c h = tt
Holds-Copied m t i n dest src p q (x ∷ xs) e f l c h = (
  ap t f ∙ c.inside i (omega arith) ∙ ap m (sym e) ∙ h.0,
  Holds-Copied m t (i + 1) n dest src (p + 1) (q + 1) xs (omega arith) (omega arith) (omega arith) c
      h.1,
)

-- With fuel above both lengths, the second below 2^31, and where the bytes of the source do not
-- overlap those appended: `strcat` ends, the bytes of the two strings stand one after the other at the
-- destination, and the byte after them is what it was: no null byte is written.
pub strcat_lem :
    (fuel : ℕ) (m : Bytes) (dest src : ℕ) (xs ys : List ℕ)
    → length xs < fuel
    → length ys < fuel
    → length ys < 2 ^ 31
    → Apart (length ys) (dest + length xs) src
    → CString m dest xs
    → CString m src ys
    → (t : Bytes) × (strcat fuel m dest src ≡ some t)
      × Holds t dest (xs ++ ys)
      × (t (dest + length xs + length ys) ≡ m (dest + length xs + length ys))
unfolding strcat
strcat_lem fuel m dest src xs ys h g b a s r = (
  t,
  rw (strlen_lem fuel m dest xs h s, strlen_lem fuel m src ys g r, strcat) refl,
  Holds-append t dest (dest + length xs) xs ys refl
      (Holds-before m t (length ys) (dest + length xs) src dest xs (omega arith) c
        (CString-Holds m dest xs s))
      (Holds-Copied m t 0 (length ys) (dest + length xs) src src (dest + length xs) ys (omega arith)
        (omega arith) (omega arith) c (CString-Holds m src ys r)),
  c.outside (dest + length xs + length ys) (omega arith),
)
  where
    t : Bytes
    t = memcpy m (dest + length xs) src (length ys)

    c : Copied (length ys) m (dest + length xs) src t
    c = memcpy-Copied m (dest + length xs) src (length ys) b a
