-- ===== src/Core/Files/Names.antt =====
-- `File::checkName` of src/kernel/core/file.cc.
use km_os.Prelude.{
  ℕ, suc, ◌≡◌, ◌≢◌, refl, ap, ◌∙◌, List, [], ◌∷◌, arith, Bool, true, false, if◌then◌else◌, ◌==◌,
  ne→==-false, ==-false→ne, length, Fresh,
}
use km_os.Core.Files.{check_name, replace_all, str_replace, char_replacement, invalid_chars}

-- No character of the name is among `bad`.
abbrev pub Without : List ℕ → List ℕ → Type 0
Without bad [] = Unit {0}
Without bad (c ∷ cs) = Fresh c bad × Without bad cs

one_char :
    (a to c : ℕ) (bad : List ℕ)
    → to ≢ a
    → Fresh to bad
    → Fresh c bad
    → Fresh (if c == a then to else c) (a ∷ bad)
one_char a to c bad ne f g = by_test (c == a) refl
  where
    by_test : (b : Bool) → (c == a) ≡ b → Fresh (if b then to else c) (a ∷ bad)
    by_test true e = (ne, f)
    by_test false e = (==-false→ne c a e, g)

-- A pass takes its own character away and brings no other back.
str_replace-Without :
    (a to : ℕ) (bad name : List ℕ)
    → to ≢ a
    → Fresh to bad
    → Without bad name
    → Without (a ∷ bad) (str_replace a to name)
str_replace-Without a to bad [] ne f w = tt
str_replace-Without a to bad (c ∷ cs) ne f w =
    (one_char a to c bad ne f w.0, str_replace-Without a to bad cs ne f w.1)

str_replace-length : (a to : ℕ) (name : List ℕ) → length (str_replace a to name) ≡ length name
str_replace-length a to [] = refl
str_replace-length a to (c ∷ cs) = ap suc (str_replace-length a to cs)

-- A name without the character is kept.
str_replace-same : (a to : ℕ) (name : List ℕ) → Without (a ∷ []) name → str_replace a to name ≡ name
str_replace-same a to [] w = refl
str_replace-same a to (c ∷ cs) w =
    rw (ne→==-false c a w.0.0) (ap (λ zs. c ∷ zs) (str_replace-same a to cs w.1))

abbrev reverse_onto : List ℕ → List ℕ → List ℕ
reverse_onto [] ys = ys
reverse_onto (x ∷ xs) ys = reverse_onto xs (x ∷ ys)

replace_all-Without :
    (cs bad name : List ℕ)
    → Fresh char_replacement cs
    → Fresh char_replacement bad
    → Without bad name
    → Without (reverse_onto cs bad) (replace_all cs name)
unfolding replace_all
replace_all-Without [] bad name f g w = w
replace_all-Without (c ∷ cs) bad name f g w =
    replace_all-Without cs (c ∷ bad) (str_replace c char_replacement name) f.1 (f.0, g)
      (str_replace-Without c char_replacement bad name f.0 g w)

replace_all-length : (cs name : List ℕ) → length (replace_all cs name) ≡ length name
unfolding replace_all
replace_all-length [] name = refl
replace_all-length (c ∷ cs) name =
    replace_all-length cs (str_replace c char_replacement name)
    ∙ str_replace-length c char_replacement name

split_first :
    (a : ℕ) (bad name : List ℕ) → Without (a ∷ bad) name → Without (a ∷ []) name × Without bad name
split_first a bad [] w = (tt, tt)
split_first a bad (c ∷ cs) w =
    let r = split_first a bad cs w.1 in (((w.0.0, tt), r.0), (w.0.1, r.1))

replace_all-same : (cs name : List ℕ) → Without cs name → replace_all cs name ≡ name
unfolding replace_all
replace_all-same [] name w = refl
replace_all-same (c ∷ cs) name w =
    let r = split_first c cs name w in
    ap (replace_all cs) (str_replace-same c char_replacement name r.0)
    ∙ replace_all-same cs name r.1

-- A name as `checkName` leaves it: the length is that of `name`, and the eight characters are gone.
pub record Checked (name out : List ℕ) : Type 0 where
  pub clean : Without (34 ∷ 42 ∷ 60 ∷ 62 ∷ 58 ∷ 63 ∷ 92 ∷ 47 ∷ []) out
  pub same_length : length out ≡ length name
  pub stable : check_name out ≡ out

in_order :
    (name : List ℕ)
    → Without (34 ∷ 42 ∷ 60 ∷ 62 ∷ 58 ∷ 63 ∷ 92 ∷ 47 ∷ []) name
    → Without invalid_chars name
in_order [] w = tt
in_order (c ∷ cs) w =
    let h = w.0 in
    (
      (
        h.1.1.1.1.1.1.1.0,
        (
          h.1.1.1.1.1.1.0,
          (h.1.1.1.1.1.0, (h.1.1.1.1.0, (h.1.1.1.0, (h.1.1.0, (h.1.0, (h.0, tt)))))),
        ),
      ),
      in_order cs w.1,
    )

-- `checkName` leaves a name of the same length with none of `/`, `\`, `?`, `:`, `>`, `<`, `*` and `"`, and
-- a second `checkName` changes nothing.
pub check_name-Checked : (name : List ℕ) → Checked name (check_name name)
unfolding check_name
check_name-Checked name = record {
  clean = clean;
  same_length = replace_all-length invalid_chars name;
  stable =
      replace_all-same invalid_chars (replace_all invalid_chars name)
        (in_order (replace_all invalid_chars name) clean);
}
  where
    underscore : Fresh char_replacement invalid_chars
    underscore = (
      omega arith,
      (
        omega arith,
        (
          omega arith,
          (omega arith, (omega arith, (omega arith, (omega arith, (omega arith, tt))))),
        ),
      ),
    )

    nothing : (cs : List ℕ) → Without [] cs
    nothing [] = tt
    nothing (c ∷ cs) = (tt, nothing cs)

    clean : Without (34 ∷ 42 ∷ 60 ∷ 62 ∷ 58 ∷ 63 ∷ 92 ∷ 47 ∷ []) (replace_all invalid_chars name)
    clean = replace_all-Without invalid_chars [] name underscore tt (nothing name)
