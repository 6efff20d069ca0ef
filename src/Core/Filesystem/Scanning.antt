-- ===== src/Core/Filesystem/Scanning.antt =====
-- How `Filesystem::path` of src/kernel/core/filesystem.cc reads the bytes of a path.
use mathlib.Core.Path.{subst}
use km_os.Prelude.{
  ℕ, zero, suc, ◌+◌, ◌-◌, ◌<◌, ◌≡◌, ◌≢◌, refl, ap, List, [], ◌∷◌, ◌++◌, arith, ne→==-false, length,
  length-append, get_or, All,
}
use km_os.Core.Filesystem.{bytes_from, find_end, skip_slashes, slash}

-- A name: one byte or more, none of them 0 or a slash.
abbrev pub Plain : List ℕ → Type 0
Plain c = All (λ b. (b ≢ 0) × (b ≢ slash)) c

abbrev pub Name : List ℕ → Type 0
Name [] = ⊥
Name (b ∷ bs) = Plain (b ∷ bs)

-- The absolute path of a list of names.
abbrev pub absolute : List (List ℕ) → List ℕ
absolute [] = []
absolute (c ∷ cs) = slash ∷ (c ++ absolute cs)

-- What is at the index `i` and after it.
abbrev pub Reads : List ℕ → ℕ → List ℕ → Type 0
Reads p i [] = get_or p i 0 ≡ 0
Reads p i (x ∷ xs) = (get_or p i 0 ≡ x) × Reads p (i + 1) xs

pub Reads-cons : (x i : ℕ) (p xs : List ℕ) → Reads p i xs → Reads (x ∷ p) (suc i) xs
Reads-cons x i p [] r = r
Reads-cons x i p (y ∷ ys) r =
    (r.0, subst (λ k. Reads (x ∷ p) k ys) (omega arith) (Reads-cons x (i + 1) p ys r.1))

pub Reads-all : (p : List ℕ) → Reads p 0 p
Reads-all [] = refl
Reads-all (x ∷ p) =
    (refl, subst (λ k. Reads (x ∷ p) k p) (omega arith) (Reads-cons x 0 p p (Reads-all p)))

pub Reads-after :
    (p : List ℕ) (i : ℕ) (xs ys : List ℕ) → Reads p i (xs ++ ys) → Reads p (i + length xs) ys
Reads-after p i [] ys r = subst (λ k. Reads p k ys) (omega arith) r
Reads-after p i (x ∷ xs) ys r =
    subst (λ k. Reads p k ys) (omega arith) (Reads-after p (i + 1) xs ys r.1)

pub bytes_from-Reads :
    (p : List ℕ) (i : ℕ) (xs ys : List ℕ) → Reads p i (xs ++ ys) → bytes_from (length xs) i p ≡ xs
unfolding bytes_from
bytes_from-Reads p i [] ys r = refl
bytes_from-Reads p i (x ∷ xs) ys r =
    rw (r.0) (ap (λ zs. x ∷ zs) (bytes_from-Reads p (i + 1) xs ys r.1))

pub find_end-Reads :
    (k i : ℕ) (p c : List ℕ) (cs : List (List ℕ))
    → length c < k
    → Plain c
    → Reads p i (c ++ absolute cs)
    → find_end k i p ≡ i + length c
unfolding find_end
find_end-Reads zero i p c cs h v r = absurd (omega arith)
find_end-Reads (suc k) i p [] [] h v r = rw (r) (omega arith)
find_end-Reads (suc k) i p [] (d ∷ cs) h v r = rw (r.0) (omega arith)
find_end-Reads (suc k) i p (x ∷ c) cs h v r =
    rw (r.0, ne→==-false x 0 v.0.0, ne→==-false x slash v.0.1)
      (omega (arith, find_end-Reads k (i + 1) p c cs (omega arith) v.1 r.1))

pub skip_none : (k i : ℕ) (p : List ℕ) → get_or p i 0 ≢ slash → skip_slashes k i p ≡ i
unfolding skip_slashes
skip_none zero i p h = refl
skip_none (suc k) i p h = rw (ne→==-false (get_or p i 0) slash h) refl

pub skip_one :
    (k i : ℕ) (p : List ℕ)
    → 0 < k
    → get_or p i 0 ≡ slash
    → get_or p (i + 1) 0 ≢ slash
    → skip_slashes k i p ≡ i + 1
unfolding skip_slashes
skip_one zero i p h e ne = absurd (omega arith)
skip_one (suc k) i p h e ne = rw (e) (skip_none k (i + 1) p ne)

-- The state of the loop with the names `c` and `cs` ahead.
pub record Ahead (p : List ℕ) (i : ℕ) (c : List ℕ) (cs : List (List ℕ)) : Type 0 where
  pub reads : Reads p i (c ++ absolute cs)
  pub size : i + length (c ++ absolute cs) ≡ length p
  pub name : Name c
  pub names : All Name cs
  pub begun : 0 < i

pub Name-Plain : (c : List ℕ) → Name c → Plain c
Name-Plain [] n = absurd n
Name-Plain (b ∷ bs) n = n

pub end_of :
    (p c : List ℕ) (i : ℕ) (cs : List (List ℕ))
    → Ahead p i c cs
    → find_end (length p) i p ≡ i + length c
end_of p c i cs a =
    find_end-Reads (length p) i p c cs
      (omega (arith, a.size, a.begun, length-append c (absolute cs))) (Name-Plain c a.name) a.reads

pub next_name :
    (p c : List ℕ) (i : ℕ) (d : List ℕ) (ds : List (List ℕ))
    → Ahead p i c (d ∷ ds)
    → Ahead p (i + length c + 1) d ds
next_name p c i d ds a = record {
  reads = (Reads-after p i c (absolute (d ∷ ds)) a.reads).1;
  size = omega (arith, a.size, length-append c (absolute (d ∷ ds)));
  name = a.names.0;
  names = a.names.1;
  begun = omega arith;
}

pub first_byte :
    (p : List ℕ) (i : ℕ) (c : List ℕ) (cs : List (List ℕ))
    → Ahead p i c cs
    → (get_or p i 0 ≢ 0) × (get_or p i 0 ≢ slash)
first_byte p i [] cs a = absurd a.name
first_byte p i (b ∷ bs) cs a = (rw (a.reads.0) a.name.0.0, rw (a.reads.0) a.name.0.1)

pub cut : (i n : ℕ) → i + n - i ≡ n
cut i n = omega arith
