-- ===== src/Core/Files/Creation.antt =====
-- `File::createChild` of src/kernel/core/file.cc, and `find` after it.
use mathlib.Core.Path.{subst}
use km_os.Prelude.{
  ℕ, suc, ◌≡◌, ◌≢◌, refl, sym, ap, ◌∙◌, List, [], ◌∷◌, some, true, eq→==, ne→==-false, update,
  Agree, Chain-Agree, Links, Fresh, Distinct, same_bytes,
}
use km_os.Core.Files.{Tree, add_child, check_name, create_child, find, find_from, new_file}
use km_os.Core.Files.Children.{Children, add_child-Added}

same_bytes_self : (xs : List ℕ) → same_bytes xs xs ≡ true
same_bytes_self [] = refl
same_bytes_self (x ∷ xs) = rw (eq→== x x refl) (same_bytes_self xs)

cleared :
    (l : Links) (b : ℕ) (xs : List ℕ)
    → Fresh b xs
    → Agree l (record { next = update l.next b 0; prev = update l.prev b 0 }) xs
cleared l b [] f = tt
cleared l b (x ∷ xs) f =
    (rw (ne→==-false b x f.0) refl, rw (ne→==-false b x f.0) refl, cleared l b xs f.1)

-- A new file is on no list.
pub new_file-Children :
    (this p : ℕ) (n : List ℕ) (t : ℕ) (s : Tree) (heap xs : List ℕ)
    → s.heap ≡ p ∷ heap
    → p ≢ this
    → Fresh p xs
    → Children s this xs
    → ((new_file n t s).0 ≡ p)
      × Children (new_file n t s).1 this xs
      × (((new_file n t s).1.file p).name ≡ check_name n)
unfolding new_file
new_file-Children this p n t s heap xs e ne f c =
    rw (e, ne→==-false p this ne, eq→== p p refl)
      (refl, Chain-Agree s.links _ 0 (s.file this).child xs (cleared s.links p xs f) c, refl)

first_named :
    (fuel this p : ℕ) (n : List ℕ) (xs : List ℕ) (s : Tree)
    → Children s this (p ∷ xs)
    → (s.file p).name ≡ n
    → find (suc fuel) this n s ≡ some p
unfolding find find_from
first_named fuel this p n xs s c e = rw (c.0, ne→==-false p 0 c.1, e, same_bytes_self n) refl

creating :
    (this p : ℕ) (n : List ℕ) (t : ℕ) (s : Tree)
    → (new_file n t s).0 ≡ p
    → create_child this n t s ≡ (p, (add_child this p (new_file n t s).1).1)
unfolding create_child
creating this p n t s e = ap (λ q. (q, (add_child this q (new_file n t s).1).1)) e

-- `createChild` puts a new file before the children of `this`, and `find` of its name, as `checkName`
-- leaves it, finds the file. The new file is an object that is not null, not `this` and none of the
-- children.
pub find-create_child :
    (fuel this p : ℕ) (n : List ℕ) (t : ℕ) (s : Tree) (heap xs : List ℕ)
    → s.heap ≡ p ∷ heap
    → p ≢ 0
    → p ≢ this
    → Fresh p xs
    → Distinct xs
    → Children s this xs
    → let r = create_child this n t s in
      (r.0 ≡ p) × Children r.1 this (p ∷ xs) × (find (suc fuel) this (check_name n) r.1 ≡ some p)
find-create_child fuel this p n t s heap xs e p0 ne f d c =
    let new = new_file-Children this p n t s heap xs e ne f c in
    let a = add_child-Added this p (new_file n t s).1 xs p0 ne f d new.1 in
    subst
      (λ r.
        (r.0 ≡ p) × Children r.1 this (p ∷ xs) × (find (suc fuel) this (check_name n) r.1 ≡ some p))
      (sym (creating this p n t s new.0))
      (
        refl,
        a.children,
        first_named fuel this p (check_name n) xs (add_child this p (new_file n t s).1).1 a.children
            (a.names p ∙ new.2),
      )
