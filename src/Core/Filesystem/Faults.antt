-- ===== src/Core/Filesystem/Faults.antt =====
-- Where `pivot_root` and `path` of src/kernel/core/filesystem.cc do not do what they are for.
use km_os.Prelude.{
  ℕ, suc, ◌≡◌, ◌≢◌, refl, sym, ap, ◌∙◌, List, [], ◌∷◌, some, eq→==, ne→==-false, Fresh,
}
use km_os.Core.Files.{Tree, add_child, new_file, type_directory}
use km_os.Core.Files.Children.{Added, Children, add_child-Added}
use km_os.Core.Files.Creation.{new_file-Children}
use km_os.Core.Filesystem.{
  Filesystem, fault, find_end, move_children, path, pivot_root, skip_slashes, slash, walk,
}

one_move :
    (fuel new_root child : ℕ) (s : Tree)
    → child ≢ 0
    → (add_child new_root child s).1.links.next child ≡ 0
    → move_children (suc (suc fuel)) new_root child s ≡ some (add_child new_root child s).1
unfolding move_children
one_move fuel new_root child s c0 e = rw (ne→==-false child 0 c0, e) refl

pivoting :
    (fuel targetdir : ℕ) (fs : Filesystem) (t : Tree)
    → targetdir ≢ 0
    → move_children fuel
        (new_file (slash ∷ []) type_directory fs.tree).0
        ((new_file (slash ∷ []) type_directory fs.tree).1.file targetdir).child
        (new_file (slash ∷ []) type_directory fs.tree).1
      ≡ some t
    → pivot_root fuel targetdir fs ≡ some ((new_file (slash ∷ []) type_directory fs.tree).0, t)
unfolding pivot_root
pivoting fuel targetdir fs t d0 e = rw (ne→==-false targetdir 0 d0, e) refl

new_childless :
    (p : ℕ) (n : List ℕ) (t : ℕ) (s : Tree) (heap : List ℕ)
    → s.heap ≡ p ∷ heap
    → ((new_file n t s).1.file p).child ≡ 0
unfolding new_file
new_childless p n t s heap e = rw (e, eq→== p p refl) refl

-- `pivot_root` of a directory with the children `x` and `xs`, the new root being an object `p` that is
-- not null, not the directory and not its first child: it returns `p`, but only `x` is
-- moved there. The other children are then neither in the new root nor in the directory, whose
-- only child is `x`.
pub pivot_root-first :
    (fuel targetdir p x : ℕ) (fs : Filesystem) (heap xs : List ℕ)
    → fs.tree.heap ≡ p ∷ heap
    → p ≢ 0
    → targetdir ≢ 0
    → p ≢ targetdir
    → Fresh p (x ∷ xs)
    → Children fs.tree targetdir (x ∷ xs)
    → (t : Tree) × (pivot_root (suc (suc fuel)) targetdir fs ≡ some (p, t))
      × Children t p (x ∷ [])
      × Children t targetdir (x ∷ [])
pivot_root-first fuel targetdir p x fs heap xs e p0 d0 ne f c = (
  t,
  pivoting (suc (suc fuel)) targetdir fs t d0 (
        ap (λ h. move_children (suc (suc fuel)) new.0 h new.1) kept.1.0
        ∙ ap (λ q. move_children (suc (suc fuel)) q x new.1) kept.0
        ∙ one_move fuel p x new.1 c.1 added.children.3)
      ∙ ap (λ q. some (q, t)) kept.0,
  added.children,
  (added.others targetdir (λ z. ne (sym z)) ∙ kept.1.0, c.1, added.children.2, added.children.3),
)
  where
    new : ℕ × Tree
    new = new_file (slash ∷ []) type_directory fs.tree

    kept :
        (new.0 ≡ p)
        × Children new.1 targetdir (x ∷ xs)
        × ((new.1.file p).name ≡ km_os.Core.Files.check_name (slash ∷ []))
    kept = new_file-Children targetdir p (slash ∷ []) type_directory fs.tree heap (x ∷ xs) e ne f c

    t : Tree
    t = (add_child p x new.1).1

    added : Added p x [] new.1 (add_child p x new.1)
    added =
        add_child-Added p x new.1 [] c.1 (λ z. f.0 (sym z)) tt tt
          (new_childless p (slash ∷ []) type_directory fs.tree heap e)

module _ (scan : ℕ → Tree → Tree) where
  -- A path that begins with two slashes and a name makes `path` write outside its buffer, where the root
  -- is a directory: the second slash ends the name before it begins, and its length is -1.
  pub path-doubled_slash :
      (fuel b : ℕ) (bs : List ℕ) (fs : Filesystem)
      → b ≢ 0
      → b ≢ slash
      → fs.root ≢ 0
      → (fs.tree.file fs.root).type ≡ type_directory
      → path scan fuel (slash ∷ slash ∷ b ∷ bs) fs ≡ fault
  unfolding path walk skip_slashes find_end
  path-doubled_slash fuel b bs fs b0 bn r0 e =
      rw (ne→==-false b slash bn, ne→==-false b 0 b0, ne→==-false fs.root 0 r0, e) refl
