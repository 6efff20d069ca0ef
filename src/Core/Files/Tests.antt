-- ===== src/Core/Files/Tests.antt =====
-- A directory at 10 with the children 20 and 30.
use mathlib.Core.Path.{◌≡◌, refl}
use km_os.Prelude.{ℕ, List, [], ◌∷◌, some, none, arith, if◌then◌else◌, ◌==◌}
use km_os.Core.Files.{
  File, Tree, check_name, detach, create_child, delete, find, type_directory, type_file,
}
use km_os.Core.Files.Children.{Children, Deleted, delete-Deleted}
use km_os.Core.Files.Names.{Checked, check_name-Checked}
use km_os.Core.Files.Creation.{find-create_child}

abbrev entry : List ℕ → ℕ → ℕ → ℕ → File
entry name type parent child = record {
  name = name;
  size = 0;
  type = type;
  inode = 0;
  link = 0;
  master = 0;
  parent = parent;
  child = child;
  map_memory = 0;
}

abbrev two_files : Tree
two_files = record {
  file = λ p.
      if p == 10
      then entry (47 ∷ []) type_directory 0 20
      else if p == 20
      then entry (97 ∷ []) type_file 10 0
      else entry (98 ∷ []) type_file 10 0;
  links = record { next = λ p. if p == 20 then 30 else 0; prev = λ p. if p == 30 then 20 else 0 };
  inode_system = 3;
  pcurrent = 0;
  heap = 40 ∷ [];
}

check_name-Checked_example : Checked (97 ∷ 47 ∷ []) (check_name (97 ∷ 47 ∷ []))
check_name-Checked_example = check_name-Checked (97 ∷ 47 ∷ [])

delete-Deleted_example : Deleted 20 10 [] (30 ∷ []) two_files (delete 2 20 two_files)
delete-Deleted_example =
    delete-Deleted 0 20 10 two_files [] (30 ∷ []) (omega arith) (omega arith) refl refl
      ((omega arith, tt), (tt, tt)) (refl, omega arith, refl, (refl, omega arith, refl, refl))

find-create_child_example :
    ((create_child 10 (99 ∷ []) type_file two_files).0 ≡ 40)
    × Children (create_child 10 (99 ∷ []) type_file two_files).1 10 (40 ∷ 20 ∷ 30 ∷ [])
    × (find 4 10 (check_name (99 ∷ [])) (create_child 10 (99 ∷ []) type_file two_files).1 ≡ some 40)
find-create_child_example =
    find-create_child 3 10 40 (99 ∷ []) type_file two_files [] (20 ∷ 30 ∷ []) refl (omega arith)
      (omega arith) (omega arith, (omega arith, tt)) ((omega arith, tt), (tt, tt))
      (refl, omega arith, refl, (refl, omega arith, refl, refl))

-- "a/b" becomes "a_b".
slash : check_name (97 ∷ 47 ∷ 98 ∷ []) ≡ 97 ∷ 95 ∷ 98 ∷ []
unfolding check_name
slash = refl

-- A file without a parent that is nobody's successor cannot be deleted: its destructor writes to the
-- parent.
root_faults : delete 5 10 two_files ≡ none
unfolding delete detach
root_faults = refl
