-- ===== src/Core/Filesystem/Tests.antt =====
-- A file system with the root at 10, whose children 20 ("a") and 30 ("b") are directories.
use mathlib.Core.Path.{◌≡◌, refl}
use km_os.Prelude.{ℕ, ◌≡◌, List, [], ◌∷◌, some, arith, if◌then◌else◌, ◌==◌}
use km_os.Core.Files.{File, Tree, type_directory}
use km_os.Core.Files.Children.{Children}
use km_os.Core.Filesystem.{Filesystem, MountInfo, ended, fault, path, path_step, pivot_root}
use km_os.Core.Filesystem.Paths.{path-resolve, resolve}
use km_os.Core.Filesystem.Faults.{path-doubled_slash, pivot_root-first}

abbrev directory : List ℕ → ℕ → ℕ → File
directory name parent child = record {
  name = name;
  size = 0;
  type = type_directory;
  inode = 0;
  link = 0;
  master = 0;
  parent = parent;
  child = child;
  map_memory = 0;
}

abbrev two_files : Tree
two_files = record {
  file = λ p.
      if p == 10
      then directory (95 ∷ []) 0 20
      else if p == 20
      then directory (97 ∷ []) 10 0
      else directory (98 ∷ []) 10 0;
  links = record { next = λ p. if p == 20 then 30 else 0; prev = λ p. if p == 30 then 20 else 0 };
  inode_system = 3;
  pcurrent = 0;
  heap = 40 ∷ [];
}

abbrev nowhere : MountInfo
nowhere = record { path = []; driver = 0; device = 0; mount_point = 0 }

abbrev small : Filesystem
small = record {
  tree = two_files;
  drivers = λ i. 0;
  driver_count = 0;
  mounts = λ i. nowhere;
  mount_count = 0;
  root = 10;
  dev = 0;
  var = 0;
  current_dir = λ p. 20;
}

abbrev no_scan : ℕ → Tree → Tree
no_scan f s = s

-- A driver that mounts nothing of its own.
abbrev same_mount : ℕ → ℕ → ℕ → Tree → ℕ × Tree
same_mount driver mp device s = (mp, s)

path-resolve_example :
    path no_scan 3 (47 ∷ 98 ∷ 47 ∷ 46 ∷ []) small
    ≡ resolve (path_step no_scan 3) ((98 ∷ []) ∷ (46 ∷ []) ∷ []) 10 two_files
path-resolve_example =
    path-resolve no_scan 3 (98 ∷ []) ((46 ∷ []) ∷ []) small ((omega arith, omega arith), tt)
      (((omega arith, omega arith), tt), tt)

pivot_root-first_example :
    (t : Tree) × (pivot_root 2 10 small ≡ some (40, t))
    × Children t 40 (20 ∷ [])
    × Children t 10 (20 ∷ [])
pivot_root-first_example =
    pivot_root-first 0 10 40 20 small [] (30 ∷ []) refl (omega arith) (omega arith) (omega arith)
      (omega arith, (omega arith, tt)) (refl, omega arith, refl, (refl, omega arith, refl, refl))

path-doubled_slash_example : path no_scan 3 (47 ∷ 47 ∷ 97 ∷ []) small ≡ fault
path-doubled_slash_example =
    path-doubled_slash no_scan 3 97 [] small (omega arith) (omega arith) (omega arith) refl

-- "/a" and "/a/.."
finds : path no_scan 3 (47 ∷ 97 ∷ []) small ≡ ended 20 [] two_files
unfolding path
finds = refl

goes_up : path no_scan 3 (47 ∷ 97 ∷ 47 ∷ 46 ∷ 46 ∷ []) small ≡ ended 10 [] two_files
unfolding path
goes_up = refl

-- A relative path begins at the root where no process runs.
relative : path no_scan 3 (98 ∷ []) small ≡ ended 30 [] two_files
unfolding path
relative = refl

-- ".." at the root leads to the null pointer, and the next name through it.
above_root : path no_scan 3 (47 ∷ 46 ∷ 46 ∷ 47 ∷ 97 ∷ []) small ≡ fault
unfolding path
above_root = refl
