-- ===== src/Core/Filesystem.antt =====
-- Class Filesystem of src/kernel/core/filesystem.cc: paths, links, drivers and mounts. A path is the bytes
-- of the string. `fault` is an access through the null pointer or outside a buffer, `running` a search
-- along a list of children that takes more than `fuel` steps. The code of the drivers is not here:
-- `scan` is what `File::scan` of a file does to the tree, `driver_name` and `driver_mount` are a driver's
-- `name` and `mount`.
pub mod Scanning
pub mod Paths
pub mod Mounts
pub mod Faults
pub mod Bounds
mod Tests
use km_os.Prelude.{
  ℕ, zero, suc, ◌+◌, ◌-◌, List, [], ◌∷◌, Option, none, some, Bool, true, false, ◌&&◌, ◌||◌, not,
  if◌then◌else◌, ◌==◌, ltb, leb, update, get_or, length, same_bytes, u32_mod,
}
use km_os.Core.Files.{
  Tree, add_child, create_child, find, new_file, put_file, return_ok, type_directory, type_device,
  type_link,
}

abbrev pub k_max_drivers : ℕ
k_max_drivers = 8

abbrev pub k_max_mounts : ℕ
k_max_mounts = 8

-- `sizeof(info.path)`
abbrev pub path_size : ℕ
path_size = 128

abbrev pub error_param : ℕ
error_param = u32_mod - 4

-- `Filesystem::MountInfo`; the path is its bytes up to the null byte.
pub record MountInfo : Type 0 where
  pub path : List ℕ
  pub driver : ℕ
  pub device : ℕ
  pub mount_point : ℕ

-- Class Filesystem, with the files and the directories of the processes.
pub record Filesystem : Type 0 where
  pub tree : Tree
  pub drivers : ℕ → ℕ
  pub driver_count : ℕ
  pub mounts : ℕ → MountInfo
  pub mount_count : ℕ
  pub root : ℕ
  pub dev : ℕ
  pub var : ℕ
  pub current_dir : ℕ → ℕ

-- The end of a walk along a path: the file, 0 for none, with what was written to `fname`.
pub data Walk : Type 0 where
  ended : ℕ → List ℕ → Tree → Walk
  fault : Walk
  running : Walk

-- One name of a path: on to the next file, or the end.
pub data Step : Type 0 where
  go : ℕ → Tree → Step
  stop : Walk → Step

abbrev pub slash : ℕ
slash = 47

-- `while (*beg_p == '/') beg_p++`, with at most `k` rounds; the length of the path is enough.
unfoldable pub skip_slashes : ℕ → ℕ → List ℕ → ℕ
skip_slashes zero i p = i
skip_slashes (suc k) i p =
    let rest = skip_slashes k (i + 1) p in if get_or p i 0 == slash then rest else i

-- `while (*end_p != '\0' && *end_p != '/') end_p++`
unfoldable pub find_end : ℕ → ℕ → List ℕ → ℕ
find_end zero i p = i
find_end (suc k) i p =
    let rest = find_end k (i + 1) p in
    if get_or p i 0 == 0 then i else if get_or p i 0 == slash then i else rest

-- `n` bytes from `i` on.
unfoldable pub bytes_from : ℕ → ℕ → List ℕ → List ℕ
bytes_from zero i p = []
bytes_from (suc n) i p = get_or p i 0 ∷ bytes_from n (i + 1) p

-- The target of a link, or the file.
abbrev pub follow : ℕ → Tree → ℕ
follow found s =
    if (s.file found).type == type_link && not ((s.file found).link == 0)
    then (s.file found).link
    else found

-- The loop of `path` and `path_parent`, `step` being what it does with a name; each round takes a byte of
-- the path at least, so that its length and one more rounds are enough.
unfoldable pub walk : (List ℕ → ℕ → Tree → Step) → ℕ → List ℕ → ℕ → ℕ → ℕ → Tree → Walk
unfolding skip_slashes find_end bytes_from
walk step zero p beg end_p fp s = running
walk step (suc k) p beg end_p fp s =
    let stop_at = find_end (length p) end_p p in
    let next = skip_slashes (length p) stop_at p in
    if get_or p beg 0 == 0
    then ended fp [] s
    else if fp == 0
    then fault
    else if (s.file fp).type == type_directory
    then (if ltb stop_at beg then fault else elim (step (bytes_from (stop_at - beg) beg p) fp s) [
      | go fp' s' ↦ walk step k p next (stop_at + 1) fp' s'
      | stop w ↦ w
    ])
    else ended 0 [] s

-- What `path_parent` does with a name.
unfoldable pub parent_step : ℕ → List ℕ → ℕ → Tree → Step
unfolding find
parent_step fuel name fp s =
    if same_bytes name (46 ∷ 46 ∷ [])
    then go (s.file fp).parent s
    else if same_bytes name (46 ∷ [])
    then go fp s
    else elim (find fuel fp name s) [
      | none ↦ stop running
      | some found ↦ if found == 0 then stop (ended fp name s) else go (follow found s) s
    ]

-- `Filesystem::path_parent`
unfoldable pub path_parent : ℕ → List ℕ → Filesystem → Walk
unfolding walk parent_step
path_parent fuel p fs =
    walk (parent_step fuel) (suc (length p)) p (skip_slashes (length p) 0 p) 1 fs.root fs.tree

-- `Filesystem::init`
unfoldable pub init : Filesystem → Filesystem
unfolding new_file create_child
init fs =
    let root = new_file (slash ∷ []) type_directory fs.tree in
    let dev = create_child root.0 (100 ∷ 101 ∷ 118 ∷ []) type_directory root.1 in
    let proc = create_child root.0 (112 ∷ 114 ∷ 111 ∷ 99 ∷ []) type_directory dev.1 in
    let mnt = create_child root.0 (109 ∷ 110 ∷ 116 ∷ []) type_directory proc.1 in
    let sysd = create_child root.0 (115 ∷ 121 ∷ 115 ∷ []) type_directory mnt.1 in
    let var = create_child sysd.0 (101 ∷ 110 ∷ 118 ∷ []) type_directory sysd.1 in
    let usr = create_child sysd.0 (117 ∷ 115 ∷ 114 ∷ []) type_directory var.1 in
    let mods = create_child sysd.0 (109 ∷ 111 ∷ 100 ∷ 115 ∷ []) type_directory usr.1 in
    let sockets =
      create_child sysd.0 (115 ∷ 111 ∷ 99 ∷ 107 ∷ 101 ∷ 116 ∷ 115 ∷ []) type_directory mods.1 in
    record fs { tree = sockets.1; root = root.0; dev = dev.0; var = var.0 }

-- `Filesystem::mknod`, where a module and a name are given.
unfoldable pub mknod : List ℕ → Filesystem → Filesystem
unfolding create_child
mknod name fs =
    if fs.dev == 0
    then fs
    else record fs { tree = (create_child fs.dev name type_device fs.tree).1 }

-- The loop of `pivot_root` from the child `child` on; every round after the first that does not end
-- takes a child, `fuel` many at most.
unfoldable pub move_children : ℕ → ℕ → ℕ → Tree → Option Tree
move_children zero new_root child s = none
move_children (suc fuel) new_root child s =
    let t = (add_child new_root child s).1 in
    let rest = move_children fuel new_root (t.links.next child) t in
    if child == 0 then some s else rest

-- `Filesystem::pivot_root`: the root returned, and the tree.
unfoldable pub pivot_root : ℕ → ℕ → Filesystem → Option (ℕ × Tree)
pivot_root fuel targetdir fs =
    let r = new_file (slash ∷ []) type_directory fs.tree in
    if targetdir == 0
    then some (fs.root, fs.tree)
    else elim (move_children fuel r.0 (r.1.file targetdir).child r.1) [
      | none ↦ none
      | some t ↦ some (r.0, t)
    ]

-- `Filesystem::register_driver`
unfoldable pub register_driver : ℕ → Filesystem → Bool × Filesystem
register_driver driver fs =
    if driver == 0 || leb k_max_drivers fs.driver_count then (false, fs) else (
      true,
      record fs {
        drivers = update fs.drivers fs.driver_count driver;
        driver_count = fs.driver_count + 1;
      },
    )

module _ (scan : ℕ → Tree → Tree) where
  -- What `path` does with a name.
  unfoldable pub path_step : ℕ → List ℕ → ℕ → Tree → Step
  unfolding find
  path_step fuel name fp s =
      let t = scan fp s in
      if same_bytes name (46 ∷ 46 ∷ [])
      then go (s.file fp).parent s
      else if same_bytes name (46 ∷ [])
      then go fp s
      else elim (find fuel fp name t) [
        | none ↦ stop running
        | some found ↦ if found == 0 then stop (ended 0 [] t) else go (follow found t) t
      ]

  -- `Filesystem::path`
  unfoldable pub path : ℕ → List ℕ → Filesystem → Walk
  unfolding walk path_step
  path fuel p fs =
      let start =
        if get_or p 0 0 == slash || fs.tree.pcurrent == 0
        then fs.root
        else fs.current_dir fs.tree.pcurrent in
      walk (path_step fuel) (suc (length p)) p (skip_slashes (length p) 0 p) 1 start fs.tree
