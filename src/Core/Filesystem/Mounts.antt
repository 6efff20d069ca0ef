-- ===== src/Core/Filesystem/Mounts.antt =====
-- Links, files, drivers and mounts of class Filesystem in src/kernel/core/filesystem.cc. `none` is a fault or
-- a search that takes more than `fuel` steps.
use km_os.Prelude.{
  ℕ, zero, suc, ◌+◌, ◌-◌, List, [], ◌∷◌, Option, none, some, Bool, true, false, ◌&&◌, ◌||◌, not,
  if◌then◌else◌, ◌==◌, leb, length, same_bytes, update, u32_mod,
}
use km_os.Core.Files.{Tree, add_child, new_file, put_file, return_ok, type_directory, type_link}
use km_os.Core.Filesystem.{
  Filesystem, bytes_from, ended, error_param, fault, k_max_mounts, path, path_parent, path_size,
  running, slash,
}

-- The name of a link: what `path_parent` wrote to `nname`, or else what lay in the new block.
abbrev pub link_name : List ℕ → List ℕ → List ℕ
link_name [] garbage = garbage
link_name (c ∷ cs) garbage = c ∷ cs

-- The end of `link`: the new link in `parent`.
unfoldable pub add_link : ℕ → ℕ → List ℕ → Tree → Tree
unfolding new_file add_child
add_link tolink parent nname s =
    let r = new_file nname type_link s in
    (add_child parent r.0 (put_file r.0 (record (r.1.file r.0) { link = tolink }) r.1)).1

-- The end of `mount`: the entry, whose path is cut to the size of its buffer, and the root.
unfoldable pub add_mount : ℕ → List ℕ → ℕ → ℕ → Filesystem → Filesystem
unfolding bytes_from
add_mount device mount_path driver final_mp fs =
    let len = if leb path_size (length mount_path) then path_size - 1 else length mount_path in
    record fs {
      mounts = update fs.mounts fs.mount_count (record {
        path = bytes_from len 0 mount_path;
        driver = driver;
        device = device;
        mount_point = final_mp;
      });
      mount_count = fs.mount_count + 1;
      root = if same_bytes mount_path (slash ∷ []) then final_mp else fs.root;
    }

-- The loop of `find_driver` from the index `i` on, with `k` drivers left.
unfoldable pub find_driver_from : (ℕ → List ℕ) → ℕ → ℕ → List ℕ → Filesystem → ℕ
find_driver_from driver_name zero i name fs = 0
find_driver_from driver_name (suc k) i name fs =
    let rest = find_driver_from driver_name k (i + 1) name fs in
    if not (fs.drivers i == 0) && same_bytes (driver_name (fs.drivers i)) name
    then fs.drivers i
    else rest

-- `Filesystem::find_driver`, 0 for none.
unfoldable pub find_driver : (ℕ → List ℕ) → List ℕ → Filesystem → ℕ
unfolding find_driver_from
find_driver driver_name name fs = find_driver_from driver_name fs.driver_count 0 name fs

module _ (scan : ℕ → Tree → Tree) where
  -- `Filesystem::addFile`
  unfoldable pub add_file_at : ℕ → List ℕ → ℕ → Filesystem → Option (ℕ × Filesystem)
  unfolding path add_child
  add_file_at fuel dir fp fs = elim (path scan fuel dir fs) [
    | ended parent fname t ↦
        if parent == 0
        then some (error_param, record fs { tree = t })
        else some ((add_child parent fp t).0, record fs { tree = (add_child parent fp t).1 })
    | fault ↦ none
    | running ↦ none
  ]

  -- `Filesystem::link`; `garbage` is the string in the new block of 255 bytes for the name.
  unfoldable pub link : ℕ → List ℕ → List ℕ → List ℕ → Filesystem → Option (ℕ × Filesystem)
  unfolding path path_parent add_link
  link fuel garbage fname newf fs = elim (path scan fuel fname fs) [
    | ended tolink unused t ↦
        if tolink == 0
        then some (u32_mod - 1, record fs { tree = t })
        else elim (path_parent fuel newf (record fs { tree = t })) [
          | ended parent nname u ↦
              if parent == 0 || leb 255 (length nname)
              then none
              else some (
                return_ok,
                record fs { tree = add_link tolink parent (link_name nname garbage) u },
              )
          | fault ↦ none
          | running ↦ none
        ]
    | fault ↦ none
    | running ↦ none
  ]

  -- `mount` once the mount point is found.
  unfoldable pub mount_at :
      (ℕ → ℕ → ℕ → Tree → ℕ × Tree) → ℕ → List ℕ → ℕ → ℕ → Filesystem → Bool × Filesystem
  unfolding add_mount
  mount_at driver_mount device mount_path driver mp fs =
      let r = driver_mount driver mp device fs.tree in
      if mp == 0
      then (false, fs)
      else if (fs.tree.file mp).type == type_directory
      then (if r.0 == 0
          then (false, record fs { tree = r.1 })
          else (true, add_mount device mount_path driver r.0 (record fs { tree = r.1 })))
      else (false, fs)

  -- `Filesystem::mount`, where a path and a name are given.
  unfoldable pub mount :
      (ℕ → List ℕ)
      → (ℕ → ℕ → ℕ → Tree → ℕ × Tree)
      → ℕ
      → ℕ
      → List ℕ
      → List ℕ
      → Filesystem
      → Option (Bool × Filesystem)
  mount driver_name driver_mount fuel device mount_path fs_name fs =
      let driver = find_driver driver_name fs_name fs in
      if device == 0 || leb k_max_mounts fs.mount_count
      then some (false, fs)
      else if driver == 0
      then some (false, fs)
      else elim (path scan fuel mount_path fs) [
        | ended mp fname t ↦
            some (mount_at driver_mount device mount_path driver mp (record fs { tree = t }))
        | fault ↦ none
        | running ↦ none
      ]
