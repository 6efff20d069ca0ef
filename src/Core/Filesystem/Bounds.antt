-- ===== src/Core/Filesystem/Bounds.antt =====
-- The tables of drivers and mounts of class Filesystem in src/kernel/core/filesystem.cc stay within their
-- bounds.
use km_os.Prelude.{
  ℕ, zero, suc, ◌+◌, ◌-◌, ◌<◌, ◌≤◌, ◌≡◌, ◌≢◌, ◌⊎◌, refl, ap, List, arith, Bool, true, false,
  Bool-cases, inl, inr, if◌then◌else◌, ◌==◌, leb, eq→==, ==-false→ne, ==→eq, length,
}
use km_os.Core.Files.{Tree, type_directory}
use km_os.Core.Filesystem.{
  Filesystem, bytes_from, k_max_drivers, k_max_mounts, path_size, register_driver,
}
use km_os.Core.Filesystem.Mounts.{add_mount, mount_at}

-- At most eight mounts, and their paths end within their buffers.
pub record MountsOk (fs : Filesystem) : Type 0 where
  pub few : fs.mount_count ≤ k_max_mounts
  pub short : (i : ℕ) → i < fs.mount_count → length (fs.mounts i).path < path_size

bytes_from-length : (n i : ℕ) (p : List ℕ) → length (bytes_from n i p) ≡ n
unfolding bytes_from
bytes_from-length zero i p = refl
bytes_from-length (suc n) i p = ap suc (bytes_from-length n (i + 1) p)

cut_length : (n : ℕ) → (if leb path_size n then path_size - 1 else n) < path_size
cut_length n = ground arith

add_mount-MountsOk :
    (device : ℕ) (mount_path : List ℕ) (driver final_mp : ℕ) (fs : Filesystem)
    → fs.mount_count < k_max_mounts
    → MountsOk fs
    → MountsOk (add_mount device mount_path driver final_mp fs)
unfolding add_mount
add_mount-MountsOk device mount_path driver final_mp fs h ok = record {
  few = omega arith;
  short = λ i lt. elim (Bool-cases (fs.mount_count == i)) [
    | inl e ↦
        rw
          (
            e,
            bytes_from-length
                (if leb path_size (length mount_path) then path_size - 1 else length mount_path) 0
                mount_path,
          )
          (cut_length (length mount_path))
    | inr e ↦ rw e (ok.short i (omega (arith, lt, ==-false→ne _ _ e)))
  ];
}

-- What mounting at a file leaves: one more mount, the last one, or the mounts as they were.
pub record Mounted (fs : Filesystem) (r : Bool × Filesystem) : Type 0 where
  pub ok : MountsOk r.1
  pub outcome :
      ((r.0 ≡ true)
        × (r.1.mount_count ≡ fs.mount_count + 1)
        × ((r.1.mounts fs.mount_count).mount_point ≢ 0))
      ⊎ ((r.0 ≡ false)
          × (r.1.mounts ≡ fs.mounts)
          × (r.1.mount_count ≡ fs.mount_count)
          × (r.1.root ≡ fs.root))

-- Where there are fewer than eight mounts and every mount's path ends within its buffer, mounting at
-- `mp` keeps at most eight, and each path within its buffer of 128 bytes, whatever the length of the
-- path given. It succeeds with one more mount, which has a mount point, or fails with the mounts and
-- the root as they were.
pub mount_at-Mounted :
    (scan : ℕ → Tree → Tree) (driver_mount : ℕ → ℕ → ℕ → Tree → ℕ × Tree) (device : ℕ)
    (mount_path : List ℕ) (driver mp : ℕ) (fs : Filesystem)
    → fs.mount_count < k_max_mounts
    → MountsOk fs
    → Mounted fs (mount_at scan driver_mount device mount_path driver mp fs)
unfolding mount_at add_mount
mount_at-Mounted scan driver_mount device mount_path driver mp fs h ok =
    elim (Bool-cases (mp == 0)) [
      | inl e ↦ rw e (record { ok = ok; outcome = inr (refl, refl, refl, refl) })
      | inr e ↦ elim (Bool-cases ((fs.tree.file mp).type == type_directory)) [
        | inl f ↦ elim (Bool-cases ((driver_mount driver mp device fs.tree).0 == 0)) [
          | inl g ↦
              rw (e, f, g)
                (record {
                  ok = record { few = ok.few; short = ok.short };
                  outcome = inr (refl, refl, refl, refl);
                })
          | inr g ↦
              rw (e, f, g)
                (record {
                  ok =
                      add_mount-MountsOk device mount_path driver
                        (driver_mount driver mp device fs.tree).0
                        (record fs { tree = (driver_mount driver mp device fs.tree).1 }) h
                        (record { few = ok.few; short = ok.short });
                  outcome = inl (
                    refl,
                    refl,
                    rw (eq→== fs.mount_count fs.mount_count refl) (==-false→ne _ _ g),
                  );
                })
        ]
        | inr f ↦ rw (e, f) (record { ok = ok; outcome = inr (refl, refl, refl, refl) })
      ]
    ]

-- A table of drivers within its bound.
abbrev pub DriversOk : Filesystem → Type 0
DriversOk fs =
    (fs.driver_count ≤ k_max_drivers) × ((i : ℕ) → i < fs.driver_count → fs.drivers i ≢ 0)

-- `register_driver` keeps at most eight drivers, none of them null. It fails, and changes nothing, for a
-- null driver and where there are eight already; else the driver is the last one then.
pub register_driver-DriversOk :
    (driver : ℕ) (fs : Filesystem)
    → DriversOk fs
    → let r = register_driver driver fs in
      DriversOk r.1
      × (((r ≡ (false, fs)) × ((driver ≡ 0) ⊎ (k_max_drivers ≤ fs.driver_count)))
          ⊎ ((r.0 ≡ true)
              × (r.1.driver_count ≡ fs.driver_count + 1)
              × (r.1.drivers fs.driver_count ≡ driver)))
unfolding register_driver
register_driver-DriversOk driver fs ok = elim (Bool-cases (driver == 0)) [
  | inl e ↦ rw e (ok, inl (refl, inl (==→eq _ _ e)))
  | inr e ↦ elim (Bool-cases (leb k_max_drivers fs.driver_count)) [
    | inl f ↦ rw (e, f) (ok, inl (refl, inr (ground arith)))
    | inr f ↦
        rw (e, f)
          (
            (
              ground arith,
              λ i lt. elim (Bool-cases (fs.driver_count == i)) [
                | inl g ↦ rw g (==-false→ne _ _ e)
                | inr g ↦ rw g (ok.1 i (omega (arith, lt, ==-false→ne _ _ g)))
              ],
            ),
            inr (refl, refl, rw (eq→== fs.driver_count fs.driver_count refl) refl),
          )
  ]
]
