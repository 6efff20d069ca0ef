-- ===== src/Core/Filesystem/Paths.antt =====
-- `Filesystem::path` of src/kernel/core/filesystem.cc as a walk along the names of the path.
use km_os.Prelude.{
  ℕ, zero, suc, ◌+◌, ◌-◌, ◌<◌, ◌≤◌, ◌≡◌, ◌≢◌, refl, ap, ◌∙◌, List, [], ◌∷◌, arith, if◌then◌else◌,
  ◌==◌, ne→==-false, le→ltb-false, fun_ext, length, length-append, get_or, All,
}
use km_os.Core.Files.{Tree, type_directory}
use km_os.Core.Filesystem.{
  Filesystem, Step, Walk, bytes_from, ended, fault, find_end, go, path, path_step, skip_slashes,
  stop, walk,
}
use km_os.Core.Filesystem.Scanning.{
  Ahead, Name, Reads-after, Reads-all, absolute, bytes_from-Reads, cut, end_of, first_byte,
  next_name, skip_none, skip_one,
}

-- The steps along the names, one after the other.
unfoldable pub resolve : (List ℕ → ℕ → Tree → Step) → List (List ℕ) → ℕ → Tree → Walk
resolve step [] fp s = ended fp [] s
resolve step (c ∷ cs) fp s =
    if fp == 0
    then fault
    else if (s.file fp).type == type_directory
    then elim (step c fp s) [ go fp' s' ↦ resolve step cs fp' s' | stop w ↦ w ]
    else ended 0 [] s

module _ (step : List ℕ → ℕ → Tree → Step) where
  -- A round at a file, the next name beginning at `next`.
  abbrev at_file : ℕ → List ℕ → ℕ → ℕ → List ℕ → ℕ → Tree → Walk
  at_file k p j next c fp s =
      if fp == 0
      then fault
      else if (s.file fp).type == type_directory
      then elim (step c fp s) [ go fp' s' ↦ walk step k p next (j + 1) fp' s' | stop w ↦ w ]
      else ended 0 [] s

  one_round :
      (k : ℕ) (p : List ℕ) (i fp : ℕ) (s : Tree)
      → get_or p i 0 ≢ 0
      → i ≤ find_end (length p) i p
      → let j = find_end (length p) i p in
        walk step (suc k) p i i fp s
        ≡ at_file k p j (skip_slashes (length p) j p) (bytes_from (j - i) i p) fp s
  unfolding walk
  one_round k p i fp s ne le =
      rw (ne→==-false (get_or p i 0) 0 ne, le→ltb-false (find_end (length p) i p) i le) refl

  round :
      (k : ℕ) (p : List ℕ) (i j next : ℕ) (c : List ℕ) (fp : ℕ) (s : Tree)
      → get_or p i 0 ≢ 0
      → find_end (length p) i p ≡ j
      → skip_slashes (length p) j p ≡ next
      → i ≤ j
      → bytes_from (j - i) i p ≡ c
      → walk step (suc k) p i i fp s ≡ at_file k p j next c fp s
  round k p i j next c fp s ne e f le g =
      one_round k p i fp s ne (omega (arith, e, le))
      ∙ ap (λ m. at_file k p m (skip_slashes (length p) m p) (bytes_from (m - i) i p) fp s) e
      ∙ ap (λ n. at_file k p j n (bytes_from (j - i) i p) fp s) f
      ∙ ap (λ d. at_file k p j next d fp s) g

  finished :
      (k : ℕ) (p : List ℕ) (beg end_p fp : ℕ) (s : Tree)
      → 0 < k
      → get_or p beg 0 ≡ 0
      → walk step k p beg end_p fp s ≡ ended fp [] s
  unfolding walk
  finished zero p beg end_p fp s h e = absurd (omega arith)
  finished (suc k) p beg end_p fp s h e = rw (e) refl

  walk-resolve :
      (k : ℕ) (p : List ℕ) (i : ℕ) (c : List ℕ) (cs : List (List ℕ)) (fp : ℕ) (s : Tree)
      → suc (length cs) < k
      → Ahead p i c cs
      → walk step k p i i fp s ≡ resolve step (c ∷ cs) fp s
  unfolding resolve
  walk-resolve zero p i c cs fp s h a = absurd (omega arith)
  walk-resolve (suc k) p i c [] fp s h a =
      round k p i (i + length c) (i + length c) c fp s (first_byte p i c [] a).0 (end_of p c i [] a)
        (skip_none (length p) (i + length c) p (λ e. omega (arith, e, last))) (omega arith)
        (rw (cut i (length c)) (bytes_from-Reads p i c [] a.reads))
      ∙ ap
          (λ g.
            if fp == 0
            then fault
            else if (s.file fp).type == type_directory
            then elim (step c fp s) [ go fp' s' ↦ g fp' s' | stop w ↦ w ]
            else ended 0 [] s)
          (fun_ext (λ fp'.
            fun_ext
              (λ s'. finished k p (i + length c) (i + length c + 1) fp' s' (omega arith) last)))
    where
      last : get_or p (i + length c) 0 ≡ 0
      last = Reads-after p i c [] a.reads
  walk-resolve (suc k) p i c (d ∷ ds) fp s h a =
      round k p i (i + length c) (i + length c + 1) c fp s (first_byte p i c (d ∷ ds) a).0
        (end_of p c i (d ∷ ds) a)
        (skip_one (length p) (i + length c) p (omega (arith, a.size, a.begun))
          (Reads-after p i c (absolute (d ∷ ds)) a.reads).0
          (first_byte p (i + length c + 1) d ds ahead).1)
        (omega arith) (rw (cut i (length c)) (bytes_from-Reads p i c (absolute (d ∷ ds)) a.reads))
      ∙ ap
          (λ g.
            if fp == 0
            then fault
            else if (s.file fp).type == type_directory
            then elim (step c fp s) [ go fp' s' ↦ g fp' s' | stop w ↦ w ]
            else ended 0 [] s)
          (fun_ext (λ fp'.
            fun_ext (λ s'. walk-resolve k p (i + length c + 1) d ds fp' s' (omega arith) ahead)))
    where
      ahead : Ahead p (i + length c + 1) d ds
      ahead = next_name p c i d ds a

module _ (scan : ℕ → Tree → Tree) where
  -- The path "/c/d/..." of one name or more is walked name by name from the root: `path` is `path_step` for
  -- each name in turn, each at the file that the one before led to, and the fuel of the walk is enough.
  -- A name has one byte or more, and none of them is 0 or a slash.
  pub path-resolve :
      (fuel : ℕ) (c : List ℕ) (cs : List (List ℕ)) (fs : Filesystem)
      → Name c
      → All Name cs
      → path scan fuel (absolute (c ∷ cs)) fs
        ≡ resolve (path_step scan fuel) (c ∷ cs) fs.root fs.tree
  unfolding path
  path-resolve fuel c cs fs n ns =
      let p = absolute (c ∷ cs) in
      ap (λ i. walk (path_step scan fuel) (suc (length p)) p i 1 fs.root fs.tree)
        (skip_one (length p) 0 p (omega arith) refl (first_byte p 1 c cs start).1)
      ∙ walk-resolve (path_step scan fuel) (suc (length p)) p 1 c cs fs.root fs.tree (long cs) start
    where
      start : Ahead (absolute (c ∷ cs)) 1 c cs
      start = record {
        reads = (Reads-all (absolute (c ∷ cs))).1;
        size = omega arith;
        name = n;
        names = ns;
        begun = omega arith;
      }

      long : (ds : List (List ℕ)) → suc (length ds) < suc (length (absolute (c ∷ ds)))
      long [] = omega arith
      long (d ∷ ds) = omega (
        arith,
        long ds,
        length-append c (absolute (d ∷ ds)),
        length-append c (absolute ds),
        length-append d (absolute ds),
      )
