-- ===== src/X86/Replacement/Switch.antt =====
-- Changing the algorithm, and choosing one by the memory pressure.
pub mod ToClock
use km_os.Prelude.{
  ℕ, zero, suc, ◌+◌, ◌-◌, ◌*◌, ◌/◌, ◌%◌, ◌^◌, Option, none, some, if◌then◌else◌, ◌==◌, ltb, leb,
  add32, sub32, mul32, update,
}
use km_os.X86.Replacement.{Manager, ReplacementStats, no_stats}
use km_os.X86.Replacement.Pages.{add_by, remove_by}

-- The loop of `set_algorithm`: each page leaves the list of `old` and joins the list of `algorithm`.
unfoldable pub switch_pages : ℕ → ℕ → ℕ → ℕ → Manager → Option Manager
unfolding add_by remove_by
switch_pages zero old algorithm p s = none
switch_pages (suc fuel) old algorithm p s =
    let rest =
      switch_pages fuel old algorithm (s.links.next p) (add_by algorithm p (remove_by old p s)) in
    if p == 0 then some s else rest

-- The algorithm that the loop takes the pages from.
abbrev pub leaving : ℕ → Manager → ℕ
leaving algorithm s =
    if ltb 0 (s.stats algorithm).algorithm_switches then (algorithm + 4 - 1) % 4 else algorithm

-- `PageReplacementManager::set_algorithm`
unfoldable pub set_algorithm : ℕ → ℕ → Manager → Option Manager
unfolding switch_pages
set_algorithm fuel algorithm s =
    if leb 4 algorithm
    then some s
    else let c = s.current_stats in
      let t = record s {
        stats = update s.stats s.current_algorithm c;
        current_stats = record c { algorithm_switches = add32 c.algorithm_switches 1 };
        current_algorithm = algorithm;
      } in
      switch_pages fuel (leaving algorithm t) algorithm t.page_list_head t

-- `set_page_replacement_algorithm`; -1 is the 32-bit pattern.
unfoldable pub set_page_replacement_algorithm : ℕ → ℕ → Manager → Option (ℕ × Manager)
unfolding set_algorithm
set_page_replacement_algorithm fuel algorithm s =
    if leb 4 algorithm
    then some (2 ^ 32 - 1, s)
    else elim (set_algorithm fuel algorithm s) [ none ↦ none | some t ↦ some (0, t) ]

-- `get_memory_pressure`, over the counters of class VMM.
unfoldable pub get_memory_pressure : ℕ → ℕ → ℕ
get_memory_pressure frame_count frames_used =
    if frame_count == 0 then 0 else mul32 frames_used 100 / frame_count

-- `PageReplacementManager::set_memory_pressure_algorithm`
unfoldable pub set_memory_pressure_algorithm : ℕ → ℕ → ℕ → Manager → Option (ℕ × Manager)
unfolding set_algorithm get_memory_pressure
set_memory_pressure_algorithm fuel frame_count frames_used s =
    let pressure = get_memory_pressure frame_count frames_used in
    let choose : ℕ → ℕ → Option (ℕ × Manager) = λ code algorithm.
      elim (set_algorithm fuel algorithm s) [ none ↦ none | some t ↦ some (code, t) ] in
    if ltb pressure 50
    then choose 0 0
    else if ltb pressure 80
    then choose 1 3
    else if ltb pressure 95
    then choose 2 2
    else choose 3 1

-- `reset_stats`
unfoldable pub reset_stats : Manager → Manager
reset_stats s = record s { current_stats = no_stats }
