-- ===== src/X86/Replacement/Switch/ToClock.antt =====
-- The first change to the Clock algorithm.
use km_os.Prelude.{
  ℕ, zero, suc, ◌<◌, ◌≡◌, ◌≢◌, refl, ap, ◌∙◌, List, [], ◌∷◌, some, arith, Bool-cases, inl, inr,
  ◌==◌, eq→==, ne→==-false, length, update, add32, Chain,
}
use km_os.X86.Replacement.{Manager, clock_add_page, clock_remove_page, tick}
use km_os.X86.Replacement.Victims.{clock_find_victim}
use km_os.X86.Replacement.Pages.{add_by, remove_by, victim_by, find_victim_page}
use km_os.X86.Replacement.Switch.{switch_pages, leaving, set_algorithm}

-- The Clock algorithm counts no page.
record Uncounted (s : Manager) : Type 0 where
  size : s.clock_size ≡ 0
  algorithm : s.current_algorithm ≡ 2

-- Taking a page from the Clock list that it is not on, and adding it.
moved : ℕ → Manager → Manager
moved p s = add_by 2 p (remove_by 2 p s)

moved-links : (p : ℕ) (s : Manager) → (moved p s).links ≡ s.links
unfolding add_by remove_by clock_add_page clock_remove_page moved
moved-links p s = refl

moved-Uncounted : (p : ℕ) (s : Manager) → Uncounted s → Uncounted (moved p s)
unfolding add_by remove_by clock_add_page clock_remove_page moved
moved-Uncounted p s u = record { size = rw (u.size) refl; algorithm = u.algorithm }

switch_pages-Uncounted :
    (fuel back p : ℕ) (s : Manager) (xs : List ℕ)
    → length xs < fuel
    → Chain s.links back p xs
    → Uncounted s
    → (t : Manager) × (switch_pages fuel 2 2 p s ≡ some t) × Uncounted t
unfolding switch_pages moved
switch_pages-Uncounted zero back p s xs h c u = absurd (omega arith)
switch_pages-Uncounted (suc fuel) back p s [] h c u = (s, rw (eq→== p 0 c) refl, u)
switch_pages-Uncounted (suc fuel) back p s (x ∷ xs) h c u =
    let r =
      switch_pages-Uncounted fuel x (s.links.next x) (moved x s) xs (omega arith)
        (rw (moved-links x s) c.3) (moved-Uncounted x s u) in
    (r.0, rw (c.0, ne→==-false x 0 c.1) r.1, r.2)

no_victim :
    (fuel : ℕ) (t : Manager) → Uncounted t → (u : Manager) × (find_victim_page fuel t ≡ some (0, u))
unfolding find_victim_page victim_by clock_find_victim
no_victim fuel t u = elim (Bool-cases (t.total_pages == 0)) [
  | inl bare ↦ (t, rw bare refl)
  | inr full ↦
      (tick t, rw (full, u.algorithm, u.size, find_victim_page, victim_by, clock_find_victim) refl)
]

-- Another algorithm is current, Clock was not in use before, and the page list is null-terminated:
-- with fuel above its length `set_algorithm` ends and makes Clock current, and then no page is ever
-- a victim, however many there are and whatever the fuel of the search.
pub find_victim_page-set_algorithm :
    (fuel search : ℕ) (s : Manager) (xs : List ℕ)
    → length xs < fuel
    → Chain s.links 0 s.page_list_head xs
    → s.current_algorithm ≢ 2
    → (s.stats 2).algorithm_switches ≡ 0
    → s.clock_size ≡ 0
    → (t : Manager) × (u : Manager) × (set_algorithm fuel 2 s ≡ some t)
      × (t.current_algorithm ≡ 2)
      × (find_victim_page search t ≡ some (0, u))
unfolding set_algorithm
find_victim_page-set_algorithm fuel search s xs h c other unused empty =
    let r =
      switch_pages-Uncounted fuel 0 s.page_list_head start xs h c
        (record { size = empty; algorithm = refl }) in
    let v = no_victim search r.0 r.2 in
    (
      r.0,
      v.0,
      ap (λ a. switch_pages fuel a 2 s.page_list_head start) left ∙ r.1,
      r.2.algorithm,
      v.1,
    )
  where
    start : Manager
    start = record s {
      stats = update s.stats s.current_algorithm s.current_stats;
      current_stats = record (s.current_stats) {
        algorithm_switches = add32 s.current_stats.algorithm_switches 1;
      };
      current_algorithm = 2;
    }

    left : leaving 2 start ≡ 2
    left = rw (ne→==-false s.current_algorithm 2 other, unused) refl
