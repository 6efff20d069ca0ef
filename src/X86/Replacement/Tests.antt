-- ===== src/X86/Replacement/Tests.antt =====
-- Page replacement at a blank state, and at a list of two pages.
use km_os.Prelude.{ℕ, ◌≡◌, ◌*◌, ◌==◌, if◌then◌else◌, refl, some, arith, List, [], ◌∷◌, Chain}
use km_os.X86.Replacement.{Manager, Descriptor, no_stats}
use km_os.X86.Replacement.Pages.{new_descriptor, add_page, remove_page}
use km_os.X86.Replacement.Pages.Clock.{Listed, add_page-Listed}
use km_os.X86.Replacement.Pages.Removal.{addresses, remove_page-Listed}
use km_os.X86.Replacement.Victims.{lru_enhanced_find_victim}
use km_os.X86.Replacement.Victims.Enhanced.{scores, Best, lru_enhanced_find_victim-Best}

abbrev aged : ℕ → Descriptor
aged now = new_descriptor now (now * 4096) 0xa000 0 1

abbrev blank : Manager
blank = record {
  current_algorithm = 0;
  page = λ p. aged p;
  links = record { next = λ p. 0; prev = λ p. 0 };
  page_list_head = 0;
  page_list_tail = 0;
  total_pages = 0;
  access_counter = 0;
  stats = λ i. no_stats;
  current_stats = no_stats;
  lru_head = 0;
  lru_tail = 0;
  fifo_head = 0;
  fifo_tail = 0;
  clock_hand = 0;
  clock_size = 0;
}

-- Pages 10 and 20, in this order.
abbrev two_pages : ℕ → Manager
two_pages algorithm = record blank {
  current_algorithm = algorithm;
  links = record { next = λ p. if p == 10 then 20 else 0; prev = λ p. if p == 20 then 10 else 0 };
  page_list_head = 10;
  page_list_tail = 20;
  total_pages = 2;
  access_counter = 5000;
}

two_pages-Chain : (algorithm : ℕ) → Chain (two_pages algorithm).links 0 10 (10 ∷ 20 ∷ [])
two_pages-Chain algorithm = omega arith

two_pages-Listed : Listed (two_pages 2) (10 ∷ 20 ∷ [])
two_pages-Listed = record {
  clock = refl;
  chain = omega arith;
  distinct = omega arith;
  tail_last = refl;
}

lru_enhanced_find_victim-Best_example :
    (v : ℕ) × (t : Manager) × (lru_enhanced_find_victim 3 (two_pages 3) ≡ some (v, t))
    × Best 0xffff_ffff 0 v (scores (two_pages 3).page 5000 (10 ∷ 20 ∷ []))
lru_enhanced_find_victim-Best_example =
    lru_enhanced_find_victim-Best 3 (two_pages 3) (10 ∷ 20 ∷ []) (omega arith) (two_pages-Chain 3)

add_page-Listed_example : Listed (add_page 30 1 4096 0xa000 0 (two_pages 2)) (10 ∷ 20 ∷ 30 ∷ [])
add_page-Listed_example =
    add_page-Listed 30 1 4096 0xa000 0 (two_pages 2) (10 ∷ 20 ∷ []) (omega arith) (omega arith)
      two_pages-Listed

remove_page-Listed_example :
    (t : Manager) × (ys : List ℕ) × (remove_page 3 40960 (two_pages 2) ≡ some t)
    × Listed t ys
    × (addresses t ys ≡ 81920 ∷ [])
remove_page-Listed_example =
    remove_page-Listed 3 40960 (two_pages 2) (10 ∷ 20 ∷ []) (omega arith) two_pages-Listed
