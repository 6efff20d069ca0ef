-- ===== src/X86/Cow/Tests.antt =====
-- Shared pages: one list of two pages, and a page that two directories map.
use mathlib.Core.Path.{subst, sym, ap, ◌∙◌}
use km_os.X86.Frames.Laws.{Taken, take_frame-Taken}
use km_os.X86.Frames.Count.{init_frames_lem}
use km_os.X86.Cow.Breaking.{break_cow-frees_shared}
use km_os.Prelude.{test_bit, set_bit, ℕ, ◌≡◌, ◌≢◌, refl, some, arith, true, false, [], ◌∷◌, update}
use km_os.X86.Bitmap.{mark, find_clear, first_clear}
use km_os.X86.Frames.{Frames, IsValid, init_frames, take_frame, in_use}
use km_os.X86.Paging.{Entry, PageDir, find_table, get_physical_addr}
use km_os.X86.Cow.{CowManager, cow_magic, find_cow_page, find_cow_from, dec_cow_ref}
use km_os.X86.Cow.Ops.{break_cow, copy_page}
use km_os.X86.Cow.Forking.{Copied, copy_page-Copied}
use km_os.X86.Cow.Counting.{Tracked, Dropped, dec_cow_ref-Dropped}
use km_os.X86.Cow.Search.{Searched, find_cow_page-Searched}

abbrev frames : Frames
frames = record init_frames { bitmap = mark init_frames.bitmap 8 0; frames_used = 257 }

abbrev table : ℕ → Entry
table i = record { present = true; writable = false; user = true; frame = 0x100 }

abbrev directory : PageDir
directory = record {
  tables = λ i. record { present = true; writable = true; user = false; frame = 8 };
  page_tables = λ i. some table;
  physical_address = 0x8000;
  swapped_pages = [];
}

abbrev two_pages : CowManager
two_pages = record {
  memory = record {
    frames = frames;
    dirs = λ d. directory;
    current = 0x7000;
    heap = [];
    swap = record {
      devices = [];
      total_swap_pages = 0;
      used_swap_pages = 0;
      lru = record {
        links = record { next = λ p. 0; prev = λ p. 0 };
        page = λ p. record { virtual_addr = 0; access_time = 0; flags = 0 };
        head = 0;
        tail = 0;
        count = 0;
        clock = 0;
      };
      swap_in_count = 0;
      swap_out_count = 0;
      reclaim_attempts = 0;
    };
  };
  contents = λ a. 0;
  blocks = [];
  links = record { next = update (λ p. 0) 16 48; prev = update (λ p. 0) 48 16 };
  page =
      update (λ p. record { physical_addr = 0x100000; ref_count = 2; magic = cow_magic }) 16
        (record { physical_addr = 0x101000; ref_count = 1; magic = cow_magic });
  cow_pages = 16;
  cow_mappings = [];
  total_cow_pages = 2;
  total_cow_mappings = 0;
}

two_pages-Tracked : Tracked two_pages (16 ∷ 48 ∷ [])
two_pages-Tracked = record {
  chain = (refl, omega arith, refl, (refl, omega arith, refl, refl));
  distinct = ((omega arith, tt), (tt, tt));
  counted = refl;
  bounded = omega arith;
  magic = (refl, (refl, tt));
}

dec_cow_ref-Dropped_example : Dropped 16 [] (48 ∷ []) two_pages (dec_cow_ref 16 two_pages)
dec_cow_ref-Dropped_example = dec_cow_ref-Dropped 16 two_pages [] (48 ∷ []) two_pages-Tracked

find_cow_page-Searched_example :
    (q : ℕ) × (find_cow_page 3 0x100000 two_pages ≡ some q)
    × Searched two_pages 0x100000 (16 ∷ 48 ∷ []) q
find_cow_page-Searched_example =
    find_cow_page-Searched 3 0x100000 two_pages (16 ∷ 48 ∷ []) (omega arith) two_pages-Tracked

abbrev next_frames : Frames
next_frames = record frames { bitmap = mark frames.bitmap 8 1; frames_used = 258 }

frames_run : take_frame init_frames ≡ some (0x100000, frames)
unfolding take_frame find_clear first_clear test_bit init_frames
frames_run = refl

next_frames_run : take_frame frames ≡ some (0x101000, next_frames)
unfolding take_frame find_clear first_clear test_bit init_frames set_bit
next_frames_run = refl

frames-IsValid : IsValid frames
frames-IsValid =
    (subst (Taken init_frames) frames_run (take_frame-Taken init_frames init_frames_lem.0)).7

table_found : find_table directory 0x400000 ≡ some table
unfolding find_table
table_found = refl

translated : get_physical_addr directory 0x400000 ≡ 0x100000
unfolding get_physical_addr find_table
translated = refl

page_found : find_cow_page 3 0x100000 two_pages ≡ some 48
unfolding find_cow_from
page_found = refl

break_cow-frees_shared_example :
    (t : CowManager) × (break_cow (λ a b. a) 3 2 0x7000 0x400000 two_pages ≡ some (0, t))
    × (in_use t.memory.frames 0x100000 ≡ false)
    × ((d : ℕ) → 0x7000 ≢ d → t.memory.dirs d ≡ directory)
    × ((t.page 48).ref_count ≡ 1)
break_cow-frees_shared_example =
    break_cow-frees_shared (λ a b. a) 2 2 0x7000 0x400000 48 0 0x101000 next_frames table two_pages
      frames-IsValid table_found refl (omega arith)
      (λ e. absurd (omega (arith, sym translated ∙ e)))
      (ap (λ a. find_cow_page 3 a two_pages) translated ∙ page_found) (omega arith) refl refl
      next_frames_run (omega arith)

-- A directory whose pages may be written, and a block for a third shared page.
abbrev writable_table : ℕ → Entry
writable_table i = record { present = true; writable = true; user = true; frame = 0x102 }

abbrev parent : PageDir
parent = record directory { page_tables = λ i. some writable_table }

abbrev forking : CowManager
forking = record two_pages {
  memory = record two_pages.memory { dirs = update two_pages.memory.dirs 0x7000 parent };
  blocks = 80 ∷ [];
}

forking-Tracked : Tracked forking (16 ∷ 48 ∷ [])
forking-Tracked = record {
  chain = (refl, omega arith, refl, (refl, omega arith, refl, refl));
  distinct = ((omega arith, tt), (tt, tt));
  counted = refl;
  bounded = omega arith;
  magic = (refl, (refl, tt));
}

parent_found : find_table parent 0x400000 ≡ some writable_table
unfolding find_table
parent_found = refl

parent_translated : get_physical_addr parent 0x400000 ≡ 0x102000
unfolding get_physical_addr find_table
parent_translated = refl

copy_page-Copied_example :
    (t : CowManager) × (copy_page (λ a b. a) 3 2 0x9000 0x7000 0x400000 forking ≡ some (0, t))
    × Copied 0x9000 0x7000 0x400000
        (get_physical_addr parent 0x400000)
        80
        (writable_table 0)
        (16 ∷ 48 ∷ [])
        t
copy_page-Copied_example =
    copy_page-Copied (λ a b. a) 3 2 0x9000 0x7000 0x400000 80 [] (16 ∷ 48 ∷ []) writable_table table
      forking (omega arith) parent_found table_found refl refl
      (λ e. absurd (omega (arith, sym parent_translated ∙ e)))
      (
        λ e. absurd (omega (arith, e, parent_translated)),
        (λ e. absurd (omega (arith, e, parent_translated)), tt),
      )
      forking-Tracked (omega arith) (omega arith) refl (omega arith)
      (omega arith, (omega arith, tt))
