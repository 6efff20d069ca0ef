-- ===== src/X86/Memory.antt =====
-- The state that vmm.cc, swap.cc and cow.cc share, and computations on it. `none` is a call that does
-- not return. `heap` holds what the coming calls of `kmalloc` return, 0 for its failure; when it runs
-- out every further call fails.
use km_os.Prelude.{ℕ, List, [], ◌∷◌, Option, none, some, update}
use km_os.X86.Frames.{Frames}
use km_os.X86.Paging.{PageDir}
use km_os.X86.Lru.{Lru}
use km_os.X86.Swap.{Device}

-- Class SwapManager.
pub record SwapManager : Type 0 where
  pub devices : List Device
  pub total_swap_pages : ℕ
  pub used_swap_pages : ℕ
  pub lru : Lru
  pub swap_in_count : ℕ
  pub swap_out_count : ℕ
  pub reclaim_attempts : ℕ

-- `vmm`, `swap_manager`, `current_directory`, and the page directories by their addresses.
pub record Memory : Type 0 where
  pub frames : Frames
  pub dirs : ℕ → PageDir
  pub current : ℕ
  pub heap : List ℕ
  pub swap : SwapManager

abbrev pub M : Type 0 → Type 0
M A = Memory → Option (A × Memory)

-- What follows a computation that has returned, if it has.
abbrev pub follow_up : {A B : Type 0} → (A → M B) → Option (A × Memory) → Option (B × Memory)
follow_up k none = none
follow_up k (some (a, t)) = k a t

infixl 5 ◌>>=◌
abbrev pub ◌>>=◌ : {A B : Type 0} → M A → (A → M B) → M B
◌>>=◌ m k s = follow_up k (m s)

abbrev pub next_block : List ℕ → ℕ
next_block [] = 0
next_block (p ∷ ps) = p

abbrev pub blocks_left : List ℕ → List ℕ
blocks_left [] = []
blocks_left (p ∷ ps) = ps

-- `kmalloc`
abbrev pub kmalloc : M ℕ
kmalloc s = some (next_block s.heap, record s { heap = blocks_left s.heap })

abbrev pub set_dir : ℕ → PageDir → Memory → Memory
set_dir p pd s = record s { dirs = update s.dirs p pd }

abbrev pub set_swap : SwapManager → Memory → Memory
set_swap w s = record s { swap = w }
