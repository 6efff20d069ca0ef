-- ===== src/X86/Bitmap.antt =====
-- Allocation bitmaps of 32-bit words, as vmm.cc keeps for page frames and swap.cc for swap slots:
-- the scan that both `VMM::alloc_frame` and `SwapManager::allocate_swap_entry` make.
pub mod Laws
use km_os.Prelude.{
  ℕ, zero, suc, ◌+◌, ◌*◌, ◌/◌, ◌%◌, ◌^◌, ◌<◌, Bool, List, [], ◌∷◌, Option, none, some, ◌==◌,
  if◌then◌else◌, get_or, set, test_bit, set_bit, clear_bit,
}

abbrev pub full_word : ℕ
full_word = 0xffff_ffff

-- `for (bit = 0; bit < 32; bit++) if (!(word & (1 << bit)))`, with `n` rounds left at `bit`.
unfoldable pub first_clear : ℕ → ℕ → ℕ → Option ℕ
first_clear zero bit word = none
first_clear (suc n) bit word =
    let rest = first_clear n (bit + 1) word in if test_bit word bit then rest else some bit

-- The loop over the words, at index `idx`: the word and the bit of the first clear one.
unfoldable pub find_clear : List ℕ → ℕ → Option (ℕ × ℕ)
find_clear [] idx = none
find_clear (word ∷ words) idx =
    let rest = find_clear words (idx + 1) in
    if word == full_word
    then rest
    else elim (first_clear 32 0 word) [ none ↦ rest | some bit ↦ some (idx, bit) ]

-- `bitmap[idx] |= (1 << bit)` and `bitmap[idx] &= ~(1 << bit)`
abbrev pub mark : List ℕ → ℕ → ℕ → List ℕ
mark words idx bit = set words idx (set_bit (get_or words idx 0) bit)

abbrev pub unmark : List ℕ → ℕ → ℕ → List ℕ
unmark words idx bit = set words idx (clear_bit (get_or words idx 0) bit)

-- The state of slot `k`: the abstract view of a bitmap.
abbrev pub slot : List ℕ → ℕ → Bool
slot words k = test_bit (get_or words (k / 32) 0) (k % 32)

-- Every word is one of 32 bits.
abbrev pub Words : List ℕ → Type 0
Words [] = Unit {0}
Words (word ∷ words) = (word < 2 ^ 32) × Words words
