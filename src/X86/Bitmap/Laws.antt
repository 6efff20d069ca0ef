-- ===== src/X86/Bitmap/Laws.antt =====
-- The scan for a clear bit against the slots of the bitmap.
use native.Mathlib.Decide.{ℕ_discrete}
use km_os.Prelude.{
  ℕ, zero, suc, ◌+◌, ◌-◌, ◌*◌, ◌/◌, ◌%◌, ◌^◌, ◌<◌, ◌≤◌, ◌≡◌, ◌≢◌, refl, sym, ◌∙◌, true, false, List,
  [], ◌∷◌, Option, none, some, ◌==◌, if◌then◌else◌, get_or, set, length, arith, test_bit, set_bit,
  clear_bit, set_bit-lt, clear_bit-lt, test_bit-set_self, test_bit-set_ne, test_bit-clear_self,
  test_bit-clear_ne, ones_of_test_bit, get_or-set_self, get_or-set_ne, Bool-cases, inl, inr, ==→eq,
  ltb, ltb→lt, ltb-false→le, test_bit-ones, ==-false→ne, eq→==, ne→==-false,
}
use km_os.X86.Bitmap.{full_word, first_clear, find_clear, mark, unmark, slot, Words}

-- What the scan of one word reports, from `bit` on.
abbrev FirstBit : ℕ → ℕ → ℕ → Option ℕ → Type 0
FirstBit n bit word none = (k : ℕ) → bit ≤ k → k < bit + n → test_bit word k ≡ true
FirstBit n bit word (some b) =
    (bit ≤ b)
    × (b < bit + n)
    × (test_bit word b ≡ false)
    × ((k : ℕ) → bit ≤ k → k < b → test_bit word k ≡ true)

first_clear-FirstBit : (n bit word : ℕ) → FirstBit n bit word (first_clear n bit word)
unfolding first_clear
first_clear-FirstBit zero bit word = λ k p q. absurd (omega arith)
first_clear-FirstBit (suc n) bit word = elim (Bool-cases (test_bit word bit)) [
  | inl taken ↦
      rw taken (widen (first_clear n (bit + 1) word) taken (first_clear-FirstBit n (bit + 1) word))
  | inr free ↦ rw free ((omega arith, omega arith, free, λ k p q. absurd (omega arith)))
]
  where
    earlier :
        test_bit word bit ≡ true
        → (k : ℕ) → bit ≤ k
        → (bit + 1 ≤ k → test_bit word k ≡ true)
        → test_bit word k ≡ true
    earlier taken k p f = elim (ℕ_discrete bit k) [
      | yes e ↦ rw (← e) taken
      | no ne ↦ f (omega arith)
    ]

    widen :
        (r : Option ℕ)
        → test_bit word bit ≡ true
        → FirstBit n (bit + 1) word r
        → FirstBit (suc n) bit word r
    widen none taken f = λ k p q. earlier taken k p (λ p'. f k p' (omega arith))
    widen (some b) taken f =
        (omega arith, omega arith, f.2, λ k p q. earlier taken k p (λ p'. f.3 k p' q))

slot_low : (word : ℕ) (words : List ℕ) (k : ℕ) → k < 32 → slot (word ∷ words) k ≡ test_bit word k
slot_low word words k h =
    let q : k / 32 ≡ 0 = omega arith in let r : k % 32 ≡ k = omega arith in rw (q, r) refl

slot_high :
    (word : ℕ) (words : List ℕ) (k : ℕ) → 32 ≤ k → slot (word ∷ words) k ≡ slot words (k - 32)
slot_high word words k h =
    let q : k / 32 ≡ suc ((k - 32) / 32) = omega arith in
    let r : k % 32 ≡ (k - 32) % 32 = omega arith in rw (q, r) refl

-- What the scan of a bitmap reports, whose first word has index `idx`.
abbrev pub FirstSlot : List ℕ → ℕ → Option (ℕ × ℕ) → Type 0
FirstSlot words idx none = (k : ℕ) → k < length words * 32 → slot words k ≡ true
FirstSlot words idx (some (i, b)) =
    (idx ≤ i)
    × (i < idx + length words)
    × (b < 32)
    × (slot words ((i - idx) * 32 + b) ≡ false)
    × ((k : ℕ) → k < (i - idx) * 32 + b → slot words k ≡ true)

full_word_full : (k : ℕ) → k < 32 → test_bit full_word k ≡ true
full_word_full k h = test_bit-ones 32 full_word k refl h

-- A full first word is passed over.
past :
    (word : ℕ) (words : List ℕ) (idx : ℕ) (r : Option (ℕ × ℕ))
    → ((k : ℕ) → k < 32 → test_bit word k ≡ true)
    → FirstSlot words (idx + 1) r
    → FirstSlot (word ∷ words) idx r
past word words idx none full f = λ k h. elim (Bool-cases (ltb k 32)) [
  | inl low ↦ slot_low word words k (ltb→lt _ _ low) ∙ full k (ltb→lt _ _ low)
  | inr high ↦
      slot_high word words k (ltb-false→le _ _ high)
      ∙ f (k - 32) (omega (arith, ltb-false→le _ _ high))
]
past word words idx (some (i, b)) full f = (
  omega arith,
  omega arith,
  f.2,
  slot_high word words ((i - idx) * 32 + b) (omega arith) ∙ rw shift f.3,
  λ k h. elim (Bool-cases (ltb k 32)) [
    | inl low ↦ slot_low word words k (ltb→lt _ _ low) ∙ full k (ltb→lt _ _ low)
    | inr high ↦
        slot_high word words k (ltb-false→le _ _ high)
        ∙ f.4 (k - 32) (omega (arith, ltb-false→le _ _ high))
  ],
)
  where
    shift : (i - idx) * 32 + b - 32 ≡ (i - (idx + 1)) * 32 + b
    shift = omega arith

-- A word that is not full has a clear bit, which the scan of the word finds.
word_scan :
    (word : ℕ) (words : List ℕ) (idx : ℕ) (r : Option ℕ) (rest : Option (ℕ × ℕ))
    → word < 2 ^ 32
    → word ≢ full_word
    → FirstBit 32 0 word r
    → FirstSlot (word ∷ words) idx (elim r [ none ↦ rest | some bit ↦ some (idx, bit) ])
word_scan word words idx none rest h ne f =
    absurd (ne (omega (arith, ones_of_test_bit 32 word h (λ k p. f k (omega arith) (omega arith)))))
word_scan word words idx (some b) rest h ne f = (
  omega arith,
  omega arith,
  f.1,
  slot_low word words ((idx - idx) * 32 + b) (omega arith) ∙ rw same f.2,
  λ k p. slot_low word words k (omega arith) ∙ f.3 k (omega arith) (omega arith),
)
  where
    same : (idx - idx) * 32 + b ≡ b
    same = omega arith

-- The scan reports the first clear slot, and reports none only if every slot is set.
pub find_clear-FirstSlot :
    (words : List ℕ) (idx : ℕ) → Words words → FirstSlot words idx (find_clear words idx)
unfolding find_clear
find_clear-FirstSlot [] idx w = λ k h. absurd (omega arith)
find_clear-FirstSlot (word ∷ words) idx w = elim (Bool-cases (word == full_word)) [
  | inl full ↦ rw full (
      past word words idx _ (λ k h. rw (==→eq _ _ full) (full_word_full k h))
        (find_clear-FirstSlot words (idx + 1) w.1))
  | inr open_word ↦ rw open_word (
      word_scan word words idx (first_clear 32 0 word) (find_clear words (idx + 1)) w.0
        (==-false→ne _ _ open_word) (first_clear-FirstBit 32 0 word))
]

-- Writing one word changes the one slot.
pub slot-mark :
    (words : List ℕ) (i b k : ℕ)
    → i < length words
    → b < 32
    → slot (mark words i b) k ≡ (if k == i * 32 + b then true else slot words k)
slot-mark words i b k h p = elim (ℕ_discrete (k / 32) i) [
  | yes e ↦ rw (e, get_or-set_self words i (set_bit (get_or words i 0) b) 0 h) (here e)
  | no ne ↦
      rw (get_or-set_ne words i (k / 32) (set_bit (get_or words i 0) b) 0 (λ q. ne (sym q)))
        (rw (ne→==-false k (i * 32 + b) (λ q. ne (omega arith))) refl)
]
  where
    here :
        k / 32 ≡ i
        → test_bit (set_bit (get_or words i 0) b) (k % 32)
          ≡ (if k == i * 32 + b then true else test_bit (get_or words i 0) (k % 32))
    here e = elim (ℕ_discrete (k % 32) b) [
      | yes q ↦ rw (eq→== k (i * 32 + b) (omega arith), q) (test_bit-set_self (get_or words i 0) b)
      | no nq ↦
          rw (ne→==-false k (i * 32 + b) (λ q. nq (omega arith)))
            (test_bit-set_ne (get_or words i 0) b (k % 32) (λ q. nq (sym q)))
    ]

pub slot-unmark :
    (words : List ℕ) (i b k : ℕ)
    → i < length words
    → b < 32
    → slot (unmark words i b) k ≡ (if k == i * 32 + b then false else slot words k)
slot-unmark words i b k h p = elim (ℕ_discrete (k / 32) i) [
  | yes e ↦ rw (e, get_or-set_self words i (clear_bit (get_or words i 0) b) 0 h) (here e)
  | no ne ↦
      rw (get_or-set_ne words i (k / 32) (clear_bit (get_or words i 0) b) 0 (λ q. ne (sym q)))
        (rw (ne→==-false k (i * 32 + b) (λ q. ne (omega arith))) refl)
]
  where
    here :
        k / 32 ≡ i
        → test_bit (clear_bit (get_or words i 0) b) (k % 32)
          ≡ (if k == i * 32 + b then false else test_bit (get_or words i 0) (k % 32))
    here e = elim (ℕ_discrete (k % 32) b) [
      | yes q ↦
          rw (eq→== k (i * 32 + b) (omega arith), q) (test_bit-clear_self (get_or words i 0) b)
      | no nq ↦
          rw (ne→==-false k (i * 32 + b) (λ q. nq (omega arith)))
            (test_bit-clear_ne (get_or words i 0) b (k % 32) (λ q. nq (sym q)))
    ]

pub get_or-Words : (words : List ℕ) (i : ℕ) → Words words → get_or words i 0 < 2 ^ 32
get_or-Words [] i w = omega arith
get_or-Words (x ∷ words) zero w = w.0
get_or-Words (x ∷ words) (suc i) w = get_or-Words words i w.1

pub set-Words : (words : List ℕ) (i v : ℕ) → v < 2 ^ 32 → Words words → Words (set words i v)
set-Words [] i v h w = tt
set-Words (x ∷ words) zero v h w = (h, w.1)
set-Words (x ∷ words) (suc i) v h w = (w.0, set-Words words i v h w.1)

pub mark-Words : (words : List ℕ) (i b : ℕ) → b < 32 → Words words → Words (mark words i b)
mark-Words words i b h w = set-Words words i _ (set_bit-lt _ b 32 (get_or-Words words i w) h) w

pub unmark-Words : (words : List ℕ) (i b : ℕ) → Words words → Words (unmark words i b)
unmark-Words words i b w = set-Words words i _ (clear_bit-lt _ b 32 (get_or-Words words i w)) w

-- The scan from the first word, as the allocators make it.
abbrev pub FirstFit : List ℕ → Option (ℕ × ℕ) → Type 0
FirstFit words none = (k : ℕ) → k < length words * 32 → slot words k ≡ true
FirstFit words (some (i, b)) =
    (i < length words)
    × (b < 32)
    × (slot words (i * 32 + b) ≡ false)
    × ((k : ℕ) → k < i * 32 + b → slot words k ≡ true)

first_fit : (words : List ℕ) (r : Option (ℕ × ℕ)) → FirstSlot words 0 r → FirstFit words r
first_fit words none f = f
first_fit words (some (i, b)) f =
    let z : i - 0 ≡ i = omega arith in
    (omega (arith, f.1), f.2, rw z at (f.3), λ k h. f.4 k (rw z h))

pub find_clear-FirstFit : (words : List ℕ) → Words words → FirstFit words (find_clear words 0)
find_clear-FirstFit words w = first_fit words _ (find_clear-FirstSlot words 0 w)
