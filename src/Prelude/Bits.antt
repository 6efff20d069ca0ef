-- ===== src/Prelude/Bits.antt =====
-- Single bits of a machine word. `test_bit w k` is `w & (1 << k)` as a truth value, `set_bit w k`
-- is `w | (1 << k)` and `clear_bit w k` is `w & ~(1 << k)`, each read digit by digit.
use Prim.Native.Nat.{ℕ, zero, suc, ◌+◌, ◌*◌, ◌/◌, ◌%◌, ◌^◌, ◌<◌}
use mathlib.Core.Path.{◌≡◌, refl, ap}
use mathlib.Core.Logic.{◌≢◌}
use mathlib.Core.Bool.{Bool, true, false}
use native.Mathlib.Nat.{pow-suc}
use native.Mathlib.Omega.{arith}
use km_os.Prelude.Tests.{◌==◌, eq→==}

unfoldable pub test_bit : ℕ → ℕ → Bool
test_bit w zero = w % 2 == 1
test_bit w (suc k) = test_bit (w / 2) k

unfoldable pub set_bit : ℕ → ℕ → ℕ
set_bit w zero = w / 2 * 2 + 1
set_bit w (suc k) = set_bit (w / 2) k * 2 + w % 2

unfoldable pub clear_bit : ℕ → ℕ → ℕ
clear_bit w zero = w / 2 * 2
clear_bit w (suc k) = clear_bit (w / 2) k * 2 + w % 2

half_set : (w k : ℕ) → set_bit w (suc k) / 2 ≡ set_bit (w / 2) k
unfolding set_bit
half_set w k = omega arith

half_clear : (w k : ℕ) → clear_bit w (suc k) / 2 ≡ clear_bit (w / 2) k
unfolding clear_bit
half_clear w k = omega arith

pub test_bit-set_self : (w k : ℕ) → test_bit (set_bit w k) k ≡ true
unfolding test_bit
test_bit-set_self w zero = unfold set_bit in ground arith
test_bit-set_self w (suc k) = rw (half_set w k) (test_bit-set_self (w / 2) k)

pub test_bit-set_ne : (w k j : ℕ) → k ≢ j → test_bit (set_bit w k) j ≡ test_bit w j
unfolding test_bit
test_bit-set_ne w zero zero h = absurd (h refl)
test_bit-set_ne w zero (suc j) h = unfold set_bit in ap (λ v. test_bit v j) (omega arith)
test_bit-set_ne w (suc k) zero h = unfold set_bit in ap (λ v. v == 1) (omega arith)
test_bit-set_ne w (suc k) (suc j) h =
    rw (half_set w k) (test_bit-set_ne (w / 2) k j (λ e. h (ap suc e)))

pub test_bit-clear_self : (w k : ℕ) → test_bit (clear_bit w k) k ≡ false
unfolding test_bit
test_bit-clear_self w zero = unfold clear_bit in ground arith
test_bit-clear_self w (suc k) = rw (half_clear w k) (test_bit-clear_self (w / 2) k)

pub test_bit-clear_ne : (w k j : ℕ) → k ≢ j → test_bit (clear_bit w k) j ≡ test_bit w j
unfolding test_bit
test_bit-clear_ne w zero zero h = absurd (h refl)
test_bit-clear_ne w zero (suc j) h = unfold clear_bit in ap (λ v. test_bit v j) (omega arith)
test_bit-clear_ne w (suc k) zero h = unfold clear_bit in ap (λ v. v == 1) (omega arith)
test_bit-clear_ne w (suc k) (suc j) h =
    rw (half_clear w k) (test_bit-clear_ne (w / 2) k j (λ e. h (ap suc e)))

-- No bit is set in the word 0.
pub test_bit-zero : (k : ℕ) → test_bit 0 k ≡ false
unfolding test_bit
test_bit-zero zero = refl
test_bit-zero (suc k) = test_bit-zero k

-- A word of `n` bits stays one.
pub set_bit-lt : (w k n : ℕ) → w < 2 ^ n → k < n → set_bit w k < 2 ^ n
unfolding set_bit
set_bit-lt w zero zero h p = absurd (omega arith)
set_bit-lt w zero (suc n) h p = omega (arith, pow-suc 2 n)
set_bit-lt w (suc k) zero h p = absurd (omega arith)
set_bit-lt w (suc k) (suc n) h p =
    omega (arith, pow-suc 2 n, set_bit-lt (w / 2) k n (omega (arith, pow-suc 2 n)) (omega arith))

pub clear_bit-lt : (w k n : ℕ) → w < 2 ^ n → clear_bit w k < 2 ^ n
unfolding clear_bit
clear_bit-lt w zero n h = omega arith
clear_bit-lt w (suc k) zero h = omega (arith, clear_bit-lt (w / 2) k 0 (omega arith))
clear_bit-lt w (suc k) (suc n) h =
    omega (arith, pow-suc 2 n, clear_bit-lt (w / 2) k n (omega (arith, pow-suc 2 n)))

-- A word whose low `n` bits are all set has the value of the mask of `n` ones.
pub ones_of_test_bit :
    (n w : ℕ) → w < 2 ^ n → ((k : ℕ) → k < n → test_bit w k ≡ true) → w + 1 ≡ 2 ^ n
unfolding test_bit
ones_of_test_bit zero w h all = omega arith
ones_of_test_bit (suc n) w h all = omega (
  arith,
  pow-suc 2 n,
  low,
  ones_of_test_bit n (w / 2) (omega (arith, pow-suc 2 n)) (λ k p. all (suc k) (omega arith)),
)
  where
    low : w % 2 ≡ 1
    low = let e = all 0 (omega arith) in ground arith

-- No bit outside an `n`-bit word is set.
pub test_bit-ge : (n w k : ℕ) → w < 2 ^ n → n < suc k → test_bit w k ≡ false
unfolding test_bit
test_bit-ge zero w zero h p = let e : w ≡ 0 = omega arith in rw e refl
test_bit-ge (suc n) w zero h p = absurd (omega arith)
test_bit-ge zero w (suc k) h p = test_bit-ge zero (w / 2) k (omega arith) (omega arith)
test_bit-ge (suc n) w (suc k) h p =
    test_bit-ge n (w / 2) k (omega (arith, pow-suc 2 n)) (omega arith)

-- Above the set bits of a word, setting a bit adds its weight.
pub set_bit-mul : (m i : ℕ) → set_bit (m * 2 ^ suc i) i ≡ m * 2 ^ suc i + 2 ^ i
unfolding set_bit
set_bit-mul m zero = omega arith
set_bit-mul m (suc i) = omega (arith, whole, half, ap (λ v. set_bit v i) half, set_bit-mul m i)
  where
    whole : m * 2 ^ suc (suc i) ≡ m * 2 ^ suc i * 2
    whole = omega (arith, ap (λ p. m * p) (pow-suc 2 (suc i)))

    half : m * 2 ^ suc (suc i) / 2 ≡ m * 2 ^ suc i
    half = omega (arith, whole)

-- Every bit of a mask of `n` ones is set.
pub test_bit-ones : (n w k : ℕ) → w + 1 ≡ 2 ^ n → k < n → test_bit w k ≡ true
unfolding test_bit
test_bit-ones zero w k e h = absurd (omega arith)
test_bit-ones (suc n) w zero e h = eq→== (w % 2) 1 (omega (arith, e, pow-suc 2 n))
test_bit-ones (suc n) w (suc k) e h =
    test_bit-ones n (w / 2) k (omega (arith, e, pow-suc 2 n)) (omega arith)
