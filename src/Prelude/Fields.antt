-- ===== src/Prelude/Fields.antt =====
-- `hi << k | lo` is a sum where `lo` has at most `k` bits.
use Prim.Native.Nat.{
  ℕ, zero, suc, ◌+◌, ◌*◌, ◌/◌, ◌%◌, ◌^◌, ◌≤◌, ◌<◌, max, bit_or, digits, bit_or-bitwise,
}
use mathlib.Core.Path.{◌≡◌, refl, ap}
use native.Mathlib.Nat.{pow-suc}
use native.Mathlib.Omega.{arith}

abbrev or_digits : ℕ → ℕ → ℕ → ℕ
or_digits n a b = digits (λ y. y) max n a b

-- The digits beyond the first argument's do not matter.
or_digits_stable : (n m a b : ℕ) → a ≤ n → a ≤ m → or_digits n a b ≡ or_digits m a b
or_digits_stable zero zero a b p q = refl
or_digits_stable zero (suc m) zero b p q = refl
or_digits_stable zero (suc m) (suc a) b p q = absurd (omega arith)
or_digits_stable (suc n) zero zero b p q = refl
or_digits_stable (suc n) zero (suc a) b p q = absurd (omega arith)
or_digits_stable (suc n) (suc m) zero b p q = refl
or_digits_stable (suc n) (suc m) (suc a) b p q =
    omega (arith, or_digits_stable n m (suc a / 2) (b / 2) (omega arith) (omega arith))

last_digit : (a b : ℕ) → bit_or a b ≡ bit_or (a / 2) (b / 2) * 2 + max (a % 2) (b % 2)
last_digit zero b = omega (arith, bit_or-bitwise 0 b, bit_or-bitwise 0 (b / 2))
last_digit (suc a) b = omega (
  arith,
  bit_or-bitwise (suc a) b,
  bit_or-bitwise (suc a / 2) (b / 2),
  or_digits_stable a (suc a / 2) (suc a / 2) (b / 2) (omega arith) (omega arith),
)

or_nothing : (n a : ℕ) → a ≤ n → bit_or a 0 ≡ a
or_nothing n zero h = refl
or_nothing zero (suc a) h = absurd (omega arith)
or_nothing (suc n) (suc a) h =
    omega (arith, last_digit (suc a) 0, or_nothing n (suc a / 2) (omega arith))

pub or_fields : (k hi lo : ℕ) → lo < 2 ^ k → bit_or (hi * 2 ^ k) lo ≡ hi * 2 ^ k + lo
or_fields zero hi lo h =
    let none_left : lo ≡ 0 = omega arith in
    rw none_left (omega (arith, or_nothing (hi * 1) (hi * 1) (omega arith)))
or_fields (suc k) hi lo h = omega (
  arith,
  last_digit (hi * 2 ^ suc k) lo,
  whole,
  ap (λ t. bit_or t (lo / 2)) half,
  or_fields k hi (lo / 2) (omega (arith, pow-suc 2 k)),
)
  where
    whole : hi * 2 ^ suc k ≡ hi * 2 ^ k * 2
    whole = omega (arith, ap (λ t. hi * t) (pow-suc 2 k))

    half : hi * 2 ^ suc k / 2 ≡ hi * 2 ^ k
    half = omega (arith, whole)
