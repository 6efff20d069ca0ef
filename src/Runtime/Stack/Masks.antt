-- ===== src/Runtime/Stack/Masks.antt =====
-- Rounding up to the alignment of 16, as src/kernel/runtime/stack.cc writes it.
use Prim.Native.Nat.{
  ℕ, zero, suc, ◌+◌, ◌*◌, ◌/◌, ◌%◌, ◌^◌, ◌≤◌, ◌<◌, min, bit_and, digits, bit_and-bitwise,
}
use mathlib.Core.Path.{◌≡◌, refl}
use native.Mathlib.Omega.{arith}
use km_os.Prelude.{add32, sub32}
use km_os.Runtime.Stack.{align_size}

abbrev and_digits : ℕ → ℕ → ℕ → ℕ
and_digits n a b = digits (λ y. zero) min n a b

-- The digits beyond the first argument's do not matter.
and_digits_stable : (n m a b : ℕ) → a ≤ n → a ≤ m → and_digits n a b ≡ and_digits m a b
and_digits_stable zero zero a b p q = refl
and_digits_stable zero (suc m) zero b p q = refl
and_digits_stable zero (suc m) (suc a) b p q = absurd (omega arith)
and_digits_stable (suc n) zero zero b p q = refl
and_digits_stable (suc n) zero (suc a) b p q = absurd (omega arith)
and_digits_stable (suc n) (suc m) zero b p q = refl
and_digits_stable (suc n) (suc m) (suc a) b p q =
    omega (arith, and_digits_stable n m (suc a / 2) (b / 2) (omega arith) (omega arith))

last_digit : (a b : ℕ) → bit_and a b ≡ bit_and (a / 2) (b / 2) * 2 + min (a % 2) (b % 2)
last_digit zero b = omega (arith, bit_and-bitwise 0 b, bit_and-bitwise 0 (b / 2))
last_digit (suc a) b = omega (
  arith,
  bit_and-bitwise (suc a) b,
  bit_and-bitwise (suc a / 2) (b / 2),
  and_digits_stable a (suc a / 2) (suc a / 2) (b / 2) (omega arith) (omega arith),
)

nothing : (n a : ℕ) → a ≤ n → bit_and a 0 ≡ 0
nothing n zero h = refl
nothing zero (suc a) h = absurd (omega arith)
nothing (suc n) (suc a) h = omega (arith, last_digit (suc a) 0, nothing n (suc a / 2) (omega arith))

low_bits : (y : ℕ) → bit_and y 15 ≡ y % 16
low_bits y = omega (
  arith,
  last_digit y 15,
  last_digit (y / 2) 7,
  last_digit (y / 2 / 2) 3,
  last_digit (y / 2 / 2 / 2) 1,
  nothing (y / 2 / 2 / 2 / 2) (y / 2 / 2 / 2 / 2) (omega arith),
)

-- With the default alignment a size or a pointer goes up to the next multiple of 16.
pub align_size-16 : (x : ℕ) → x + 16 < 2 ^ 32 → align_size x 16 ≡ (x + 15) / 16 * 16
unfolding align_size
align_size-16 x h = omega (arith, low_bits (sub32 (add32 x 16) 1))
