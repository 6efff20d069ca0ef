-- ===== src/Runtime/Div64/Laws.antt =====
-- The quotient and the remainder of divdi3.cc.
use native.Mathlib.Nat.{
  pow-suc, div-div-eq-div-mul, div-le_self, div-one, div-eq_of_lt-le, mod_def, div-eq_of_lt,
}
use km_os.Prelude.{
  ℕ, zero, suc, ◌+◌, ◌*◌, ◌/◌, ◌%◌, ◌^◌, ◌<◌, ◌≡◌, refl, ap, sym, ◌∙◌, arith, set_bit-mul,
  Bool-cases, ltb, inl, inr, ltb→lt, ltb-false→le,
}
use km_os.Runtime.Div64.{
  u64_mod, shift_in, DivState, div_round, div_loop, udivdi3, mod_round, mod_loop, umoddi3,
}

-- After the bits from `k` on: the part of `n` above bit `k` is `m * d + r`, and `q` is `m` shifted.
record Divides (n d k : ℕ) (s : DivState) : Type 0 where
  m : ℕ
  quotient : s.q ≡ m * 2 ^ k
  split : m * d + s.r ≡ n / 2 ^ k
  small : s.r < d

half_prefix : (n i : ℕ) → n / 2 ^ suc i ≡ n / 2 ^ i / 2
half_prefix n i = ap (λ p. n / p) (pow-suc 2 i) ∙ sym (div-div-eq-div-mul n (2 ^ i) 2)

-- No bit is lost by the shift: the remainder is at most a proper prefix of a 64-bit number.
shift_in_exact :
    (n d i m r : ℕ)
    → n < u64_mod
    → m * d + r ≡ n / 2 ^ suc i
    → shift_in n i r ≡ r * 2 + n / 2 ^ i % 2
unfolding shift_in
shift_in_exact n d i m r h e = omega (arith, half_prefix n i, div-le_self n (2 ^ i), e)

div_round-Divides :
    (n d i : ℕ) (s : DivState)
    → n < u64_mod
    → Divides n d (suc i) s
    → Divides n d i (div_round n d i s)
unfolding div_round
div_round-Divides n d i s h v = elim (Bool-cases (ltb (shift_in n i s.r) d)) [
  | inl less ↦ rw less (record {
    m = v.m * 2;
    quotient = omega (arith, v.quotient, ap (λ p. v.m * p) (pow-suc 2 i));
    split = omega (arith, step, v.split, half_prefix n i);
    small = ltb→lt _ _ less;
  })
  | inr more ↦ rw more (record {
    m = v.m * 2 + 1;
    quotient = rw v.quotient (omega (arith, set_bit-mul v.m i, ap (λ p. v.m * p) (pow-suc 2 i)));
    split = omega (arith, step, v.split, half_prefix n i, ltb-false→le _ _ more);
    small = omega (arith, step, v.small);
  })
]
  where
    step : shift_in n i s.r ≡ s.r * 2 + n / 2 ^ i % 2
    step = shift_in_exact n d i v.m s.r h v.split

div_loop-Divides :
    (n d k : ℕ) (s : DivState) → n < u64_mod → Divides n d k s → Divides n d 0 (div_loop n d k s)
unfolding div_loop
div_loop-Divides n d zero s h v = v
div_loop-Divides n d (suc i) s h v =
    div_loop-Divides n d i (div_round n d i s) h (div_round-Divides n d i s h v)

start-Divides : (n d : ℕ) → n < u64_mod → 0 < d → Divides n d 64 (record { q = 0; r = 0 })
start-Divides n d h p = record {
  m = 0;
  quotient = refl;
  split = omega (arith, div-eq_of_lt h);
  small = p;
}

quotient_of_Divides : (n d : ℕ) (s : DivState) → Divides n d 0 s → (n / d ≡ s.q) × (n % d ≡ s.r)
quotient_of_Divides n d s v = (whole ∙ sym q-m, rest)
  where
    q-m : s.q ≡ v.m
    q-m = omega (arith, v.quotient)

    total : v.m * d + s.r ≡ n
    total = omega (arith, v.split, div-one n)

    whole : n / d ≡ v.m
    whole = div-eq_of_lt-le d (omega (arith, total)) (omega (arith, total, v.small))

    rest : n % d ≡ s.r
    rest = omega (arith, mod_def n d, ap (λ x. d * x) whole, total)

-- `__umoddi3` runs the loop of `__udivdi3` without the quotient.
mod_round-div_round : (n d i : ℕ) (s : DivState) → mod_round n d i s.r ≡ (div_round n d i s).r
unfolding mod_round div_round
mod_round-div_round n d i s = ground arith

mod_loop-div_loop : (n d k : ℕ) (s : DivState) → mod_loop n d k s.r ≡ (div_loop n d k s).r
unfolding mod_loop div_loop
mod_loop-div_loop n d zero s = refl
mod_loop-div_loop n d (suc i) s =
    rw (mod_round-div_round n d i s) (mod_loop-div_loop n d i (div_round n d i s))

-- For a 64-bit dividend and a divisor that is not 0, `__udivdi3` returns the quotient and
-- `__umoddi3` the remainder of the division.
pub udivdi3_correct :
    (n d : ℕ) → n < u64_mod → 0 < d → (udivdi3 n d ≡ n / d) × (umoddi3 n d ≡ n % d)
unfolding udivdi3 umoddi3
udivdi3_correct n d h p =
    ground
      (arith, quotient_of_Divides n d _ final, mod_loop-div_loop n d 64 (record { q = 0; r = 0 }))
  where
    final : Divides n d 0 (div_loop n d 64 (record { q = 0; r = 0 }))
    final = div_loop-Divides n d 64 _ h (start-Divides n d h p)
