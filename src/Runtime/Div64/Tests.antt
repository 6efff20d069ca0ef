-- ===== src/Runtime/Div64/Tests.antt =====
-- divdi3.cc at concrete numbers.
use km_os.Prelude.{◌≡◌, refl, arith, set_bit}
use km_os.Runtime.Div64.{udivdi3, umoddi3, div_loop, div_round, shift_in}
use km_os.Runtime.Div64.Laws.{udivdi3_correct}

udivdi3_runs : udivdi3 18446744073709551615 9223372036854775809 ≡ 1
unfolding udivdi3 div_loop div_round shift_in set_bit
udivdi3_runs = refl

udivdi3_by_zero : udivdi3 17 0 ≡ 0
unfolding udivdi3
udivdi3_by_zero = refl

udivdi3_correct_example : (udivdi3 1000 7 ≡ 142) × (umoddi3 1000 7 ≡ 6)
udivdi3_correct_example = udivdi3_correct 1000 7 (omega arith) (omega arith)
