-- ===== src/Runtime/Div64.antt =====
-- src/kernel/runtime/divdi3.cc: 64-bit division by shift and subtract, for a 32-bit machine.
pub mod Laws
mod Tests
use km_os.Prelude.{
  ℕ, zero, suc, ◌+◌, ◌-◌, ◌*◌, ◌/◌, ◌%◌, ◌^◌, Bool, ◌==◌, ltb, if◌then◌else◌, set_bit,
}

abbrev pub u64_mod : ℕ
u64_mod = 2 ^ 64

-- `r = r << 1; r |= (n >> i) & 1;` The shift drops bit 64, and leaves bit 0 clear.
unfoldable pub shift_in : ℕ → ℕ → ℕ → ℕ
shift_in n i r = (r * 2) % u64_mod + n / 2 ^ i % 2

pub record DivState : Type 0 where
  pub q : ℕ
  pub r : ℕ

-- One round of the loop of `__udivdi3`, at index `i`.
unfoldable pub div_round : ℕ → ℕ → ℕ → DivState → DivState
div_round n d i s =
    let r = shift_in n i s.r in
    if ltb r d then record { q = s.q; r = r } else record { q = set_bit s.q i; r = r - d }

-- `for (int i = k - 1; i >= 0; i--)`
unfoldable pub div_loop : ℕ → ℕ → ℕ → DivState → DivState
div_loop n d zero s = s
div_loop n d (suc i) s = div_loop n d i (div_round n d i s)

unfoldable pub udivdi3 : ℕ → ℕ → ℕ
udivdi3 n d = if d == 0 then 0 else (div_loop n d 64 (record { q = 0; r = 0 })).q

unfoldable pub mod_round : ℕ → ℕ → ℕ → ℕ → ℕ
mod_round n d i s = let r = shift_in n i s in if ltb r d then r else r - d

unfoldable pub mod_loop : ℕ → ℕ → ℕ → ℕ → ℕ
mod_loop n d zero r = r
mod_loop n d (suc i) r = mod_loop n d i (mod_round n d i r)

unfoldable pub umoddi3 : ℕ → ℕ → ℕ
umoddi3 n d = if d == 0 then 0 else mod_loop n d 64 0
