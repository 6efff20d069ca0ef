-- ===== src/Runtime/Slob/Efficiency.antt =====
-- `SLOBAllocator::get_efficiency` as a percentage.
use native.Mathlib.Nat.{div-le_of_le-mul}
use km_os.Prelude.{◌+◌, ◌*◌, ◌^◌, ◌<◌, ◌≤◌, arith, Bool-cases, inl, inr, ◌==◌, add32}
use km_os.Runtime.Slob.{Slob}
use km_os.Runtime.Slob.Ops.{get_efficiency}

-- Where the counters and a hundred times the allocated bytes are below 2^32, `get_efficiency` is at
-- most 100.
pub get_efficiency-le :
    (s : Slob)
    → s.total_allocated * 100 < 2 ^ 32
    → s.total_allocated + s.total_free < 2 ^ 32
    → get_efficiency s ≤ 100
unfolding get_efficiency
get_efficiency-le s h g = elim (Bool-cases (add32 s.total_allocated s.total_free == 0)) [
  | inl e ↦ rw e (omega arith)
  | inr e ↦ rw e (div-le_of_le-mul _ (omega arith))
]
