-- ===== src/X86/Replacement/Victims/Score.antt =====
-- How the score of a page depends on its age.
use km_os.Prelude.{
  ℕ, ◌+◌, ◌-◌, ◌/◌, ◌%◌, ◌^◌, ◌<◌, ◌≤◌, ◌≡◌, Bool, true, false, arith, Bool-cases, inl, inr,
  if◌then◌else◌, ltb, test_bit, add32,
}
use native.Mathlib.Nat.{div-le_self}
use km_os.X86.Replacement.{Descriptor}
use km_os.X86.Replacement.Victims.{score_at}

-- The difference of the 64-bit times in 32 bits, for an access less than 2^31 ticks ago.
aged : (now t : ℕ) → t ≤ now → now < t + 2 ^ 31 → (now + 2 ^ 64 - t) % 2 ^ 32 ≡ now - t
aged now t h g = omega arith

abbrev frequency : ℕ → ℕ
frequency n = if ltb 0 n then 1000 / n else 1000

frequency-le : (n : ℕ) → frequency n ≤ 1000
frequency-le n = elim (Bool-cases (ltb 0 n)) [
  | inl some_yet ↦ rw some_yet (div-le_self 1000 n)
  | inr none_yet ↦ rw none_yet (omega arith)
]

by_age :
    (young old f : ℕ) (dirty : Bool)
    → f ≤ 1000
    → young + 1024 ≤ old
    → old < 2 ^ 31
    → (if dirty then add32 (add32 (young / 2 ^ 10) f) 500 else add32 (young / 2 ^ 10) f)
      < (if dirty then add32 (add32 (old / 2 ^ 10) f) 500 else add32 (old / 2 ^ 10) f)
by_age young old f true a b c = omega arith
by_age young old f false a b c = omega arith

-- Of two pages with the same flags, PR_FLAG_ACCESSED not among them, and the same access count, whose
-- last accesses lie within 2^31 ticks before `now`: the one that was last accessed 1024 or more ticks
-- earlier has the higher score. `lru_enhanced_find_victim` takes the lowest.
pub score_at-age :
    (now : ℕ) (d e : Descriptor)
    → d.flags ≡ e.flags
    → test_bit d.flags 0 ≡ false
    → d.access_count ≡ e.access_count
    → d.last_access_time + 1024 ≤ e.last_access_time
    → e.last_access_time ≤ now
    → now < d.last_access_time + 2 ^ 31
    → now < 2 ^ 64
    → score_at now e < score_at now d
unfolding score_at
score_at-age now d e flags clear counts older seen recent range =
    rw
      (
        aged now e.last_access_time seen (omega arith),
        aged now d.last_access_time (omega arith) recent,
        ← flags,
        ← counts,
        clear,
      )
      (by_age (now - e.last_access_time) (now - d.last_access_time) (frequency d.access_count)
        (test_bit d.flags 1) (frequency-le d.access_count) (omega arith) (omega arith))
