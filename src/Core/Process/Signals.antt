-- ===== src/Core/Process/Signals.antt =====
-- The pending signals of a process: the macros of src/kernel/core/signal.h.
use km_os.Prelude.{
  ℕ, ◌-◌, ◌≤◌, ◌≡◌, ◌≢◌, arith, true, false, if◌then◌else◌, ◌==◌, inl, inr, Bool-cases, ==→eq,
  ==-false→ne, test_bit-set_self, test_bit-set_ne, test_bit-clear_self, test_bit-clear_ne,
}
use km_os.Core.Process.{set_signal, clear_signal, is_signal}

-- For signals from 1 on: setting one adds it to the pending ones, clearing one takes it away, and
-- neither changes another.
pub is_signal-set_clear :
    (mask sig other : ℕ)
    → 1 ≤ sig
    → 1 ≤ other
    → (is_signal (set_signal mask sig) other
        ≡ (if sig == other then true else is_signal mask other))
      × (is_signal (clear_signal mask sig) other
          ≡ (if sig == other then false else is_signal mask other))
unfolding set_signal clear_signal is_signal
is_signal-set_clear mask sig other h g = elim (Bool-cases (sig == other)) [
  | inl e ↦
      rw (e, ==→eq sig other e)
        (test_bit-set_self mask (other - 1), test_bit-clear_self mask (other - 1))
  | inr ne ↦ rw ne (
    test_bit-set_ne mask (sig - 1) (other - 1) (apart (==-false→ne sig other ne)),
    test_bit-clear_ne mask (sig - 1) (other - 1) (apart (==-false→ne sig other ne)),
  )
]
  where
    apart : sig ≢ other → sig - 1 ≢ other - 1
    apart n = omega arith
