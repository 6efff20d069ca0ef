-- ===== src/X86/RunQueue/Tests.antt =====
-- A ring of the processes 10 and 20.
use km_os.Prelude.{◌==◌, if◌then◌else◌, refl, arith, false, [], ◌∷◌}
use km_os.X86.RunQueue.{RunQueue, enqueue_process}
use km_os.X86.RunQueue.Enqueue.{Ring, enqueue_process-Ring}

abbrev pair : RunQueue
pair = record {
  procs = λ p. record {
    state = 4;
    pnext = if p == 10 then 20 else 10;
    total_runtime = 0;
    last_scheduled = 0;
    time_slice = 0;
  };
  plist = 10;
  first_proc = 20;
  pcurrent = 10;
  ticks_since_switch = 3;
}

pair-Ring : Ring pair (10 ∷ 20 ∷ [])
pair-Ring = record { closed = omega arith; empty = λ e. cc; distinct = omega arith; last = refl }

enqueue_process-Ring_example : Ring (enqueue_process 99 30 false pair) (10 ∷ 20 ∷ 30 ∷ [])
enqueue_process-Ring_example =
    enqueue_process-Ring 99 30 false pair (10 ∷ 20 ∷ []) (omega arith) (omega arith) pair-Ring
