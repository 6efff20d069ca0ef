-- ===== src/Core/Process.antt =====
-- Class Process of src/kernel/core/process.cc: its table of open files, its signals, and the choice of
-- the next process. Processes are addresses; the file pointer 0 is a free descriptor.
pub mod Descriptors
pub mod Signals
pub mod Schedule
mod Tests
use km_os.Prelude.{
  ℕ, zero, suc, ◌+◌, ◌-◌, ◌*◌, ◌/◌, ◌%◌, ◌^◌, Bool, true, false, ◌||◌, Option, none, some,
  if◌then◌else◌, ◌==◌, ltb, leb, update, add32, test_bit, set_bit, clear_bit,
}

-- CONFIG_MAX_FILE
abbrev pub max_file : ℕ
max_file = 32

pub record OpenFile : Type 0 where
  pub mode : ℕ
  pub ptr : ℕ
  pub fp : ℕ

-- The loop of `addFile`, with `k` descriptors left from `i` on: the descriptor, or -1.
unfoldable pub add_from : ℕ → ℕ → ℕ → ℕ → (ℕ → OpenFile) → ℕ × (ℕ → OpenFile)
add_from zero i f m table = (2 ^ 32 - 1, table)
add_from (suc k) i f m table =
    let rest = add_from k (i + 1) f m table in
    if (table i).fp == 0
    then (if f == 0 then rest else (i, update table i (record { mode = m; ptr = 0; fp = f })))
    else rest

unfoldable pub add_file : ℕ → ℕ → (ℕ → OpenFile) → ℕ × (ℕ → OpenFile)
unfolding add_from
add_file f m table = add_from max_file 0 f m table

unfoldable pub get_file : ℕ → (ℕ → OpenFile) → ℕ
get_file fd table = if leb max_file fd then 0 else (table fd).fp

unfoldable pub delete_file : ℕ → (ℕ → OpenFile) → ℕ → OpenFile
delete_file fd table =
    if leb max_file fd then table else update table fd (record { mode = 0; ptr = 0; fp = 0 })

unfoldable pub set_file : ℕ → ℕ → ℕ → ℕ → (ℕ → OpenFile) → ℕ → OpenFile
set_file fd file mode ptr table =
    if ltb fd max_file
    then update table fd (record { mode = mode; ptr = ptr; fp = file })
    else table

-- `set_signal`, `clear_signal` and `is_signal` of src/kernel/core/signal.h, for signals from 1 to 32.
unfoldable pub set_signal : ℕ → ℕ → ℕ
set_signal mask sig = set_bit mask (sig - 1)

unfoldable pub clear_signal : ℕ → ℕ → ℕ
clear_signal mask sig = clear_bit mask (sig - 1)

unfoldable pub is_signal : ℕ → ℕ → Bool
is_signal mask sig = test_bit mask (sig - 1)

-- The states of process.h, where ZOMBIE is PROC_STATE_ZOMBIE of api/dev/proc.h, and so the number of
-- RUNNING.
abbrev pub zombie : ℕ
zombie = 1

abbrev pub running : ℕ
running = 1

abbrev pub sleeping : ℕ
sleeping = 2

abbrev pub ready : ℕ
ready = 4

-- The bit of signal 17, SIGCHLD, is what a parent waits for.
abbrev pub sigchld : ℕ
sigchld = 17

-- What the scheduler reads and writes of a process; times are 64-bit.
pub record Proc : Type 0 where
  pub state : ℕ
  pub pnext : ℕ
  pub total_runtime : ℕ
  pub last_scheduled : ℕ
  pub time_slice : ℕ

-- `(n->pnext != NULL) ? n->pnext : arch.plist`
abbrev pub advance : (ℕ → Proc) → ℕ → ℕ → ℕ
advance procs plist n = if (procs n).pnext == 0 then plist else (procs n).pnext

abbrev pub is_blocked : (ℕ → Proc) → ℕ → Bool
is_blocked procs n = (procs n).state == zombie || (procs n).state == sleeping

-- The loop of `schedule`, with `k` of its attempts left at `n`: where it stops, or `none` when the
-- attempts are used up.
unfoldable pub seek : ℕ → (ℕ → Proc) → ℕ → ℕ → Option ℕ
seek zero procs plist n = none
seek (suc k) procs plist n =
    let next = advance procs plist n in
    let rest = seek k procs plist next in
    if next == 0 then some 0 else if is_blocked procs next then rest else some next

-- The writes of `schedule` from process `p` to process `n`, at the time `now`.
unfoldable pub switch_to : ℕ → ℕ → ℕ → (ℕ → Proc) → ℕ → Proc
switch_to now p n procs =
    let left =
      if (procs p).state == running
      then update procs p (record (procs p) {
        total_runtime =
            ((procs p).total_runtime + (now + 2 ^ 64 - (procs p).last_scheduled)) % 2 ^ 64;
        state = ready;
      })
      else procs in
    update left n (record (left n) {
      state = running;
      last_scheduled = now;
      time_slice = add32 (left n).time_slice 1;
    })

-- `Process::exit` of the process `p`, and the signals of its parent, if it has one.
unfoldable pub exit : ℕ → (ℕ → Proc) → ℕ → Proc
exit p procs = update procs p (record (procs p) { state = zombie })

unfoldable pub exit_signal : ℕ → (ℕ → ℕ) → ℕ → ℕ
unfolding set_signal
exit_signal parent signals =
    if parent == 0 then signals else update signals parent (set_signal (signals parent) sigchld)

-- The end of `schedule`, where the loop has stopped.
unfoldable pub follow : ℕ → ℕ → (ℕ → Proc) → Option ℕ → ℕ × (ℕ → Proc)
follow now p procs none = (p, procs)
follow now p procs (some n) =
    if n == 0 then (p, procs) else if n == p then (p, procs) else (n, switch_to now p n procs)

-- `Process::schedule` of the process `p`: the process chosen, and all processes.
unfoldable pub schedule : ℕ → ℕ → (ℕ → Proc) → ℕ → ℕ × (ℕ → Proc)
schedule now plist procs p =
    if (procs p).pnext == 0 then (p, procs) else follow now p procs (seek 100 procs plist p)
