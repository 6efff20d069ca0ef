-- ===== src/X86/RunQueue.antt =====
-- The run queue of class Architecture in src/kernel/arch/x86/architecture.cc: a ring of processes through
-- `pnext`, from `plist` to `firstProc`, which is its last one.
pub mod Enqueue
mod Tests
use km_os.Prelude.{ℕ, Bool, true, false, ◌&&◌, ◌||◌, not, if◌then◌else◌, ◌==◌, update}
use km_os.Core.Process.{Proc, running, ready}

pub record RunQueue : Type 0 where
  pub procs : ℕ → Proc
  pub plist : ℕ
  pub first_proc : ℕ
  pub pcurrent : ℕ
  pub ticks_since_switch : ℕ

-- `p->setPNext(v)` and `p->setState(v)`
abbrev pub set_pnext : ℕ → ℕ → (ℕ → Proc) → ℕ → Proc
set_pnext p v procs = update procs p (record (procs p) { pnext = v })

abbrev pub set_state : ℕ → ℕ → (ℕ → Proc) → ℕ → Proc
set_state p v procs = update procs p (record (procs p) { state = v })

-- The first half of `enqueue_process`: the links.
unfoldable pub link_process : ℕ → RunQueue → RunQueue
link_process p q =
    if q.plist == 0
    then record q { plist = p; first_proc = p; procs = set_pnext p p q.procs }
    else record q { procs = set_pnext q.first_proc p (set_pnext p q.plist q.procs); first_proc = p }

-- Its second half, at the time `now`: the current process and the states.
unfoldable pub start_process : ℕ → ℕ → Bool → RunQueue → RunQueue
start_process now p make_current q =
    if make_current || q.pcurrent == 0
    then (let paused =
          if not (q.pcurrent == 0) && not (q.pcurrent == p) && (q.procs q.pcurrent).state == running
          then set_state q.pcurrent ready q.procs
          else q.procs in
        record q {
          pcurrent = p;
          procs =
              update paused p
                (record (paused p) { state = running; last_scheduled = now; time_slice = 0 });
          ticks_since_switch = 0;
        })
    else record q { procs = set_state p ready q.procs }

-- `Architecture::enqueue_process`
unfoldable pub enqueue_process : ℕ → ℕ → Bool → RunQueue → RunQueue
enqueue_process now p make_current q =
    if p == 0 then q else start_process now p make_current (link_process p q)
