-- ===== src/Core/Process/Tests.antt =====
-- Processes 10, 20 and 30 in a ring, of which 20 sleeps; and a table with descriptor 0 in use.
use km_os.Prelude.{ℕ, ◌≡◌, ◌==◌, if◌then◌else◌, refl, arith, [], ◌∷◌}
use km_os.Core.Process.{
  OpenFile, Proc, add_file, add_from, get_file, delete_file, running, ready, sleeping, schedule,
}
use km_os.Core.Process.Descriptors.{get_file-add_file}
use km_os.Core.Process.Schedule.{Switched, Sound, schedule-Switched, schedule-Sound}

abbrev table : ℕ → OpenFile
table fd = record { mode = 0; ptr = 0; fp = if fd == 0 then 7 else 0 }

add_file_runs : (add_file 9 0 table).0 ≡ 1
unfolding add_file add_from
add_file_runs = refl

get_file-add_file_example :
    (get_file 1 (add_file 9 0 table).1 ≡ 9)
    × (get_file 1 (delete_file 1 (add_file 9 0 table).1) ≡ 0)
get_file-add_file_example = get_file-add_file 9 0 1 table (omega arith) add_file_runs (omega arith)

abbrev ring : ℕ → Proc
ring p = record {
  state = if p == 10 then running else if p == 20 then sleeping else ready;
  pnext = if p == 10 then 20 else if p == 20 then 30 else 10;
  total_runtime = 0;
  last_scheduled = 0;
  time_slice = 0;
}

schedule-Switched_example :
    ((schedule 100 10 ring 10).0 ≡ 30) × Switched 10 30 100 ring (schedule 100 10 ring 10).1
schedule-Switched_example =
    schedule-Switched 100 10 10 30 ring (20 ∷ []) (omega arith) (refl, omega arith, refl, refl)
      (omega arith) (omega arith) (omega arith) refl

schedule-Sound_example : Sound 100 10 ring (schedule 100 10 ring 10)
schedule-Sound_example = schedule-Sound 100 10 10 ring
