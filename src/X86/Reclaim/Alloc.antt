-- ===== src/X86/Reclaim/Alloc.antt =====
-- `VMM::alloc_frame` with and without a free frame.
use km_os.Prelude.{ℕ, zero, suc, ◌<◌, ◌≡◌, refl, true, none, some, Option-cases, inl, inr, ◌⊎◌}
use km_os.X86.Bitmap.{slot}
use km_os.X86.Frames.{Frames, max_frames, take_frame, IsValid}
use km_os.X86.Frames.Laws.{Taken, take_frame-Taken}
use km_os.X86.Memory.{Memory}
use km_os.X86.Reclaim.{check_memory_pressure, get_memory_stats, alloc_frame}

-- No amount of fuel lets either function return: each waits for the other.
pressure_diverges :
    (fuel : ℕ) (s : Memory)
    → (check_memory_pressure fuel s ≡ none) × (get_memory_stats fuel s ≡ none)
unfolding check_memory_pressure get_memory_stats
pressure_diverges zero s = (refl, refl)
pressure_diverges (suc fuel) s =
    let ih = pressure_diverges fuel s in
    (rw (ih.1, check_memory_pressure) refl, rw (ih.0, get_memory_stats) refl)

-- `check_memory_pressure` and `get_memory_stats` call one another without end: whatever the fuel
-- and the state, neither returns.
pub check_memory_pressure_diverges :
    (fuel : ℕ) (s : Memory)
    → (check_memory_pressure fuel s ≡ none) × (get_memory_stats fuel s ≡ none)
check_memory_pressure_diverges = pressure_diverges

-- For a valid bitmap: either some frame is free, and one call suffices. It returns the page-aligned
-- address of the lowest free frame, that frame alone is then in use besides the others, the counter
-- is one more, the bitmap is valid and nothing else in memory changed. Or every frame is in use, and
-- the call does not return, whatever the fuel.
pub alloc_frame_lem :
    (distance : ℕ → ℕ → ℕ) (fuel lru : ℕ) (s : Memory)
    → IsValid s.frames
    → (((addr : ℕ) × (f : Frames) × Taken s.frames (some (addr, f))
          × (alloc_frame distance (suc fuel) lru s ≡ some (addr, record s { frames = f })))
        ⊎ (((k : ℕ) → k < max_frames → slot s.frames.bitmap k ≡ true)
            × (alloc_frame distance (suc fuel) lru s ≡ none)))
unfolding alloc_frame
alloc_frame_lem distance fuel lru s v = elim (Option-cases (take_frame s.frames)) [
  | inr (r, e) ↦ inl (r.0, r.1, rw e at (take_frame-Taken s.frames v), rw (e, alloc_frame) refl)
  | inl e ↦ inr (full e, rw (e, (pressure_diverges fuel s).0, alloc_frame) refl)
]
  where
    full : take_frame s.frames ≡ none → (k : ℕ) → k < max_frames → slot s.frames.bitmap k ≡ true
    full e = rw e at (take_frame-Taken s.frames v)
