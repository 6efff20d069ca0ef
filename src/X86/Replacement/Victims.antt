-- ===== src/X86/Replacement/Victims.antt =====
-- The choice of a victim in src/kernel/arch/x86/page_replacement.cc. Loops take fuel, and `none` is a
-- loop that has not ended.
pub mod Score
pub mod Enhanced
use km_os.Prelude.{
  ℕ, zero, suc, ◌+◌, ◌-◌, ◌*◌, ◌/◌, ◌%◌, ◌^◌, Option, none, some, if◌then◌else◌, ◌==◌, ltb, leb,
  add32, sub32, mul32, Links, update, test_bit,
}
use km_os.X86.Replacement.{Descriptor, Manager, tick, write_page, next_hand}

-- PR_FLAG_LOCKED, PR_FLAG_DIRTY and PR_FLAG_ACCESSED are the bits 3, 1 and 0.
-- The loops of `lru_find_victim` and `fifo_find_victim`.
unfoldable pub back_to_unlocked : ℕ → Manager → ℕ → Option ℕ
back_to_unlocked zero s p = none
back_to_unlocked (suc fuel) s p =
    let rest = back_to_unlocked fuel s (s.links.prev p) in
    if p == 0 then some 0 else if test_bit (s.page p).flags 3 then rest else some p

unfoldable pub lru_find_victim : ℕ → Manager → Option ℕ
lru_find_victim fuel s = if s.lru_tail == 0 then some 0 else back_to_unlocked fuel s s.lru_tail

unfoldable pub fifo_find_victim : ℕ → Manager → Option ℕ
fifo_find_victim fuel s = if s.fifo_tail == 0 then some 0 else back_to_unlocked fuel s s.fifo_tail

-- One step of the hand past a page that is locked or has its reference bit set.
abbrev pub pass : Manager → Manager
pass s =
    let d = s.page s.clock_hand in
    let t =
      if test_bit d.flags 3
      then s
      else write_page s.clock_hand (record d { reference_bit = 0; position = add32 d.position 1 })
          s in
    record t { clock_hand = next_hand t t.clock_hand }

-- The `do … while (clock_hand != start)` of `clock_find_victim`.
unfoldable pub sweep : ℕ → ℕ → Manager → Option (ℕ × Manager)
sweep zero start s = none
sweep (suc fuel) start s =
    let d = s.page s.clock_hand in
    let t = pass s in
    let rest = sweep fuel start t in
    if test_bit d.flags 3
    then (if t.clock_hand == start then some (t.clock_hand, t) else rest)
    else if d.reference_bit == 0
    then some (s.clock_hand, record s { clock_hand = next_hand s s.clock_hand })
    else if t.clock_hand == start
    then some (t.clock_hand, t)
    else rest

unfoldable pub clock_find_victim : ℕ → Manager → Option (ℕ × Manager)
unfolding sweep
clock_find_victim fuel s =
    if s.clock_size == 0
    then some (0, s)
    else let t = if s.clock_hand == 0 then record s { clock_hand = s.page_list_head } else s in
      sweep fuel t.clock_hand t

-- `calculate_page_score` after its call of `get_system_time`, which returned `now`.
unfoldable pub score_at : ℕ → Descriptor → ℕ
score_at now d =
    let age = (now + 2 ^ 64 - d.last_access_time) % 2 ^ 32 in
    let frequency = if ltb 0 d.access_count then 1000 / d.access_count else 1000 in
    let score = add32 (age / 2 ^ 10) frequency in
    let dirty = if test_bit d.flags 1 then add32 score 500 else score in
    if test_bit d.flags 0 then sub32 dirty 100 else dirty

-- `calculate_page_score`
unfoldable pub calculate_page_score : ℕ → Manager → ℕ × Manager
unfolding score_at
calculate_page_score p s = (score_at s.access_counter (s.page p), tick s)

-- The loop of `lru_enhanced_find_victim`, at page `p`.
unfoldable pub lowest : ℕ → ℕ → ℕ → ℕ → Manager → Option (ℕ × Manager)
unfolding calculate_page_score
lowest zero best_score best_victim p s = none
lowest (suc fuel) best_score best_victim p s =
    let next = s.links.next p in
    let r = calculate_page_score p s in
    let skip = lowest fuel best_score best_victim next s in
    let better = lowest fuel r.0 p next r.1 in
    let same = lowest fuel best_score best_victim next r.1 in
    if p == 0
    then some (best_victim, s)
    else if test_bit (s.page p).flags 3
    then skip
    else if ltb r.0 best_score
    then better
    else same

unfoldable pub lru_enhanced_find_victim : ℕ → Manager → Option (ℕ × Manager)
unfolding lowest
lru_enhanced_find_victim fuel s = lowest fuel 0xffff_ffff 0 s.page_list_head s
