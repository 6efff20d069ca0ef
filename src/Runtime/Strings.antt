-- ===== src/Runtime/Strings.antt =====
-- The string and memory functions of src/kernel/runtime/string.cc, over a memory of bytes. Addresses
-- do not wrap around. Loops that wait for a null byte take fuel, and `none` is one that has not ended.
pub mod Shape
pub mod Copy
pub mod Search
mod Tests
use km_os.Prelude.{
  ℕ, zero, suc, ◌+◌, ◌-◌, ◌*◌, ◌^◌, Option, none, some, if◌then◌else◌, ◌==◌, ltb, leb, update,
  sub32,
}

abbrev pub Bytes : Type 0
Bytes = ℕ → ℕ

-- The loop of `strlen`.
unfoldable pub count_bytes : ℕ → Bytes → ℕ → ℕ → Option ℕ
count_bytes zero m s i = none
count_bytes (suc fuel) m s i =
    let rest = count_bytes fuel m (s + 1) (i + 1) in if m s == 0 then some i else rest

unfoldable pub strlen : ℕ → Bytes → ℕ → Option ℕ
unfolding count_bytes
strlen fuel m s = count_bytes fuel m s 0

-- The loop of `strcmp`.
unfoldable pub compare_bytes : ℕ → Bytes → ℕ → ℕ → ℕ → Option ℕ
compare_bytes zero m dst src i = none
compare_bytes (suc fuel) m dst src i =
    let rest = compare_bytes fuel m dst src (i + 1) in
    if m (dst + i) == m (src + i) then (if m (src + i) == 0 then some 0 else rest) else some 1

unfoldable pub strcmp : ℕ → Bytes → ℕ → ℕ → Option ℕ
unfolding compare_bytes
strcmp fuel m dst src = compare_bytes fuel m dst src 0

-- The loop of `strcpy`.
unfoldable pub copy_string : ℕ → Bytes → ℕ → ℕ → ℕ → Option (ℕ × Bytes)
copy_string zero m dst src i = none
copy_string (suc fuel) m dst src i =
    let t = update m (dst + i) (m (src + i)) in
    let rest = copy_string fuel t dst src (i + 1) in if m (src + i) == 0 then some (i, t) else rest

unfoldable pub strcpy : ℕ → Bytes → ℕ → ℕ → Option (ℕ × Bytes)
unfolding copy_string
strcpy fuel m dst src = copy_string fuel m dst src 0

-- The loop of `memcpy`, with `k` rounds left at `i`.
unfoldable pub copy_bytes : ℕ → ℕ → Bytes → ℕ → ℕ → Bytes
copy_bytes zero i m dest src = m
copy_bytes (suc k) i m dest src = copy_bytes k (i + 1) (update m (dest + i) (m (src + i))) dest src

-- `memcpy`; `n` is an `int`, and the loop does nothing if it is negative.
unfoldable pub memcpy : Bytes → ℕ → ℕ → ℕ → Bytes
unfolding copy_bytes
memcpy m dest src n = if ltb n (2 ^ 31) then copy_bytes n 0 m dest src else m

unfoldable pub fill_bytes : ℕ → ℕ → Bytes → ℕ → ℕ → Bytes
fill_bytes zero i m s c = m
fill_bytes (suc k) i m s c = fill_bytes k (i + 1) (update m (s + i) c) s c

-- `memset`, with the byte that `c` is narrowed to.
unfoldable pub memset : Bytes → ℕ → ℕ → ℕ → Bytes
unfolding fill_bytes
memset m s c n = if ltb n (2 ^ 31) then fill_bytes n 0 m s c else m

unfoldable pub strcat : ℕ → Bytes → ℕ → ℕ → Option Bytes
unfolding strlen memcpy
strcat fuel m dest src = elim (strlen fuel m dest) [
  | none ↦ none
  | some at_end ↦ elim (strlen fuel m src) [
    | none ↦ none
    | some n ↦ some (memcpy m (dest + at_end) src n)
  ]
]

-- The loop of `strncpy`, with `k` rounds left at `count`: the count that it ends with.
unfoldable pub copy_upto : ℕ → ℕ → Bytes → ℕ → ℕ → ℕ × Bytes
copy_upto zero count m dest src = (count, m)
copy_upto (suc k) count m dest src =
    let t = update m (dest + count) (m (src + count)) in
    let rest = copy_upto k (count + 1) t dest src in
    if m (src + count) == 0 then (count, t) else rest

-- `strncpy`: the pointer returned and the memory; a negative `maxLength` copies nothing.
unfoldable pub strncpy : Bytes → ℕ → ℕ → ℕ → ℕ × Bytes
unfolding copy_upto
strncpy m dest src max_length =
    if dest == 0
    then (0, m)
    else if src == 0
    then (0, m)
    else let rounds =
        if ltb max_length (2 ^ 31) then (if ltb 255 max_length then 255 else max_length) else 0 in
      let r = copy_upto rounds 0 m dest src in if leb 255 r.0 then (0, r.1) else (dest, r.1)

-- `strchr`; `ch` is a byte.
unfoldable pub strchr : ℕ → Bytes → ℕ → ℕ → Option ℕ
strchr zero m s ch = none
strchr (suc fuel) m s ch =
    let rest = strchr fuel m (s + 1) ch in
    if m s == 0 then some (if ch == 0 then s else 0) else if m s == ch then some s else rest

-- `strrchr`, with the last match so far.
unfoldable pub last_match : ℕ → Bytes → ℕ → ℕ → ℕ → Option ℕ
last_match zero m s ch last = none
last_match (suc fuel) m s ch last =
    let rest = last_match fuel m (s + 1) ch (if m s == ch then s else last) in
    if m s == 0 then some (if ch == 0 then s else last) else rest

unfoldable pub strrchr : ℕ → Bytes → ℕ → ℕ → Option ℕ
unfolding last_match
strrchr fuel m s ch = last_match fuel m s ch 0

-- A `char` as an `int`, and the difference that `strncmp` takes.
abbrev pub signed_char : ℕ → ℕ
signed_char b = if ltb b 128 then b else 2 ^ 32 - 256 + b

unfoldable pub strncmp : Bytes → ℕ → ℕ → ℕ → ℕ
strncmp m s1 s2 zero = 0
strncmp m s1 s2 (suc c) =
    let result = sub32 (signed_char (m s1)) (signed_char (m s2)) in
    let rest = strncmp m (s1 + 1) (s2 + 1) c in
    if result == 0 then (if m s1 == 0 then result else rest) else result
