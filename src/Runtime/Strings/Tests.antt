-- ===== src/Runtime/Strings/Tests.antt =====
-- The strings "ab" at 10, "ab" at 20 and "c" at 40.
use km_os.Prelude.{◌≡◌, ◌==◌, if◌then◌else◌, some, arith, [], ◌∷◌}
use km_os.Runtime.Strings.{Bytes, strcat}
use km_os.Runtime.Strings.Copy.{Holds, strcat_lem}

abbrev memory : Bytes
memory q =
    if q == 10
    then 97
    else if q == 11
    then 98
    else if q == 20
    then 97
    else if q == 21
    then 98
    else if q == 40
    then 99
    else if q == 22
    then 0
    else if q == 41
    then 0
    else if q == 12
    then 0
    else 7

-- The byte after the result is 7, as before.
strcat_example :
    (t : Bytes) × (strcat 5 memory 20 40 ≡ some t) × Holds t 20 (97 ∷ 98 ∷ 99 ∷ []) × (t 23 ≡ 7)
strcat_example =
    strcat_lem 5 memory 20 40 (97 ∷ 98 ∷ []) (99 ∷ []) (omega arith) (omega arith) (omega arith)
      (omega arith) (omega arith) (omega arith)
