-- ===== src/X86/Lru/Tests.antt =====
-- The page list at three pages, the last of them locked.
use km_os.Prelude.{ℕ, ◌≡◌, refl, some, List, [], ◌∷◌, ◌*◌, ◌==◌, if◌then◌else◌, arith}
use km_os.X86.Lru.{Lru, remove_from_lru, update_page_access}
use km_os.X86.Lru.Shape.{Lists}
use km_os.X86.Lru.Refine.{contents, remove_from_lru_refines, update_page_access_refines}

abbrev three : Lru
three = record {
  links = record {
    next = λ p. if p == 30 then 20 else if p == 20 then 10 else 0;
    prev = λ p. if p == 10 then 20 else if p == 20 then 30 else 0;
  };
  page = λ p. record {
    virtual_addr = p * 4096;
    access_time = p;
    flags = if p == 10 then 0x8000_0000 else 0;
  };
  head = 30;
  tail = 10;
  count = 3;
  clock = 30;
}

three-Lists : Lists three (30 ∷ 20 ∷ 10 ∷ [])
three-Lists = record {
  chain = omega arith;
  distinct = omega arith;
  tail_last = refl;
  counted = refl;
  bounded = omega arith;
}

remove_from_lru_example :
    (m : Lru) × (ys : List ℕ) × (remove_from_lru 4 81920 three ≡ some m)
    × Lists m ys
    × (contents m ys ≡ 122880 ∷ 40960 ∷ [])
remove_from_lru_example =
    remove_from_lru_refines three (30 ∷ 20 ∷ 10 ∷ []) 4 81920 three-Lists (omega arith)

update_page_access_example :
    (m : Lru) × (ys : List ℕ) × (update_page_access 4 50 81920 three ≡ some m)
    × Lists m ys
    × (contents m ys ≡ 81920 ∷ 122880 ∷ 40960 ∷ [])
update_page_access_example =
    update_page_access_refines three (30 ∷ 20 ∷ 10 ∷ []) 4 50 81920 three-Lists (omega arith)
      (omega arith) (omega arith) (omega arith)
