-- ===== src/X86/Cow/Counting.antt =====
-- The list of shared pages of src/kernel/arch/x86/cow.cc and the references of its pages.
use km_os.Prelude.{
  ℕ, ◌+◌, ◌-◌, ◌^◌, ◌<◌, ◌≡◌, ◌≢◌, ◌⊎◌, refl, true, false, List, [], ◌∷◌, ◌++◌, inl, inr, arith,
  length, All, Bool-cases, ◌==◌, eq→==, ne→==-false, ==→eq, ==-false→ne, Chain, Distinct, Fresh,
  push_front-Chain, unlink-Chain, prev_of_first, Distinct-drop, Fresh-zero, length-append, update,
}
use km_os.Prelude.Unlink.{Chain-split}
use km_os.X86.Memory.{Memory}
use km_os.X86.Cow.{
  set_memory, CowManager, CowPage, cow_magic, is_bad, place_cow_page, free_cow_page, set_refs,
  give_frame, drop_cow_page, dec_cow_ref,
}

-- `xs` are the pages of the list, in order, each with the magic.
pub record Tracked (c : CowManager) (xs : List ℕ) : Type 0 where
  pub chain : Chain c.links 0 c.cow_pages xs
  pub distinct : Distinct xs
  pub counted : c.total_cow_pages ≡ length xs
  pub bounded : length xs < 2 ^ 32
  pub magic : All (λ p. (c.page p).magic ≡ cow_magic) xs

-- Writing the page at `p` with the magic keeps those of the others.
magic_update :
    (page : ℕ → CowPage) (p : ℕ) (e : CowPage) (xs : List ℕ)
    → e.magic ≡ cow_magic
    → All (λ q. (page q).magic ≡ cow_magic) xs
    → All (λ q. (update page p e q).magic ≡ cow_magic) xs
magic_update page p e [] h a = tt
magic_update page p e (x ∷ xs) h a = (
  elim (Bool-cases (p == x)) [ inl q ↦ rw q h | inr q ↦ rw q a.0 ],
  magic_update page p e xs h a.1,
)

-- A new page goes to the front, with one reference.
pub place_cow_page-Tracked :
    (p phys : ℕ) (c : CowManager) (xs : List ℕ)
    → p ≢ 0
    → Fresh p xs
    → length xs + 1 < 2 ^ 32
    → Tracked c xs
    → Tracked (place_cow_page p phys c) (p ∷ xs)
unfolding place_cow_page
place_cow_page-Tracked p phys c xs n f h v = record {
  chain = push_front-Chain p c.cow_pages c.links xs n f v.distinct v.chain;
  distinct = (f, v.distinct);
  counted = omega (arith, v.counted);
  bounded = omega arith;
  magic = (
    rw (eq→== p p refl) refl,
    magic_update c.page p (record { physical_addr = phys; ref_count = 1; magic = cow_magic }) xs
        refl v.magic,
  );
}

-- What holds of all nodes holds of one of them, and of all the others.
module _ (P : ℕ → Type 0) (p : ℕ) (vs : List ℕ) where
  All-member : (us : List ℕ) → All P (us ++ p ∷ vs) → P p
  All-member [] a = a.0
  All-member (u ∷ us) a = All-member us a.1

  All-drop : (us : List ℕ) → All P (us ++ p ∷ vs) → All P (us ++ vs)
  All-drop [] a = a.1
  All-drop (u ∷ us) a = (a.0, All-drop us a.1)

pub set_refs-Tracked :
    (p n : ℕ) (c : CowManager) (us vs : List ℕ)
    → Tracked c (us ++ p ∷ vs)
    → Tracked (set_refs p n c) (us ++ p ∷ vs)
set_refs-Tracked p n c us vs v = record {
  chain = v.chain;
  distinct = v.distinct;
  counted = v.counted;
  bounded = v.bounded;
  magic =
      magic_update c.page p (record (c.page p) { ref_count = n }) (us ++ p ∷ vs)
        (All-member (λ q. (c.page q).magic ≡ cow_magic) p vs us v.magic) v.magic;
}

-- A page of the list is not null and has the magic.
member_good :
    (p : ℕ) (c : CowManager) (us vs : List ℕ) → Tracked c (us ++ p ∷ vs) → is_bad c p ≡ false
member_good p c us vs v =
    rw
      (
        ne→==-false p 0 (Chain-split c.links p 0 c.cow_pages us vs v.chain).1,
        All-member (λ q. (c.page q).magic ≡ cow_magic) p vs us v.magic,
      )
      refl

free_cow_page-Tracked :
    (p : ℕ) (c : CowManager) (us vs : List ℕ)
    → Tracked c (us ++ p ∷ vs)
    → Tracked (free_cow_page p c) (us ++ vs)
unfolding free_cow_page
free_cow_page-Tracked p c us vs v = rw (member_good p c us vs v) (record {
  chain = rw (← prev_of_first c.links p c.cow_pages us vs v.chain) (
      unlink-Chain c.links p 0 c.cow_pages us vs v.distinct
        (Fresh-zero c.links 0 c.cow_pages (us ++ p ∷ vs) v.chain) v.chain);
  distinct = Distinct-drop p us vs v.distinct;
  counted = omega (arith, v.counted, v.bounded, fewer);
  bounded = omega (arith, v.bounded, fewer);
  magic = All-drop (λ q. (c.page q).magic ≡ cow_magic) p vs us v.magic;
})
  where
    fewer : length (us ++ p ∷ vs) ≡ length (us ++ vs) + 1
    fewer = omega (arith, length-append us (p ∷ vs), length-append us vs)

free_cow_page-memory : (p : ℕ) (c : CowManager) → (free_cow_page p c).memory ≡ c.memory
unfolding free_cow_page
free_cow_page-memory p c = elim (Bool-cases (is_bad c p)) [ inl e ↦ rw e refl | inr e ↦ rw e refl ]

pub set_memory-Tracked :
    (m : Memory) (c : CowManager) (xs : List ℕ) → Tracked c xs → Tracked (set_memory m c) xs
set_memory-Tracked m c xs v = record {
  chain = v.chain;
  distinct = v.distinct;
  counted = v.counted;
  bounded = v.bounded;
  magic = v.magic;
}

-- The last reference takes the page off the list and frees its frame; of several, one goes.
abbrev pub Dropped : ℕ → List ℕ → List ℕ → CowManager → CowManager → Type 0
Dropped p us vs c d =
    (((c.page p).ref_count < 2)
      × Tracked d (us ++ vs)
      × (d.memory ≡ give_frame (c.page p).physical_addr c.memory))
    ⊎ ((1 < (c.page p).ref_count)
        × Tracked d (us ++ p ∷ vs)
        × (d.memory ≡ c.memory)
        × ((d.page p).ref_count + 1 ≡ (c.page p).ref_count))

-- For a page of a well-formed list: with one reference or none `dec_cow_ref` takes the page out of
-- the list, which stays well-formed, and frees its frame. With more it only lowers their number by
-- one.
pub dec_cow_ref-Dropped :
    (p : ℕ) (c : CowManager) (us vs : List ℕ)
    → Tracked c (us ++ p ∷ vs)
    → Dropped p us vs c (dec_cow_ref p c)
unfolding dec_cow_ref drop_cow_page
dec_cow_ref-Dropped p c us vs v = elim (Bool-cases ((c.page p).ref_count - 1 == 0)) [
  | inl last ↦ let r = gone last in inl (omega (arith, ==→eq _ _ last), r.0, r.1)
  | inr more ↦ let r = fewer more in inr (omega (arith, ==-false→ne _ _ more), r.0, r.1, r.2)
]
  where
    left : ℕ
    left = (c.page p).ref_count - 1

    m : Memory
    m = give_frame (c.page p).physical_addr c.memory

    d : CowManager
    d = set_memory m (set_refs p left c)

    frame : ((set_refs p left c).page p).physical_addr ≡ (c.page p).physical_addr
    frame = rw (eq→== p p refl) refl

    gone :
        (left == 0) ≡ true
        → Tracked (dec_cow_ref p c) (us ++ vs)
          × ((dec_cow_ref p c).memory ≡ give_frame (c.page p).physical_addr c.memory)
    gone last =
        rw (member_good p c us vs v, last, frame)
          (
            free_cow_page-Tracked p d us vs (
                set_memory-Tracked m (set_refs p left c) (us ++ p ∷ vs)
                  (set_refs-Tracked p left c us vs v)),
            free_cow_page-memory p d,
          )

    fewer :
        (left == 0) ≡ false
        → Tracked (dec_cow_ref p c) (us ++ p ∷ vs)
          × ((dec_cow_ref p c).memory ≡ c.memory)
          × (((dec_cow_ref p c).page p).ref_count + 1 ≡ (c.page p).ref_count)
    fewer more =
        rw (member_good p c us vs v, more, eq→== p p refl)
          (set_refs-Tracked p left c us vs v, refl, omega (arith, ==-false→ne _ _ more))
