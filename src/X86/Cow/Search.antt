-- ===== src/X86/Cow/Search.antt =====
-- The search of the list of shared pages, src/kernel/arch/x86/cow.cc.
use km_os.Prelude.{
  ℕ, zero, suc, ◌<◌, ◌≡◌, ◌≢◌, ◌⊎◌, refl, false, List, [], ◌∷◌, some, inl, inr, arith, length, All,
  In, Bool-cases, ◌==◌, eq→==, ne→==-false, ==→eq, ==-false→ne, Chain,
}
use km_os.X86.Cow.{CowManager, cow_magic, find_cow_from, find_cow_page}
use km_os.X86.Cow.Counting.{Tracked}

-- What the search reports on the nodes `xs`: the page of the address that it found, or that there is
-- none.
abbrev pub Searched : CowManager → ℕ → List ℕ → ℕ → Type 0
Searched c phys xs q =
    ((q ≡ 0) × All (λ p. (c.page p).physical_addr ≢ phys) xs)
    ⊎ (In q xs × ((c.page q).physical_addr ≡ phys))

Searched-next :
    (c : CowManager) (phys x q : ℕ) (xs : List ℕ)
    → (c.page x).physical_addr ≢ phys
    → Searched c phys xs q
    → Searched c phys (x ∷ xs) q
Searched-next c phys x q xs ne (inl f) = inl (f.0, (ne, f.1))
Searched-next c phys x q xs ne (inr f) = inr (inr f.0, f.1)

find_cow_from-Searched :
    (fuel : ℕ) (c : CowManager) (back p phys : ℕ) (xs : List ℕ)
    → length xs < fuel
    → Chain c.links back p xs
    → All (λ q. (c.page q).magic ≡ cow_magic) xs
    → (q : ℕ) × (find_cow_from fuel c p phys ≡ some q) × Searched c phys xs q
unfolding find_cow_from
find_cow_from-Searched zero c back p phys xs h chain magic = absurd (omega arith)
find_cow_from-Searched (suc fuel) c back p phys [] h chain magic =
    (0, rw (eq→== p 0 chain) refl, inl (refl, tt))
find_cow_from-Searched (suc fuel) c back p phys (x ∷ xs) h chain magic =
    elim (Bool-cases ((c.page x).physical_addr == phys)) [
      | inl hit ↦ (x, rw (chain.0, live, hit, magic.0) refl, inr (inl refl, ==→eq _ _ hit))
      | inr miss ↦
          let r =
            find_cow_from-Searched fuel c x (c.links.next x) phys xs (omega arith) chain.3
              magic.1 in
          (
            r.0,
            rw (chain.0, live, miss) r.1,
            Searched-next c phys x r.0 xs (==-false→ne _ _ miss) r.2,
          )
    ]
  where
    live : (x == 0) ≡ false
    live = ne→==-false x 0 chain.1

-- On a well-formed list, with more fuel than it is long, `find_cow_page` ends: with a page of the
-- list that has the address, or with null, and then no page of the list has it.
pub find_cow_page-Searched :
    (fuel phys : ℕ) (c : CowManager) (xs : List ℕ)
    → length xs < fuel
    → Tracked c xs
    → (q : ℕ) × (find_cow_page fuel phys c ≡ some q) × Searched c phys xs q
find_cow_page-Searched fuel phys c xs h v =
    find_cow_from-Searched fuel c 0 c.cow_pages phys xs h v.chain v.magic
