-- ===== src/X86/Lru/Shape.antt =====
-- The representation of the list, and what the search finds in it.
use km_os.Prelude.{
  last_or, ℕ, zero, suc, ◌<◌, ◌≡◌, ◌≢◌, refl, sym, ap, ◌∙◌, ◌^◌, false, List, [], ◌∷◌, ◌++◌, some,
  inl, inr, ◌⊎◌, ◌==◌, arith, length, Chain, Distinct, Bool-cases, eq→==, ne→==-false, ==→eq,
  ==-false→ne,
}
use km_os.X86.Lru.{Lru, find_lru}

-- `xs` are the nodes of the list, in order.
pub record Lists (l : Lru) (xs : List ℕ) : Type 0 where
  pub chain : Chain l.links 0 l.head xs
  pub distinct : Distinct xs
  pub tail_last : l.tail ≡ last_or 0 xs
  pub counted : l.count ≡ length xs
  pub bounded : length xs < 2 ^ 32

-- No node of `xs` holds the page `addr`.
abbrev pub Absent : Lru → ℕ → List ℕ → Type 0
Absent l addr [] = Unit {0}
Absent l addr (x ∷ xs) = ((l.page x).virtual_addr ≢ addr) × Absent l addr xs

-- The first node that holds the page, or 0.
abbrev pub Found : Lru → ℕ → List ℕ → ℕ → Type 0
Found l addr xs p =
    ((p ≡ 0) × Absent l addr xs)
    ⊎ ((us : List ℕ) × (vs : List ℕ) × (xs ≡ us ++ p ∷ vs)
        × Absent l addr us
        × ((l.page p).virtual_addr ≡ addr)
        × (p ≢ 0))

Found-next :
    (l : Lru) (addr x p : ℕ) (xs : List ℕ)
    → (l.page x).virtual_addr ≢ addr
    → Found l addr xs p
    → Found l addr (x ∷ xs) p
Found-next l addr x p xs ne (inl f) = inl (f.0, (ne, f.1))
Found-next l addr x p xs ne (inr f) = inr (x ∷ f.0, f.1, ap (λ t. x ∷ t) f.2, (ne, f.3), f.4, f.5)

-- With fuel above the length the search of a null-terminated list ends, at the first such node.
pub find_lru_total :
    (fuel : ℕ) (l : Lru) (back p addr : ℕ) (xs : List ℕ)
    → length xs < fuel
    → Chain l.links back p xs
    → (q : ℕ) × (find_lru fuel l p addr ≡ some q) × Found l addr xs q
unfolding find_lru
find_lru_total zero l back p addr xs h c = absurd (omega arith)
find_lru_total (suc fuel) l back p addr [] h c = (0, rw (eq→== p 0 c) refl, inl (refl, tt))
find_lru_total (suc fuel) l back p addr (x ∷ xs) h c =
    elim (Bool-cases ((l.page p).virtual_addr == addr)) [
      | inl hit ↦ (
        p,
        rw (live, hit) refl,
        inr ([], xs, ap (λ t. t ∷ xs) (sym c.0), tt, ==→eq _ _ hit, λ e. c.1 (sym c.0 ∙ e)),
      )
      | inr miss ↦
          let r = find_lru_total fuel l x (l.links.next x) addr xs (omega arith) c.3 in
          (
            r.0,
            rw (live, miss) (ap (λ t. find_lru fuel l (l.links.next t) addr) c.0 ∙ r.1),
            Found-next l addr x r.0 xs
                (λ e. ==-false→ne _ _ miss (ap (λ t. (l.page t).virtual_addr) c.0 ∙ e)) r.2,
          )
    ]
  where
    live : (p == 0) ≡ false
    live = ne→==-false p 0 (λ e. c.1 (sym c.0 ∙ e))
