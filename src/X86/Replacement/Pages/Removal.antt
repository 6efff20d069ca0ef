-- ===== src/X86/Replacement/Pages/Removal.antt =====
-- `PageReplacementManager::remove_page` under the Clock algorithm.
use mathlib.Core.Path.{subst}
use km_os.Prelude.{
  ℕ, zero, suc, ◌<◌, ◌≡◌, ◌≢◌, refl, sym, ap, ◌∙◌, List, [], ◌∷◌, ◌++◌, some, arith, map,
  Bool-cases, inl, inr, ◌⊎◌, if◌then◌else◌, ◌==◌, eq→==, ne→==-false, ==→eq, ==-false→ne, length,
  Links, Chain, Fresh, Distinct-drop, unlink, unlink-Chain, unlink_self, prev_of_first, tail_after,
}
use km_os.X86.Lru.Refine.{remove_first}
use km_os.X86.Replacement.{Manager, clock_remove_page, head_without, tail_without}
use km_os.X86.Replacement.Pages.{remove_by, drop_page, find_from, find_page, remove_page}
use km_os.X86.Replacement.Pages.Clock.{Listed}

-- The page list as a list of addresses.
abbrev pub addresses : Manager → List ℕ → List ℕ
addresses s xs = map (λ p. (s.page p).virtual_addr) xs

-- No page of `xs` has the address.
abbrev NonePaged : Manager → ℕ → List ℕ → Type 0
NonePaged s addr [] = Unit {0}
NonePaged s addr (x ∷ xs) = ((s.page x).virtual_addr ≢ addr) × NonePaged s addr xs

-- The first page with the address, or 0.
abbrev FirstPaged : Manager → ℕ → List ℕ → ℕ → Type 0
FirstPaged s addr xs p =
    ((p ≡ 0) × NonePaged s addr xs)
    ⊎ ((us : List ℕ) × (vs : List ℕ) × (xs ≡ us ++ p ∷ vs)
        × NonePaged s addr us
        × ((s.page p).virtual_addr ≡ addr)
        × (p ≢ 0))

later :
    (s : Manager) (addr x p : ℕ) (xs : List ℕ)
    → (s.page x).virtual_addr ≢ addr
    → FirstPaged s addr xs p
    → FirstPaged s addr (x ∷ xs) p
later s addr x p xs ne (inl f) = inl (f.0, (ne, f.1))
later s addr x p xs ne (inr f) = inr (x ∷ f.0, f.1, ap (λ t. x ∷ t) f.2, (ne, f.3), f.4, f.5)

find_from-FirstPaged :
    (fuel : ℕ) (s : Manager) (back p addr : ℕ) (xs : List ℕ)
    → length xs < fuel
    → Chain s.links back p xs
    → (q : ℕ) × (find_from fuel s p addr ≡ some q) × FirstPaged s addr xs q
unfolding find_from
find_from-FirstPaged zero s back p addr xs h c = absurd (omega arith)
find_from-FirstPaged (suc fuel) s back p addr [] h c = (0, rw (eq→== p 0 c) refl, inl (refl, tt))
find_from-FirstPaged (suc fuel) s back p addr (x ∷ xs) h c =
    elim (Bool-cases ((s.page x).virtual_addr == addr)) [
      | inl hit ↦
          (x, rw (c.0, ne→==-false x 0 c.1, hit) refl, inr ([], xs, refl, tt, ==→eq _ _ hit, c.1))
      | inr miss ↦
          let r = find_from-FirstPaged fuel s x (s.links.next x) addr xs (omega arith) c.3 in
          (
            r.0,
            rw (c.0, ne→==-false x 0 c.1, miss) r.1,
            later s addr x r.0 xs (==-false→ne _ _ miss) r.2,
          )
    ]

drops_none :
    (s : Manager) (addr : ℕ) (xs : List ℕ)
    → NonePaged s addr xs
    → addresses s xs ≡ remove_first addr (addresses s xs)
drops_none s addr [] n = refl
drops_none s addr (x ∷ xs) n =
    rw (ne→==-false _ _ n.0) (ap (λ t. (s.page x).virtual_addr ∷ t) (drops_none s addr xs n.1))

drops_first :
    (s : Manager) (addr p : ℕ) (us vs : List ℕ)
    → NonePaged s addr us
    → (s.page p).virtual_addr ≡ addr
    → addresses s (us ++ vs) ≡ remove_first addr (addresses s (us ++ p ∷ vs))
drops_first s addr p [] vs n e = rw (eq→== _ _ e) refl
drops_first s addr p (u ∷ us) vs n e =
    rw (ne→==-false _ _ n.0)
      (ap (λ t. (s.page u).virtual_addr ∷ t) (drops_first s addr p us vs n.1 e))

nonzero : (m : Links) (b h : ℕ) (zs : List ℕ) → Chain m b h zs → Fresh 0 zs
nonzero m b h [] c = tt
nonzero m b h (z ∷ zs) c = (λ e. c.1 (sym e), nonzero m z (m.next z) zs c.3)

-- The page list without one of its pages, in a state that differs in the hand alone.
record Dropped (p : ℕ) (s t : Manager) : Type 0 where
  page : t.page ≡ s.page
  links : t.links ≡ unlink p s.links
  head : t.page_list_head ≡ head_without p s.links s.page_list_head
  tail : t.page_list_tail ≡ tail_without p s.links s.page_list_tail
  algorithm : t.current_algorithm ≡ s.current_algorithm

drop_page-Dropped : (p : ℕ) (s : Manager) → s.current_algorithm ≡ 2 → Dropped p s (drop_page p s)
unfolding drop_page remove_by clock_remove_page
drop_page-Dropped p s e =
    rw e (record { page = refl; links = refl; head = refl; tail = refl; algorithm = refl })

tail_without_plain :
    (l : Links) (p tail : ℕ)
    → (unlink p l).next p ≡ l.next p
    → tail_without p l tail ≡ (if l.next p == 0 then l.prev p else tail)
unfolding unlink
tail_without_plain l p tail e = ap (λ n. if n == 0 then l.prev p else tail) e

drop_page-Listed :
    (p : ℕ) (s : Manager) (us vs : List ℕ)
    → Listed s (us ++ p ∷ vs)
    → Listed (drop_page p s) (us ++ vs)
drop_page-Listed p s us vs h = record {
  clock = d.algorithm ∙ h.clock;
  chain =
      rw (d.links, d.head, ← prev_of_first s.links p s.page_list_head us vs h.chain)
        (unlink-Chain s.links p 0 s.page_list_head us vs h.distinct alone h.chain);
  distinct = Distinct-drop p us vs h.distinct;
  tail_last =
      d.tail
      ∙ tail_without_plain s.links p s.page_list_tail own.0
      ∙ tail_after s.links p s.page_list_tail 0 s.page_list_head us vs h.tail_last h.chain;
}
  where
    d : Dropped p s (drop_page p s)
    d = drop_page-Dropped p s h.clock

    alone : Fresh 0 (us ++ p ∷ vs)
    alone = nonzero s.links 0 s.page_list_head (us ++ p ∷ vs) h.chain

    own :
        ((unlink p s.links).next p ≡ s.links.next p) × ((unlink p s.links).prev p ≡ s.links.prev p)
    own = unlink_self s.links p 0 s.page_list_head us vs h.distinct alone h.chain

-- Under Clock, on a well-formed page list and with fuel above its length, `remove_page` ends and
-- leaves a well-formed list, whose addresses are the old ones without the first that is `addr`.
pub remove_page-Listed :
    (fuel addr : ℕ) (s : Manager) (xs : List ℕ)
    → length xs < fuel
    → Listed s xs
    → (t : Manager) × (ys : List ℕ) × (remove_page fuel addr s ≡ some t)
      × Listed t ys
      × (addresses t ys ≡ remove_first addr (addresses s xs))
unfolding remove_page find_page
remove_page-Listed fuel addr s xs long h =
    go (find_from-FirstPaged fuel s 0 s.page_list_head addr xs long h.chain)
  where
    go :
        (q : ℕ) × (find_from fuel s s.page_list_head addr ≡ some q) × FirstPaged s addr xs q
        → (t : Manager) × (ys : List ℕ) × (remove_page fuel addr s ≡ some t)
          × Listed t ys
          × (addresses t ys ≡ remove_first addr (addresses s xs))
    go (q, e, inl f) = (s, xs, rw (e, eq→== q 0 f.0, remove_page) refl, h, drops_none s addr xs f.1)
    go (q, e, inr (us, vs, split, before, at_q, n)) = (
      drop_page q s,
      us ++ vs,
      rw (e, ne→==-false q 0 n, remove_page) refl,
      drop_page-Listed q s us vs (subst (Listed s) split h),
      ap (λ f. map (λ p. (f p).virtual_addr) (us ++ vs)) (drop_page-Dropped q s h.clock).page
          ∙ drops_first s addr q us vs before at_q
          ∙ ap (λ zs. remove_first addr (addresses s zs)) (sym split),
    )
