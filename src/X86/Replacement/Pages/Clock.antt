-- ===== src/X86/Replacement/Pages/Clock.antt =====
-- `PageReplacementManager::add_page` under the Clock algorithm, whose lists do not touch the links.
use mathlib.Core.Path.{subst}
use km_os.Prelude.{
  ℕ, ◌≡◌, ◌≢◌, refl, sym, ◌∙◌, List, [], ◌∷◌, ◌++◌, Bool-cases, inl, inr, if◌then◌else◌, ◌==◌,
  eq→==, ne→==-false, ==→eq, Chain, Distinct, Fresh, last_or, Linked, append-Chain,
}
use km_os.X86.Replacement.{Manager, tick, write_page, clock_add_page, clock_remove_page}
use km_os.X86.Replacement.Pages.{add_by, remove_by, append_page, new_descriptor, add_page}

-- `xs` are the pages of the page list, in order, and the algorithm is Clock.
pub record Listed (s : Manager) (xs : List ℕ) : Type 0 where
  pub clock : s.current_algorithm ≡ 2
  pub chain : Chain s.links 0 s.page_list_head xs
  pub distinct : Distinct xs
  pub tail_last : s.page_list_tail ≡ last_or 0 xs

Distinct-append : (p : ℕ) (xs : List ℕ) → Fresh p xs → Distinct xs → Distinct (xs ++ p ∷ [])
Distinct-append p [] f d = (tt, tt)
Distinct-append p (x ∷ xs) f d = (apart xs f.1 d.0, Distinct-append p xs f.1 d.1)
  where
    apart : (ys : List ℕ) → Fresh p ys → Fresh x ys → Fresh x (ys ++ p ∷ [])
    apart [] g h = (λ e. f.0 (sym e), tt)
    apart (y ∷ ys) g h = (h.0, apart ys g.1 h.1)

-- The links that `append_page` writes.
record Ended (p last : ℕ) (s t : Manager) : Type 0 where
  links : Linked p last s.links t.links
  head : t.page_list_head ≡ (if last == 0 then p else s.page_list_head)
  tail : t.page_list_tail ≡ p
  algorithm : t.current_algorithm ≡ s.current_algorithm

append_page-Ended :
    (p last : ℕ) (s : Manager)
    → p ≢ last
    → s.page_list_tail ≡ last
    → Ended p last s (append_page p s)
append_page-Ended p last s ne e = elim (Bool-cases (last == 0)) [
  | inl empty ↦
      rw (e, empty)
        (record {
          links = record {
            own_next = rw (eq→== p p refl) refl;
            own_prev = rw (eq→== p p refl) (sym (==→eq last 0 empty));
            next_last = λ n. absurd (n (==→eq last 0 empty));
            prev = λ q n. rw (ne→==-false p q n) refl;
            next = λ q n m. rw (ne→==-false p q n) refl;
          };
          head = rw empty refl;
          tail = refl;
          algorithm = refl;
        })
  | inr some_there ↦
      rw (e, some_there)
        (record {
          links = record {
            own_next = rw (eq→== p p refl, ne→==-false last p (λ q. ne (sym q))) refl;
            own_prev = rw (eq→== p p refl) refl;
            next_last = λ n. rw (eq→== last last refl) refl;
            prev = λ q n. rw (ne→==-false p q n) refl;
            next = λ q n m. rw (ne→==-false p q n, ne→==-false last q m) refl;
          };
          head = rw some_there refl;
          tail = refl;
          algorithm = refl;
        })
]

-- Only the hand, its count and the page's bits change.
record SameList (s t : Manager) : Type 0 where
  links : t.links ≡ s.links
  head : t.page_list_head ≡ s.page_list_head
  tail : t.page_list_tail ≡ s.page_list_tail
  algorithm : t.current_algorithm ≡ s.current_algorithm

add_by-SameList : (a p : ℕ) (s : Manager) → a ≡ 2 → SameList s (add_by a p s)
unfolding add_by clock_add_page
add_by-SameList a p s e = rw e (record { links = refl; head = refl; tail = refl; algorithm = refl })

remove_by-SameList : (a p : ℕ) (s : Manager) → a ≡ 2 → SameList s (remove_by a p s)
unfolding remove_by clock_remove_page
remove_by-SameList a p s e =
    rw e (record { links = refl; head = refl; tail = refl; algorithm = refl })

last_in : (p x : ℕ) (xs : List ℕ) → Fresh p (x ∷ xs) → p ≢ last_or x xs
last_in p x [] f = f.0
last_in p x (y ∷ ys) f = last_in p y ys f.1

not_last : (p : ℕ) (xs : List ℕ) → p ≢ 0 → Fresh p xs → p ≢ last_or 0 xs
not_last p [] n f = n
not_last p (x ∷ xs) n f = last_in p x xs f

-- Under Clock, a page in a new block of memory goes to the end of the page list, which stays well
-- formed.
pub add_page-Listed :
    (p process_id v x f : ℕ) (s : Manager) (xs : List ℕ)
    → p ≢ 0
    → Fresh p xs
    → Listed s xs
    → Listed (add_page p process_id v x f s) (xs ++ p ∷ [])
unfolding add_page
add_page-Listed p process_id v x f s xs p0 fresh h = rw (ne→==-false p 0 p0) (record {
  clock = b.algorithm ∙ a.algorithm ∙ h.clock;
  chain =
      subst (λ l. Chain l 0 u.page_list_head (xs ++ p ∷ [])) (sym b.links)
        (subst (λ n. Chain t.links 0 n (xs ++ p ∷ [])) (sym (b.head ∙ a.head))
          (append-Chain s.links t.links p s.page_list_head xs p0 a.links fresh h.distinct h.chain));
  distinct = Distinct-append p xs fresh h.distinct;
  tail_last = b.tail ∙ a.tail ∙ sym (end xs);
})
  where
    began : Manager
    began = tick (write_page p (new_descriptor s.access_counter v x f process_id) s)

    t : Manager
    t = append_page p began

    a : Ended p (last_or 0 xs) began t
    a = append_page-Ended p (last_or 0 xs) began (not_last p xs p0 fresh) h.tail_last

    u : Manager
    u = add_by t.current_algorithm p t

    b : SameList t u
    b = add_by-SameList t.current_algorithm p t (a.algorithm ∙ h.clock)

    end : (ys : List ℕ) → last_or 0 (ys ++ p ∷ []) ≡ p
    end [] = refl
    end (y ∷ ys) = ends y ys
      where
        ends : (z : ℕ) (zs : List ℕ) → last_or z (zs ++ p ∷ []) ≡ p
        ends z [] = refl
        ends z (w ∷ zs) = ends w zs
