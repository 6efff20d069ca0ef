-- ===== src/X86/Replacement/Pages/Cycle.antt =====
-- Two pages under LRU: the page list and the LRU list share their links.
use km_os.Prelude.{
  ℕ, zero, suc, ◌≡◌, ◌≢◌, refl, sym, ap, ◌∙◌, none, if◌then◌else◌, ◌==◌, ==→eq, Bool-cases, inl,
  inr, eq→==, ne→==-false, add32,
}
use mathlib.Core.Path.{subst}
use native.Mathlib.Decide.{ℕ_discrete}
use km_os.X86.Replacement.{Manager, Descriptor, init, lru_add_page, stamp, tick, write_page}
use km_os.X86.Replacement.Pages.{
  add_page, add_by, append_page, new_descriptor, find_from, find_page,
}

-- Two pages that follow one another, and neither holds the address: the search does not end.
search_diverges :
    (fuel addr p q : ℕ) (s : Manager)
    → p ≢ 0
    → q ≢ 0
    → s.links.next p ≡ q
    → s.links.next q ≡ p
    → (s.page p).virtual_addr ≢ addr
    → (s.page q).virtual_addr ≢ addr
    → find_from fuel s p addr ≡ none
unfolding find_from
search_diverges zero addr p q s p0 q0 a b c d = refl
search_diverges (suc fuel) addr p q s p0 q0 a b c d =
    rw (ne→==-false p 0 p0, ne→==-false _ _ c)
      (ap (λ n. find_from fuel s n addr) a ∙ search_diverges fuel addr q p s q0 p0 b a d c)

-- What a further page at the front of the LRU list changes.
record Fronted (p q : ℕ) (s t : Manager) : Type 0 where
  head : t.page_list_head ≡ s.page_list_head
  tail : t.page_list_tail ≡ s.page_list_tail
  algorithm : t.current_algorithm ≡ s.current_algorithm
  lru : t.lru_head ≡ q
  forth : t.links.next p ≡ s.links.next p
  back : p ≢ 0 → t.links.next q ≡ p
  same : (a : ℕ) → (t.page a).virtual_addr ≡ (s.page a).virtual_addr

stamped : (q a : ℕ) (s : Manager) → ((stamp q s).page a).virtual_addr ≡ (s.page a).virtual_addr
stamped q a s = elim (ℕ_discrete q a) [
  | yes e ↦ rw (eq→== q a e, e) refl
  | no ne ↦ rw (ne→==-false q a ne) refl
]

lru_add_page-Fronted :
    (p q : ℕ) (s : Manager) → q ≢ p → s.lru_head ≡ p → Fronted p q s (lru_add_page q s)
unfolding lru_add_page
lru_add_page-Fronted p q s ne e = elim (Bool-cases (p == 0)) [
  | inl none_yet ↦
      rw (e, none_yet)
        (record {
          head = refl;
          tail = refl;
          algorithm = refl;
          lru = refl;
          forth = refl;
          back = λ n. absurd (n (==→eq p 0 none_yet));
          same = λ a. stamped q a s;
        })
  | inr there ↦
      rw (e, there)
        (record {
          head = refl;
          tail = refl;
          algorithm = refl;
          lru = refl;
          forth = rw (ne→==-false q p ne) refl;
          back = λ n. rw (eq→== q q refl) refl;
          same = λ a. stamped q a s;
        })
]

-- A page appended to the page list that `p` ends.
record Appended (p q v : ℕ) (s t : Manager) : Type 0 where
  head : t.page_list_head ≡ (if p == 0 then q else s.page_list_head)
  tail : t.page_list_tail ≡ q
  algorithm : t.current_algorithm ≡ s.current_algorithm
  lru : t.lru_head ≡ s.lru_head
  forth : p ≢ 0 → t.links.next p ≡ q
  own : (t.page q).virtual_addr ≡ v
  same : (a : ℕ) → q ≢ a → t.page a ≡ s.page a

append_page-Appended :
    (p q v : ℕ) (d : Descriptor) (s : Manager)
    → d.virtual_addr ≡ v
    → s.page_list_tail ≡ p
    → Appended p q v s (append_page q (tick (write_page q d s)))
append_page-Appended p q v d s h e = elim (Bool-cases (p == 0)) [
  | inl none_yet ↦
      rw (e, none_yet)
        (record {
          head = rw none_yet refl;
          tail = refl;
          algorithm = refl;
          lru = refl;
          forth = λ n. absurd (n (==→eq p 0 none_yet));
          own = rw (eq→== q q refl) h;
          same = λ a n. rw (ne→==-false q a n) refl;
        })
  | inr there ↦
      rw (e, there)
        (record {
          head = rw there refl;
          tail = refl;
          algorithm = refl;
          lru = refl;
          forth = λ n. rw (eq→== p p refl) refl;
          own = rw (eq→== q q refl) h;
          same = λ a n. rw (ne→==-false q a n) refl;
        })
]

add_by-lru :
    (algorithm q : ℕ) (t : Manager) → algorithm ≡ 0 → add_by algorithm q t ≡ lru_add_page q t
unfolding add_by
add_by-lru algorithm q t e = rw e refl

abbrev counted : Manager → Manager
counted u = record u { total_pages = add32 u.total_pages 1 }

-- A page added under LRU to a list that `p` ends, `p` being at the front of the LRU list as well.
record Added (p q v : ℕ) (s t : Manager) : Type 0 where
  head : t.page_list_head ≡ (if p == 0 then q else s.page_list_head)
  tail : t.page_list_tail ≡ q
  algorithm : t.current_algorithm ≡ 0
  lru : t.lru_head ≡ q
  forth : p ≢ 0 → t.links.next p ≡ q
  back : p ≢ 0 → t.links.next q ≡ p
  own : (t.page q).virtual_addr ≡ v
  same : (a : ℕ) → q ≢ a → (t.page a).virtual_addr ≡ (s.page a).virtual_addr

add_page-Added :
    (p q process_id v x f : ℕ) (s : Manager)
    → q ≢ 0
    → q ≢ p
    → s.current_algorithm ≡ 0
    → s.page_list_tail ≡ p
    → s.lru_head ≡ p
    → Added p q v s (add_page q process_id v x f s)
unfolding add_page
add_page-Added p q process_id v x f s q0 ne alg tail lru =
    subst (Added p q v s) (sym called) (record {
      head = b.head ∙ a.head;
      tail = b.tail ∙ a.tail;
      algorithm = b.algorithm ∙ a.algorithm ∙ alg;
      lru = b.lru;
      forth = λ n. b.forth ∙ a.forth n;
      back = b.back;
      own = b.same q ∙ a.own;
      same = λ i n. b.same i ∙ ap (λ d. d.virtual_addr) (a.same i n);
    })
  where
    d : Descriptor
    d = new_descriptor s.access_counter v x f process_id

    t : Manager
    t = append_page q (tick (write_page q d s))

    a : Appended p q v s t
    a = append_page-Appended p q v d s refl tail

    called : add_page q process_id v x f s ≡ counted (lru_add_page q t)
    called =
        rw (ne→==-false q 0 q0)
          (ap counted (add_by-lru t.current_algorithm q t (a.algorithm ∙ alg)))

    b : Fronted p q t (lru_add_page q t)
    b = lru_add_page-Fronted p q t ne (a.lru ∙ lru)

-- From the initial state, under LRU: once two pages are added, looking up an address that neither
-- of them holds never ends, whatever the fuel.
pub find_page-add_page_twice :
    (p q v w f g x y process_id fuel addr : ℕ) (s : Manager)
    → p ≢ 0
    → q ≢ 0
    → p ≢ q
    → v ≢ addr
    → w ≢ addr
    → find_page fuel (add_page q process_id w y g (add_page p process_id v x f (init s))) addr
      ≡ none
unfolding find_page init
find_page-add_page_twice p q v w f g x y process_id fuel addr s p0 q0 ne va wa =
    ap (λ h. find_from fuel two h addr) (b.head ∙ rw (ne→==-false p 0 p0) a.head)
    ∙ search_diverges fuel addr p q two p0 q0 (b.forth p0) (b.back p0)
        (λ e. va (sym (b.same p (λ r. ne (sym r)) ∙ a.own) ∙ e)) (λ e. wa (sym b.own ∙ e))
  where
    one : Manager
    one = add_page p process_id v x f (init s)

    two : Manager
    two = add_page q process_id w y g one

    a : Added 0 p v (init s) one
    a = add_page-Added 0 p process_id v x f (init s) p0 p0 refl refl refl

    b : Added p q w one two
    b = add_page-Added p q process_id w y g one q0 (λ r. ne (sym r)) a.algorithm a.tail a.lru
