-- ===== src/Core/Files/Children.antt =====
-- The children of a file in src/kernel/core/file.cc: `addChild`, the destructor and `find`.
use mathlib.Core.Path.{subst}
use km_os.Prelude.{
  ℕ, zero, suc, ◌<◌, ◌≡◌, ◌≢◌, ◌⊎◌, refl, sym, ap, ◌∙◌, List, [], ◌∷◌, ◌++◌, arith, Option, some,
  true, false, Bool-cases, inl, inr, if◌then◌else◌, ◌==◌, eq→==, ne→==-false, ==→eq, length, update,
  Chain, Links, Fresh, Distinct, All, push_front, push_front-Chain, set_next, set_prev, unlink,
  unlink-Chain, prev_of_first, Fresh-zero, Fresh-append, same_bytes,
}
use km_os.Core.Files.{
  File, Tree, add_child, delete, delete_children, detach, find, find_from, put_file, return_ok,
}

-- The children of `this` are `xs`.
abbrev pub Children : Tree → ℕ → List ℕ → Type 0
Children s this xs = Chain s.links 0 (s.file this).child xs

-- A write to a file that keeps one of its fields.
pub update_keeps :
    {A : Type 0} (field : File → A) (f : ℕ → File) (p : ℕ) (v : File) (q : ℕ)
    → field v ≡ field (f p)
    → field (update f p v q) ≡ field (f q)
update_keeps field f p v q e = elim (Bool-cases (p == q)) [
  | inl same ↦ rw same (e ∙ ap (λ k. field (f k)) (==→eq p q same))
  | inr other ↦ rw other refl
]

-- After `add_child`.
pub record Added (this n : ℕ) (xs : List ℕ) (s : Tree) (r : ℕ × Tree) : Type 0 where
  pub result : r.0 ≡ return_ok
  pub children : Children r.1 this (n ∷ xs)
  pub parent : (r.1.file n).parent ≡ this
  pub others : (q : ℕ) → q ≢ this → (r.1.file q).child ≡ (s.file q).child
  pub names : (q : ℕ) → (r.1.file q).name ≡ (s.file q).name

-- A file that is not among the children becomes the first of them, and no other file has a new first
-- child.
pub add_child-Added :
    (this n : ℕ) (s : Tree) (xs : List ℕ)
    → n ≢ 0
    → n ≢ this
    → Fresh n xs
    → Distinct xs
    → Children s this xs
    → Added this n xs s (add_child this n s)
unfolding add_child push_front
add_child-Added this n s xs n0 ne f d c = rw (ne→==-false n 0 n0) (record {
  result = refl;
  children =
      subst (λ h. Chain (push_front n (s.file this).child s.links) 0 h (n ∷ xs))
        (sym (rw (eq→== this this refl) refl))
        (push_front-Chain n (s.file this).child s.links xs n0 f d c);
  parent = rw (ne→==-false this n (λ e. ne (sym e)), eq→== n n refl) refl;
  others = λ q away.
      rw (ne→==-false this q (λ z. away (sym z)))
        (update_keeps (λ f. f.child) s.file n (record (s.file n) { parent = this }) q refl);
  names = λ q.
      update_keeps (λ f. f.name) (update s.file n (record (s.file n) { parent = this })) this
        (record (update s.file n (record (s.file n) { parent = this }) this) { child = n }) q refl
      ∙ update_keeps (λ f. f.name) s.file n (record (s.file n) { parent = this }) q refl;
})

-- The destructor's writes to the neighbours are those of `unlink`, and the parent's first child is
-- the next file if the file was the first.
record Detached (this q : ℕ) (s t : Tree) : Type 0 where
  links : t.links ≡ unlink this s.links
  first :
      (t.file q).child ≡ (if s.links.prev this == 0 then s.links.next this else (s.file q).child)
  others : (p : ℕ) → p ≢ q → (t.file p).child ≡ (s.file p).child

as_unlink :
    (this : ℕ) (l : Links)
    → this ≢ l.prev this
    → (if l.prev this == 0
        then set_prev (l.next this) 0 l
        else if l.next this == 0
        then set_next (l.prev this) 0 l
        else set_prev (l.next this) (l.prev this) (set_next (l.prev this) (l.next this) l))
      ≡ unlink this l
unfolding unlink
as_unlink this l ne = elim (Bool-cases (l.prev this == 0)) [
  | inl e ↦ rw (e, ==→eq _ _ e) refl
  | inr e ↦ elim (Bool-cases (l.next this == 0)) [
    | inl f ↦ rw (e, f, ne→==-false (l.prev this) this (λ z. ne (sym z)), f, ==→eq _ _ f) refl
    | inr f ↦ rw (e, f, ne→==-false (l.prev this) this (λ z. ne (sym z)), f) refl
  ]
]

-- The three cases of the destructor.
only_first :
    (this q : ℕ) (s : Tree)
    → q ≢ 0
    → (s.file this).parent ≡ q
    → (s.links.prev this == 0) ≡ true
    → detach this s
      ≡ some (
          put_file q
            (record (s.file q) { child = s.links.next this })
            (record s { links = set_prev (s.links.next this) 0 s.links }))
unfolding detach
only_first this q s q0 e f = rw (f, e, ne→==-false q 0 q0) refl

last_one :
    (this : ℕ) (s : Tree)
    → (s.links.prev this == 0) ≡ false
    → (s.links.next this == 0) ≡ true
    → detach this s ≡ some (record s { links = set_next (s.links.prev this) 0 s.links })
unfolding detach
last_one this s f g = rw (f, g) refl

inner_one :
    (this : ℕ) (s : Tree)
    → (s.links.prev this == 0) ≡ false
    → (s.links.next this == 0) ≡ false
    → detach this s
      ≡ some (record s {
        links =
            set_prev
              (s.links.next this)
              (s.links.prev this)
              (set_next (s.links.prev this) (s.links.next this) s.links);
      })
unfolding detach
inner_one this s f g = rw (f, g) refl

detach-Detached :
    (this q : ℕ) (s : Tree)
    → q ≢ 0
    → (s.file this).parent ≡ q
    → this ≢ s.links.prev this
    → (t : Tree) × (detach this s ≡ some t) × Detached this q s t
detach-Detached this q s q0 e ne = elim (Bool-cases (s.links.prev this == 0)) [
  | inl f ↦ (
    put_file q (record (s.file q) { child = s.links.next this })
        (record s { links = set_prev (s.links.next this) 0 s.links }),
    only_first this q s q0 e f,
    record {
      links = sym (rw f refl) ∙ as_unlink this s.links ne;
      first = rw (f, eq→== q q refl) refl;
      others = λ p away. rw (ne→==-false q p (λ z. away (sym z))) refl;
    },
  )
  | inr f ↦ elim (Bool-cases (s.links.next this == 0)) [
    | inl g ↦ (
      record s { links = set_next (s.links.prev this) 0 s.links },
      last_one this s f g,
      record {
        links = sym (rw (f, g) refl) ∙ as_unlink this s.links ne;
        first = rw f refl;
        others = λ p away. refl;
      },
    )
    | inr g ↦ (
      record s {
        links =
            set_prev (s.links.next this) (s.links.prev this)
              (set_next (s.links.prev this) (s.links.next this) s.links);
      },
      inner_one this s f g,
      record {
        links = sym (rw (f, g) refl) ∙ as_unlink this s.links ne;
        first = rw f refl;
        others = λ p away. refl;
      },
    )
  ]
]

no_children : (fuel : ℕ) (t : Tree) → delete_children (suc fuel) 0 t ≡ some t
unfolding delete delete_children
no_children fuel t = refl

deleting :
    (fuel this : ℕ) (s t : Tree)
    → detach this s ≡ some t
    → delete (suc fuel) this s ≡ delete_children fuel (t.file this).child t
unfolding delete delete_children
deleting fuel this s t e = rw (delete, e) refl

-- What deleting a file without children leaves.
pub record Deleted (this q : ℕ) (us vs : List ℕ) (s : Tree) (r : Option Tree) : Type 0 where
  pub tree : Tree
  pub result : r ≡ some tree
  pub children : Children tree q (us ++ vs)
  pub others : (p : ℕ) → p ≢ q → (tree.file p).child ≡ (s.file p).child

-- Deleting a file without children, one of the children of its parent `q`, leaves the others as the
-- children of `q`, in their order, and the first child of every other file.
pub delete-Deleted :
    (fuel this q : ℕ) (s : Tree) (us vs : List ℕ)
    → q ≢ 0
    → this ≢ q
    → (s.file this).parent ≡ q
    → (s.file this).child ≡ 0
    → Distinct (us ++ this ∷ vs)
    → Children s q (us ++ this ∷ vs)
    → Deleted this q us vs s (delete (suc (suc fuel)) this s)
delete-Deleted fuel this q s us vs q0 ne e leaf d c =
    let r =
      detach-Detached this q s q0 e
        (prev_apart us (s.file q).child 0 (this_nonzero us 0 (s.file q).child c) d c) in
    record {
      tree = r.0;
      result =
          deleting (suc fuel) this s r.0 r.1
          ∙ ap (λ n. delete_children (suc fuel) n r.0) (r.2.others this ne ∙ leaf)
          ∙ no_children fuel r.0;
      children =
          rw (r.2.links, r.2.first, ← prev_of_first s.links this (s.file q).child us vs c)
            (unlink-Chain s.links this 0 (s.file q).child us vs d
              (Fresh-zero s.links 0 (s.file q).child (us ++ this ∷ vs) c) c);
      others = r.2.others;
    }
  where
    this_nonzero :
        (ws : List ℕ) (back head : ℕ) → Chain s.links back head (ws ++ this ∷ vs) → this ≢ 0
    this_nonzero [] back head k = k.1
    this_nonzero (w ∷ ws) back head k = this_nonzero ws w _ k.3

    prev_apart :
        (ws : List ℕ) (head back : ℕ)
        → this ≢ back
        → Distinct (ws ++ this ∷ vs)
        → Chain s.links back head (ws ++ this ∷ vs)
        → this ≢ s.links.prev this
    prev_apart [] head back away k h = rw (h.2) away
    prev_apart (w ∷ ws) head back away k h =
        prev_apart ws _ w (λ z. (Fresh-append w ws (this ∷ vs) k.0).1.0 (sym z)) k.1 h.3

-- The first child that has the name, or 0 where none has it.
abbrev pub IsFirst : Tree → List ℕ → List ℕ → ℕ → Type 0
IsFirst s n xs r =
    ((us : List ℕ) × (vs : List ℕ) × (xs ≡ us ++ r ∷ vs)
      × (r ≢ 0)
      × (same_bytes (s.file r).name n ≡ true)
      × All (λ x. same_bytes (s.file x).name n ≡ false) us)
    ⊎ ((r ≡ 0) × All (λ x. same_bytes (s.file x).name n ≡ false) xs)

IsFirst-cons :
    (s : Tree) (n : List ℕ) (x : ℕ) (xs : List ℕ) (r : ℕ)
    → same_bytes (s.file x).name n ≡ false
    → IsFirst s n xs r
    → IsFirst s n (x ∷ xs) r
IsFirst-cons s n x xs r e (inl f) = inl (x ∷ f.0, f.1, ap (λ zs. x ∷ zs) f.2, f.3, f.4, (e, f.5))
IsFirst-cons s n x xs r e (inr f) = inr (f.0, (e, f.1))

find_from-IsFirst :
    (fuel back fp : ℕ) (n : List ℕ) (s : Tree) (xs : List ℕ)
    → length xs < fuel
    → Chain s.links back fp xs
    → (r : ℕ) × (find_from fuel fp n s ≡ some r) × IsFirst s n xs r
unfolding find_from
find_from-IsFirst zero back fp n s xs h c = absurd (omega arith)
find_from-IsFirst (suc fuel) back fp n s [] h c = (0, rw (eq→== fp 0 c) refl, inr (refl, tt))
find_from-IsFirst (suc fuel) back fp n s (x ∷ xs) h c =
    elim (Bool-cases (same_bytes (s.file x).name n)) [
      | inl e ↦ (x, rw (c.0, ne→==-false x 0 c.1, e) refl, inl ([], xs, refl, c.1, e, tt))
      | inr e ↦
          let r = find_from-IsFirst fuel x (s.links.next x) n s xs (omega arith) c.3 in
          (r.0, rw (c.0, ne→==-false x 0 c.1, e) r.1, IsFirst-cons s n x xs r.0 e r.2)
    ]

-- With fuel above the number of children, `find` ends, and returns the first child of that name, or 0
-- where no child has it.
pub find-IsFirst :
    (fuel this : ℕ) (n : List ℕ) (s : Tree) (xs : List ℕ)
    → length xs < fuel
    → Children s this xs
    → (r : ℕ) × (find fuel this n s ≡ some r) × IsFirst s n xs r
unfolding find
find-IsFirst fuel this n s xs h c = find_from-IsFirst fuel 0 (s.file this).child n s xs h c
