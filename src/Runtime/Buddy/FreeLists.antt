-- ===== src/Runtime/Buddy/FreeLists.antt =====
-- The free lists of class BuddyAllocator, src/kernel/runtime/buddy.cc, as lists of blocks by their
-- order.
use native.Mathlib.Decide.{ℕ_discrete}
use native.Mathlib.Nat.{pow-suc}
use mathlib.Core.Path.{subst}
use km_os.Prelude.{
  ℕ, zero, suc, ◌+◌, ◌<◌, ◌≤◌, ◌≡◌, ◌≢◌, ◌⊎◌, refl, sym, ◌∙◌, false, List, [], ◌∷◌, ◌++◌, arith,
  inl, inr, ◌==◌, eq→==, ne→==-false, In, Links, Chain, Distinct, Fresh, update, Chain-Agree, Agree,
  Bool, push_front, push_front-Chain, push_front-Agree, Fresh-zero,
}
use km_os.Runtime.Buddy.{Zone, block_size, max_order, buddy_magic, write_header, add_to_free_list}

-- Two blocks, of orders `i` and `j`, that share no byte.
abbrev pub Apart : ℕ → ℕ → ℕ → ℕ → Type 0
Apart i x j y = (x + block_size i ≤ y) ⊎ (y + block_size j ≤ x)

-- The header of a free block of order `i`.
abbrev pub Marked : Zone → ℕ → ℕ → Type 0
Marked z i x = (z.magic x ≡ buddy_magic) × (z.allocated x ≡ false) × (z.order x ≡ i)

-- `xs i` are the blocks on the free list of order `i`. No two of all of them share a byte.
pub record Free (z : Zone) (xs : ℕ → List ℕ) : Type 0 where
  pub chain : (i : ℕ) → i ≤ max_order → Chain z.links 0 (z.free_lists i) (xs i)
  pub distinct : (i : ℕ) → Distinct (xs i)
  pub apart : (i j x y : ℕ) → In x (xs i) → In y (xs j) → ((i ≡ j) × (x ≡ y)) ⊎ Apart i x j y
  pub marked : (i x : ℕ) → In x (xs i) → Marked z i x

-- A block that shares no byte with a free one.
abbrev pub Lone : ℕ → ℕ → (ℕ → List ℕ) → Type 0
Lone i b xs = (j y : ℕ) → In y (xs j) → Apart i b j y

pub size_positive : (i : ℕ) → 0 < block_size i
size_positive zero = omega arith
size_positive (suc i) = omega (arith, pow-suc 2 i, size_positive i)

pub Apart-ne : (i x j y : ℕ) → Apart i x j y → x ≢ y
Apart-ne i x j y (inl h) e = omega (arith, h, e, size_positive i)
Apart-ne i x j y (inr h) e = omega (arith, h, e, size_positive j)

pub Apart-sym : (i x j y : ℕ) → Apart i x j y → Apart j y i x
Apart-sym i x j y (inl h) = inr h
Apart-sym i x j y (inr h) = inl h

pub absent-Fresh : (b : ℕ) (ys : List ℕ) → ((y : ℕ) → In y ys → b ≢ y) → Fresh b ys
absent-Fresh b [] f = tt
absent-Fresh b (y ∷ ys) f = (f y (inl refl), absent-Fresh b ys (λ q h. f q (inr h)))

pub Fresh-In : (b y : ℕ) (ys : List ℕ) → Fresh b ys → In y ys → b ≢ y
Fresh-In b y [] f h = absurd h
Fresh-In b y (z ∷ ys) f (inl e) = λ q. f.0 (q ∙ e)
Fresh-In b y (z ∷ ys) f (inr h) = Fresh-In b y ys f.1 h

-- Who is on the lists after one of them has changed.
pub In-push :
    (xs : ℕ → List ℕ) (i b j y : ℕ)
    → In y (update xs i (b ∷ xs i) j)
    → ((i ≡ j) × (b ≡ y)) ⊎ In y (xs j)
In-push xs i b j y = elim (ℕ_discrete i j) [
  | yes e ↦ rw (e, eq→== j j refl) (λ h. elim h [ inl q ↦ inl (refl, sym q) | inr q ↦ inr q ])
  | no ne ↦ rw (ne→==-false i j ne) (λ h. inr h)
]

-- Taking a node out of a list that is elsewhere disturbs no list without its neighbours.
pub neighbours :
    (Q : ℕ → Type 0) (l : Links) (b back head : ℕ) (us vs : List ℕ)
    → Q back
    → Q 0
    → ((x : ℕ) → In x (us ++ b ∷ vs) → Q x)
    → Chain l back head (us ++ b ∷ vs)
    → Q (l.prev b) × Q (l.next b)
neighbours Q l b back head [] [] q q0 f c = (subst Q (sym c.2) q, subst Q (sym c.3) q0)
neighbours Q l b back head [] (v ∷ vs) q q0 f c =
    (subst Q (sym c.2) q, subst Q (sym c.3.0) (f v (inr (inl refl))))
neighbours Q l b back head (u ∷ us) vs q q0 f c =
    neighbours Q l b u (l.next u) us vs (f u (inl refl)) q0 (λ x h. f x (inr h)) c.3

pub first_of :
    (Q : ℕ → Type 0) (l : Links) (back head : ℕ) (xs : List ℕ)
    → Q 0
    → ((x : ℕ) → In x xs → Q x)
    → Chain l back head xs
    → Q head
first_of Q l back head [] q0 f c = subst Q (sym c) q0
first_of Q l back head (x ∷ xs) q0 f c = subst Q (sym c.0) (f x (inl refl))

module _ (z : Zone) (xs : ℕ → List ℕ) (v : Free z xs) where
  pub Lone-Fresh : (i b : ℕ) → Lone i b xs → (j : ℕ) → Fresh b (xs j)
  Lone-Fresh i b h j = absent-Fresh b (xs j) (λ y q. Apart-ne i b j y (h j y q))

  -- Nodes of one list are on no other.
  pub other-Fresh : (i j x : ℕ) → i ≢ j → In x (xs i) → Fresh x (xs j)
  other-Fresh i j x ne m =
      absent-Fresh x (xs j)
        (λ y q. elim (v.apart i j x y m q) [ inl e ↦ absurd (ne e.0) | inr h ↦ Apart-ne i x j y h ])

  pub null-Fresh : (j : ℕ) → j ≤ max_order → Fresh 0 (xs j)
  null-Fresh j h = Fresh-zero z.links 0 (z.free_lists j) (xs j) (v.chain j h)

  module _ (i b : ℕ) (h : i ≤ max_order) (b0 : b ≢ 0) (lone : Lone i b xs) where
    push_chain :
        (j : ℕ)
        → j ≤ max_order
        → Chain
            (add_to_free_list b i z).links
            0
            ((add_to_free_list b i z).free_lists j)
            (update xs i (b ∷ xs i) j)
    unfolding add_to_free_list
    push_chain j g = elim (ℕ_discrete i j) [
      | yes e ↦
          rw (e, eq→== j j refl)
            (unfold push_front in
              push_front-Chain b (z.free_lists j) z.links (xs j) b0 (Lone-Fresh i b lone j)
                (v.distinct j) (v.chain j g))
      | no ne ↦ rw (ne→==-false i j ne) (
          Chain-Agree z.links (push_front b (z.free_lists i) z.links) 0 (z.free_lists j) (xs j)
            (push_front-Agree b (z.free_lists i) z.links (xs j) (Lone-Fresh i b lone j) (
              first_of (λ q. Fresh q (xs j)) z.links 0 (z.free_lists i) (xs i) (null-Fresh j g)
                (λ x m. other-Fresh i j x ne m) (v.chain i h)))
            (v.chain j g))
    ]

    push-Distinct : (j : ℕ) → Distinct (update xs i (b ∷ xs i) j)
    push-Distinct j = elim (ℕ_discrete i j) [
      | yes e ↦ rw (e, eq→== j j refl) (Lone-Fresh i b lone j, v.distinct j)
      | no ne ↦ rw (ne→==-false i j ne) (v.distinct j)
    ]

    push-Apart :
        (j k x y : ℕ)
        → In x (update xs i (b ∷ xs i) j)
        → In y (update xs i (b ∷ xs i) k)
        → ((j ≡ k) × (x ≡ y)) ⊎ Apart j x k y
    push-Apart j k x y m n = both (In-push xs i b j x m) (In-push xs i b k y n)
      where
        both :
            ((i ≡ j) × (b ≡ x)) ⊎ In x (xs j)
            → ((i ≡ k) × (b ≡ y)) ⊎ In y (xs k)
            → ((j ≡ k) × (x ≡ y)) ⊎ Apart j x k y
        both (inl e) (inl f) = inl (sym e.0 ∙ f.0, sym e.1 ∙ f.1)
        both (inl e) (inr n') = rw (← e.0, ← e.1) (inr (lone k y n'))
        both (inr m') (inl f) = rw (← f.0, ← f.1) (inr (Apart-sym i b j x (lone j x m')))
        both (inr m') (inr n') = v.apart j k x y m' n'

    -- A block with its header goes on a list.
    pub add_to_free_list-Free :
        Marked z i b → Free (add_to_free_list b i z) (update xs i (b ∷ xs i))
    add_to_free_list-Free mark = record {
      chain = push_chain;
      distinct = push-Distinct;
      apart = push-Apart;
      marked = unfold add_to_free_list in λ j x m. header j x (In-push xs i b j x m);
    }
      where
        header : (j x : ℕ) → ((i ≡ j) × (b ≡ x)) ⊎ In x (xs j) → Marked z j x
        header j x (inl e) = rw (← e.0, ← e.1) mark
        header j x (inr m) = v.marked j x m

  -- What is written at a block that shares no byte with a free one leaves the lists.
  module _ (i b : ℕ) (lone : Lone i b xs) where
    elsewhere : (j x : ℕ) → In x (xs j) → (b == x) ≡ false
    elsewhere j x m = ne→==-false b x (Apart-ne i b j x (lone j x m))

    pub write_header-Free : (k : ℕ) → Free (write_header b k z) xs × Marked (write_header b k z) k b
    write_header-Free k = (
      record {
        chain = λ j g.
            Chain-Agree z.links (write_header b k z).links 0 (z.free_lists j) (xs j)
              (agree (xs j) (λ x m. elsewhere j x m)) (v.chain j g);
        distinct = v.distinct;
        apart = v.apart;
        marked = λ j x m. rw (elsewhere j x m) (v.marked j x m);
      },
      rw (eq→== b b refl) (refl, refl, refl),
    )
      where
        agree :
            (ys : List ℕ)
            → ((x : ℕ) → In x ys → (b == x) ≡ false)
            → Agree z.links (write_header b k z).links ys
        agree [] f = tt
        agree (y ∷ ys) f =
            (rw (f y (inl refl)) refl, rw (f y (inl refl)) refl, agree ys (λ x m. f x (inr m)))

    pub set_order-Free : (k : ℕ) → Free (record z { order = update z.order b k }) xs
    set_order-Free k = record {
      chain = v.chain;
      distinct = v.distinct;
      apart = v.apart;
      marked = λ j x m. rw (elsewhere j x m) (v.marked j x m);
    }

    pub set_allocated-Free :
        (a : Bool) (n : ℕ)
        → Free (record z { allocated = update z.allocated b a; allocated_blocks = n }) xs
    set_allocated-Free a n = record {
      chain = v.chain;
      distinct = v.distinct;
      apart = v.apart;
      marked = λ j x m. rw (elsewhere j x m) (v.marked j x m);
    }
