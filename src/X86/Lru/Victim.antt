-- ===== src/X86/Lru/Victim.antt =====
-- Which page `find_victim_page` chooses: the walk over the `prev` links against the list itself.
use mathlib.Core.Path.{subst}
use mathlib.Core.List.{append_assoc, append-nil}
use km_os.Prelude.{
  last_or, last_nonzero, last-append, prev_is_last, ℕ, zero, suc, ◌<◌, ◌≡◌, ◌≢◌, refl, sym, ap, ◌∙◌,
  List, [], ◌∷◌, ◌++◌, Bool, some, inl, inr, ◌⊎◌, ◌==◌, if◌then◌else◌, true, false, arith, length,
  length-append, Chain, eq→==, ne→==-false,
}
use km_os.X86.Lru.{Lru, is_locked, walk_back, find_victim_page}
use km_os.X86.Lru.Shape.{Lists}

-- The last node of the list whose page is not locked, or 0.
abbrev pub last_unlocked : Lru → List ℕ → ℕ
last_unlocked l [] = 0
last_unlocked l (x ∷ xs) =
    if last_unlocked l xs == 0 then (if is_locked l x then 0 else x) else last_unlocked l xs

abbrev EndsIn : List ℕ → Type 0
EndsIn xs = (xs ≡ []) ⊎ ((us : List ℕ) × (x : ℕ) × (xs ≡ us ++ x ∷ []))

split_last : (xs : List ℕ) → EndsIn xs
split_last [] = inl refl
split_last (x ∷ xs) = extend (split_last xs)
  where
    extend : EndsIn xs → EndsIn (x ∷ xs)
    extend (inl e) = inr ([], x, ap (λ t. x ∷ t) e)
    extend (inr (us, y, e)) = inr (x ∷ us, y, ap (λ t. x ∷ t) e)

last_unlocked-snoc :
    (l : Lru) (us : List ℕ) (x : ℕ)
    → x ≢ 0
    → last_unlocked l (us ++ x ∷ []) ≡ (if is_locked l x then last_unlocked l us else x)
last_unlocked-snoc l [] x n = refl
last_unlocked-snoc l (u ∷ us) x n = rw (last_unlocked-snoc l us x n) (split (is_locked l x) refl)
  where
    split :
        (b : Bool)
        → is_locked l x ≡ b
        → (if (if b then last_unlocked l us else x) == 0
            then (if is_locked l u then 0 else u)
            else (if b then last_unlocked l us else x))
          ≡ (if b then last_unlocked l (u ∷ us) else x)
    split true e = refl
    split false e = rw (ne→==-false x 0 n)

if-some : (a b : ℕ) (c : Bool) → (if c then some a else some b) ≡ some (if c then a else b)
if-some a b true = refl
if-some a b false = refl

-- The walk from the last of `xs` back to the head.
walk_back_total :
    (fuel : ℕ) (l : Lru) (head : ℕ) (xs ys : List ℕ)
    → length xs < fuel
    → Chain l.links 0 head (xs ++ ys)
    → walk_back fuel l (last_or 0 xs) ≡ some (last_unlocked l xs)
unfolding walk_back
walk_back_total zero l head xs ys h c = absurd (omega arith)
walk_back_total (suc fuel) l head xs ys h c = elim (split_last xs) [
  | inl e ↦ rw e refl
  | inr (us, x, e) ↦
      subst (λ t. walk_back (suc fuel) l (last_or 0 t) ≡ some (last_unlocked l t)) (sym e)
        (step us x (subst (λ t. Chain l.links 0 head (t ++ ys)) e c) (
          walk_back_total fuel l head us (x ∷ ys)
            (omega (arith, h, ap length e, length-append us (x ∷ [])))
            (regroup us x (subst (λ t. Chain l.links 0 head (t ++ ys)) e c))))
]
  where
    regroup :
        (us : List ℕ) (x : ℕ)
        → Chain l.links 0 head ((us ++ x ∷ []) ++ ys)
        → Chain l.links 0 head (us ++ x ∷ ys)
    regroup us x k = subst (Chain l.links 0 head) (append_assoc us (x ∷ []) ys) k

    nonnull : (b k : ℕ) (zs : List ℕ) (x : ℕ) → Chain l.links b k (zs ++ x ∷ ys) → x ≢ 0
    nonnull b k [] x d = d.1
    nonnull b k (z ∷ zs) x d = nonnull z (l.links.next z) zs x d.3

    step :
        (us : List ℕ) (x : ℕ)
        → Chain l.links 0 head ((us ++ x ∷ []) ++ ys)
        → walk_back fuel l (last_or 0 us) ≡ some (last_unlocked l us)
        → walk_back (suc fuel) l (last_or 0 (us ++ x ∷ [])) ≡ some (last_unlocked l (us ++ x ∷ []))
    step us x k ih =
        rw
          (
            last-append 0 x us [],
            last_unlocked-snoc l us x (nonnull 0 head us x (regroup us x k)),
            ne→==-false x 0 (nonnull 0 head us x (regroup us x k)),
            prev_is_last l.links x 0 head us ys (regroup us x k),
            ih,
          )
          (if-some (last_unlocked l us) x (is_locked l x))

-- For a well-formed list and fuel above its length, `find_victim_page` ends. It returns the last
-- page in the list that is not locked; the tail if all are locked; 0 if the list is empty.
pub find_victim_page_lem :
    (l : Lru) (xs : List ℕ) (fuel : ℕ)
    → Lists l xs
    → length xs < fuel
    → find_victim_page fuel l
      ≡ some (if last_unlocked l xs == 0 then l.tail else last_unlocked l xs)
unfolding find_victim_page
find_victim_page_lem l [] fuel v h = rw (eq→== l.tail 0 v.tail_last) (ap some (sym v.tail_last))
find_victim_page_lem l (x ∷ xs) fuel v h =
    rw (live, walk, find_victim_page)
      (if-some l.tail (last_unlocked l (x ∷ xs)) (last_unlocked l (x ∷ xs) == 0))
  where
    live : (l.tail == 0) ≡ false
    live =
        ne→==-false l.tail 0
          (λ e. last_nonzero l.links 0 x xs v.chain.1 v.chain.3 (sym v.tail_last ∙ e))

    walk : walk_back fuel l l.tail ≡ some (last_unlocked l (x ∷ xs))
    walk =
        ap (walk_back fuel l) v.tail_last
        ∙ walk_back_total fuel l l.head (x ∷ xs) [] h
            (subst (Chain l.links 0 l.head) (sym (append-nil (x ∷ xs))) v.chain)
