-- ===== src/X86/RunQueue/Enqueue.antt =====
-- `Architecture::enqueue_process` on a ring.
use native.Mathlib.Decide.{ℕ_discrete}
use km_os.Prelude.{
  ℕ, ◌≡◌, ◌≢◌, refl, sym, ap, ◌∙◌, Bool, inl, inr, Bool-cases, List, [], ◌∷◌, ◌++◌, ◌==◌, eq→==,
  ne→==-false, update, not, ◌&&◌, ◌||◌, Distinct, Fresh, last_or,
}
use km_os.Core.Process.{Proc, running, ready}
use km_os.X86.RunQueue.{
  RunQueue, set_pnext, set_state, link_process, start_process, enqueue_process,
}

-- From `head` the nodes are `xs`, and the successor of the last is `back`.
abbrev pub Run : (ℕ → ℕ) → ℕ → List ℕ → ℕ → Type 0
Run next head [] back = head ≡ back
Run next head (x ∷ xs) back = (head ≡ x) × (x ≢ 0) × Run next (next x) xs back

abbrev pub next_of : RunQueue → ℕ → ℕ
next_of q p = (q.procs p).pnext

-- The processes of the ring are `xs`, in order.
pub record Ring (q : RunQueue) (xs : List ℕ) : Type 0 where
  pub closed : Run (next_of q) q.plist xs q.plist
  pub empty : xs ≡ [] → q.plist ≡ 0
  pub distinct : Distinct xs
  pub last : q.first_proc ≡ last_or q.first_proc xs

-- What the links look like with `p` after the last process.
record Closed (p last back : ℕ) (f g : ℕ → ℕ) : Type 0 where
  own : g p ≡ back
  joined : g last ≡ p
  others : (r : ℕ) → p ≢ r → last ≢ r → g r ≡ f r

last_in : (p x : ℕ) (xs : List ℕ) → Fresh p (x ∷ xs) → last_or x xs ≢ p
last_in p x [] f = λ e. f.0 (sym e)
last_in p x (y ∷ ys) f = last_in p y ys f.1

Run-append :
    (f g : ℕ → ℕ) (p head x back : ℕ) (xs : List ℕ)
    → p ≢ 0
    → Closed p (last_or x xs) back f g
    → Fresh p (x ∷ xs)
    → Distinct (x ∷ xs)
    → Run f head (x ∷ xs) back
    → Run g head (x ∷ (xs ++ p ∷ [])) back
Run-append f g p head x back [] p0 c n d r = (r.0, r.1, (c.joined, p0, c.own))
Run-append f g p head x back (y ∷ ys) p0 c n d r = (
  r.0,
  r.1,
  rw (c.others x n.0 (last_in x y ys d.0)) (Run-append f g p (f x) y back ys p0 c n.1 d.1 r.2),
)

Distinct-snoc : (p : ℕ) (xs : List ℕ) → Fresh p xs → Distinct xs → Distinct (xs ++ p ∷ [])
Distinct-snoc p [] f d = (tt, tt)
Distinct-snoc p (x ∷ xs) f d = (apart xs f.1 d.0, Distinct-snoc p xs f.1 d.1)
  where
    apart : (ys : List ℕ) → Fresh p ys → Fresh x ys → Fresh x (ys ++ p ∷ [])
    apart [] g h = (λ e. f.0 (sym e), tt)
    apart (y ∷ ys) g h = (h.0, apart ys g.1 h.1)

last-snoc : (d p : ℕ) (xs : List ℕ) → last_or d (xs ++ p ∷ []) ≡ p
last-snoc d p [] = refl
last-snoc d p (x ∷ xs) = last-snoc x p xs

self_link : (p v : ℕ) (procs : ℕ → Proc) → (set_pnext p v procs p).pnext ≡ v
self_link p v procs = rw (eq→== p p refl) refl

other_link :
    (p v r : ℕ) (procs : ℕ → Proc) → p ≢ r → (set_pnext p v procs r).pnext ≡ (procs r).pnext
other_link p v r procs n = rw (ne→==-false p r n) refl

link_process-Ring :
    (p : ℕ) (q : RunQueue) (xs : List ℕ)
    → p ≢ 0
    → Fresh p xs
    → Ring q xs
    → Ring (link_process p q) (xs ++ p ∷ [])
unfolding link_process
link_process-Ring p q [] p0 f r = rw (r.empty refl) (record {
  closed = (refl, p0, self_link p p q.procs);
  empty = λ e. cc;
  distinct = (tt, tt);
  last = refl;
})
link_process-Ring p q (x ∷ xs) p0 f r =
    rw (ne→==-false q.plist 0 (λ e. r.closed.1 (sym r.closed.0 ∙ e))) (record {
      closed = Run-append (next_of q) linked p q.plist x q.plist xs p0 links f r.distinct r.closed;
      empty = λ e. cc;
      distinct = Distinct-snoc p (x ∷ xs) f r.distinct;
      last = sym (last-snoc p p (x ∷ xs));
    })
  where
    after : ℕ → Proc
    after = set_pnext p q.plist q.procs

    linked : ℕ → ℕ
    linked s = (set_pnext q.first_proc p after s).pnext

    away : q.first_proc ≢ p
    away = rw r.last (last_in p x xs f)

    links : Closed p (last_or x xs) q.plist (next_of q) linked
    links = rw (← r.last) (record {
      own = other_link q.first_proc p p after away ∙ self_link p q.plist q.procs;
      joined = self_link q.first_proc p after;
      others = λ s a b. other_link q.first_proc p s after b ∙ other_link p q.plist s q.procs a;
    })

-- Writes that keep the links.
record SameRing (q t : RunQueue) : Type 0 where
  links : (r : ℕ) → next_of t r ≡ next_of q r
  plist : t.plist ≡ q.plist
  first : t.first_proc ≡ q.first_proc

Run-same :
    (f g : ℕ → ℕ) (head back : ℕ) (xs : List ℕ)
    → ((r : ℕ) → g r ≡ f r)
    → Run f head xs back
    → Run g head xs back
Run-same f g head back [] e r = r
Run-same f g head back (x ∷ xs) e r = (r.0, r.1, rw (e x) (Run-same f g (f x) back xs e r.2))

Ring-same : (q t : RunQueue) (xs : List ℕ) → SameRing q t → Ring q xs → Ring t xs
Ring-same q t xs s r = record {
  closed = rw s.plist (Run-same (next_of q) (next_of t) q.plist q.plist xs s.links r.closed);
  empty = λ e. s.plist ∙ r.empty e;
  distinct = r.distinct;
  last = rw s.first r.last;
}

-- A process is written without its link.
kept :
    (p r : ℕ) (d : Proc) (procs : ℕ → Proc)
    → d.pnext ≡ (procs p).pnext
    → (update procs p d r).pnext ≡ (procs r).pnext
kept p r d procs e = elim (ℕ_discrete p r) [
  | yes same ↦ rw (eq→== p r same) (e ∙ ap (λ s. (procs s).pnext) same)
  | no other ↦ rw (ne→==-false p r other) refl
]

start_process-SameRing :
    (now p : ℕ) (make_current : Bool) (q : RunQueue)
    → SameRing q (start_process now p make_current q)
unfolding start_process
start_process-SameRing now p make_current q = elim (Bool-cases (make_current || q.pcurrent == 0)) [
  | inr waits ↦
      rw waits (record { links = λ r. kept p r _ q.procs refl; plist = refl; first = refl })
  | inl starts ↦
      rw starts
        (elim (Bool-cases (
          not (q.pcurrent == 0)
          && not (q.pcurrent == p)
          && (q.procs q.pcurrent).state == running)) [
            | inr alone ↦
                rw alone
                  (record { links = λ r. kept p r _ q.procs refl; plist = refl; first = refl })
            | inl pauses ↦ rw pauses (record {
              links = λ r.
                  kept p r _ (set_state q.pcurrent ready q.procs) refl
                  ∙ kept q.pcurrent r _ q.procs refl;
              plist = refl;
              first = refl;
            })
          ])
]

-- `enqueue_process` of a process that is not in the ring puts it at the end, and the ring stays
-- closed, whether or not the process becomes the current one.
pub enqueue_process-Ring :
    (now p : ℕ) (make_current : Bool) (q : RunQueue) (xs : List ℕ)
    → p ≢ 0
    → Fresh p xs
    → Ring q xs
    → Ring (enqueue_process now p make_current q) (xs ++ p ∷ [])
unfolding enqueue_process
enqueue_process-Ring now p make_current q xs p0 f r = rw (ne→==-false p 0 p0) (
    Ring-same (link_process p q) (start_process now p make_current (link_process p q))
      (xs ++ p ∷ []) (start_process-SameRing now p make_current (link_process p q))
      (link_process-Ring p q xs p0 f r))
