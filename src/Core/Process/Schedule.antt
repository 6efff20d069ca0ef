-- ===== src/Core/Process/Schedule.antt =====
-- The choice of the next process: `Process::schedule`.
use km_os.Prelude.{
  ℕ, zero, suc, ◌<◌, ◌≡◌, ◌≢◌, ◌⊎◌, refl, ap, ◌∙◌, arith, true, false, inl, inr, Bool-cases, List,
  [], ◌∷◌, length, Option, some, none, if◌then◌else◌, ◌==◌, eq→==, ne→==-false, ==-false→ne,
}
use km_os.Core.Process.{
  Proc, running, ready, advance, is_blocked, seek, switch_to, follow, schedule, exit,
}

-- From `n`, past the blocked processes `xs`, the next one is `y`.
abbrev pub Steps : (ℕ → Proc) → ℕ → ℕ → List ℕ → ℕ → Type 0
Steps procs plist n [] y = advance procs plist n ≡ y
Steps procs plist n (x ∷ xs) y =
    (advance procs plist n ≡ x) × (x ≢ 0) × (is_blocked procs x ≡ true) × Steps procs plist x xs y

seek-Steps :
    (k : ℕ) (procs : ℕ → Proc) (plist n y : ℕ) (xs : List ℕ)
    → length xs < k
    → Steps procs plist n xs y
    → y ≢ 0
    → is_blocked procs y ≡ false
    → seek k procs plist n ≡ some y
unfolding seek
seek-Steps zero procs plist n y xs h s y0 b = absurd (omega arith)
seek-Steps (suc k) procs plist n y [] h s y0 b = rw (s, ne→==-false y 0 y0, b) refl
seek-Steps (suc k) procs plist n y (x ∷ xs) h s y0 b =
    rw (s.0, ne→==-false x 0 s.1, s.2) (seek-Steps k procs plist x y xs (omega arith) s.3 y0 b)

-- What a change from `p` to `y` does to the processes.
pub record Switched (p y now : ℕ) (before after : ℕ → Proc) : Type 0 where
  pub chosen : (after y).state ≡ running
  pub stamped : (after y).last_scheduled ≡ now
  pub left : (after p).state ≡ (if (before p).state == running then ready else (before p).state)
  pub others : (q : ℕ) → p ≢ q → y ≢ q → after q ≡ before q

switch_to-Switched :
    (now p y : ℕ) (procs : ℕ → Proc) → y ≢ p → Switched p y now procs (switch_to now p y procs)
unfolding switch_to
switch_to-Switched now p y procs ne = elim (Bool-cases ((procs p).state == running)) [
  | inl was ↦ rw was (record {
    chosen = rw (eq→== y y refl) refl;
    stamped = rw (eq→== y y refl) refl;
    left = rw (was, ne→==-false y p ne, eq→== p p refl) refl;
    others = λ q a b. rw (ne→==-false y q b, ne→==-false p q a) refl;
  })
  | inr other ↦ rw other (record {
    chosen = rw (eq→== y y refl) refl;
    stamped = rw (eq→== y y refl) refl;
    left = rw (other, ne→==-false y p ne) refl;
    others = λ q a b. rw (ne→==-false y q b) refl;
  })
]

-- If the process has a successor and, past fewer than 100 blocked processes, another one is not
-- blocked, then `schedule` chooses it: it is running since now, the old one is ready if it was
-- running, and no other process changes.
pub schedule-Switched :
    (now plist p y : ℕ) (procs : ℕ → Proc) (xs : List ℕ)
    → (procs p).pnext ≢ 0
    → Steps procs plist p xs y
    → length xs < 100
    → y ≢ 0
    → y ≢ p
    → is_blocked procs y ≡ false
    → ((schedule now plist procs p).0 ≡ y) × Switched p y now procs (schedule now plist procs p).1
schedule-Switched now plist p y procs xs follows s h y0 ne b =
    rw chosen (refl, switch_to-Switched now p y procs ne)
  where
    chosen : schedule now plist procs p ≡ (y, switch_to now p y procs)
    chosen =
        unfold schedule in
        rw (ne→==-false (procs p).pnext 0 follows)
          (ap (follow now p procs) (seek-Steps 100 procs plist p y xs h s y0 b) ∙ taken)
      where
        taken : follow now p procs (some y) ≡ (y, switch_to now p y procs)
        taken = unfold follow in rw (ne→==-false y 0 y0, ne→==-false y p ne) refl

-- Where the loop stops, if it does: null, or a process that is not blocked.
Stopped : (ℕ → Proc) → Option ℕ → Type 0
Stopped procs none = Unit {0}
Stopped procs (some n) = (n ≡ 0) ⊎ (is_blocked procs n ≡ false)

seek-Stopped : (k : ℕ) (procs : ℕ → Proc) (plist n : ℕ) → Stopped procs (seek k procs plist n)
unfolding seek Stopped
seek-Stopped zero procs plist n = tt
seek-Stopped (suc k) procs plist n = elim (Bool-cases (advance procs plist n == 0)) [
  | inl null ↦ rw null (inl refl)
  | inr there ↦ elim (Bool-cases (is_blocked procs (advance procs plist n))) [
    | inl b ↦ rw (there, b) (seek-Stopped k procs plist (advance procs plist n))
    | inr b ↦ rw (there, b) (inr b)
  ]
]

-- The process stays, or another one takes over that is neither a zombie nor asleep.
abbrev pub Sound : ℕ → ℕ → (ℕ → Proc) → ℕ × (ℕ → Proc) → Type 0
Sound now p procs r =
    (r ≡ (p, procs))
    ⊎ ((r.0 ≢ 0) × (r.0 ≢ p) × (is_blocked procs r.0 ≡ false) × Switched p r.0 now procs r.1)

follow-Sound :
    (now p : ℕ) (procs : ℕ → Proc) (o : Option ℕ)
    → Stopped procs o
    → Sound now p procs (follow now p procs o)
unfolding follow Stopped
follow-Sound now p procs none s = inl refl
follow-Sound now p procs (some n) s = elim (Bool-cases (n == 0)) [
  | inl null ↦ rw null (inl refl)
  | inr there ↦ elim (Bool-cases (n == p)) [
    | inl same ↦ rw (there, same) (inl refl)
    | inr other ↦
        rw (there, other)
          (inr (
            ==-false→ne n 0 there,
            ==-false→ne n p other,
            free s there,
            switch_to-Switched now p n procs (==-false→ne n p other),
          ))
  ]
]
  where
    free : (n ≡ 0) ⊎ (is_blocked procs n ≡ false) → (n == 0) ≡ false → is_blocked procs n ≡ false
    free (inl z) there = absurd (==-false→ne n 0 there z)
    free (inr b) there = b

-- Whatever the processes, `schedule` changes nothing and stays with the process, or it goes to another
-- one that is neither a zombie nor asleep, which alone changes besides the old one.
pub schedule-Sound :
    (now plist p : ℕ) (procs : ℕ → Proc) → Sound now p procs (schedule now plist procs p)
unfolding schedule
schedule-Sound now plist p procs = elim (Bool-cases ((procs p).pnext == 0)) [
  | inl last ↦ rw last (inl refl)
  | inr follows ↦
      rw follows
        (follow-Sound now p procs (seek 100 procs plist p) (seek-Stopped 100 procs plist p))
]

-- The state ZOMBIE is the number of RUNNING: after a process has exited, the `schedule` that leaves it
-- for another, as in `schedule-Switched`, makes it ready to run again.
pub schedule-exit :
    (now plist p y : ℕ) (procs : ℕ → Proc) (xs : List ℕ)
    → (exit p procs p).pnext ≢ 0
    → Steps (exit p procs) plist p xs y
    → length xs < 100
    → y ≢ 0
    → y ≢ p
    → is_blocked (exit p procs) y ≡ false
    → ((schedule now plist (exit p procs) p).1 p).state ≡ ready
schedule-exit now plist p y procs xs follows s h y0 ne b =
    (schedule-Switched now plist p y (exit p procs) xs follows s h y0 ne b).1.left ∙ rw dead refl
  where
    dead : (exit p procs p).state ≡ running
    dead = unfold exit in rw (eq→== p p refl) refl
