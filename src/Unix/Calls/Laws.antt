-- ===== src/Unix/Calls/Laws.antt =====
-- systems/unix/syscall_unix.go: what the calls that are made again return.
use wasi_go.Base.{
  ℕ, zero, suc, ◌<◌, ◌≡◌, ◌≢◌, ◌↔◌, ◌∙◌, sym, refl, ap, subst, ok_inj, some, ◌⊎◌, inl, inr, Run, ok,
  panic, unfinished, Bool, true, false, ℤ, if◌then◌else◌, Bool-cases, arith,
}
use wasi_go.Errno.Host
use wasi_go.Errno.Syscall.{GoError, make_errno}
use wasi_go.Unix.Calls.{
  Called, returned, broken, eintr, ignore_eintr2, handle_eintr, is_positive, errno_of, sys_error,
}

-- The calls of `ignoreEINTR2` run out of rounds, or end with what is not an interruption.
pub ignore_eintr2-ends :
    {A World : Type 0} (rounds : ℕ) (f : World → Called A × World) (w : World)
    → (ignore_eintr2 rounds f w ≡ unfinished)
      ⊎ (((r : A × World) × (ignore_eintr2 rounds f w ≡ ok (returned r.0, r.1)))
          ⊎ ((r : GoError × World) × (ignore_eintr2 rounds f w ≡ ok (broken r.0, r.1))))
unfolding ignore_eintr2
ignore_eintr2-ends zero f w = inl refl
ignore_eintr2-ends {A = A} {World = World} (suc rounds) f w =
    cases (f w) (ignore_eintr2-ends rounds f (f w).1)
  where
    Goal : Run (Called A × World) → Type 0
    Goal m =
        (m ≡ unfinished)
        ⊎ (((r : A × World) × (m ≡ ok (returned r.0, r.1)))
            ⊎ ((r : GoError × World) × (m ≡ ok (broken r.0, r.1))))

    cases :
        (c : Called A × World)
        → Goal (ignore_eintr2 rounds f c.1)
        → Goal (elim c.0 [
          | returned a ↦ ok (returned a, c.1)
          | broken err ↦ ok (broken err, c.1)
          | eintr ↦ ignore_eintr2 rounds f c.1
        ])
    cases (returned a, w') again = inr (inl ((a, w'), refl))
    cases (broken err, w') again = inr (inr ((err, w'), refl))
    cases (eintr, w') again = again

-- How a call behind `handleEINTR` comes to its result `r`, with the number of the calls that are
-- interrupted before they have transferred anything.
pub data Transfers {World : Type 0} (f : World → (ℤ × Called (Unit {0})) × World)
    (r : (ℤ × Called (Unit {0})) × World) : World → ℕ → Type 0 where
  completes : {w : World} {n : ℕ} → n ≡ 0 → (f w).0.1 ≢ eintr → f w ≡ r → Transfers f r w n
  partial :
      {w : World} {n : ℕ}
      → n ≡ 0
      → (f w).0.1 ≡ eintr
      → is_positive (f w).0.0 ≡ true
      → (((f w).0.0, returned tt), (f w).1) ≡ r
      → Transfers f r w n
  retries :
      {w : World} {n : ℕ}
      → (f w).0.1 ≡ eintr
      → is_positive (f w).0.0 ≡ false
      → Transfers f r (f w).1 n
      → Transfers f r w (suc n)

Called-cases : (c : Called (Unit {0})) → (c ≡ eintr) ⊎ (c ≢ eintr)
Called-cases (returned a) = inr (λ e. cc)
Called-cases (broken err) = inr (λ e. cc)
Called-cases eintr = inl refl

completed :
    {World : Type 0} (c : (ℤ × Called (Unit {0})) × World)
    (again : Run ((ℤ × Called (Unit {0})) × World))
    → c.0.1 ≢ eintr
    → (elim c.0.1 [
      | returned _ ↦ ok ((c.0.0, returned tt), c.1)
      | broken err ↦ ok ((c.0.0, broken err), c.1)
      | eintr ↦ if is_positive c.0.0 then ok ((c.0.0, returned tt), c.1) else again
    ])
      ≡ ok c
completed ((n, returned u), w) again ne = refl
completed ((n, broken err), w) again ne = refl
completed ((n, eintr), w) again ne = absurd (ne refl)

module _ {World : Type 0} (f : World → (ℤ × Called (Unit {0})) × World) where
  handle_eintr-of_Transfers :
      (rounds : ℕ) {n : ℕ} {w : World} {r : (ℤ × Called (Unit {0})) × World}
      → Transfers f r w n
      → n < rounds
      → handle_eintr rounds f w ≡ ok r
  unfolding handle_eintr
  handle_eintr-of_Transfers zero t h = elim h [ ]
  handle_eintr-of_Transfers (suc rounds) {w = w} (completes e ne same) h =
      completed (f w) (handle_eintr rounds f (f w).1) ne ∙ ap ok same
  handle_eintr-of_Transfers (suc rounds) {w = w} (partial e interrupted some_data same) h =
      rw (interrupted, some_data, handle_eintr) (ap ok same)
  handle_eintr-of_Transfers (suc rounds) {w = w} (retries interrupted nothing t) h =
      rw (interrupted, nothing, handle_eintr) (handle_eintr-of_Transfers rounds t (omega arith))

  handle_eintr-Transfers :
      (rounds : ℕ) (w : World) (r : (ℤ × Called (Unit {0})) × World)
      → handle_eintr rounds f w ≡ ok r
      → (n : ℕ) × (n < rounds) × Transfers f r w n
  unfolding handle_eintr
  handle_eintr-Transfers zero w r e = cc
  handle_eintr-Transfers (suc rounds) w r e = elim (Called-cases (f w).0.1) [
    | inl interrupted ↦ elim (Bool-cases (is_positive (f w).0.0)) [
      | inl some_data ↦ (
        0,
        omega arith,
        partial refl interrupted some_data
            (ok_inj _ _ (rw (interrupted, some_data, handle_eintr) at e)),
      )
      | inr nothing ↦
          let (n, lt, t) =
            handle_eintr-Transfers rounds (f w).1 r
              (rw (interrupted, nothing, handle_eintr) at e) in
          (suc n, omega arith, retries interrupted nothing t)
    ]
    | inr ne ↦ (0, omega arith, completes refl ne (ok_inj _ _ (sym (completed (f w) _ ne) ∙ e)))
  ]

  -- handleEINTR returns within a number of rounds exactly if fewer calls than that are interrupted
  -- before they have transferred anything. It then returns what the next call returns, or, if that
  -- call is interrupted after it has transferred something, its number without an error.
  pub handle_eintr-iff_Transfers :
      (rounds : ℕ) (w : World) (r : (ℤ × Called (Unit {0})) × World)
      → (handle_eintr rounds f w ≡ ok r) ↔ ((n : ℕ) × (n < rounds) × Transfers f r w n)
  handle_eintr-iff_Transfers rounds w r =
      (handle_eintr-Transfers rounds w r, λ t. handle_eintr-of_Transfers rounds t.2 t.1)

pub ignore_eintr2-ne-panic :
    {A World : Type 0} (rounds : ℕ) (f : World → Called A × World) (w : World)
    → ignore_eintr2 rounds f w ≢ panic
ignore_eintr2-ne-panic rounds f w e = elim (ignore_eintr2-ends rounds f w) [
  | inl cut ↦ cc
  | inr (inl (r, run)) ↦ cc
  | inr (inr (r, run)) ↦ cc
]

pub handle_eintr-ne-panic :
    {World : Type 0} (rounds : ℕ) (f : World → (ℤ × Called (Unit {0})) × World) (w : World)
    → handle_eintr rounds f w ≢ panic
unfolding handle_eintr
handle_eintr-ne-panic zero f w = λ e. cc
handle_eintr-ne-panic {World = World} (suc rounds) f w =
    cases (f w) (handle_eintr-ne-panic rounds f (f w).1)
  where
    Goal : Run ((ℤ × Called (Unit {0})) × World) → Type 0
    Goal m = m ≢ panic

    branch :
        (b : Bool) (m : Run ((ℤ × Called (Unit {0})) × World)) (r : (ℤ × Called (Unit {0})) × World)
        → Goal m
        → Goal (if b then ok r else m)
    branch true m r h = λ e. cc
    branch false m r h = h

    cases :
        (c : (ℤ × Called (Unit {0})) × World)
        → Goal (handle_eintr rounds f c.1)
        → Goal (elim c.0.1 [
          | returned _ ↦ ok ((c.0.0, returned tt), c.1)
          | broken err ↦ ok ((c.0.0, broken err), c.1)
          | eintr ↦
              if is_positive c.0.0
              then ok ((c.0.0, returned tt), c.1)
              else handle_eintr rounds f c.1
        ])
    cases ((n, returned u), w') h = λ e. cc
    cases ((n, broken err), w') h = λ e. cc
    cases ((n, eintr), w') h = branch (is_positive n) _ _ h

-- MakeErrno of a call panics only on an error that it does not know.
pub errno_of-panic :
    {A : Type 0} (c : Called A)
    → errno_of c ≡ panic
    → (err : GoError) × (make_errno (some err) ≡ panic)
unfolding errno_of make_errno
errno_of-panic (returned a) e = cc
errno_of-panic (broken err) e = (err, e)
errno_of-panic eintr e = (sys_error Host.eintr, e)

-- A call that is not interrupted returns in the first round.
pub ignore_eintr2-returned :
    {A World : Type 0} (rounds : ℕ) (f : World → Called A × World) (w w' : World) (a : A)
    → f w ≡ (returned a, w')
    → ignore_eintr2 (suc rounds) f w ≡ ok (returned a, w')
unfolding ignore_eintr2
ignore_eintr2-returned {A = A} {World = World} rounds f w w' a e = subst Goal (sym e) refl
  where
    Goal : Called A × World → Type 0
    Goal c =
        ◌≡◌ {A = Run (Called A × World)}
          (elim c.0 [
            | returned a ↦ ok (returned a, c.1)
            | broken err ↦ ok (broken err, c.1)
            | eintr ↦ ignore_eintr2 rounds f c.1
          ])
          (ok (returned a, w'))
