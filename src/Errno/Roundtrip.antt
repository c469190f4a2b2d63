-- ===== src/Errno/Roundtrip.antt =====
-- error.go, error_unix.go and error_linux.go: what the conversions and the names of the error codes
-- keep apart.
use Prim.Native.String.{compare}
use Prim.Native.Nat.{Ordering}
use wasi_go.Base.{
  ℕ, zero, suc, ◌<◌, ◌==◌, ==_iff, ltb, Bool, true, false, not, ◌&&◌, ◌||◌, ◌≡◌, refl, sym, ◌∙◌, ap,
  ap₂, or_panic, ◌≤◌, inl, inr, Bool-cases, if◌then◌else◌, Option, none, some, List, [], ◌∷◌, Run,
  ok, panic, unfinished, ◌>>=◌, arith,
}
use wasi_go.Errno.{eperm, enotcapable}
use wasi_go.Errno.Host
use wasi_go.Errno.Names
use wasi_go.Errno.Syscall.{
  switch, errno_to_syscall, syscall_errno_to_wasi, GoError, make_errno, to_syscall_cases,
  of_syscall_cases,
}

-- A `syscall.Errno` as an error of Go.
abbrev pub of_syscall : ℕ → GoError
of_syscall n = record {
  is_canceled = false;
  is_deadline_exceeded = false;
  is_closed = false;
  is_again = n == Host.eagain;
  sys_errno = some n;
  wasi_errno = none;
  timeout = none;
}

-- A test of all numbers below a bound.
all_below : ℕ → (ℕ → Bool) → Bool
all_below zero p = true
all_below (suc n) p = p n && all_below n p

all_below_sound : (n k : ℕ) (p : ℕ → Bool) → all_below n p ≡ true → k < n → p k ≡ true
unfolding all_below
all_below_sound zero k p h lt = absurd (omega arith)
all_below_sound (suc n) k p h lt = elim (Bool-cases (k == n)) [
  | inl same ↦ ap p ((==_iff k n).0 same) ∙ first (p n) (all_below n p) h
  | inr other ↦ all_below_sound n k p (second (p n) (all_below n p) h) (ground arith)
]
  where
    first : (a b : Bool) → (a && b) ≡ true → a ≡ true
    first a b h = ground arith

    second : (a b : Bool) → (a && b) ≡ true → b ≡ true
    second a b h = ground arith

abbrev returns : Run ℕ → ℕ → Bool
returns (ok a) n = a == n
returns panic n = false
returns unfinished n = false

returns-eq : (m : Run ℕ) (n : ℕ) → returns m n ≡ true → m ≡ ok n
returns-eq (ok a) n h = ap ok ((==_iff a n).0 h)
returns-eq panic n h = cc
returns-eq unfinished n h = cc

-- To the host and back; the host has no code for ENOTCAPABLE.
abbrev pub survives : ℕ → ℕ
survives errno = if errno == enotcapable then eperm else errno

abbrev pub to_host_and_back : ℕ → Run ℕ
to_host_and_back errno = errno_to_syscall errno >>= λ n. make_errno (some (of_syscall n))

checked : all_below 77 (λ e. returns (to_host_and_back e) (survives e)) ≡ true
unfolding errno_to_syscall make_errno all_below
checked = refl

-- An error code of WASI, converted to an error number of Linux and back by MakeErrno, is itself,
-- except ENOTCAPABLE, which becomes EPERM; neither conversion panics.
pub to_host_and_back_lem : (errno : ℕ) → errno < 77 → to_host_and_back errno ≡ ok (survives errno)
to_host_and_back_lem errno lt =
    returns-eq (to_host_and_back errno) (survives errno)
      (all_below_sound 77 errno (λ e. returns (to_host_and_back e) (survives e)) checked lt)

-- A test of all cases of a switch.
all_cases : (ℕ → ℕ → Bool) → List (ℕ × ℕ) → Bool
all_cases p [] = true
all_cases p ((c, r) ∷ cases) = p c r && all_cases p cases

and_left : (a b : Bool) → (a && b) ≡ true → a ≡ true
and_left a b h = ground arith

and_right : (a b : Bool) → (a && b) ≡ true → b ≡ true
and_right a b h = ground arith

all_cases_sound :
    (p : ℕ → ℕ → Bool) (cases : List (ℕ × ℕ)) (e r : ℕ)
    → all_cases p cases ≡ true
    → switch cases e ≡ some r
    → p e r ≡ true
unfolding all_cases switch
all_cases_sound p [] e r h s = cc
all_cases_sound p ((c, x) ∷ cases) e r h s = elim (Bool-cases (c == e)) [
  | inl same ↦
      let value = some_inj x r (sym (ap (λ b. if b then some x else switch cases e) same) ∙ s) in
      ap₂ p (sym ((==_iff c e).0 same)) (sym value) ∙ and_left (p c x) (all_cases p cases) h
  | inr other ↦
      all_cases_sound p cases e r (and_right (p c x) (all_cases p cases) h)
        (sym (ap (λ b. if b then some x else switch cases e) other) ∙ s)
]
  where
    some_inj : (a b : ℕ) → some a ≡ some b → a ≡ b
    some_inj a b e = cc

no_case :
    (n : ℕ) (cases : List (ℕ × ℕ)) (e : ℕ)
    → all_cases (λ c r. ltb c n) cases ≡ true
    → n ≤ e
    → switch cases e ≡ none
unfolding all_cases switch
no_case n [] e h le = refl
no_case n ((c, x) ∷ cases) e h le =
    rw (other (and_left (ltb c n) (all_cases (λ c r. ltb c n) cases) h))
      (no_case n cases e (and_right (ltb c n) (all_cases (λ c r. ltb c n) cases) h) le)
  where
    other : ltb c n ≡ true → (c == e) ≡ false
    other h = ground arith

keys_below : all_cases (λ c r. ltb c 77) to_syscall_cases ≡ true
unfolding all_cases
keys_below = refl

-- The conversion to an error number of the host panics on every number above the error codes of
-- WASI.
errno_to_syscall-unknown : (errno : ℕ) → 77 ≤ errno → errno_to_syscall errno ≡ panic
unfolding errno_to_syscall
errno_to_syscall-unknown errno le = rw (no_case 77 to_syscall_cases errno keys_below le) refl

hosts_checked : all_cases (λ n e. returns (errno_to_syscall e) n) of_syscall_cases ≡ true
unfolding all_cases errno_to_syscall
hosts_checked = refl

-- An error number of Linux that converts to an error code of WASI is what the code converts back
-- to.
pub syscall_errno_to_wasi-inverse :
    (n errno : ℕ) → syscall_errno_to_wasi n ≡ ok errno → errno_to_syscall errno ≡ ok n
unfolding syscall_errno_to_wasi
syscall_errno_to_wasi-inverse n errno e = returns-eq (errno_to_syscall errno) n (
    all_cases_sound (λ n e. returns (errno_to_syscall e) n) of_syscall_cases n errno hosts_checked
      (found (switch of_syscall_cases n) e))
  where
    found : (o : Option ℕ) → or_panic o ≡ ok errno → o ≡ some errno
    found none e = cc
    found (some x) e = cc

-- Equality of texts as a test.
abbrev is_eq : Ordering → Bool
is_eq Ordering.lt = false
is_eq Ordering.eq = true
is_eq Ordering.gt = false

abbrev distinct_names : ℕ → ℕ → Bool
distinct_names a b = a == b || not (is_eq (compare (Names.name a) (Names.name b)))

names_checked : all_below 77 (λ a. all_below 77 (distinct_names a)) ≡ true
unfolding all_below Names.name
names_checked = refl

same_names : all_below 77 (λ a. is_eq (compare (Names.name a) (Names.name a))) ≡ true
unfolding all_below Names.name
same_names = refl

-- Two error codes of WASI with the same name are the same.
name-distinct : (a b : ℕ) → a < 77 → b < 77 → Names.name a ≡ Names.name b → a ≡ b
name-distinct a b la lb e = (==_iff a b).0 (
    decide (a == b) _
      (all_below_sound 77 b (distinct_names a)
        (all_below_sound 77 a (λ a. all_below 77 (distinct_names a)) names_checked la) lb)
      (ap (λ x. is_eq (compare (Names.name a) x)) (sym e)
        ∙ all_below_sound 77 a (λ a. is_eq (compare (Names.name a) (Names.name a))) same_names la))
  where
    decide : (x y : Bool) → (x || not y) ≡ true → y ≡ true → x ≡ true
    decide x y h h' = ground arith
