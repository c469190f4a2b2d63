-- ===== src/Unix/Calls.antt =====
-- systems/unix/syscall_unix.go: the calls that are made again when a signal interrupts them.
pub mod Laws
use wasi_go.Base.{
  ℕ, zero, suc, ◌-◌, ◌%◌, ◌^◌, Bool, false, true, ltb, ◌==◌, if◌then◌else◌, Option, none, some, ℤ,
  pos, negsuc, Run, ok, unfinished, ◌>>=◌,
}
use wasi_go.Errno.{esuccess}
use wasi_go.Errno.Host
use wasi_go.Errno.Syscall.{GoError, make_errno}

-- What a system call returns: a value, or an error, of which EINTR is told apart.
pub data Called (A : Type 0) : Type 0 where
  returned : A → Called A
  broken : GoError → Called A
  eintr : Called A

abbrev pub sys_error : ℕ → GoError
sys_error n = record {
  is_canceled = false;
  is_deadline_exceeded = false;
  is_closed = false;
  is_again = n == Host.eagain;
  sys_errno = some n;
  wasi_errno = none;
  timeout = none;
}

abbrev pub is_errno : Option ℕ → ℕ → Bool
is_errno none n = false
is_errno (some e) n = e == n

-- The error of a call that is not made again.
abbrev pub error_of : {A : Type 0} → Called A → Option GoError
error_of (returned a) = none
error_of (broken err) = some err
error_of eintr = some (sys_error Host.eintr)

-- `ignoreEINTR2`, which calls until it is not interrupted; with the rounds left.
unfoldable pub ignore_eintr2 {ℓ} :
    {A : Type 0} {World : Type ℓ} → ℕ → (World → Called A × World) → World → Run (Called A × World)
ignore_eintr2 zero f w = unfinished
ignore_eintr2 (suc rounds) f w =
    let again = ignore_eintr2 rounds f (f w).1 in
    elim (f w).0 [
      | returned a ↦ ok (returned a, (f w).1)
      | broken err ↦ ok (broken err, (f w).1)
      | eintr ↦ again
    ]

-- `ignoreEINTR`, for a call that returns an error only.
abbrev pub ignore_eintr {ℓ} :
    {World : Type ℓ}
    → ℕ
    → (World → Called (Unit {0}) × World)
    → World
    → Run (Called (Unit {0}) × World)
ignore_eintr = ignore_eintr2

abbrev pub is_positive : ℤ → Bool
is_positive (pos n) = ltb 0 n
is_positive (negsuc n) = false

-- `handleEINTR`, for a call that returns a number and an error.
unfoldable pub handle_eintr {ℓ} :
    {World : Type ℓ}
    → ℕ
    → (World → (ℤ × Called (Unit {0})) × World)
    → World
    → Run ((ℤ × Called (Unit {0})) × World)
handle_eintr zero f w = unfinished
handle_eintr (suc rounds) f w =
    let again = handle_eintr rounds f (f w).1 in
    let n = (f w).0.0 in
    elim (f w).0.1 [
      | returned _ ↦ ok ((n, returned tt), (f w).1)
      | broken err ↦ ok ((n, broken err), (f w).1)
      | eintr ↦ if is_positive n then ok ((n, returned tt), (f w).1) else again
    ]

-- `closeTraceEBADF` without its trace, of the file with a number.
unfoldable pub close_trace_ebadf :
    {World : Type 0} → (World → Called (Unit {0}) × World) → ℤ → World → Called (Unit {0}) × World
close_trace_ebadf close (pos fd) w = close w
close_trace_ebadf close (negsuc fd) w = (broken (sys_error Host.ebadf), w)

-- `wasi.Size(n)`
abbrev pub to_u32 : ℤ → ℕ
to_u32 (pos n) = n % 2 ^ 32
to_u32 (negsuc n) = 2 ^ 32 - 1 - n % 2 ^ 32

-- `makeErrno` of the error of a call.
unfoldable pub errno_of : {A : Type 0} → Called A → Run ℕ
errno_of c = make_errno (error_of c)
