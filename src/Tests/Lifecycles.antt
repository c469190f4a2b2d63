-- ===== src/Tests/Lifecycles.antt =====
-- systems/unix/system.go: runs of `Close` and of the methods on processes and clocks.
use wasi_go.Base.{ℕ, ◌==◌, ◌||◌, Bool, true, false, ◌≡◌, refl, none, some, [], ◌∷◌, ok, arith}
use wasi_go.Errno.{esuccess, enosys, eio, enotsup}
use wasi_go.Errno.Syscall
use wasi_go.FileTable.Paths.{sizes_get}
use wasi_go.Subscription.{realtime_id, monotonic_id}
use wasi_go.Unix.Processes.{
  Config, args_sizes_get, proc_exit, sched_yield, random_get, clock_time_get,
}
use wasi_go.Unix.{Kernel, UnixSystem}
use wasi_go.Unix.Lifecycle.{ShutKernel, close_system}
use wasi_go.Unix.ShuttingDown.{StaysShut, Closes, close_system-Closes}
use wasi_go.Tests.Demo.{Log, host, table-IsValid}
use wasi_go.Tests.Polls.{kernel, unix_system}

-- The flag is an entry 999 of the log.
abbrev shut_in : Log → Bool
shut_in [] = false
shut_in (x ∷ w) = shut_in w || x == 999

abbrev shut_logger : Kernel ℕ Log
shut_logger = record kernel { is_shut = shut_in }

abbrev shut_kernel : ShutKernel Log
shut_kernel = record { store_shut = λ w. 999 ∷ w; close_end = λ fd w. (none, 1 ∷ w) }

or_true : (a b : Bool) → a ≡ true → (a || b) ≡ true
or_true true b h = refl
or_true false b h = cc

stored-shut : (w : Log) → (shut_in w || true) ≡ true
stored-shut w = ground arith

logger-StaysShut : StaysShut host shut_logger shut_kernel
logger-StaysShut = record {
  stored = stored-shut;
  ends = λ fd w e. or_true (shut_in w) (1 == 999) e;
  files = λ f w e. or_true (shut_in w) (f == 999) e;
  dirs = λ d w e. or_true (shut_in w) (d == 999) e;
}

close_system-Closes_example :
    (s' : UnixSystem ℕ ℕ Log) × (close_system host shut_logger shut_kernel (λ ds. ds) unix_system
      ≡ ok s')
    × Closes host shut_logger shut_kernel s'
close_system-Closes_example =
    close_system-Closes host shut_logger shut_kernel logger-StaysShut (λ ds. ds) unix_system
      table-IsValid

abbrev config : Config Log
config = record {
  args = (97 ∷ []) ∷ (98 ∷ 99 ∷ []) ∷ [];
  environ = [];
  realtime_precision = 1000;
  monotonic_precision = 1;
  yield = none;
  exit = some (λ code w. (none, code ∷ w));
  raise = none;
  rand = λ n w. (false, w);
}

-- Two arguments, with a byte 0 after each.
sizes : args_sizes_get config ≡ (2, 5, esuccess)
unfolding args_sizes_get sizes_get
sizes = refl

exited : proc_exit config 3 [] ≡ ok (esuccess, 3 ∷ [])
unfolding proc_exit Syscall.make_errno
exited = refl

no_yield : sched_yield config [] ≡ ok (enosys, [])
unfolding sched_yield
no_yield = refl

no_random : random_get config 8 [] ≡ (eio, [])
unfolding random_get
no_random = refl

-- The monotonic clock of the kernel, and the real time that it lacks.
clocks :
    (clock_time_get kernel monotonic_id [] ≡ ok ((5000000000, esuccess), []))
    × (clock_time_get kernel realtime_id [] ≡ ok ((0, enotsup), []))
unfolding clock_time_get Syscall.make_errno
clocks = (refl, refl)
