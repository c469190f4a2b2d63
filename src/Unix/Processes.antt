-- ===== src/Unix/Processes.antt =====
-- systems/unix/system.go: arguments, clocks, processes and random bytes.
use wasi_go.Base.{ℕ, ◌==◌, ◌||◌, if◌then◌else◌, Bool, Option, none, some, List, Run, ok, ◌>>=◌}
use wasi_go.Errno.{esuccess, einval, enotsup, enosys, eio}
use wasi_go.Errno.Syscall.{GoError, make_errno}
use wasi_go.File.{Bytes}
use wasi_go.FileTable.Paths.{sizes_get}
use wasi_go.Subscription.{realtime_id, monotonic_id, process_cpu_time_id, thread_cpu_time_id}
use wasi_go.Unix.{Kernel}

-- The fields of `System` that a program is configured with, but for the clocks; precisions are in
-- nanoseconds. `rand` fills a buffer of a length, which is part of the state, and says whether it
-- could.
pub record Config (World : Type 0) : Type 0 where
  pub args : List Bytes
  pub environ : List Bytes
  pub realtime_precision : ℕ
  pub monotonic_precision : ℕ
  pub yield : Option (World → Option GoError × World)
  pub exit : Option (ℕ → World → Option GoError × World)
  pub raise : Option (ℕ → World → Option GoError × World)
  pub rand : ℕ → World → Bool × World

module _ {World : Type 0} (c : Config World) where
  unfoldable pub args_sizes_get : ℕ × ℕ × ℕ
  unfolding sizes_get
  args_sizes_get = let r = sizes_get c.args in (r.0, r.1, esuccess)

  unfoldable pub args_get : List Bytes × ℕ
  args_get = (c.args, esuccess)

  unfoldable pub environ_sizes_get : ℕ × ℕ × ℕ
  unfolding sizes_get
  environ_sizes_get = let r = sizes_get c.environ in (r.0, r.1, esuccess)

  unfoldable pub environ_get : List Bytes × ℕ
  environ_get = (c.environ, esuccess)

  unfoldable pub clock_res_get : ℕ → ℕ × ℕ
  clock_res_get id =
      if id == realtime_id
      then (c.realtime_precision, esuccess)
      else if id == monotonic_id
      then (c.monotonic_precision, esuccess)
      else if id == process_cpu_time_id || id == thread_cpu_time_id
      then (0, enotsup)
      else (0, einval)

  -- A function of the configuration, if there is one, and its error.
  abbrev pub configured : Option (World → Option GoError × World) → World → Run (ℕ × World)
  configured none w = ok (enosys, w)
  configured (some f) w = let r = f w in make_errno r.0 >>= λ errno. ok (errno, r.1)

  abbrev pub applied : Option (ℕ → World → Option GoError × World) → ℕ → World → Run (ℕ × World)
  applied none n w = ok (enosys, w)
  applied (some f) n w = let r = f n w in make_errno r.0 >>= λ errno. ok (errno, r.1)

  unfoldable pub proc_exit : ℕ → World → Run (ℕ × World)
  proc_exit code w = applied c.exit code w

  unfoldable pub proc_raise : ℕ → World → Run (ℕ × World)
  proc_raise signal w = applied c.raise signal w

  unfoldable pub sched_yield : World → Run (ℕ × World)
  sched_yield w = configured c.yield w

  unfoldable pub random_get : ℕ → World → ℕ × World
  random_get size w = let r = c.rand size w in (if r.0 then esuccess else eio, r.1)

module _ {File World : Type 0} (k : Kernel File World) where
  -- A clock, if it is configured.
  abbrev pub clock_of :
      Option (World → (ℕ × Option GoError) × World) → World → Run ((ℕ × ℕ) × World)
  clock_of none w = ok ((0, enotsup), w)
  clock_of (some f) w = let r = f w in make_errno r.0.1 >>= λ errno. ok ((r.0.0, errno), r.1)

  unfoldable pub clock_time_get : ℕ → World → Run ((ℕ × ℕ) × World)
  clock_time_get id w =
      let realtime = clock_of k.realtime w in
      let monotonic = clock_of k.monotonic w in
      if id == realtime_id
      then realtime
      else if id == monotonic_id
      then monotonic
      else if id == process_cpu_time_id || id == thread_cpu_time_id
      then ok ((0, enotsup), w)
      else ok ((0, einval), w)
