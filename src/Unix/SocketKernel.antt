-- ===== src/Unix/SocketKernel.antt =====
-- systems/unix/system.go: what the methods on sockets ask of the kernel, and the steps that they share.
use wasi_go.Base.{ℕ, Option, some, List, ℤ, Run, ok, unfinished, ◌>>=◌}
use wasi_go.Errno.Syscall.{make_errno}
use wasi_go.FileTable.{FileEntry, found, refused, lookup_socket_fd}
use wasi_go.Unix.{UnixSystem}
use wasi_go.Unix.Addresses.{Sockaddr}
use wasi_go.Unix.Calls.{
  Called, returned, broken, eintr, ignore_eintr2, ignore_eintr, handle_eintr, errno_of, to_u32,
}

-- The system calls on sockets. A message is received with its size, flags and sender; the buffers
-- belong to the state, and their lengths are given. Times are in nanoseconds, and `number` is the
-- number of a file.
pub record SocketKernel (File World : Type 0) : Type 0 where
  pub number : File → ℤ
  pub accept4 : File → ℕ → World → Called (File × Sockaddr) × World
  pub close : File → World → Called (Unit {0}) × World
  pub recvmsg : File → List ℕ → ℕ → World → ((ℤ × ℕ × Option Sockaddr) × Called (Unit {0})) × World
  pub sendmsg : File → List ℕ → Option Sockaddr → ℕ → World → (ℤ × Called (Unit {0})) × World
  pub shutdown : File → ℕ → World → Called (Unit {0}) × World
  pub getsockopt_int : File → ℕ → ℕ → World → Called ℤ × World
  pub getsockopt_time : File → ℕ → ℕ → World → Called ℕ × World
  pub setsockopt_int : File → ℕ → ℕ → ℤ → World → Called (Unit {0}) × World
  pub setsockopt_time : File → ℕ → ℕ → ℕ → World → Called (Unit {0}) × World
  pub bind : File → Sockaddr → World → Called (Unit {0}) × World
  pub connect : File → Sockaddr → World → Called (Unit {0}) × World
  pub listen : File → ℤ → World → Called (Unit {0}) × World
  pub getsockname : File → World → Called Sockaddr × World
  pub getpeername : File → World → Called Sockaddr × World

-- A method of the system with result `R`.
abbrev pub Method : Type 0 → Type 0 → Type 0 → Type 0 → Type 0
Method File Dir World R = UnixSystem File Dir World → Run (R × UnixSystem File Dir World)

module _ {File Dir World R : Type 0} where
  -- The beginning of the methods: look a socket up, and return at once on an error.
  unfoldable pub with_socket :
      ℤ → ℕ → (ℕ → R) → (FileEntry File → Method File Dir World R) → Method File Dir World R
  with_socket fd rights failed body s = lookup_socket_fd s.files fd rights >>= λ f. elim f [
    | refused errno ↦ ok (failed errno, s)
    | found f ↦ body f s
  ]

  -- What follows the call of `attempt`.
  unfoldable pub attempted :
      {A : Type 0} → (ℕ → R) → (A → Method File Dir World R) → Called A → Method File Dir World R
  attempted failed next (returned a) s = next a s
  attempted failed next (broken err) s = make_errno (some err) >>= λ errno. ok (failed errno, s)
  attempted failed next eintr s = unfinished

  -- A call behind `ignoreEINTR2`, and a return on an error.
  unfoldable pub attempt :
      {A : Type 0}
      → ℕ
      → (World → Called A × World)
      → (ℕ → R)
      → (A → Method File Dir World R)
      → Method File Dir World R
  unfolding attempted
  attempt rounds call failed next s = ignore_eintr2 rounds call s.world >>= λ r.
      attempted failed next r.0 (record s { world = r.1 })

  -- A call behind `ignoreEINTR` whose error is returned.
  unfoldable pub conclude :
      ℕ → (World → Called (Unit {0}) × World) → (ℕ → R) → Method File Dir World R
  unfolding errno_of
  conclude rounds call reply s = ignore_eintr rounds call s.world >>= λ r.
      errno_of r.0 >>= λ errno. ok (reply errno, record s { world = r.1 })

module _ {File Dir World : Type 0} where
  -- A call behind `handleEINTR` whose size and error are returned.
  unfoldable pub transfer :
      ℕ → (World → (ℤ × Called (Unit {0})) × World) → Method File Dir World (ℕ × ℕ)
  unfolding errno_of
  transfer rounds call s = handle_eintr rounds call s.world >>= λ r.
      errno_of r.0.1 >>= λ errno. ok ((to_u32 r.0.0, errno), record s { world = r.1 })
