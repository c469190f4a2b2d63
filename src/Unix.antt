-- ===== src/Unix.antt =====
-- systems/unix/system.go: the system over a Unix kernel. Here its state and what it asks of the kernel.
pub mod PollScan
pub mod Poll
pub mod Scanning
pub mod Packing
pub mod Polling
pub mod Expiry
pub mod Calls
pub mod Sockets
pub mod SocketOpening
pub mod Addresses
pub mod SocketKernel
pub mod Connections
pub mod Accept
pub mod Messages
pub mod Options
pub mod SocketKeeps
pub mod SocketCalls
pub mod SocketAnswers
pub mod Accepting
pub mod BufferSizes
pub mod Directory
pub mod Dirents
pub mod Listing
pub mod Parsing
pub mod DirRounds
pub mod Enumerating
pub mod FileKernel
pub mod Files
pub mod FilePaths
pub mod OpenFlags
pub mod FileOpening
pub mod SettingFlags
pub mod OpeningBelow
pub mod Processes
pub mod Lifecycle
pub mod ShuttingDown
pub mod Resolving
pub mod Resolutions
use wasi_go.Base.{
  ℕ, ◌+◌, ◌-◌, ◌*◌, ◌/◌, ◌%◌, ◌^◌, leb, ltb, Bool, if◌then◌else◌, Option, none, some, ◌⊎◌, inl, inr,
  List, ℤ, pos, negsuc, Run, ok, ◌>>=◌,
}
use wasi_go.Errno.Syscall.{GoError}
use wasi_go.FileTable.{FileTable}

pub record PollFd : Type 0 where
  pub fd : ℤ
  pub events : ℕ
  pub revents : ℕ

-- What poll(2) does: it fails with an error, is interrupted by a signal, or sets `revents` of each
-- entry of its array.
pub data Polled : Type 0 where
  failed : GoError → Polled
  interrupted : Polled
  ready : (ℕ → ℕ) → Polled

-- The operating system, the clocks that the system is configured with, and `now`, the time in
-- nanoseconds that `time.Now` returns. `poll_fd` is the number of a file for poll(2), and `is_shut` the
-- flag that `Shutdown` of another goroutine sets.
pub record Kernel (File World : Type 0) : Type 0 where
  pub poll_fd : File → ℤ
  pub pipe : World → ((ℤ × ℤ) × Option GoError) × World
  pub poll : List PollFd → ℤ → World → Polled × World
  pub now : World → ℕ × World
  pub is_shut : World → Bool
  pub realtime : Option (World → (ℕ × Option GoError) × World)
  pub monotonic : Option (World → (ℕ × Option GoError) × World)

-- The pipe that wakes a poll is made once.
pub record UnixSystem (File Dir World : Type 0) : Type 0 where
  pub files : FileTable File Dir
  pub wake : Option (ℤ × ℤ)
  pub world : World

-- `context.Canceled`
abbrev pub canceled : GoError
canceled = record {
  is_canceled = Bool.true;
  is_deadline_exceeded = Bool.false;
  is_closed = Bool.false;
  is_again = Bool.false;
  sys_errno = none;
  wasi_errno = none;
  timeout = none;
}

-- Signed 64-bit durations as words.
abbrev pub is_negative : ℕ → Bool
is_negative t = leb (2 ^ 63) t

abbrev pub add_duration : ℕ → ℕ → ℕ
add_duration a b = (a + b) % 2 ^ 64

abbrev pub sub_duration : ℕ → ℕ → ℕ
sub_duration a b = (a + (2 ^ 64 - b)) % 2 ^ 64

-- -1
abbrev pub no_timeout : ℕ
no_timeout = 2 ^ 64 - 1

module _ {File Dir World : Type 0} (k : Kernel File World) where
  -- The read end of the pipe, or an error.
  unfoldable pub init : UnixSystem File Dir World → (ℤ ⊎ GoError) × UnixSystem File Dir World
  init s = elim s.wake [
    | some ends ↦ (inl ends.0, s)
    | none ↦
        if k.is_shut s.world
        then (inr canceled, s)
        else (let r = k.pipe s.world in
            elim r.0.1 [
              | some err ↦ (inr err, record s { world = r.1 })
              | none ↦ (inl r.0.0.0, record s { wake = some r.0.0; world = r.1 })
            ])
  ]
