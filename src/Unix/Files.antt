-- ===== src/Unix/Files.antt =====
-- systems/unix/file.go: the methods of `FD` on the file itself.
use wasi_go.Base.{
  ℕ, ◌-◌, ◌^◌, bit_or, ◌==◌, if◌then◌else◌, Option, none, some, List, ℤ, pos, ok, unfinished, ◌>>=◌,
  false,
}
use wasi_go.Bits.{and_not}
use wasi_go.Errno.{esuccess, einval}
use wasi_go.Errno.Syscall.{GoError}
use wasi_go.File.{
  FileStat, no_file_stat, append, non_block, seek_start, seek_current, seek_end, access_time_flag,
  access_time_now, modify_time_flag, modify_time_now,
}
use wasi_go.Rights.{has}
use wasi_go.Unix.Calls.{Called, returned, broken, eintr, ignore_eintr2, errno_of, close_trace_ebadf}
use wasi_go.Unix.Directory.{Dirbuf}
use wasi_go.Unix.FileKernel.{
  Timespec, FileKernel, make_file_stat, FileMethod, call_once, call_sized,
}

-- An error of WASI as an error of Go.
abbrev pub wasi_error : ℕ → GoError
wasi_error e = record {
  is_canceled = false;
  is_deadline_exceeded = false;
  is_closed = false;
  is_again = false;
  sys_errno = none;
  wasi_errno = some e;
  timeout = none;
}

-- The advice of the host for `Normal`, `Sequential`, `Random`, `WillNeed`, `DontNeed`, `NoReuse`.
unfoldable pub sys_advice : ℕ → Option ℕ
sys_advice advice =
    if advice == 0
    then some 0
    else if advice == 1
    then some 2
    else if advice == 2
    then some 1
    else if advice == 3
    then some 3
    else if advice == 4
    then some 4
    else if advice == 5
    then some 5
    else none

abbrev pub o_append : ℕ
o_append = 1024

abbrev pub o_nonblock : ℕ
o_nonblock = 2048

-- The flags of an open file with `flags` in the place of the two that can be set.
unfoldable pub set_flags : ℕ → ℕ → ℕ
unfolding has
set_flags flags fl =
    let appends = if has flags append then bit_or fl o_append else and_not 64 fl o_append in
    if has flags non_block then bit_or appends o_nonblock else and_not 64 appends o_nonblock

-- UTIME_NOW and UTIME_OMIT.
abbrev pub utime_now : Timespec
utime_now = record { sec = pos 0; nsec = pos 1073741823 }

abbrev pub utime_omit : Timespec
utime_omit = record { sec = pos 0; nsec = pos 1073741822 }

-- SEEK_SET, SEEK_CUR or SEEK_END.
unfoldable pub sys_whence : ℕ → Option ℕ
sys_whence whence =
    if whence == seek_start
    then some 0
    else if whence == seek_current
    then some 1
    else if whence == seek_end
    then some 2
    else none

module _ {File World : Type 0} (k : FileKernel File World) where
  -- `fdadvise` of syscall_linux.go.
  unfoldable pub fdadvise : File → ℕ → ℕ → ℕ → World → Called (Unit {0}) × World
  unfolding sys_advice
  fdadvise f offset len advice w = elim (sys_advice advice) [
    | none ↦ (broken (wasi_error einval), w)
    | some sys ↦ k.fadvise f offset len sys w
  ]

  -- The two times for the flags.
  unfoldable pub timespecs : ℕ → ℕ → ℕ → Timespec × Timespec
  unfolding has
  timespecs access modify flags = (
    if has flags access_time_flag
        then (if has flags access_time_now then utime_now else k.nsec_to_timespec access)
        else utime_omit,
    if has flags modify_time_flag
        then (if has flags modify_time_now then utime_now else k.nsec_to_timespec modify)
        else utime_omit,
  )

  module _ (rounds : ℕ) where
    unfoldable pub advise : File → ℕ → ℕ → ℕ → FileMethod World ℕ
    unfolding fdadvise call_once
    advise f offset len advice = call_once rounds (fdadvise f offset len advice)

    unfoldable pub allocate : File → ℕ → ℕ → FileMethod World ℕ
    unfolding call_once
    allocate f offset len = call_once rounds (k.fallocate f offset len)

    unfoldable pub close_file : File → FileMethod World ℕ
    unfolding close_trace_ebadf errno_of
    close_file f w =
        let r = close_trace_ebadf (k.close f) (k.number f) w in
        errno_of r.0 >>= λ errno. ok (errno, r.1)

    unfoldable pub data_sync : File → FileMethod World ℕ
    unfolding call_once
    data_sync f = call_once rounds (k.fdatasync f)

    unfoldable pub sync_file : File → FileMethod World ℕ
    unfolding call_once
    sync_file f = call_once rounds (k.fsync f)

    -- `FDStatSetFlags` behind the call with F_GETFL.
    unfoldable pub set_flags_to : File → ℕ → Called ℕ → FileMethod World ℕ
    unfolding set_flags errno_of
    set_flags_to f flags (returned fl) w =
        ignore_eintr2 rounds (k.setfl f (set_flags flags fl)) w >>= λ r.
        errno_of r.0 >>= λ errno. ok (errno, r.1)
    set_flags_to f flags (broken err) w = errno_of {A = ℕ} (broken err) >>= λ errno. ok (errno, w)
    set_flags_to f flags eintr w = unfinished

    unfoldable pub stat_set_flags : File → ℕ → FileMethod World ℕ
    unfolding set_flags_to
    stat_set_flags f flags w =
        ignore_eintr2 rounds (k.getfl f) w >>= λ r. set_flags_to f flags r.0 r.1

    unfoldable pub file_stat_get : File → FileMethod World (FileStat × ℕ)
    unfolding make_file_stat errno_of
    file_stat_get f w = ignore_eintr2 rounds (k.fstat f) w >>= λ r. elim r.0 [
      | returned stat ↦ ok ((make_file_stat stat, esuccess), r.1)
      | broken err ↦ errno_of r.0 >>= λ errno. ok ((no_file_stat, errno), r.1)
      | eintr ↦ unfinished
    ]

    unfoldable pub file_stat_set_size : File → ℕ → FileMethod World ℕ
    unfolding call_once
    file_stat_set_size f size = call_once rounds (k.ftruncate f size)

    unfoldable pub file_stat_set_times : File → ℕ → ℕ → ℕ → FileMethod World ℕ
    unfolding call_once timespecs
    file_stat_set_times f access modify flags =
        call_once rounds (k.futimens f (timespecs access modify flags))

    unfoldable pub pread : File → List ℕ → ℕ → FileMethod World (ℕ × ℕ)
    unfolding call_sized
    pread f iovecs offset = call_sized rounds (k.preadv f iovecs offset)

    unfoldable pub pwrite : File → List ℕ → ℕ → FileMethod World (ℕ × ℕ)
    unfolding call_sized
    pwrite f iovecs offset = call_sized rounds (k.pwritev f iovecs offset)

    unfoldable pub read : File → List ℕ → FileMethod World (ℕ × ℕ)
    unfolding call_sized
    read f iovecs = call_sized rounds (k.readv f iovecs)

    unfoldable pub write : File → List ℕ → FileMethod World (ℕ × ℕ)
    unfolding call_sized
    write f iovecs = call_sized rounds (k.writev f iovecs)

    -- A directory is read from its start.
    unfoldable pub open_dir : File → FileMethod World (Option (Dirbuf File) × ℕ)
    unfolding errno_of
    open_dir f w = ignore_eintr2 rounds (k.lseek f (pos 0) 0) w >>= λ r. elim r.0 [
      | returned _ ↦
          let d : Dirbuf File = record { buffer = none; offset = 0; len = 0; fd = f; cookie = 0 } in
          ok ((some d, esuccess), r.1)
      | broken err ↦ errno_of r.0 >>= λ errno. ok ((none, errno), r.1)
      | eintr ↦ unfinished
    ]

    -- The offset of a seek that fails is -1 as a word.
    unfoldable pub seek : File → ℤ → ℕ → FileMethod World (ℕ × ℕ)
    unfolding sys_whence errno_of
    seek f delta whence w = elim (sys_whence whence) [
      | none ↦ ok ((0, einval), w)
      | some sys ↦ ignore_eintr2 rounds (k.lseek f delta sys) w >>= λ r. errno_of r.0 >>= λ errno.
          elim r.0 [
            | returned off ↦ ok ((off, errno), r.1)
            | broken err ↦ ok ((2 ^ 64 - 1, errno), r.1)
            | eintr ↦ unfinished
          ]
    ]
