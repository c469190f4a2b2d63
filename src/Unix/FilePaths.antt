-- ===== src/Unix/FilePaths.antt =====
-- systems/unix/file.go: the methods of `FD` with a path.
use wasi_go.Base.{
  ℕ, bit_and, bit_or, ◌==◌, if◌then◌else◌, not, ◌&&◌, Bool, ℤ, pos, negsuc, ok, unfinished, ◌>>=◌,
}
use wasi_go.Errno.{esuccess, erange}
use wasi_go.File.{
  Bytes, FileStat, no_file_stat, symlink_follow, open_create, open_directory, open_exclusive,
  open_truncate, append, dsync, sync, rsync, non_block,
}
use wasi_go.Rights.{has, directory_rights, fd_read_right, fd_write_right}
use wasi_go.Unix.Calls.{returned, broken, eintr, ignore_eintr2, errno_of}
use wasi_go.Unix.FileKernel.{FileKernel, make_file_stat, FileMethod, call_once}
use wasi_go.Unix.Files.{timespecs}

-- AT_SYMLINK_NOFOLLOW, AT_SYMLINK_FOLLOW and AT_REMOVEDIR.
abbrev pub at_symlink_nofollow : ℕ
at_symlink_nofollow = 256

abbrev pub at_symlink_follow : ℕ
at_symlink_follow = 1024

abbrev pub at_removedir : ℕ
at_removedir = 512

unfoldable pub stat_flags : ℕ → ℕ
unfolding has
stat_flags flags = if not (has flags symlink_follow) then at_symlink_nofollow else 0

unfoldable pub link_flags : ℕ → ℕ
unfolding has
link_flags flags = if has flags symlink_follow then at_symlink_follow else 0

-- `if c { x |= f }`
unfoldable pub or_if : Bool → ℕ → ℕ → ℕ
or_if c f x = if c then bit_or x f else x

-- O_RDONLY, O_RDWR or O_WRONLY, for a directory and for the rights to read and to write.
unfoldable pub access_mode : Bool → Bool → Bool → ℕ
access_mode directory reads writes =
    if directory
    then 0
    else if reads && writes
    then 2
    else if reads
    then 0
    else if writes
    then 1
    else 0

-- The flags of open(2), from O_CLOEXEC on: O_DIRECTORY, O_CREAT, O_EXCL, O_TRUNC, O_APPEND, O_DSYNC,
-- O_SYNC twice, O_NONBLOCK, O_NOFOLLOW.
unfoldable pub open_word : ℕ → ℕ → ℕ → ℕ → ℕ
unfolding has or_if access_mode
open_word lookup_flags open_flags rights_base fd_flags =
    let directory = has open_flags open_directory in
    let base = if directory then bit_and rights_base directory_rights else rights_base in
    let oflags = or_if directory 65536 524288 in
    let oflags = or_if (has open_flags open_create) 64 oflags in
    let oflags = or_if (has open_flags open_exclusive) 128 oflags in
    let oflags = or_if (has open_flags open_truncate) 512 oflags in
    let oflags = or_if (has fd_flags append) 1024 oflags in
    let oflags = or_if (has fd_flags dsync) 4096 oflags in
    let oflags = or_if (has fd_flags sync) 1052672 oflags in
    let oflags = or_if (has fd_flags rsync) 1052672 oflags in
    let oflags = or_if (has fd_flags non_block) 2048 oflags in
    let oflags = or_if (not (has lookup_flags symlink_follow)) 131072 oflags in
    bit_or oflags (access_mode directory (has base fd_read_right) (has base fd_write_right))

-- The mode of a file that is made.
unfoldable pub open_mode : ℕ → ℕ
open_mode oflags = if bit_and oflags 65536 == 0 then 420 else 0

module _ {File World : Type 0} (k : FileKernel File World) (rounds : ℕ) where
  unfoldable pub create_directory : File → Bytes → FileMethod World ℕ
  unfolding call_once
  create_directory f path = call_once rounds (k.mkdirat f path 493)

  -- A call that fails leaves the structure zero.
  unfoldable pub path_stat_get : File → ℕ → Bytes → FileMethod World (FileStat × ℕ)
  unfolding stat_flags make_file_stat errno_of
  path_stat_get f flags path w =
      ignore_eintr2 rounds (k.fstatat f path (stat_flags flags)) w >>= λ r.
      errno_of r.0 >>= λ errno. elim r.0 [
        | returned stat ↦ ok ((make_file_stat stat, errno), r.1)
        | broken err ↦ ok ((no_file_stat, errno), r.1)
        | eintr ↦ unfinished
      ]

  unfoldable pub path_stat_set_times : File → ℕ → Bytes → ℕ → ℕ → ℕ → FileMethod World ℕ
  unfolding stat_flags timespecs call_once
  path_stat_set_times f lookup_flags path access modify flags =
      call_once rounds
        (k.utimensat f path (timespecs k access modify flags) (stat_flags lookup_flags))

  unfoldable pub link : File → ℕ → Bytes → File → Bytes → FileMethod World ℕ
  unfolding link_flags call_once
  link f flags old_path new_dir new_path =
      call_once rounds (k.linkat f old_path new_dir new_path (link_flags flags))

  -- `PathOpen` from openat(2) on.
  unfoldable pub open_with : File → Bytes → ℕ → ℕ → FileMethod World (File × ℕ)
  unfolding errno_of
  open_with f path oflags mode w = ignore_eintr2 rounds (k.openat f path oflags mode) w >>= λ r.
      errno_of r.0 >>= λ errno. elim r.0 [
        | returned file ↦ ok ((file, errno), r.1)
        | broken err ↦ ok ((k.no_fd, errno), r.1)
        | eintr ↦ unfinished
      ]

  unfoldable pub open_path : File → ℕ → Bytes → ℕ → ℕ → ℕ → ℕ → FileMethod World (File × ℕ)
  unfolding open_word open_mode open_with
  open_path f lookup_flags path open_flags rights_base rights_inheriting fd_flags =
      let oflags = open_word lookup_flags open_flags rights_base fd_flags in
      open_with f path oflags (open_mode oflags)

  -- A link that fills the buffer may have been cut off.
  unfoldable pub read_link : File → Bytes → ℕ → FileMethod World (ℤ × ℕ)
  unfolding errno_of
  read_link f path size w = ignore_eintr2 rounds (k.readlinkat f path size) w >>= λ r. elim r.0 [
    | returned n ↦ ok ((pos n, if n == size then erange else esuccess), r.1)
    | broken err ↦ errno_of r.0 >>= λ errno. ok ((negsuc 0, errno), r.1)
    | eintr ↦ unfinished
  ]

  unfoldable pub remove_directory : File → Bytes → FileMethod World ℕ
  unfolding call_once
  remove_directory f path = call_once rounds (k.unlinkat f path at_removedir)

  unfoldable pub rename : File → Bytes → File → Bytes → FileMethod World ℕ
  unfolding call_once
  rename f old_path new_dir new_path = call_once rounds (k.renameat f old_path new_dir new_path)

  unfoldable pub symlink : File → Bytes → Bytes → FileMethod World ℕ
  unfolding call_once
  symlink f old_path new_path = call_once rounds (k.symlinkat old_path f new_path)

  unfoldable pub unlink_file : File → Bytes → FileMethod World ℕ
  unfolding call_once
  unlink_file f path = call_once rounds (k.unlinkat f path 0)
