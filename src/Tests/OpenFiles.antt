-- ===== src/Tests/OpenFiles.antt =====
-- systems/unix/file.go: runs of the methods of `FD`.
use wasi_go.Base.{ℕ, bit_or, ◌≡◌, refl, ℤ, ◌⊎◌, [], ◌∷◌, pos, ok, ◌==◌, if◌then◌else◌, ◌>>=◌, arith}
use wasi_go.Bits
use wasi_go.Errno.{esuccess, einval, erange}
use wasi_go.Errno.Syscall
use wasi_go.File.{Host, open_truncate, append, non_block}
use wasi_go.Rights.{has, fd_read_right, fd_write_right}
use wasi_go.Unix.Calls.{Called, returned, eintr, ignore_eintr2, errno_of}
use wasi_go.Unix.FileKernel.{SysStat, FileKernel}
use wasi_go.Unix.FilePaths.{open_word, open_path, open_with, read_link}
use wasi_go.Unix.Files.{stat_set_flags, seek, timespecs, utime_now, utime_omit}
use wasi_go.Unix.FileOpening.{OpensAs, open_path-OpensAs}
use wasi_go.Unix.SettingFlags.{stat_set_flags-changes}
use wasi_go.FileTable.{System}
use wasi_go.FileTable.Opening.{OpenFails}
use wasi_go.FileTable.Paths.{path_open}
use wasi_go.Unix.OpeningBelow.{OpensFiles, OpensBelow, path_open-OpensBelow}
use wasi_go.Tests.Demo.{Log, host, system, table-IsValid, few_files}

abbrev done : Log → Called (Unit {0}) × Log
done w = (returned tt, w)

abbrev stat : SysStat
stat = record { mode = 32768; dev = 1; ino = 7; nlink = 1; size = 0; atim = 0; mtim = 0; ctim = 0 }

-- A kernel that writes down the flags that it is given, and is interrupted once.
abbrev file_kernel : FileKernel ℕ Log
file_kernel = record {
  no_fd = 0;
  number = λ f. pos f;
  nsec_to_timespec = λ n. record { sec = pos 0; nsec = pos n };
  fadvise = λ f o n a. done;
  fallocate = λ f o n. done;
  close = λ f. done;
  fdatasync = λ f. done;
  fsync = λ f. done;
  getfl = λ f w. (returned 1026, w);
  setfl = λ f fl w. (returned 0, fl ∷ w);
  fstat = λ f w. (returned stat, w);
  ftruncate = λ f n. done;
  futimens = λ f ts. done;
  preadv = λ f v o w. ((pos 0, returned tt), w);
  pwritev = λ f v o w. ((pos 0, returned tt), w);
  readv = λ f v w. ((pos 0, returned tt), w);
  writev = λ f v w. ((pos 0, returned tt), w);
  lseek = λ f d n w. (returned 5, w);
  mkdirat = λ f p m. done;
  fstatat = λ f p n w. (returned stat, w);
  utimensat = λ f p ts n. done;
  linkat = λ f p g q n. done;
  openat =
      λ f p fl m w. elim w [ [] ↦ (eintr, 1 ∷ []) | x ∷ rest ↦ (returned 9, fl ∷ m ∷ x ∷ rest) ];
  readlinkat = λ f p n w. (returned 4, w);
  unlinkat = λ f p n. done;
  renameat = λ f p g q. done;
  symlinkat = λ p f q. done;
}

abbrev wanted_rights : ℕ
wanted_rights = bit_or fd_read_right fd_write_right

open_path-OpensAs_example :
    (oflags : ℕ) × OpensAs 0 open_truncate wanted_rights append oflags
    × (open_path file_kernel 2 3 0 [] open_truncate wanted_rights 0 append
        ≡ open_with file_kernel 2 3 [] oflags 420)
unfolding has
open_path-OpensAs_example =
    open_path-OpensAs file_kernel 2 3 [] 0 open_truncate wanted_rights 0 append

-- O_CLOEXEC, O_NOFOLLOW, O_APPEND, O_TRUNC and O_RDWR, after an interrupt.
opened :
    open_path file_kernel 2 3 0 [] open_truncate wanted_rights 0 append []
    ≡ ok ((9, esuccess), 656898 ∷ 420 ∷ 1 ∷ [])
unfolding open_path ignore_eintr2 has Syscall.make_errno
opened = refl

stat_set_flags-changes_example :
    (new : ℕ) × ((i : ℕ)
      → Bits.bit new i ≡ (
          if 11 == i
          then has non_block non_block
          else if 10 == i
          then has non_block append
          else Bits.bit 1026 i))
    × (stat_set_flags file_kernel 2 3 non_block [] ≡ (
        ignore_eintr2 2 (file_kernel.setfl 3 new) [] >>= λ r.
        errno_of r.0 >>= λ errno. ok (errno, r.1)))
stat_set_flags-changes_example =
    stat_set_flags-changes file_kernel 1 3 non_block 1026 [] [] refl (omega arith)

-- O_RDWR stays, O_APPEND goes, O_NONBLOCK comes.
changed : stat_set_flags file_kernel 2 3 non_block [] ≡ ok (esuccess, 2050 ∷ [])
unfolding stat_set_flags ignore_eintr2 has Syscall.make_errno
changed = refl

-- A link of four bytes fills a buffer of four.
cut_off : read_link file_kernel 1 3 [] 4 [] ≡ ok ((pos 4, erange), [])
unfolding read_link ignore_eintr2
cut_off = refl

no_whence : seek file_kernel 1 3 (pos 0) 3 [] ≡ ok ((0, einval), [])
unfolding seek
no_whence = refl

-- The access time is left, the other one set to now.
times : timespecs file_kernel 8 9 12 ≡ (utime_omit, utime_now)
unfolding timespecs has
times = refl

-- A kernel that opens every file, and a host that opens files by it.
abbrev opening_kernel : FileKernel ℕ Log
opening_kernel = record file_kernel { openat = λ f p fl m w. (returned 9, fl ∷ w) }

abbrev opening_host : Host ℕ ℕ Log
opening_host = record host {
  open_path = λ f lookup_flags path open_flags base inheriting fd_flags w.
      ((9, esuccess), open_word lookup_flags open_flags base fd_flags ∷ w);
}

opening_host-OpensFiles : OpensFiles opening_kernel 1 opening_host
unfolding open_path ignore_eintr2 Syscall.make_errno
opening_host-OpensFiles f lookup_flags path open_flags base inheriting fd_flags w = refl

path_open-OpensBelow_example :
    (r : (ℤ × ℕ) × System ℕ ℕ Log) × (path_open opening_host
        (pos 0)
        0
        (b'a' ∷ [])
        0
        fd_read_right
        0
        0
        system
      ≡ ok r)
    × (OpenFails opening_host (pos 0) 0 (b'a' ∷ []) 0 fd_read_right 0 0 system r
        ⊎ OpensBelow opening_kernel 1 opening_host
            (pos 0)
            0
            (b'a' ∷ [])
            0
            fd_read_right
            0
            0
            system
            r)
path_open-OpensBelow_example =
    path_open-OpensBelow opening_kernel 1 opening_host (pos 0) 0 (b'a' ∷ []) 0 fd_read_right 0 0
      system opening_host-OpensFiles table-IsValid few_files
