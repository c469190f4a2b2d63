-- ===== src/Unix/FileKernel.antt =====
-- systems/unix/file.go: what the methods of `FD` ask of the kernel, and the steps that they share;
-- `makeFileStat` of systems/unix/syscall_unix.go.
use wasi_go.Base.{ℕ, bit_and, ◌==◌, if◌then◌else◌, List, ℤ, Run, ok, ◌>>=◌}
use wasi_go.File.{
  Bytes, FileStat, block_device_type, character_device_type, directory_type, regular_file_type,
  symbolic_link_type, socket_stream_type, unknown_type,
}
use wasi_go.Unix.Calls.{Called, ignore_eintr, handle_eintr, errno_of, to_u32}

pub record Timespec : Type 0 where
  pub sec : ℤ
  pub nsec : ℤ

-- The fields of `unix.Stat_t` that are read; times are in nanoseconds.
pub record SysStat : Type 0 where
  pub mode : ℕ
  pub dev : ℕ
  pub ino : ℕ
  pub nlink : ℕ
  pub size : ℕ
  pub atim : ℕ
  pub mtim : ℕ
  pub ctim : ℕ

-- The system calls on files. Offsets and sizes are 64-bit words; the buffers belong to the state, and
-- their lengths are given. A call that opens a file fails with the number -1, `no_fd`. `number` is
-- the number of a file, and `nsec_to_timespec` the function of the library.
pub record FileKernel (File World : Type 0) : Type 0 where
  pub no_fd : File
  pub number : File → ℤ
  pub nsec_to_timespec : ℕ → Timespec
  pub fadvise : File → ℕ → ℕ → ℕ → World → Called (Unit {0}) × World
  pub fallocate : File → ℕ → ℕ → World → Called (Unit {0}) × World
  pub close : File → World → Called (Unit {0}) × World
  pub fdatasync : File → World → Called (Unit {0}) × World
  pub fsync : File → World → Called (Unit {0}) × World
  pub getfl : File → World → Called ℕ × World
  pub setfl : File → ℕ → World → Called ℕ × World
  pub fstat : File → World → Called SysStat × World
  pub ftruncate : File → ℕ → World → Called (Unit {0}) × World
  pub futimens : File → Timespec × Timespec → World → Called (Unit {0}) × World
  pub preadv : File → List ℕ → ℕ → World → (ℤ × Called (Unit {0})) × World
  pub pwritev : File → List ℕ → ℕ → World → (ℤ × Called (Unit {0})) × World
  pub readv : File → List ℕ → World → (ℤ × Called (Unit {0})) × World
  pub writev : File → List ℕ → World → (ℤ × Called (Unit {0})) × World
  pub lseek : File → ℤ → ℕ → World → Called ℕ × World
  pub mkdirat : File → Bytes → ℕ → World → Called (Unit {0}) × World
  pub fstatat : File → Bytes → ℕ → World → Called SysStat × World
  pub utimensat : File → Bytes → Timespec × Timespec → ℕ → World → Called (Unit {0}) × World
  pub linkat : File → Bytes → File → Bytes → ℕ → World → Called (Unit {0}) × World
  pub openat : File → Bytes → ℕ → ℕ → World → Called File × World
  pub readlinkat : File → Bytes → ℕ → World → Called ℕ × World
  pub unlinkat : File → Bytes → ℕ → World → Called (Unit {0}) × World
  pub renameat : File → Bytes → File → Bytes → World → Called (Unit {0}) × World
  pub symlinkat : Bytes → File → Bytes → World → Called (Unit {0}) × World

-- `makeFileType`, with S_IFMT, S_IFCHR, S_IFDIR, S_IFBLK, S_IFREG, S_IFLNK and S_IFSOCK.
unfoldable pub make_file_type : ℕ → ℕ
make_file_type mode =
    let kind = bit_and mode 61440 in
    if kind == 8192
    then character_device_type
    else if kind == 16384
    then directory_type
    else if kind == 24576
    then block_device_type
    else if kind == 32768
    then regular_file_type
    else if kind == 40960
    then symbolic_link_type
    else if kind == 49152
    then socket_stream_type
    else unknown_type

unfoldable pub make_file_stat : SysStat → FileStat
unfolding make_file_type
make_file_stat s = record {
  file_type = make_file_type s.mode;
  device = s.dev;
  inode = s.ino;
  nlink = s.nlink;
  size = s.size;
  access_time = s.atim;
  modify_time = s.mtim;
  change_time = s.ctim;
}

-- A method of a file with result `R`.
abbrev pub FileMethod : Type 0 → Type 0 → Type 0
FileMethod World R = World → Run (R × World)

module _ {World : Type 0} where
  -- A call behind `ignoreEINTR` whose error is returned.
  unfoldable pub call_once : ℕ → (World → Called (Unit {0}) × World) → FileMethod World ℕ
  unfolding errno_of
  call_once rounds call w =
      ignore_eintr rounds call w >>= λ r. errno_of r.0 >>= λ errno. ok (errno, r.1)

  -- A call behind `handleEINTR` whose size and error are returned.
  unfoldable pub call_sized :
      ℕ → (World → (ℤ × Called (Unit {0})) × World) → FileMethod World (ℕ × ℕ)
  unfolding errno_of
  call_sized rounds call w = handle_eintr rounds call w >>= λ r.
      errno_of r.0.1 >>= λ errno. ok ((to_u32 r.0.0, errno), r.1)
