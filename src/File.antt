-- ===== src/File.antt =====
-- file.go, exec.go and poll.go: the types of the interface, and wasi.go: the interface of a file.
use wasi_go.Base.{ℕ, ◌^◌, List, ℤ}

-- A Go string, as its bytes.
abbrev pub Bytes : Type 0
Bytes = List ℕ

pub record FileStat : Type 0 where
  pub device : ℕ
  pub inode : ℕ
  pub file_type : ℕ
  pub nlink : ℕ
  pub size : ℕ
  pub access_time : ℕ
  pub modify_time : ℕ
  pub change_time : ℕ

abbrev pub no_file_stat : FileStat
no_file_stat = record {
  device = 0;
  inode = 0;
  file_type = 0;
  nlink = 0;
  size = 0;
  access_time = 0;
  modify_time = 0;
  change_time = 0;
}

-- `Whence`
abbrev pub seek_start : ℕ
seek_start = 0

abbrev pub seek_current : ℕ
seek_current = 1

abbrev pub seek_end : ℕ
seek_end = 2

-- `FileType`
abbrev pub unknown_type : ℕ
unknown_type = 0

abbrev pub block_device_type : ℕ
block_device_type = 1

abbrev pub character_device_type : ℕ
character_device_type = 2

abbrev pub directory_type : ℕ
directory_type = 3

abbrev pub regular_file_type : ℕ
regular_file_type = 4

abbrev pub socket_dgram_type : ℕ
socket_dgram_type = 5

abbrev pub socket_stream_type : ℕ
socket_stream_type = 6

abbrev pub symbolic_link_type : ℕ
symbolic_link_type = 7

-- `FDFlags`
abbrev pub append : ℕ
append = 2 ^ 0

abbrev pub dsync : ℕ
dsync = 2 ^ 1

abbrev pub non_block : ℕ
non_block = 2 ^ 2

abbrev pub rsync : ℕ
rsync = 2 ^ 3

abbrev pub sync : ℕ
sync = 2 ^ 4

-- `OpenFlags`
abbrev pub open_create : ℕ
open_create = 2 ^ 0

abbrev pub open_directory : ℕ
open_directory = 2 ^ 1

abbrev pub open_exclusive : ℕ
open_exclusive = 2 ^ 2

abbrev pub open_truncate : ℕ
open_truncate = 2 ^ 3

pub record FdStat : Type 0 where
  pub file_type : ℕ
  pub flags : ℕ
  pub rights_base : ℕ
  pub rights_inheriting : ℕ

abbrev pub no_fd_stat : FdStat
no_fd_stat = record { file_type = 0; flags = 0; rights_base = 0; rights_inheriting = 0 }

pub record DirEntry : Type 0 where
  pub next : ℕ
  pub inode : ℕ
  pub file_type : ℕ
  pub name : Bytes

-- `PreStat`, whose only type is `PreOpenDir`, 0.
pub record PreStat : Type 0 where
  pub type : ℕ
  pub name_length : ℕ

-- The interfaces `File` and `Dir` of wasi.go over a host with state `World`. A buffer that a call
-- fills is part of the state, and so is all that a `File` or a `Dir` refers to. Entries of a
-- directory are returned with their number.
pub record Host (File Dir World : Type 0) : Type 0 where
  pub no_file : File
  pub advise : File → ℕ → ℕ → ℕ → World → ℕ × World
  pub allocate : File → ℕ → ℕ → World → ℕ × World
  pub close : File → World → ℕ × World
  pub data_sync : File → World → ℕ × World
  pub stat_set_flags : File → ℕ → World → ℕ × World
  pub file_stat_get : File → World → (FileStat × ℕ) × World
  pub file_stat_set_size : File → ℕ → World → ℕ × World
  pub file_stat_set_times : File → ℕ → ℕ → ℕ → World → ℕ × World
  pub pread : File → List ℕ → ℕ → World → (ℕ × ℕ) × World
  pub pwrite : File → List ℕ → ℕ → World → (ℕ × ℕ) × World
  pub read : File → List ℕ → World → (ℕ × ℕ) × World
  pub write : File → List ℕ → World → (ℕ × ℕ) × World
  pub sync_file : File → World → ℕ × World
  pub seek : File → ℤ → ℕ → World → (ℕ × ℕ) × World
  pub open_dir : File → World → (Dir × ℕ) × World
  pub create_directory : File → Bytes → World → ℕ × World
  pub path_stat_get : File → ℕ → Bytes → World → (FileStat × ℕ) × World
  pub path_stat_set_times : File → ℕ → Bytes → ℕ → ℕ → ℕ → World → ℕ × World
  pub link : File → ℕ → Bytes → File → Bytes → World → ℕ × World
  pub open_path : File → ℕ → Bytes → ℕ → ℕ → ℕ → ℕ → World → (File × ℕ) × World
  pub read_link : File → Bytes → ℕ → World → (ℕ × ℕ) × World
  pub remove_directory : File → Bytes → World → ℕ × World
  pub rename : File → Bytes → File → Bytes → World → ℕ × World
  pub symlink : File → Bytes → Bytes → World → ℕ × World
  pub unlink_file : File → Bytes → World → ℕ × World
  pub read_dir : Dir → ℕ → ℕ → ℕ → World → (ℕ × ℕ) × World
  pub close_dir : Dir → World → ℕ × World

-- `FSTFlags`
abbrev pub access_time_flag : ℕ
access_time_flag = 2 ^ 0

abbrev pub access_time_now : ℕ
access_time_now = 2 ^ 1

abbrev pub modify_time_flag : ℕ
modify_time_flag = 2 ^ 2

abbrev pub modify_time_now : ℕ
modify_time_now = 2 ^ 3

-- `LookupFlags`
abbrev pub symlink_follow : ℕ
symlink_follow = 2 ^ 0
