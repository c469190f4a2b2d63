-- ===== src/Tests/Demo.antt =====
-- A host that logs the files and directories that it closes, and a file table over it: a directory
-- under 0, which is preopened and being read, and a file under 2, which may be read and sought.
use wasi_go.Base.{
  ℕ, zero, suc, ◌^◌, ◌<◌, ◌≤◌, bit_or, ◌≡◌, inr, refl, ap, some, List, [], ◌∷◌, get_elem?,
  replicate, true, ℤ, pos, negsuc, arith,
}
use wasi_go.Bits
use wasi_go.Bits.{bit}
use wasi_go.Bits.Laws.{bit-zero}
use wasi_go.Descriptor
use wasi_go.Descriptor.{Table}
use wasi_go.Descriptor.View
use wasi_go.Descriptor.View.{object_of_find}
use wasi_go.File.{Bytes, no_fd_stat, no_file_stat, Host, directory_type, regular_file_type}
use wasi_go.Rights.{fd_read_right, fd_seek_right, path_open_right}
use wasi_go.Rights.Laws.{Subset-refl, and-Subset_right}
use wasi_go.FileTable.{FileEntry, FileTable, System, num_open_files, num_open_dirs}
use wasi_go.FileTable.Lookups.{IsValid, entry}
use wasi_go.FileTable.Confinement.{Within, AllWithin, Within-some, Safe}

abbrev pub Log : Type 0
Log = List ℕ

-- New files are 77 and new directories 88; a directory has one entry at cookie 0.
abbrev pub host : Host ℕ ℕ Log
host = record {
  no_file = 0;
  advise = λ f o s a w. (0, w);
  allocate = λ f o s w. (0, w);
  close = λ f w. (0, f ∷ w);
  data_sync = λ f w. (0, w);
  stat_set_flags = λ f x w. (0, w);
  file_stat_get = λ f w. ((no_file_stat, 0), w);
  file_stat_set_size = λ f s w. (0, w);
  file_stat_set_times = λ f a m x w. (0, w);
  pread = λ f v o w. ((3, 0), w);
  pwrite = λ f v o w. ((3, 0), w);
  read = λ f v w. ((3, 0), w);
  write = λ f v w. ((3, 0), w);
  sync_file = λ f w. (0, w);
  seek = λ f d x w. ((5, 0), w);
  open_dir = λ f w. ((88, 0), w);
  create_directory = λ f p w. (0, w);
  path_stat_get = λ f x p w. ((no_file_stat, 0), w);
  path_stat_set_times = λ f x p a m y w. (0, w);
  link = λ f x p g q w. (0, w);
  open_path = λ f x p o b i y w. ((77, 0), w);
  read_link = λ f p b w. ((4, 0), w);
  remove_directory = λ f p w. (0, w);
  rename = λ f p g q w. (0, w);
  symlink = λ f p q w. (0, w);
  unlink_file = λ f p w. (0, w);
  read_dir = λ d n c b w. ((1, 0), w);
  close_dir = λ d w. (0, d ∷ w);
}

abbrev pub no_file_entry : FileEntry ℕ
no_file_entry = record { file = 0; stat = no_fd_stat }

abbrev pub readable : ℕ
readable = bit_or fd_read_right fd_seek_right

abbrev pub directory : FileEntry ℕ
directory = record {
  file = 10;
  stat = record {
    file_type = directory_type;
    flags = 0;
    rights_base = bit_or path_open_right readable;
    rights_inheriting = readable;
  };
}

abbrev pub file : FileEntry ℕ
file = record {
  file = 12;
  stat = record {
    file_type = regular_file_type;
    flags = 0;
    rights_base = readable;
    rights_inheriting = 0;
  };
}

abbrev pub rights : ℕ
rights = bit_or path_open_right readable

-- Tables with one word.
abbrev pub files : Table (FileEntry ℕ)
files = record {
  masks = 5 ∷ [];
  table = directory ∷ no_file_entry ∷ file ∷ replicate 61 no_file_entry;
}

abbrev pub preopens : Table Bytes
preopens = record { masks = 1 ∷ []; table = (b'/' ∷ []) ∷ replicate 63 [] }

abbrev pub table : FileTable ℕ ℕ
table = record {
  max_open_files = 8;
  max_open_dirs = 1;
  files = files;
  preopens = preopens;
  dirs = (pos 0, 100) ∷ [];
}

abbrev pub system : System ℕ ℕ Log
system = record { open_files = table; world = [] }

pub one_word : (mask i m : ℕ) → mask < 2 ^ 64 → get_elem? (mask ∷ []) i ≡ some m → m < 2 ^ 64
unfolding get_elem?
one_word mask zero m h e = ground arith
one_word mask (suc i) m h e = cc

pub files-IsValid : View.IsValid files
unfolding replicate
files-IsValid = record { sized = refl; words = λ i m e. one_word 5 i m (omega arith) e }

pub preopens-IsValid : View.IsValid preopens
unfolding replicate
preopens-IsValid = record { sized = refl; words = λ i m e. one_word 1 i m (omega arith) e }

pub table-IsValid : IsValid table
table-IsValid = record { files = files-IsValid; preopens = preopens-IsValid }

in_replicate {ℓ} : {A : Type ℓ} (n i : ℕ) (a b : A) → get_elem? (replicate n a) i ≡ some b → a ≡ b
unfolding get_elem? replicate
in_replicate zero i a b e = cc
in_replicate (suc n) zero a b e = cc
in_replicate (suc n) (suc i) a b e = in_replicate n i a b e

no_rights : (k : ℕ) → bit 0 k ≡ true → bit rights k ≡ true
no_rights k h = ground (arith, bit-zero k)

Within-slot : (i : ℕ) (f : FileEntry ℕ) → get_elem? files.table i ≡ some f → Within rights f.stat
unfolding get_elem?
Within-slot zero f e = Within-some rights directory directory_within f e
  where
    directory_within : Within rights directory.stat
    directory_within = (Subset-refl rights, and-Subset_right readable rights)
Within-slot (suc zero) f e = Within-some rights no_file_entry (no_rights, no_rights) f e
Within-slot (suc (suc zero)) f e =
    Within-some rights file (and-Subset_right readable rights, no_rights) f e
Within-slot (suc (suc (suc i))) f e =
    Within-some rights no_file_entry (no_rights, no_rights) f
      (ap some (in_replicate 61 i no_file_entry f e))

table_confined : (fd : ℤ) → AllWithin rights (entry table fd)
table_confined (pos d) f e = Within-slot d f (object_of_find files d f e)
table_confined (negsuc d) f e = cc

pub few_files : num_open_files table < 2 ^ 31
unfolding num_open_files Descriptor.len Bits.ones_count
few_files = small
  where
    small : 2 < 2 ^ 31
    small = omega arith

pub table-Safe : Safe rights table
unfolding num_open_files num_open_dirs Descriptor.len Bits.ones_count
table-Safe = record {
  valid = table-IsValid;
  confined = table_confined;
  files_limit = inr two_files;
  dirs_limit = inr one_dir;
}
  where
    two_files : 2 ≤ 8
    two_files = omega arith

    one_dir : 1 ≤ 1
    one_dir = omega arith
