-- ===== src/Tests/Directories.antt =====
-- Runs of `readDirEntries` over a directory of three records, one of them unused.
use wasi_go.Base.{ℕ, ◌≡◌, refl, sym, none, some, List, [], ◌∷◌, ◌++◌, replicate, ok, arith}
use mathlib.Core.List.{append-nil}
use wasi_go.Unix.Calls.{returned, ignore_eintr2}
use wasi_go.Unix.Directory.{
  DirKernel, Dirbuf, Request, read_dir_entries, ino_at, reclen_at, typ_at, entry_type, until_zero,
}
use wasi_go.Unix.Dirents.{Dirent, AllDirents, encode, encode_all}
use wasi_go.Unix.Listing.{ListsDir, Holds, live}
use wasi_go.Unix.Enumerating.{Lists, read_dir_entries-Lists}

abbrev dirents : List Dirent
dirents =
    record { ino = 5; off = 0; typ = 4; body = b'.' ∷ 0 ∷ 0 ∷ [] }
    ∷ record { ino = 0; off = 0; typ = 8; body = b'x' ∷ 0 ∷ [] }
    ∷ record { ino = 300; off = 0; typ = 8; body = b'a' ∷ b'b' ∷ 0 ∷ [] }
    ∷ []

-- The state is what the kernel has not returned yet; it returns all of it.
abbrev dir_kernel : DirKernel ℕ (List Dirent)
dir_kernel = record {
  getdents = λ f n w. (returned (encode_all w), []);
  rewind = λ f w. (returned 0, dirents);
}

abbrev new_dir : Dirbuf ℕ
new_dir = record { buffer = none; offset = 0; len = 0; fd = 7; cookie = 0 }

dirents-AllDirents : AllDirents dirents
dirents-AllDirents = omega arith

dir_kernel-ListsDir : ListsDir dir_kernel 7 dirents
dir_kernel-ListsDir = record {
  rest = λ w. w;
  lists = λ w. record {
    chunk = w;
    w' = [];
    writes = refl;
    next = sym (append-nil w);
    some_more = λ e. e;
  };
  starts = λ w. (dirents, refl, refl);
}

new_dir-Holds : Holds dir_kernel 7 dirents dirents-AllDirents dir_kernel-ListsDir new_dir dirents
unfolding live dir_kernel-ListsDir
new_dir-Holds = record {
  done = [];
  buffered = [];
  whole = refl;
  counted = refl;
  pre = [];
  post = [];
  bytes = refl;
  at = refl;
  upto = omega arith;
  file = refl;
}

abbrev request : Request
request = record { room = 4; from = 1 }

read_dir_entries-Lists_example :
    (r : _) × (read_dir_entries dir_kernel 1 4 request 500 new_dir dirents ≡ ok r)
    × Lists dir_kernel 7 dirents dirents-AllDirents dir_kernel-ListsDir 0 request r
read_dir_entries-Lists_example =
    read_dir_entries-Lists dir_kernel 7 dirents dirents-AllDirents dir_kernel-ListsDir 0 request 4
      500 new_dir dirents new_dir-Holds (omega arith)

-- The first entry is passed over, since its cookie is 0, and the unused record too; one call reads on.
listing :
    read_dir_entries dir_kernel 1 4 request 500 new_dir dirents
    ≡ ok (
      (record { next = 2; inode = 300; file_type = 4; name = b'a' ∷ b'b' ∷ [] } ∷ [], returned tt),
      record {
        buffer = some (encode_all dirents ++ replicate 4031 0);
        offset = 65;
        len = 65;
        fd = 7;
        cookie = 2;
      },
      [],
    )
unfolding read_dir_entries encode replicate ino_at reclen_at typ_at entry_type until_zero
    ignore_eintr2
listing = refl
