-- ===== src/FileTable.antt =====
-- wasi.go: `FileTable`, the table of open files that implements the part of the WASI system
-- interface that all systems share. Here its state, the lookups and the registration of files; the
-- other methods are in the children. A table and the state of its host pass through each method.
pub mod Descriptors
pub mod Directories
pub mod Paths
pub mod Lookups
pub mod SocketLookups
pub mod Guards
pub mod PairGuards
pub mod Opening
pub mod Changes
pub mod Closing
pub mod Renumbering
pub mod Reading
pub mod Seeking
pub mod Preopening
pub mod Ending
pub mod Sizes
pub mod Outside
pub mod Confinement
use wasi_go.Base.{
  ℕ, Bool, ◌||◌, ◌==◌, bit_and, if◌then◌else◌, Option, none, some, List, [], length, ℤ, pos, Run,
  ok, ◌>>=◌,
}
use wasi_go.Descriptor
use wasi_go.Descriptor.{Table}
use wasi_go.Errno.{esuccess, ebadf, enotcapable, enotdir, enotsock}
use wasi_go.Rights.{all_rights, has}
use wasi_go.File.{
  Bytes, FdStat, no_fd_stat, Host, directory_type, socket_stream_type, socket_dgram_type,
}

pub record FileEntry (File : Type 0) : Type 0 where
  pub file : File
  pub stat : FdStat

-- The limits are 0 for none.
pub record FileTable (File Dir : Type 0) : Type 0 where
  pub max_open_files : ℕ
  pub max_open_dirs : ℕ
  pub files : Table (FileEntry File)
  pub preopens : Table Bytes
  pub dirs : List (ℤ × Dir)

-- A table with its host.
pub record System (File Dir World : Type 0) : Type 0 where
  pub open_files : FileTable File Dir
  pub world : World

-- `(f, ESUCCESS)` or `(nil, errno)`.
pub data Lookup (A : Type 0) : Type 0 where
  found : A → Lookup A
  refused : ℕ → Lookup A

module _ {File : Type 0} where
  abbrev pub check_rights : FileEntry File → ℕ → Lookup (FileEntry File)
  check_rights f rights = if has f.stat.rights_base rights then found f else refused enotcapable

  -- What the exported `LookupFD` and `LookupSocketFD` return of a lookup.
  abbrev pub exported : File → Lookup (FileEntry File) → File × FdStat × ℕ
  exported no_file (found f) = (f.file, f.stat, esuccess)
  exported no_file (refused errno) = (no_file, no_fd_stat, errno)

module _ {File Dir : Type 0} where
  unfoldable pub num_preopens : FileTable File Dir → ℕ
  num_preopens t = Descriptor.len t.preopens

  unfoldable pub num_open_files : FileTable File Dir → ℕ
  num_open_files t = Descriptor.len t.files

  unfoldable pub num_open_dirs : FileTable File Dir → ℕ
  num_open_dirs t = length t.dirs

  -- The method `lookupFD`.
  unfoldable pub lookup_fd : FileTable File Dir → ℤ → ℕ → Run (Lookup (FileEntry File))
  lookup_fd t fd rights = do
    f ← Descriptor.access fd t.files
    elim f [ none ↦ ok (refused ebadf) | some f ↦ ok (check_rights f rights) ]

  -- The method `lookupSocketFD`.
  unfoldable pub lookup_socket_fd : FileTable File Dir → ℤ → ℕ → Run (Lookup (FileEntry File))
  lookup_socket_fd t fd rights = do
    f ← Descriptor.access fd t.files
    elim f [
      | none ↦ ok (refused ebadf)
      | some f ↦
          if f.stat.file_type == socket_stream_type || f.stat.file_type == socket_dgram_type
          then ok (check_rights f rights)
          else ok (refused enotsock)
    ]

  unfoldable pub lookup_preopen_path : FileTable File Dir → ℤ → Run (Lookup Bytes)
  lookup_preopen_path t fd = do
    path ← Descriptor.lookup fd t.preopens
    elim path [
      | none ↦ ok (refused ebadf)
      | some path ↦ do
        f ← Descriptor.access fd t.files
        elim f [
          | none ↦ ok (refused ebadf)
          | some f ↦
              if f.stat.file_type == directory_type then ok (found path) else ok (refused enotdir)
        ]
    ]

  unfoldable pub is_preopen : FileTable File Dir → ℤ → Run Bool
  is_preopen t fd = do
    path ← Descriptor.access fd t.preopens
    elim path [ none ↦ ok Bool.false | some _ ↦ ok Bool.true ]

  unfoldable pub preopen_fd : ℤ → FileTable File Dir → Run (FileTable File Dir)
  preopen_fd fd t = do
    (_, preopens) ← Descriptor.assign [] fd [] t.preopens
    ok (record t { preopens = preopens })

module _ {File Dir World : Type 0} where
  unfoldable pub lookup_exported :
      Host File Dir World → FileTable File Dir → ℤ → ℕ → Run (File × FdStat × ℕ)
  unfolding lookup_fd
  lookup_exported h t fd rights = do f ← lookup_fd t fd rights; ok (exported h.no_file f)

  unfoldable pub lookup_socket_exported :
      Host File Dir World → FileTable File Dir → ℤ → ℕ → Run (File × FdStat × ℕ)
  unfolding lookup_socket_fd
  lookup_socket_exported h t fd rights = do
    f ← lookup_socket_fd t fd rights
    ok (exported h.no_file f)

  unfoldable pub register :
      Host File Dir World → File → FdStat → FileTable File Dir → Run (ℕ × FileTable File Dir)
  register h file stat t = do
    let stat' = record stat {
      rights_base = bit_and stat.rights_base all_rights;
      rights_inheriting = bit_and stat.rights_inheriting all_rights;
    }
    (fd, files) ←
        Descriptor.insert (record { file = h.no_file; stat = no_fd_stat }) t.files
          (record { file = file; stat = stat' })
    ok (fd, record t { files = files })

  unfoldable pub preopen :
      Host File Dir World
      → File
      → Bytes
      → FdStat
      → FileTable File Dir
      → Run (ℕ × FileTable File Dir)
  unfolding register
  preopen h file path stat t = do
    (fd, t') ← register h file stat t
    (_, preopens) ← Descriptor.assign [] (pos fd) path t'.preopens
    ok (fd, record t' { preopens = preopens })

  -- The beginning of most methods: look a descriptor up, and return at once on an error.
  unfoldable pub with_fd {ℓ} :
      {R : Type ℓ}
      → System File Dir World
      → ℤ
      → ℕ
      → (ℕ → R)
      → (FileEntry File → Run (R × System File Dir World))
      → Run (R × System File Dir World)
  unfolding lookup_fd
  with_fd s fd rights failed body = do
    f ← lookup_fd s.open_files fd rights
    elim f [ refused errno ↦ ok (failed errno, s) | found f ↦ body f ]

  -- A call of the host.
  unfoldable pub call_host {ℓ} :
      {R : Type ℓ} → System File Dir World → (World → R × World) → Run (R × System File Dir World)
  call_host s method = let (r, w) = method s.world in ok (r, record s { world = w })
