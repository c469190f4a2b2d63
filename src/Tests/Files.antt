-- ===== src/Tests/Files.antt =====
-- Runs of the methods of `FileTable` that change the table.
use wasi_go.Base.{
  ℕ, ◌≡◌, ◌⊎◌, refl, none, some, [], ◌∷◌, ℤ, pos, negsuc, ok, panic, arith, if◌then◌else◌,
}
use wasi_go.Errno.{esuccess, ebadf, enotsup}
use wasi_go.FileTable.Lookups.{entry, preopened, is_some}
use wasi_go.File.{append}
use wasi_go.Rights.{fd_read_right}
use wasi_go.FileTable.{FileTable, System, register, preopen}
use wasi_go.FileTable.Paths.{path_open}
use wasi_go.FileTable.Directories.{fd_close, fd_renumber, fd_read_dir, close}
use wasi_go.FileTable.Descriptors.{
  fd_stat_set_rights, fd_stat_set_flags, fd_pre_stat_get, fd_pre_stat_dir_name,
}
use wasi_go.FileTable.Opening.{
  Registers, register-Registers, OpenFails, Opens, OpensWithin, path_open-Opens,
  path_open-OpensWithin,
}
use wasi_go.FileTable.Changes.{
  RightsSet, FlagsSet, fd_stat_set_rights-RightsSet, fd_stat_set_flags-FlagsSet,
}
use wasi_go.FileTable.Closing.{Closed, fd_close-Closed}
use wasi_go.FileTable.Renumbering.{Renumbered, fd_renumber-Renumbered, fd_renumber-negative}
use wasi_go.FileTable.Reading.{ReadFails, DirRead, fd_read_dir-DirRead}
use wasi_go.FileTable.Preopening.{preopen_named}
use wasi_go.FileTable.Ending.{Ends, close-Ends}
use wasi_go.Tests.Demo.{Log, host, table, system, table-IsValid, few_files, directory, file}

register-Registers_example :
    (fd : ℕ) × (t' : FileTable ℕ ℕ) × (register host 31 file.stat table ≡ ok (fd, t'))
    × Registers table 31 file.stat fd t'
register-Registers_example = register-Registers host 31 file.stat table table-IsValid few_files

path_open-Opens_example :
    (r : (ℤ × ℕ) × System ℕ ℕ Log) × (path_open host
        (pos 0)
        0
        (b'a' ∷ [])
        0
        fd_read_right
        0
        0
        system
      ≡ ok r)
    × (OpenFails host (pos 0) 0 (b'a' ∷ []) 0 fd_read_right 0 0 system r
        ⊎ Opens host (pos 0) 0 (b'a' ∷ []) 0 fd_read_right 0 0 system r)
path_open-Opens_example =
    path_open-Opens host (pos 0) 0 (b'a' ∷ []) 0 fd_read_right 0 0 system table-IsValid few_files

path_open-OpensWithin_example :
    (r : (ℤ × ℕ) × System ℕ ℕ Log) × (path_open host
        (pos 0)
        0
        (b'a' ∷ [])
        2
        fd_read_right
        0
        0
        system
      ≡ ok r)
    × (OpenFails host (pos 0) 0 (b'a' ∷ []) 2 fd_read_right 0 0 system r
        ⊎ OpensWithin host (pos 0) 0 (b'a' ∷ []) 2 fd_read_right 0 0 system r)
path_open-OpensWithin_example =
    path_open-OpensWithin host (pos 0) 0 (b'a' ∷ []) 2 fd_read_right 0 0 system table-IsValid
      few_files

fd_stat_set_rights-RightsSet_example :
    (r : ℕ × System ℕ ℕ Log) × (fd_stat_set_rights (pos 2) fd_read_right 0 system ≡ ok r)
    × RightsSet (pos 2) fd_read_right 0 system r
fd_stat_set_rights-RightsSet_example =
    fd_stat_set_rights-RightsSet (pos 2) fd_read_right 0 system table-IsValid

fd_stat_set_flags-FlagsSet_example :
    (r : ℕ × System ℕ ℕ Log) × (fd_stat_set_flags host (pos 2) append system ≡ ok r)
    × FlagsSet host (pos 2) append system r
fd_stat_set_flags-FlagsSet_example =
    fd_stat_set_flags-FlagsSet host (pos 2) append system table-IsValid

fd_close-Closed_example :
    (r : ℕ × System ℕ ℕ Log) × (fd_close host (pos 0) system ≡ ok r) × Closed host (pos 0) system r
fd_close-Closed_example = fd_close-Closed host (pos 0) system table-IsValid

fd_renumber-Renumbered_example :
    (r : ℕ × System ℕ ℕ Log) × (fd_renumber host (pos 2) (pos 5) system ≡ ok r)
    × Renumbered host (pos 2) (pos 5) system r
fd_renumber-Renumbered_example = fd_renumber-Renumbered host (pos 2) 5 system table-IsValid

fd_renumber-negative_example : fd_renumber host (pos 2) (negsuc 4) system ≡ (
    if is_some (preopened table (pos 2))
    then ok (enotsup, system)
    else elim (entry table (pos 2)) [ none ↦ ok (ebadf, system) | some f ↦ panic ])
fd_renumber-negative_example =
    fd_renumber-negative host (pos 2) 4 system table-IsValid (omega arith) (omega arith)

fd_read_dir-DirRead_example :
    (r : (ℕ × ℕ) × System ℕ ℕ Log) × (fd_read_dir host (pos 0) 4 0 4096 system ≡ ok r)
    × (ReadFails host (pos 0) 4 0 4096 system r ⊎ DirRead host (pos 0) 4 0 4096 system r)
fd_read_dir-DirRead_example = fd_read_dir-DirRead host (pos 0) 4 0 4096 system table-IsValid

preopen_named_example :
    (fd : ℕ) × (t' : FileTable ℕ ℕ) × (preopen host 41 (b'/' ∷ b't' ∷ []) directory.stat table
      ≡ ok (fd, t'))
    × ((w : Log)
        → let s : System ℕ ℕ Log = record { open_files = t'; world = w } in
          (fd_pre_stat_dir_name (pos fd) s ≡ ok ((b'/' ∷ b't' ∷ [], esuccess), s))
          × (fd_pre_stat_get (pos fd) s ≡ ok ((record { type = 0; name_length = 2 }, esuccess), s)))
preopen_named_example =
    preopen_named host 41 (b'/' ∷ b't' ∷ []) directory.stat table table-IsValid few_files refl

close-Ends_example :
    (s' : System ℕ ℕ Log) × (close host (λ dirs. dirs) system ≡ ok s')
    × Ends host (λ dirs. dirs) system s'
close-Ends_example = close-Ends host (λ dirs. dirs) system table-IsValid
