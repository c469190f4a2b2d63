-- ===== src/Tests/Descriptors.antt =====
-- Runs of internal/descriptor/table.go: a table with two objects, under 0 and 2.
use wasi_go.Base.{ℕ, ◌<◌, ◌^◌, arith, suc, ◌+◌, ◌≤◌, ◌≡◌, none, length, Bool, true, pos, ok}
use wasi_go.Bits
use wasi_go.Descriptor.{Table, len, insert, assign, delete, access, range}
use wasi_go.Descriptor.View.{find, view, access-view}
use wasi_go.Descriptor.Allocation.{Inserts, insert-Inserts}
use wasi_go.Descriptor.Updates.{Binds, Unbinds, assign-Binds, delete-Unbinds}
use wasi_go.Descriptor.Ranges.{bindings, visit, range-visit}
use wasi_go.Descriptor.Bounds.{insert-le-len}
use wasi_go.FileTable.{FileEntry}
use wasi_go.Tests.Demo.{files, files-IsValid, file, no_file_entry}

access-view_example : access (pos 2) files ≡ ok (view files (pos 2))
access-view_example = access-view (pos 2) files files-IsValid

few_files : len files < 2 ^ 31
unfolding len Bits.ones_count
few_files = small
  where
    small : 2 < 2 ^ 31
    small = omega arith

insert-Inserts_example :
    (d : ℕ) × (t' : Table (FileEntry ℕ)) × (insert no_file_entry files file ≡ ok (d, t'))
    × Inserts files file d t'
insert-Inserts_example = insert-Inserts no_file_entry files file files-IsValid few_files

insert-le-len_example :
    (d : ℕ) × (t' : Table (FileEntry ℕ)) × (insert no_file_entry files file ≡ ok (d, t'))
    × (find files d ≡ none)
    × (d ≤ len files)
    × (len t' ≡ suc (len files))
insert-le-len_example = insert-le-len no_file_entry files file files-IsValid few_files

assign-Binds_example :
    (t' : Table (FileEntry ℕ)) × (assign no_file_entry (pos 200) file files
      ≡ ok (find files 200, t'))
    × Binds files 200 file t'
assign-Binds_example = assign-Binds no_file_entry files 200 file files-IsValid

delete-Unbinds_example :
    (t' : Table (FileEntry ℕ)) × (delete no_file_entry (pos 2) files ≡ ok t') × Unbinds files 2 t'
delete-Unbinds_example = delete-Unbinds no_file_entry files 2 files-IsValid

-- The sum of the files' numbers.
abbrev add_file : ℕ → FileEntry ℕ → ℕ → ℕ × Bool
add_file d f s = (s + f.file, true)

range-visit_example :
    range add_file files 0 ≡ ok (visit add_file (bindings files 0 (length files.table)) 0)
range-visit_example = range-visit add_file files files-IsValid 0
