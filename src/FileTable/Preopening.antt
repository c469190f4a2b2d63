-- ===== src/FileTable/Preopening.antt =====
-- wasi.go: `Preopen` gives the guest a directory under a path.
use wasi_go.Base.{
  ℕ, ◌%◌, ◌^◌, ◌<◌, ◌≡◌, refl, ◌∙◌, ap, none, some, [], length, ℤ, pos, int_eq, true, ok,
  if◌then◌else◌, arith,
}
use wasi_go.Descriptor
use wasi_go.Descriptor.View
use wasi_go.Descriptor.Updates.{assign-Binds}
use wasi_go.Errno.{esuccess}
use wasi_go.File.{Bytes, FdStat, Host, directory_type}
use wasi_go.FileTable.{FileEntry, FileTable, System, preopen, num_open_files}
use wasi_go.FileTable.Lookups.{IsValid, entry, preopened, lookup_preopen_path-eq}
use wasi_go.FileTable.Descriptors.{fd_pre_stat_get, fd_pre_stat_dir_name}
use wasi_go.FileTable.Opening.{known, register-Registers}
use wasi_go.FileTable.Renumbering.{view_of_bound}

-- A table as the host makes it, with its limits.
abbrev pub new_table : {File Dir : Type 0} → ℕ → ℕ → FileTable File Dir
new_table max_files max_dirs = record {
  max_open_files = max_files;
  max_open_dirs = max_dirs;
  files = Descriptor.empty;
  preopens = Descriptor.empty;
  dirs = [];
}

module _ {File Dir : Type 0} where
  -- How `t'` comes from `t` when a file is opened for the guest under `path`.
  pub record Preopens (t : FileTable File Dir) (file : File) (path : Bytes) (stat : FdStat) (fd : ℕ)
      (t' : FileTable File Dir) : Type 0 where
    pub valid : IsValid t'
    pub fresh : entry t (pos fd) ≡ none
    pub reads :
        (j : ℤ)
        → entry t' j ≡ (
            if int_eq (pos fd) j
            then some (record { file = file; stat = known stat })
            else entry t j)
    pub reads_preopens :
        (j : ℤ) → preopened t' j ≡ (if int_eq (pos fd) j then some path else preopened t j)
    pub same_dirs : t'.dirs ≡ t.dirs

module _ {File Dir World : Type 0} (h : Host File Dir World) where
  pub preopen-Preopens :
      (file : File) (path : Bytes) (stat : FdStat) (t : FileTable File Dir)
      → IsValid t
      → num_open_files t < 2 ^ 31
      → (fd : ℕ) × (t' : FileTable File Dir) × (preopen h file path stat t ≡ ok (fd, t'))
        × Preopens t file path stat fd t'
  unfolding preopen
  preopen-Preopens file path stat t v few =
      let (fd, t1, run, g) = register-Registers h file stat t v few in
      let (preopens, run', b) = assign-Binds [] t1.preopens fd path g.valid.preopens in
      let t' : FileTable File Dir = record t1 { preopens = preopens } in
      (
        fd,
        t',
        rw (run, run') refl,
        record {
          valid = record { files = g.valid.files; preopens = b.valid };
          fresh = g.fresh;
          reads = g.reads;
          reads_preopens = λ j.
              view_of_bound t1.preopens preopens fd path b.reads j
              ∙ ap (λ x. if int_eq (pos fd) j then some path else View.view x j) g.same_preopens;
          same_dirs = g.same_dirs;
        },
      )

  named_at :
      (s : System File Dir World) (fd : ℤ) (path : Bytes) (f : FileEntry File)
      → IsValid s.open_files
      → preopened s.open_files fd ≡ some path
      → entry s.open_files fd ≡ some f
      → f.stat.file_type ≡ directory_type
      → (fd_pre_stat_dir_name fd s ≡ ok ((path, esuccess), s))
        × (fd_pre_stat_get fd s
            ≡ ok ((record { type = 0; name_length = length path % 2 ^ 32 }, esuccess), s))
  unfolding fd_pre_stat_dir_name fd_pre_stat_get
  named_at s fd path f v named is_open dir = (
    rw (lookup_preopen_path-eq s.open_files fd v, named, is_open, dir) refl,
    rw (lookup_preopen_path-eq s.open_files fd v, named, is_open, dir) refl,
  )

  int_eq_same : (fd : ℕ) → int_eq (pos fd) (pos fd) ≡ true
  int_eq_same fd = ground arith

  -- After Preopen of a directory in a valid table with fewer than 2^31 open files, under a path,
  -- FDPreStatDirName of the new descriptor returns the path and FDPreStatGet its length as a
  -- 32-bit number.
  pub preopen_named :
      (file : File) (path : Bytes) (stat : FdStat) (t : FileTable File Dir)
      → IsValid t
      → num_open_files t < 2 ^ 31
      → stat.file_type ≡ directory_type
      → (fd : ℕ) × (t' : FileTable File Dir) × (preopen h file path stat t ≡ ok (fd, t'))
        × ((w : World)
            → let s : System File Dir World = record { open_files = t'; world = w } in
              (fd_pre_stat_dir_name (pos fd) s ≡ ok ((path, esuccess), s))
              × (fd_pre_stat_get (pos fd) s
                  ≡ ok ((record { type = 0; name_length = length path % 2 ^ 32 }, esuccess), s)))
  preopen_named file path stat t v few dir =
      let (fd, t', run, p) = preopen-Preopens file path stat t v few in
      let same = int_eq_same fd in
      let open_entry =
        p.reads (pos fd)
        ∙ ap (λ b. if b then some (record { file = file; stat = known stat }) else entry t (pos fd))
            same in
      let named =
        p.reads_preopens (pos fd) ∙ ap (λ b. if b then some path else preopened t (pos fd)) same in
      (
        fd,
        t',
        run,
        λ w.
            named_at (record { open_files = t'; world = w }) (pos fd) path
              (record { file = file; stat = known stat }) p.valid named open_entry dir,
      )
