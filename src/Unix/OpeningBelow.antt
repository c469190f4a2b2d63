-- ===== src/Unix/OpeningBelow.antt =====
-- wasi.go and systems/unix/file.go: `PathOpen` of the file table over the files of a Unix system.
use wasi_go.Base.{
  ℕ, ◌<◌, ◌^◌, bit_and, ◌≡◌, ◌⊎◌, refl, sym, ◌∙◌, ap, Bool, true, false, ◌||◌, if◌then◌else◌, inl,
  inr, Bool-cases, some, ℤ, pos, ok, arith,
}
use wasi_go.Bits.{bit}
use wasi_go.Errno.{esuccess}
use wasi_go.File.{Bytes, FdStat, Host, open_create, open_directory, open_truncate}
use wasi_go.FilePath.{has_prefix, slash, elements}
use wasi_go.FilePath.Walk.{walk}
use wasi_go.FilePath.Joined.{climbs}
use wasi_go.FileTable.{FileEntry, System, num_open_files}
use wasi_go.FileTable.Lookups.{IsValid, entry}
use wasi_go.FileTable.Opening.{
  Registers, known, opened_stat-Attenuates, OpenFails, Opens, path_open-Opens, at_limit,
}
use wasi_go.FileTable.Outside.{is_outside-climbs}
use wasi_go.FileTable.Paths.{
  is_outside, opened_stat, granted_base, granted_inheriting, open_errno, path_open,
}
use wasi_go.Rights.{
  all_rights, has, directory_rights, path_create_file_right, path_file_stat_set_size_right,
  fd_write_right,
}
use wasi_go.Rights.Laws.{
  Subset, has-Subset, and-Subset_right, and-eq_of_Subset, Subset-and, Subset-trans,
}
use wasi_go.Unix.FileKernel.{FileKernel}
use wasi_go.Unix.FilePaths
use wasi_go.Unix.FilePaths.{open_with}
use wasi_go.Unix.OpenFlags.{granted}
use wasi_go.Unix.FileOpening.{OpensAs, open_path-OpensAs}

-- All the checks of `PathOpen` include those of the rights to make and to truncate a file.
rights_of_passes :
    (parent : FdStat) (path : Bytes) (open_flags base inheriting : ℕ) (full : Bool)
    → open_errno parent path open_flags base inheriting full ≡ esuccess
    → (has open_flags open_create ≡ true → has parent.rights_base path_create_file_right ≡ true)
      × (has open_flags open_truncate ≡ true
          → has parent.rights_base path_file_stat_set_size_right ≡ true)
unfolding open_errno
rights_of_passes parent path open_flags base inheriting full e =
    (λ c. ground arith, λ t. ground arith)

-- And that of the path.
inside_of_passes :
    (parent : FdStat) (path : Bytes) (open_flags base inheriting : ℕ) (full : Bool)
    → open_errno parent path open_flags base inheriting full ≡ esuccess
    → is_outside path ≡ false
unfolding open_errno
inside_of_passes parent path open_flags base inheriting full e =
    elim (Bool-cases (is_outside path)) [ inr inside ↦ inside | inl outside ↦ ground arith ]

granted-granted :
    (base inheriting open_flags : ℕ)
    → granted open_flags (granted_base base inheriting open_flags)
      ≡ granted_base base inheriting open_flags
unfolding granted_base
granted-granted base inheriting open_flags = elim (Bool-cases (has open_flags open_directory)) [
  | inl d ↦ rw d (
      and-eq_of_Subset (bit_and (bit_and (bit_and base all_rights) inheriting) directory_rights)
        directory_rights
        (and-Subset_right (bit_and (bit_and base all_rights) inheriting) directory_rights))
  | inr d ↦ rw d refl
]

module _ {File Dir World : Type 0} (k : FileKernel File World) (rounds : ℕ)
    (h : Host File Dir World) where
  -- The host opens files as the methods of a Unix system do.
  abbrev pub OpensFiles : Type 0
  OpensFiles =
      (f : File) (lookup_flags : ℕ) (path : Bytes) (open_flags base inheriting fd_flags : ℕ)
      (w : World)
      → FilePaths.open_path k rounds f lookup_flags path open_flags base inheriting fd_flags w
        ≡ ok (h.open_path f lookup_flags path open_flags base inheriting fd_flags w)

  module _ (fd : ℤ) (lookup_flags : ℕ) (path : Bytes) (open_flags base inheriting fd_flags : ℕ)
      (s : System File Dir World) where
    -- A file that openat(2) has opened, with the flags `oflags`, is registered.
    pub record OpensBelow (r : (ℤ × ℕ) × System File Dir World) : Type 0 where
      pub parent : FileEntry File
      pub is_open : entry s.open_files fd ≡ some parent
      pub inside : (has_prefix path slash || climbs (walk (0, 0) (elements path))) ≡ false
      pub file : File
      pub new_fd : ℕ
      pub reply : r.0 ≡ (pos new_fd, esuccess)
      pub registers :
          Registers s.open_files file
            (opened_stat parent.stat open_flags base inheriting fd_flags)
            new_fd
            r.1.open_files
      pub oflags : ℕ
      pub opens :
          OpensAs lookup_flags open_flags
            (granted_base base parent.stat.rights_inheriting open_flags)
            fd_flags
            oflags
      pub calls :
          open_with k rounds parent.file path oflags
            (if has open_flags open_directory then 0 else 420)
            s.world
          ≡ ok ((file, esuccess), r.1.world)
      pub writes :
          (bit oflags 0 || bit oflags 1) ≡ true
          → has
                (known (opened_stat parent.stat open_flags base inheriting fd_flags)).rights_base
                fd_write_right
              ≡ true
            × has parent.stat.rights_inheriting fd_write_right ≡ true
      pub creates : bit oflags 6 ≡ true → has parent.stat.rights_base path_create_file_right ≡ true
      pub truncates :
          bit oflags 9 ≡ true → has parent.stat.rights_base path_file_stat_set_size_right ≡ true

    below :
        OpensFiles
        → (r : (ℤ × ℕ) × System File Dir World)
        → Opens h fd lookup_flags path open_flags base inheriting fd_flags s r
        → OpensBelow r
    unfolding has
    below files r o =
        let parent = o.parent.stat in
        let base' = granted_base base parent.rights_inheriting open_flags in
        let inheriting' = granted_inheriting inheriting parent.rights_inheriting in
        let stat = opened_stat parent open_flags base inheriting fd_flags in
        let (oflags, asked, run) =
          open_path-OpensAs k rounds o.parent.file path lookup_flags open_flags base' inheriting'
            fd_flags in
        let needs =
          rights_of_passes parent path open_flags base inheriting (at_limit s.open_files)
            o.passes in
        let a = opened_stat-Attenuates parent open_flags base inheriting fd_flags in
        let wanted : has base' fd_write_right ≡ (bit oflags 0 || bit oflags 1) =
          ap (λ g. has g fd_write_right)
            (sym (granted-granted base parent.rights_inheriting open_flags))
          ∙ sym asked.writes in
        let write_right : (bit oflags 0 || bit oflags 1) ≡ true
            → Subset fd_write_right (known stat).rights_base =
          λ on.
            Subset-and fd_write_right base' all_rights
              ((has-Subset base' fd_write_right).0 (wanted ∙ on))
              ((has-Subset all_rights fd_write_right).0 refl) in
        record {
          parent = o.parent;
          is_open = o.is_open;
          inside =
              sym (is_outside-climbs path)
              ∙ inside_of_passes parent path open_flags base inheriting (at_limit s.open_files)
                  o.passes;
          file = o.file;
          new_fd = o.new_fd;
          reply = o.reply;
          registers = o.registers;
          oflags = oflags;
          opens = asked;
          calls =
              sym (ap (λ m. m s.world) run)
              ∙ files o.parent.file lookup_flags path open_flags base' inheriting' fd_flags s.world
              ∙ ap ok o.opened;
          writes = λ on. (
            (has-Subset (known stat).rights_base fd_write_right).1 (write_right on),
            (has-Subset parent.rights_inheriting fd_write_right).1 (
                Subset-trans fd_write_right (known stat).rights_base parent.rights_inheriting
                  (write_right on) a.base_passed_on),
          );
          creates = λ on. needs.0 (sym asked.creates ∙ on);
          truncates = λ on. needs.1 (sym asked.truncates ∙ on);
        }

    -- Over a host that opens files as a Unix system does, on a valid table with fewer than 2^31
    -- open files, PathOpen fails with an error number and the table as it was, or it registers a
    -- file that openat(2) has opened at the path from the directory. The path does not begin with
    -- a slash, and a walk along its elements does not end above the directory, but perhaps at the
    -- parent of the directory itself. The flags of openat(2) are those that were asked for. The
    -- file is opened for writing only if the rights that are registered for it and those that the
    -- directory passes on contain that to write; it is created only if the directory has the right
    -- to create files, and truncated only if it has the right to set sizes.
    pub path_open-OpensBelow :
        OpensFiles
        → IsValid s.open_files
        → num_open_files s.open_files < 2 ^ 31
        → (r : (ℤ × ℕ) × System File Dir World) × (path_open h fd lookup_flags path open_flags base
              inheriting fd_flags s
            ≡ ok r)
          × (OpenFails h fd lookup_flags path open_flags base inheriting fd_flags s r
              ⊎ OpensBelow r)
    path_open-OpensBelow files v few =
        let (r, run, e) =
          path_open-Opens h fd lookup_flags path open_flags base inheriting fd_flags s v few in
        (r, run, elim e [ inl fails ↦ inl fails | inr o ↦ inr (below files r o) ])
