-- ===== src/FileTable/Confinement.antt =====
-- wasi.go: what a guest can reach by calls of the file table from a state that the host has set up.
pub mod Tables
pub mod Steps
use wasi_go.Base.{
  ℕ, ◌<◌, ◌^◌, suc, ◌≤◌, Bool, true, false, ◌&&◌, ltb, leb, ◌≡◌, ◌≢◌, ◌⊎◌, inl, inr, refl, sym, ◌∙◌,
  ap, subst, Option, none, some, ℤ, pos, int_eq, Run, ok, if◌then◌else◌, Bool-cases, Option-cases,
  arith,
}
use wasi_go.Descriptor
use wasi_go.Errno.{esuccess, ebadf, enotcapable}
use wasi_go.File.{Bytes, FdStat, Host}
use wasi_go.Rights.{has}
use wasi_go.Rights.Laws.{Subset, Subset-trans, and-Subset_left, has-Subset}
use wasi_go.FileTable.{FileEntry, FileTable, System, num_open_files, num_open_dirs}
use wasi_go.FileTable.Lookups.{IsValid, entry}
use wasi_go.FileTable.Descriptors.{
  narrowed, fd_stat_set_rights, fd_stat_set_flags, fd_seek, fd_tell,
}
use wasi_go.FileTable.Directories.{fd_close, fd_read_dir, fd_renumber}
use wasi_go.FileTable.Paths.{opened_stat, open_errno, path_open, path_link, path_rename}
use wasi_go.FileTable.Guards.{
  Call, Reply, needs, failure, method, perform, guarded, perform-guarded,
}
use wasi_go.FileTable.PairGuards.{guarded_pair, path_link_rename-guarded}
use wasi_go.FileTable.Opening.{
  Registers, opened_stat-Attenuates, at_limit, OpenFails, Opens, path_open-Opens,
}
use wasi_go.FileTable.Changes.{
  Restats, RightsSet, FlagsSet, fd_stat_set_rights-RightsSet, fd_stat_set_flags-FlagsSet,
}
use wasi_go.FileTable.Closing.{Forgets, Closed, fd_close-Closed}
use wasi_go.FileTable.Renumbering.{Moves, Renumbered, with_replaced, fd_renumber-Renumbered}
use wasi_go.FileTable.Reading.{SameFiles, ReadsFrom, DirRead, ReadFails, fd_read_dir-DirRead}
use wasi_go.FileTable.Seeking.{sought, fd_seek-sought}

-- Both sets of rights of an open file are among `rights`.
abbrev pub Within : ℕ → FdStat → Type 0
Within rights stat = Subset stat.rights_base rights × Subset stat.rights_inheriting rights

module _ {File : Type 0} where
  -- Of a file that may be open.
  abbrev pub AllWithin : ℕ → Option (FileEntry File) → Type 0
  AllWithin rights o = (f : FileEntry File) → o ≡ some f → Within rights f.stat

  pub within_if :
      (rights : ℕ) (c : Bool) (o x y : Option (FileEntry File))
      → o ≡ (if c then x else y)
      → AllWithin rights x
      → AllWithin rights y
      → AllWithin rights o
  within_if rights true o x y e p q f e' = p f (sym e ∙ e')
  within_if rights false o x y e p q f e' = q f (sym e ∙ e')

  pub Within-some :
      (rights : ℕ) (g : FileEntry File) → Within rights g.stat → AllWithin rights (some g)
  Within-some rights g w f e =
      subst (λ (g : FileEntry File). Within rights g.stat) (some_inj g f e) w
    where
      some_inj : (a b : FileEntry File) → some a ≡ some b → a ≡ b
      some_inj a b e = cc

  pub within_none : (rights : ℕ) → AllWithin rights none
  within_none rights f e = cc

-- A state that the guest is confined in: no open file has a right outside `rights`, and there are
-- no more open files and directories than the limits say.
pub record Safe {File Dir : Type 0} (rights : ℕ) (t : FileTable File Dir) : Type 0 where
  pub valid : IsValid t
  pub confined : (fd : ℤ) → AllWithin rights (entry t fd)
  pub files_limit : (t.max_open_files ≡ 0) ⊎ (num_open_files t ≤ t.max_open_files)
  pub dirs_limit : (t.max_open_dirs ≡ 0) ⊎ (num_open_dirs t ≤ t.max_open_dirs)

module _ {File Dir World : Type 0} (h : Host File Dir World) where
  -- One call of the guest that has returned. A file is opened while fewer than 2^31 are open, since
  -- a descriptor has 32 bits.
  pub data Step (s s' : System File Dir World) : Type 0 where
    opens :
        (fd : ℤ) (lookup_flags : ℕ) (path : Bytes) (open_flags base inheriting fd_flags : ℕ)
        (r : ℤ × ℕ)
        → num_open_files s.open_files < 2 ^ 31
        → path_open h fd lookup_flags path open_flags base inheriting fd_flags s ≡ ok (r, s')
        → Step s s'
    closes : (fd : ℤ) (r : ℕ) → fd_close h fd s ≡ ok (r, s') → Step s s'
    renumbers : (from : ℤ) (to r : ℕ) → fd_renumber h from (pos to) s ≡ ok (r, s') → Step s s'
    sets_rights :
        (fd : ℤ) (base inheriting r : ℕ)
        → fd_stat_set_rights fd base inheriting s ≡ ok (r, s')
        → Step s s'
    sets_flags : (fd : ℤ) (flags r : ℕ) → fd_stat_set_flags h fd flags s ≡ ok (r, s') → Step s s'
    reads_dir :
        (fd : ℤ) (entries cookie buffer_size : ℕ) (r : ℕ × ℕ)
        → fd_read_dir h fd entries cookie buffer_size s ≡ ok (r, s')
        → Step s s'
    seeks :
        (fd delta : ℤ) (whence : ℕ) (r : ℕ × ℕ)
        → fd_seek h fd delta whence s ≡ ok (r, s')
        → Step s s'
    calls : (fd : ℤ) (c : Call) (r : Reply) → perform h fd c s ≡ ok (r, s') → Step s s'
    links :
        (fd new_fd : ℤ) (flags : ℕ) (old new : Bytes) (r : ℕ)
        → path_link h fd flags old new_fd new s ≡ ok (r, s')
        → Step s s'
    renames :
        (fd new_fd : ℤ) (old new : Bytes) (r : ℕ)
        → path_rename h fd old new_fd new s ≡ ok (r, s')
        → Step s s'

  -- Any number of calls, one after the other.
  pub data Reach (s : System File Dir World) : System File Dir World → Type 0 where
    start : Reach s s
    next : {s' s'' : System File Dir World} → Reach s s' → Step s' s'' → Reach s s''
