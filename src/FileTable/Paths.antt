-- ===== src/FileTable/Paths.antt =====
-- wasi.go: the methods of `FileTable` that take a path below an open directory.
use wasi_go.Base.{
  ℕ, Bool, ◌&&◌, ◌||◌, not, ◌==◌, leb, ltb, bit_and, if◌then◌else◌, List, [], ◌∷◌, ◌+◌, length, ℤ,
  pos, negsuc, Run, ok, ◌>>=◌,
}
use wasi_go.Bits.{and_not}
use wasi_go.Errno.{esuccess, eperm, enotcapable, enfile}
use wasi_go.Rights.{
  has, all_rights, directory_rights, path_create_directory_right, path_file_stat_get_right,
  path_file_stat_set_times_right, path_link_source_right, path_link_target_right, path_open_right,
  path_create_file_right, path_file_stat_set_size_right, path_read_link_right,
  path_remove_directory_right, path_rename_source_right, path_rename_target_right,
  path_symlink_right, path_unlink_file_right,
}
use wasi_go.File.{
  Bytes, FileStat, no_file_stat, FdStat, Host, open_create, open_directory, open_truncate,
  directory_type, regular_file_type,
}
use wasi_go.FilePath.{clean, has_prefix, slash}
use wasi_go.FileTable.{System, FileEntry, with_fd, call_host, register, num_open_files}

-- The test of `PathOpen` on the cleaned path.
unfoldable pub is_outside : Bytes → Bool
unfolding clean has_prefix
is_outside path =
    let cleaned = clean path in
    has_prefix cleaned slash || has_prefix cleaned (b'.' ∷ b'.' ∷ b'/' ∷ [])

-- What `PathOpen` requires of the directory's rights, and the rights that the new file gets.
abbrev pub exceeds : ℕ → ℕ → Bool
exceeds rights inheriting = not (and_not 64 (bit_and rights all_rights) inheriting == 0)

unfoldable pub granted_base : ℕ → ℕ → ℕ → ℕ
granted_base rights_base inheriting open_flags =
    let base = bit_and (bit_and rights_base all_rights) inheriting in
    if has open_flags open_directory then bit_and base directory_rights else base

unfoldable pub granted_inheriting : ℕ → ℕ → ℕ
granted_inheriting rights_inheriting inheriting =
    bit_and (bit_and rights_inheriting all_rights) inheriting

-- The state that `PathOpen` registers for a file, with the rights that are left of those it is
-- asked for.
abbrev pub opened_stat : FdStat → ℕ → ℕ → ℕ → ℕ → FdStat
opened_stat parent open_flags rights_base rights_inheriting fd_flags = record {
  file_type = if has open_flags open_directory then directory_type else regular_file_type;
  flags = fd_flags;
  rights_base = granted_base rights_base parent.rights_inheriting open_flags;
  rights_inheriting = granted_inheriting rights_inheriting parent.rights_inheriting;
}

-- The checks of `PathOpen`, from the path to the limit on open files: `esuccess` if all pass.
unfoldable pub open_errno : FdStat → Bytes → ℕ → ℕ → ℕ → Bool → ℕ
unfolding is_outside
open_errno stat path open_flags rights_base rights_inheriting at_limit =
    if is_outside path
    then eperm
    else if exceeds rights_base stat.rights_inheriting
    then enotcapable
    else if exceeds rights_inheriting stat.rights_inheriting
    then enotcapable
    else if has open_flags open_create && not (has stat.rights_base path_create_file_right)
    then enotcapable
    else if has open_flags open_truncate && not (has stat.rights_base path_file_stat_set_size_right)
    then enotcapable
    else if at_limit
    then enfile
    else esuccess

module _ {File Dir World : Type 0} (h : Host File Dir World) where
  unfoldable pub path_create_directory :
      ℤ → Bytes → System File Dir World → Run (ℕ × System File Dir World)
  unfolding with_fd call_host
  path_create_directory fd path s =
      with_fd s fd path_create_directory_right (λ e. e)
        λ d. call_host s (h.create_directory d.file path)

  unfoldable pub path_file_stat_get :
      ℤ → ℕ → Bytes → System File Dir World → Run ((FileStat × ℕ) × System File Dir World)
  unfolding with_fd call_host
  path_file_stat_get fd lookup_flags path s =
      with_fd s fd path_file_stat_get_right (λ e. (no_file_stat, e))
        λ d. call_host s (h.path_stat_get d.file lookup_flags path)

  unfoldable pub path_file_stat_set_times :
      ℤ → ℕ → Bytes → ℕ → ℕ → ℕ → System File Dir World → Run (ℕ × System File Dir World)
  unfolding with_fd call_host
  path_file_stat_set_times fd lookup_flags path access_time modify_time fst_flags s =
      with_fd s fd path_file_stat_set_times_right (λ e. e)
        λ d.
          call_host s
            (h.path_stat_set_times d.file lookup_flags path access_time modify_time fst_flags)

  unfoldable pub path_link :
      ℤ → ℕ → Bytes → ℤ → Bytes → System File Dir World → Run (ℕ × System File Dir World)
  unfolding with_fd call_host
  path_link fd flags old_path new_fd new_path s =
      with_fd s fd path_link_source_right (λ e. e)
        λ old_dir.
          with_fd s new_fd path_link_target_right (λ e. e)
            λ new_dir. call_host s (h.link old_dir.file flags old_path new_dir.file new_path)

  -- `PathOpen` below the directory `d`; -1 is the descriptor of a failure.
  unfoldable pub open_below :
      FileEntry File
      → ℕ
      → Bytes
      → ℕ
      → ℕ
      → ℕ
      → ℕ
      → System File Dir World
      → Run ((ℤ × ℕ) × System File Dir World)
  unfolding open_errno num_open_files granted_base granted_inheriting register
  open_below d lookup_flags path open_flags rights_base rights_inheriting fd_flags s =
      let t = s.open_files in
      let at_limit = ltb 0 t.max_open_files && leb t.max_open_files (num_open_files t) in
      let refusal = open_errno d.stat path open_flags rights_base rights_inheriting at_limit in
      let base = granted_base rights_base d.stat.rights_inheriting open_flags in
      let inheriting = granted_inheriting rights_inheriting d.stat.rights_inheriting in
      if not (refusal == esuccess)
      then ok ((negsuc 0, refusal), s)
      else (let r =
            h.open_path d.file lookup_flags path open_flags base inheriting fd_flags s.world in
          let stat = opened_stat d.stat open_flags rights_base rights_inheriting fd_flags in
          if not (r.0.1 == esuccess)
          then ok ((negsuc 0, r.0.1), record s { world = r.1 })
          else (register h r.0.0 stat t >>= λ (new_fd, t').
              ok ((pos new_fd, esuccess), record { open_files = t'; world = r.1 })))

  unfoldable pub path_open :
      ℤ → ℕ → Bytes → ℕ → ℕ → ℕ → ℕ → System File Dir World → Run ((ℤ × ℕ) × System File Dir World)
  unfolding with_fd open_below
  path_open fd lookup_flags path open_flags rights_base rights_inheriting fd_flags s =
      with_fd s fd path_open_right (λ e. (negsuc 0, e))
        λ d. open_below d lookup_flags path open_flags rights_base rights_inheriting fd_flags s

  unfoldable pub path_read_link :
      ℤ → Bytes → ℕ → System File Dir World → Run ((ℕ × ℕ) × System File Dir World)
  unfolding with_fd call_host
  path_read_link fd path buffer s =
      with_fd s fd path_read_link_right (λ e. (0, e))
        λ d. call_host s (h.read_link d.file path buffer)

  unfoldable pub path_remove_directory :
      ℤ → Bytes → System File Dir World → Run (ℕ × System File Dir World)
  unfolding with_fd call_host
  path_remove_directory fd path s =
      with_fd s fd path_remove_directory_right (λ e. e)
        λ d. call_host s (h.remove_directory d.file path)

  unfoldable pub path_rename :
      ℤ → Bytes → ℤ → Bytes → System File Dir World → Run (ℕ × System File Dir World)
  unfolding with_fd call_host
  path_rename fd old_path new_fd new_path s =
      with_fd s fd path_rename_source_right (λ e. e)
        λ old_dir.
          with_fd s new_fd path_rename_target_right (λ e. e)
            λ new_dir. call_host s (h.rename old_dir.file old_path new_dir.file new_path)

  unfoldable pub path_symlink :
      Bytes → ℤ → Bytes → System File Dir World → Run (ℕ × System File Dir World)
  unfolding with_fd call_host
  path_symlink old_path fd new_path s =
      with_fd s fd path_symlink_right (λ e. e) λ d. call_host s (h.symlink d.file old_path new_path)

  unfoldable pub path_unlink_file :
      ℤ → Bytes → System File Dir World → Run (ℕ × System File Dir World)
  unfolding with_fd call_host
  path_unlink_file fd path s =
      with_fd s fd path_unlink_file_right (λ e. e) λ d. call_host s (h.unlink_file d.file path)

-- The loop of `SizesGet`: each value takes its bytes and a final 0.
unfoldable pub sizes_loop : ℕ → List Bytes → ℕ
sizes_loop size [] = size
sizes_loop size (value ∷ values) = sizes_loop (size + (length value + 1)) values

unfoldable pub sizes_get : List Bytes → ℕ × ℕ
unfolding sizes_loop
sizes_get values = (length values, sizes_loop 0 values)
