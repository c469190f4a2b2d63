-- ===== src/FileTable/Descriptors.antt =====
-- wasi.go: the methods of `FileTable` on one descriptor, from `FDAdvise` to `FDTell`, other than
-- those that close, renumber or list. Each looks the descriptor up under the rights that it needs.
use wasi_go.Base.{
  ℕ, ◌&&◌, ◌||◌, not, ◌==◌, bit_and, bit_or, bit_xor, ◌^◌, if◌then◌else◌, List, [], length, ℤ, pos,
  ◌%◌, Run, ok, ◌>>=◌, int_eq,
}
use wasi_go.Bits.{and_not}
use wasi_go.Descriptor
use wasi_go.Errno.{esuccess, enosys, enotcapable}
use wasi_go.Rights.{
  has, all_rights, fd_advise_right, fd_allocate_right, fd_data_sync_right, fd_stat_set_flags_right,
  fd_file_stat_set_size_right, fd_file_stat_get_right, fd_file_stat_set_times_right, fd_read_right,
  fd_seek_right, fd_write_right, fd_sync_right, fd_tell_right,
}
use wasi_go.File.{
  Bytes, FileStat, no_file_stat, FdStat, no_fd_stat, PreStat, Host, dsync, rsync, sync,
  unknown_type, character_device_type, seek_current,
}
use wasi_go.FileTable.{
  FileEntry, FileTable, System, Lookup, found, refused, lookup_fd, lookup_preopen_path, with_fd,
  call_host,
}

abbrev pub narrowed : FdStat → ℕ → ℕ → FdStat
narrowed stat base inheriting = record stat {
  rights_base = bit_and stat.rights_base base;
  rights_inheriting = bit_and stat.rights_inheriting inheriting;
}

abbrev pub flipped : FdStat → ℕ → FdStat
flipped stat changes = record stat { flags = bit_xor stat.flags changes }

-- Of a character device or an unknown file the size and the times are reported as 0.
abbrev pub stdio_stat : FileStat → FileStat
stdio_stat stat =
    if stat.file_type == character_device_type || stat.file_type == unknown_type
    then record stat { size = 0; access_time = 0; modify_time = 0; change_time = 0 }
    else stat

module _ {File Dir World : Type 0} where
  -- `f.stat = stat` through the pointer that the lookup of `fd` returned.
  abbrev pub set_stat : System File Dir World → ℤ → FileEntry File → FdStat → System File Dir World
  set_stat s fd f stat =
      let t = s.open_files in
      record s {
        open_files = record t { files = Descriptor.modify fd (record f { stat = stat }) t.files };
      }

  unfoldable pub fd_stat_get :
      ℤ → System File Dir World → Run ((FdStat × ℕ) × System File Dir World)
  unfolding with_fd
  fd_stat_get fd s = with_fd s fd 0 (λ e. (no_fd_stat, e)) λ f. ok ((f.stat, esuccess), s)

  -- `FDStatSetRights` on the entry `f`: rights can only be preserved or removed, not added.
  unfoldable pub set_rights_of :
      ℤ → ℕ → ℕ → System File Dir World → FileEntry File → Run (ℕ × System File Dir World)
  set_rights_of fd rights_base rights_inheriting s f =
      let base = bit_and rights_base all_rights in
      let inheriting = bit_and rights_inheriting all_rights in
      if not (and_not 64 base f.stat.rights_base == 0)
      then ok (enotcapable, s)
      else if not (and_not 64 inheriting f.stat.rights_inheriting == 0)
      then ok (enotcapable, s)
      else ok (esuccess, set_stat s fd f (narrowed f.stat base inheriting))

  unfoldable pub fd_stat_set_rights :
      ℤ → ℕ → ℕ → System File Dir World → Run (ℕ × System File Dir World)
  unfolding with_fd set_rights_of
  fd_stat_set_rights fd rights_base rights_inheriting s =
      with_fd s fd 0 (λ e. e) (set_rights_of fd rights_base rights_inheriting s)

  unfoldable pub fd_pre_stat_get :
      ℤ → System File Dir World → Run ((PreStat × ℕ) × System File Dir World)
  fd_pre_stat_get fd s = do
    path ← lookup_preopen_path s.open_files fd
    elim path [
      | refused e ↦ ok ((record { type = 0; name_length = 0 }, e), s)
      | found path ↦ ok ((record { type = 0; name_length = length path % 2 ^ 32 }, esuccess), s)
    ]

  unfoldable pub fd_pre_stat_dir_name :
      ℤ → System File Dir World → Run ((Bytes × ℕ) × System File Dir World)
  fd_pre_stat_dir_name fd s = do
    path ← lookup_preopen_path s.open_files fd
    elim path [ refused e ↦ ok (([], e), s) | found path ↦ ok ((path, esuccess), s) ]

module _ {File Dir World : Type 0} (h : Host File Dir World) where
  unfoldable pub fd_advise : ℤ → ℕ → ℕ → ℕ → System File Dir World → Run (ℕ × System File Dir World)
  unfolding with_fd call_host
  fd_advise fd offset size advice s =
      with_fd s fd fd_advise_right (λ e. e) λ f. call_host s (h.advise f.file offset size advice)

  unfoldable pub fd_allocate : ℤ → ℕ → ℕ → System File Dir World → Run (ℕ × System File Dir World)
  unfolding with_fd call_host
  fd_allocate fd offset size s =
      with_fd s fd fd_allocate_right (λ e. e) λ f. call_host s (h.allocate f.file offset size)

  unfoldable pub fd_data_sync : ℤ → System File Dir World → Run (ℕ × System File Dir World)
  unfolding with_fd call_host
  fd_data_sync fd s = with_fd s fd fd_data_sync_right (λ e. e) λ f. call_host s (h.data_sync f.file)

  -- `FDStatSetFlags` on the entry `f`.
  unfoldable pub set_flags_of :
      ℤ → ℕ → System File Dir World → FileEntry File → Run (ℕ × System File Dir World)
  set_flags_of fd flags s f =
      let changes = bit_xor flags f.stat.flags in
      if changes == 0
      then ok (esuccess, s)
      else if has changes (bit_or sync (bit_or dsync rsync))
      then ok (enosys, s)
      else (let (errno, w) = h.stat_set_flags f.file flags s.world in
          let s' = record s { world = w } in
          if not (errno == esuccess)
          then ok (errno, s')
          else ok (esuccess, set_stat s' fd f (flipped f.stat changes)))

  unfoldable pub fd_stat_set_flags : ℤ → ℕ → System File Dir World → Run (ℕ × System File Dir World)
  unfolding with_fd set_flags_of
  fd_stat_set_flags fd flags s =
      with_fd s fd fd_stat_set_flags_right (λ e. e) (set_flags_of fd flags s)

  unfoldable pub fd_file_stat_set_size :
      ℤ → ℕ → System File Dir World → Run (ℕ × System File Dir World)
  unfolding with_fd call_host
  fd_file_stat_set_size fd size s =
      with_fd s fd fd_file_stat_set_size_right (λ e. e)
        λ f. call_host s (h.file_stat_set_size f.file size)

  unfoldable pub fd_file_stat_get :
      ℤ → System File Dir World → Run ((FileStat × ℕ) × System File Dir World)
  unfolding with_fd
  fd_file_stat_get fd s =
      with_fd s fd fd_file_stat_get_right (λ e. (no_file_stat, e))
        λ f.
          let r = h.file_stat_get f.file s.world in
          let s' = record s { world = r.1 } in
          if not (r.0.1 == esuccess)
          then ok ((no_file_stat, r.0.1), s')
          else ok ((stdio_stat r.0.0, esuccess), s')

  unfoldable pub fd_file_stat_set_times :
      ℤ → ℕ → ℕ → ℕ → System File Dir World → Run (ℕ × System File Dir World)
  unfolding with_fd call_host
  fd_file_stat_set_times fd access_time modify_time flags s =
      with_fd s fd fd_file_stat_set_times_right (λ e. e)
        λ f. call_host s (h.file_stat_set_times f.file access_time modify_time flags)

  unfoldable pub fd_pread :
      ℤ → List ℕ → ℕ → System File Dir World → Run ((ℕ × ℕ) × System File Dir World)
  unfolding with_fd call_host
  fd_pread fd iovecs offset s =
      with_fd s fd (bit_or fd_read_right fd_seek_right) (λ e. (0, e))
        λ f. call_host s (h.pread f.file iovecs offset)

  unfoldable pub fd_pwrite :
      ℤ → List ℕ → ℕ → System File Dir World → Run ((ℕ × ℕ) × System File Dir World)
  unfolding with_fd call_host
  fd_pwrite fd iovecs offset s =
      with_fd s fd (bit_or fd_write_right fd_seek_right) (λ e. (0, e))
        λ f. call_host s (h.pwrite f.file iovecs offset)

  unfoldable pub fd_read :
      ℤ → List ℕ → System File Dir World → Run ((ℕ × ℕ) × System File Dir World)
  unfolding with_fd call_host
  fd_read fd iovecs s =
      with_fd s fd fd_read_right (λ e. (0, e)) λ f. call_host s (h.read f.file iovecs)

  unfoldable pub fd_write :
      ℤ → List ℕ → System File Dir World → Run ((ℕ × ℕ) × System File Dir World)
  unfolding with_fd call_host
  fd_write fd iovecs s =
      with_fd s fd fd_write_right (λ e. (0, e)) λ f. call_host s (h.write f.file iovecs)

  unfoldable pub fd_sync : ℤ → System File Dir World → Run (ℕ × System File Dir World)
  unfolding with_fd call_host
  fd_sync fd s = with_fd s fd fd_sync_right (λ e. e) λ f. call_host s (h.sync_file f.file)

  -- The two lookups of `FDSeek`.
  unfoldable pub lookup_seek : FileTable File Dir → ℤ → ℤ → ℕ → Run (Lookup (FileEntry File))
  lookup_seek t fd delta whence = do
    f ← lookup_fd t fd fd_seek_right
    elim f [
      | found f ↦ ok (found f)
      | refused e ↦
          if not (e == enotcapable) || not (int_eq delta (pos 0)) && not (whence == seek_current)
          then ok (refused e)
          else lookup_fd t fd fd_tell_right
    ]

  unfoldable pub fd_seek : ℤ → ℤ → ℕ → System File Dir World → Run ((ℕ × ℕ) × System File Dir World)
  unfolding lookup_seek call_host
  fd_seek fd delta whence s = do
    f ← lookup_seek s.open_files fd delta whence
    elim f [ refused e ↦ ok ((0, e), s) | found f ↦ call_host s (h.seek f.file delta whence) ]

  unfoldable pub fd_tell : ℤ → System File Dir World → Run ((ℕ × ℕ) × System File Dir World)
  unfolding fd_seek
  fd_tell fd s = fd_seek fd (pos 0) seek_current s
