-- ===== src/FileTable/Guards.antt =====
-- wasi.go: the methods that hand one call over to the file under a descriptor.
use wasi_go.Base.{
  ℕ, bit_or, ◌≡◌, refl, ◌∙◌, ap, Option, none, some, List, ℤ, Run, ok, panic, unfinished,
  if◌then◌else◌, Bool-cases, Option-cases, inl, inr,
}
use wasi_go.Errno.{ebadf, enotcapable}
use wasi_go.File.{Bytes, FileStat, no_file_stat, Host}
use wasi_go.Rights.{
  has, fd_advise_right, fd_allocate_right, fd_data_sync_right, fd_file_stat_set_size_right,
  fd_file_stat_set_times_right, fd_read_right, fd_seek_right, fd_write_right, fd_sync_right,
  path_create_directory_right, path_file_stat_get_right, path_file_stat_set_times_right,
  path_read_link_right, path_remove_directory_right, path_symlink_right, path_unlink_file_right,
}
use wasi_go.FileTable.{FileEntry, System, with_fd, call_host}
use wasi_go.FileTable.Lookups.{IsValid, entry, with_fd_closed, with_fd_denied, with_fd_granted}
use wasi_go.FileTable.Descriptors.{
  fd_advise, fd_allocate, fd_data_sync, fd_file_stat_set_size, fd_file_stat_set_times, fd_pread,
  fd_pwrite, fd_read, fd_write, fd_sync,
}
use wasi_go.FileTable.Paths.{
  path_create_directory, path_file_stat_get, path_file_stat_set_times, path_read_link,
  path_remove_directory, path_symlink, path_unlink_file,
}

-- A call on one descriptor that the table hands over to the file.
pub data Call : Type 0 where
  advise : ℕ → ℕ → ℕ → Call
  allocate : ℕ → ℕ → Call
  data_sync : Call
  set_size : ℕ → Call
  set_times : ℕ → ℕ → ℕ → Call
  pread pwrite : List ℕ → ℕ → Call
  read write : List ℕ → Call
  sync_all : Call
  create_directory : Bytes → Call
  path_stat_get : ℕ → Bytes → Call
  path_set_times : ℕ → Bytes → ℕ → ℕ → ℕ → Call
  read_link : Bytes → ℕ → Call
  remove_directory : Bytes → Call
  symlink : Bytes → Bytes → Call
  unlink_file : Bytes → Call

-- What a call returns: an error number, with a size or a stat.
pub data Reply : Type 0 where
  status : ℕ → Reply
  sized : ℕ × ℕ → Reply
  described : FileStat × ℕ → Reply

-- The rights that a call needs.
abbrev pub needs : Call → ℕ
needs (advise offset size advice) = fd_advise_right
needs (allocate offset size) = fd_allocate_right
needs data_sync = fd_data_sync_right
needs (set_size size) = fd_file_stat_set_size_right
needs (set_times a m flags) = fd_file_stat_set_times_right
needs (pread iovecs offset) = bit_or fd_read_right fd_seek_right
needs (pwrite iovecs offset) = bit_or fd_write_right fd_seek_right
needs (read iovecs) = fd_read_right
needs (write iovecs) = fd_write_right
needs sync_all = fd_sync_right
needs (create_directory path) = path_create_directory_right
needs (path_stat_get flags path) = path_file_stat_get_right
needs (path_set_times flags path a m fst) = path_file_stat_set_times_right
needs (read_link path buffer) = path_read_link_right
needs (remove_directory path) = path_remove_directory_right
needs (symlink old new) = path_symlink_right
needs (unlink_file path) = path_unlink_file_right

-- The reply of a call that fails with an error number.
abbrev pub failure : Call → ℕ → Reply
failure (pread iovecs offset) e = sized (0, e)
failure (pwrite iovecs offset) e = sized (0, e)
failure (read iovecs) e = sized (0, e)
failure (write iovecs) e = sized (0, e)
failure (path_stat_get flags path) e = described (no_file_stat, e)
failure (read_link path buffer) e = sized (0, e)
failure _ e = status e

module _ {ℓ κ} {R : Type ℓ} {T : Type κ} where
  abbrev wrap {ι} : {S : Type ι} → (R → T) → R × S → T × S
  wrap g (r, s) = (g r, s)

  abbrev wrap_run {ι} : {S : Type ι} → (R → T) → Run (R × S) → Run (T × S)
  wrap_run g (ok p) = ok (wrap g p)
  wrap_run g panic = panic
  wrap_run g unfinished = unfinished

module _ {File Dir World : Type 0} (h : Host File Dir World) where
  -- The method of the file itself.
  abbrev pub method : Call → File → World → Reply × World
  method (advise offset size advice) f w = wrap status (h.advise f offset size advice w)
  method (allocate offset size) f w = wrap status (h.allocate f offset size w)
  method data_sync f w = wrap status (h.data_sync f w)
  method (set_size size) f w = wrap status (h.file_stat_set_size f size w)
  method (set_times a m flags) f w = wrap status (h.file_stat_set_times f a m flags w)
  method (pread iovecs offset) f w = wrap sized (h.pread f iovecs offset w)
  method (pwrite iovecs offset) f w = wrap sized (h.pwrite f iovecs offset w)
  method (read iovecs) f w = wrap sized (h.read f iovecs w)
  method (write iovecs) f w = wrap sized (h.write f iovecs w)
  method sync_all f w = wrap status (h.sync_file f w)
  method (create_directory path) f w = wrap status (h.create_directory f path w)
  method (path_stat_get flags path) f w = wrap described (h.path_stat_get f flags path w)
  method (path_set_times flags path a m fst) f w =
      wrap status (h.path_stat_set_times f flags path a m fst w)
  method (read_link path buffer) f w = wrap sized (h.read_link f path buffer w)
  method (remove_directory path) f w = wrap status (h.remove_directory f path w)
  method (symlink old new) f w = wrap status (h.symlink f old new w)
  method (unlink_file path) f w = wrap status (h.unlink_file f path w)

  -- The method of the table.
  pub perform : ℤ → Call → System File Dir World → Run (Reply × System File Dir World)
  perform fd (advise offset size advice) s = wrap_run status (fd_advise h fd offset size advice s)
  perform fd (allocate offset size) s = wrap_run status (fd_allocate h fd offset size s)
  perform fd data_sync s = wrap_run status (fd_data_sync h fd s)
  perform fd (set_size size) s = wrap_run status (fd_file_stat_set_size h fd size s)
  perform fd (set_times a m flags) s = wrap_run status (fd_file_stat_set_times h fd a m flags s)
  perform fd (pread iovecs offset) s = wrap_run sized (fd_pread h fd iovecs offset s)
  perform fd (pwrite iovecs offset) s = wrap_run sized (fd_pwrite h fd iovecs offset s)
  perform fd (read iovecs) s = wrap_run sized (fd_read h fd iovecs s)
  perform fd (write iovecs) s = wrap_run sized (fd_write h fd iovecs s)
  perform fd sync_all s = wrap_run status (fd_sync h fd s)
  perform fd (create_directory path) s = wrap_run status (path_create_directory h fd path s)
  perform fd (path_stat_get flags path) s =
      wrap_run described (path_file_stat_get h fd flags path s)
  perform fd (path_set_times flags path a m fst) s =
      wrap_run status (path_file_stat_set_times h fd flags path a m fst s)
  perform fd (read_link path buffer) s = wrap_run sized (path_read_link h fd path buffer s)
  perform fd (remove_directory path) s = wrap_run status (path_remove_directory h fd path s)
  perform fd (symlink old new) s = wrap_run status (path_symlink h old fd new s)
  perform fd (unlink_file path) s = wrap_run status (path_unlink_file h fd path s)

module _ {File Dir World : Type 0} where
  -- A call with a capability check: an error and no effect, or the method of the file and its
  -- effect on the host, with the table as it was.
  abbrev pub guarded {ℓ} :
      {R : Type ℓ}
      → Option (FileEntry File)
      → ℕ
      → (ℕ → R)
      → (File → World → R × World)
      → System File Dir World
      → R × System File Dir World
  guarded none rights failed run s = (failed ebadf, s)
  guarded (some f) rights failed run s =
      if has f.stat.rights_base rights
      then ((run f.file s.world).0, record s { world = (run f.file s.world).1 })
      else (failed enotcapable, s)

  pub hand_over_lem {ℓ} :
      {R : Type ℓ} (s : System File Dir World) (fd : ℤ) (rights : ℕ) (failed : ℕ → R)
      (run : File → World → R × World)
      → IsValid s.open_files
      → (with_fd s fd rights failed λ f. call_host s (run f.file))
        ≡ ok (guarded (entry s.open_files fd) rights failed run s)
  unfolding call_host
  hand_over_lem s fd rights failed run v =
      let body = λ (f : FileEntry File). call_host s (run f.file) in
      elim (Option-cases (entry s.open_files fd)) [
        | inl e ↦ rw (e, with_fd_closed s fd rights failed body v e) refl
        | inr (f, e) ↦ elim (Bool-cases (has f.stat.rights_base rights)) [
          | inl holds ↦ rw (e, with_fd_granted s fd rights failed body v f e holds, holds) refl
          | inr lacks ↦ rw (e, with_fd_denied s fd rights failed body v f e lacks, lacks) refl
        ]
      ]

  module _ {ℓ κ} {R : Type ℓ} {T : Type κ} (g : R → T) where
    wrap-guarded :
        (o : Option (FileEntry File)) (rights : ℕ) (failed : ℕ → R) (run : File → World → R × World)
        (s : System File Dir World)
        → wrap g (guarded o rights failed run s)
          ≡ guarded o rights (λ e. g (failed e)) (λ f w. wrap g (run f w)) s
    wrap-guarded none rights failed run s = refl
    wrap-guarded (some f) rights failed run s = elim (Bool-cases (has f.stat.rights_base rights)) [
      | inl holds ↦ rw holds refl
      | inr lacks ↦ rw lacks refl
    ]

    hand_over-guarded :
        (s : System File Dir World) (fd : ℤ) (rights : ℕ) (failed : ℕ → R)
        (run : File → World → R × World)
        → IsValid s.open_files
        → wrap_run g (with_fd s fd rights failed λ f. call_host s (run f.file))
          ≡ ok (
              guarded
                (entry s.open_files fd)
                rights
                (λ e. g (failed e))
                (λ f w. wrap g (run f w))
                s)
    hand_over-guarded s fd rights failed run v =
        ap (wrap_run g) (hand_over_lem s fd rights failed run v)
        ∙ ap ok (wrap-guarded (entry s.open_files fd) rights failed run s)

module _ {File Dir World : Type 0} (h : Host File Dir World) where
  -- On a valid table, each call that is handed over to the file of one descriptor returns EBADF if
  -- the descriptor is not open and ENOTCAPABLE if it lacks a right that the call needs, with no
  -- effect; otherwise it returns what the method of the file returns, with its effect on the host,
  -- and leaves the table alone.
  pub perform-guarded :
      (fd : ℤ) (c : Call) (s : System File Dir World)
      → IsValid s.open_files
      → perform h fd c s ≡ ok (guarded (entry s.open_files fd) (needs c) (failure c) (method h c) s)
  unfolding perform fd_advise fd_allocate fd_data_sync fd_file_stat_set_size fd_file_stat_set_times
      fd_pread fd_pwrite fd_read fd_write fd_sync path_create_directory path_file_stat_get
      path_file_stat_set_times path_read_link path_remove_directory path_symlink path_unlink_file
  perform-guarded fd (advise offset size advice) s v =
      hand_over-guarded _ s fd _ _ (λ f. h.advise f offset size advice) v
  perform-guarded fd (allocate offset size) s v =
      hand_over-guarded _ s fd _ _ (λ f. h.allocate f offset size) v
  perform-guarded fd data_sync s v = hand_over-guarded _ s fd _ _ h.data_sync v
  perform-guarded fd (set_size size) s v =
      hand_over-guarded _ s fd _ _ (λ f. h.file_stat_set_size f size) v
  perform-guarded fd (set_times a m flags) s v =
      hand_over-guarded _ s fd _ _ (λ f. h.file_stat_set_times f a m flags) v
  perform-guarded fd (pread iovecs offset) s v =
      hand_over-guarded _ s fd _ _ (λ f. h.pread f iovecs offset) v
  perform-guarded fd (pwrite iovecs offset) s v =
      hand_over-guarded _ s fd _ _ (λ f. h.pwrite f iovecs offset) v
  perform-guarded fd (read iovecs) s v = hand_over-guarded _ s fd _ _ (λ f. h.read f iovecs) v
  perform-guarded fd (write iovecs) s v = hand_over-guarded _ s fd _ _ (λ f. h.write f iovecs) v
  perform-guarded fd sync_all s v = hand_over-guarded _ s fd _ _ h.sync_file v
  perform-guarded fd (create_directory path) s v =
      hand_over-guarded _ s fd _ _ (λ f. h.create_directory f path) v
  perform-guarded fd (path_stat_get flags path) s v =
      hand_over-guarded _ s fd _ _ (λ f. h.path_stat_get f flags path) v
  perform-guarded fd (path_set_times flags path a m fst) s v =
      hand_over-guarded _ s fd _ _ (λ f. h.path_stat_set_times f flags path a m fst) v
  perform-guarded fd (read_link path buffer) s v =
      hand_over-guarded _ s fd _ _ (λ f. h.read_link f path buffer) v
  perform-guarded fd (remove_directory path) s v =
      hand_over-guarded _ s fd _ _ (λ f. h.remove_directory f path) v
  perform-guarded fd (symlink old new) s v =
      hand_over-guarded _ s fd _ _ (λ f. h.symlink f old new) v
  perform-guarded fd (unlink_file path) s v =
      hand_over-guarded _ s fd _ _ (λ f. h.unlink_file f path) v
