-- ===== src/FileTable/PairGuards.antt =====
-- wasi.go: the methods on two directories.
use wasi_go.Base.{
  ℕ, ◌≡◌, refl, ◌∙◌, Option, none, some, ℤ, ok, if◌then◌else◌, Bool-cases, Option-cases, inl, inr,
}
use wasi_go.Errno.{ebadf, enotcapable}
use wasi_go.File.{Bytes, Host}
use wasi_go.Rights.{
  has, path_link_source_right, path_link_target_right, path_rename_source_right,
  path_rename_target_right,
}
use wasi_go.FileTable.{FileEntry, System, with_fd, call_host}
use wasi_go.FileTable.Lookups.{IsValid, entry, with_fd_closed, with_fd_denied, with_fd_granted}
use wasi_go.FileTable.Paths.{path_link, path_rename}
use wasi_go.FileTable.Guards.{guarded, hand_over_lem}

module _ {File Dir World : Type 0} (h : Host File Dir World) where
  -- The calls on two directories check both, the first one first.
  abbrev pub guarded_pair :
      Option (FileEntry File)
      → Option (FileEntry File)
      → ℕ
      → ℕ
      → (File → File → World → ℕ × World)
      → System File Dir World
      → ℕ × System File Dir World
  guarded_pair none o rights rights' run s = (ebadf, s)
  guarded_pair (some f) o rights rights' run s =
      if has f.stat.rights_base rights
      then guarded o rights' (λ e. e) (run f.file) s
      else (enotcapable, s)

  hand_over_pair :
      (s : System File Dir World) (fd new_fd : ℤ) (rights rights' : ℕ)
      (run : File → File → World → ℕ × World)
      → IsValid s.open_files
      → (with_fd s fd rights
          (λ e. e)
          λ d. with_fd s new_fd rights' (λ e. e) λ d'. call_host s (run d.file d'.file))
        ≡ ok (guarded_pair (entry s.open_files fd) (entry s.open_files new_fd) rights rights' run s)
  hand_over_pair s fd new_fd rights rights' run v =
      let body = λ (d : FileEntry File).
        with_fd s new_fd rights' (λ e. e) (λ d'. call_host s (run d.file d'.file)) in
      elim (Option-cases (entry s.open_files fd)) [
        | inl e ↦ rw (e, with_fd_closed s fd rights (λ e. e) body v e) refl
        | inr (f, e) ↦ elim (Bool-cases (has f.stat.rights_base rights)) [
          | inl holds ↦
              with_fd_granted s fd rights (λ e. e) body v f e holds
              ∙ hand_over_lem s new_fd rights' (λ e. e) (run f.file) v
              ∙ rw (e, holds) refl
          | inr lacks ↦ rw (e, with_fd_denied s fd rights (λ e. e) body v f e lacks, lacks) refl
        ]
      ]

  -- On a valid table PathLink and PathRename reach the host only if the first descriptor is open
  -- with the right of a source and the second with the right of a target; the errors are EBADF and
  -- ENOTCAPABLE, with no effect, and those of the first descriptor come first.
  pub path_link_rename-guarded :
      (fd new_fd : ℤ) (flags : ℕ) (old new : Bytes) (s : System File Dir World)
      → IsValid s.open_files
      → let source = entry s.open_files fd in
        let target = entry s.open_files new_fd in
        (path_link h fd flags old new_fd new s
          ≡ ok (
              guarded_pair source target path_link_source_right path_link_target_right
                (λ d d'. h.link d flags old d' new)
                s))
        × (path_rename h fd old new_fd new s
            ≡ ok (
                guarded_pair source target path_rename_source_right path_rename_target_right
                  (λ d d'. h.rename d old d' new)
                  s))
  unfolding path_link path_rename
  path_link_rename-guarded fd new_fd flags old new s v = (
    hand_over_pair s fd new_fd path_link_source_right path_link_target_right
        (λ d d'. h.link d flags old d' new) v,
    hand_over_pair s fd new_fd path_rename_source_right path_rename_target_right
        (λ d d'. h.rename d old d' new) v,
  )
