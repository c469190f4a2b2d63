-- ===== src/FileTable/Seeking.antt =====
-- wasi.go: `FDSeek` and `FDTell`, which need one of two rights.
use wasi_go.Base.{
  ℕ, Bool, true, false, not, ◌||◌, ◌&&◌, ◌==◌, ◌≡◌, refl, Option, none, some, ℤ, pos, int_eq, ok,
  if◌then◌else◌, Bool-cases, Option-cases, inl, inr,
}
use wasi_go.Errno.{ebadf, enotcapable}
use wasi_go.File.{Host, seek_current}
use wasi_go.Rights.{has, fd_seek_right, fd_tell_right}
use wasi_go.FileTable.{FileEntry, System, call_host}
use wasi_go.FileTable.Lookups.{IsValid, entry, lookup_fd-checked}
use wasi_go.FileTable.Descriptors.{lookup_seek, fd_seek}

-- Whether rights suffice for a seek by `delta` from `whence`.
abbrev pub may_seek : ℕ → ℤ → ℕ → Bool
may_seek rights delta whence =
    has rights fd_seek_right
    || has rights fd_tell_right && (int_eq delta (pos 0) || whence == seek_current)

module _ {File Dir World : Type 0} (h : Host File Dir World) where
  abbrev pub sought :
      Option (FileEntry File) → ℤ → ℕ → System File Dir World → (ℕ × ℕ) × System File Dir World
  sought none delta whence s = ((0, ebadf), s)
  sought (some f) delta whence s =
      if may_seek f.stat.rights_base delta whence
      then (
        (h.seek f.file delta whence s.world).0,
        record s { world = (h.seek f.file delta whence s.world).1 },
      )
      else ((0, enotcapable), s)

  -- On a valid table FDSeek returns EBADF if the descriptor is not open; it asks the host if the
  -- descriptor has the right to seek, or if it has the right to tell and the delta is 0 or
  -- relative to the current offset; otherwise it returns ENOTCAPABLE with no effect.
  pub fd_seek-sought :
      (fd : ℤ) (delta : ℤ) (whence : ℕ) (s : System File Dir World)
      → IsValid s.open_files
      → fd_seek h fd delta whence s ≡ ok (sought (entry s.open_files fd) delta whence s)
  unfolding fd_seek lookup_seek call_host
  fd_seek-sought fd delta whence s v =
      let seek_lookup = lookup_fd-checked s.open_files fd fd_seek_right v in
      let tell_lookup = lookup_fd-checked s.open_files fd fd_tell_right v in
      elim (Option-cases (entry s.open_files fd)) [
        | inl e ↦ rw (seek_lookup, e) refl
        | inr (f, e) ↦ elim (Bool-cases (has f.stat.rights_base fd_seek_right)) [
          | inl seek ↦ rw (seek_lookup, e, seek) refl
          | inr fixed ↦ elim (Bool-cases (int_eq delta (pos 0) || whence == seek_current)) [
            | inr away ↦
                rw
                  (
                    seek_lookup,
                    e,
                    fixed,
                    both (int_eq delta (pos 0)) (whence == seek_current),
                    away,
                  )
                  (at_away _ (has f.stat.rights_base fd_tell_right))
            | inl near ↦ elim (Bool-cases (has f.stat.rights_base fd_tell_right)) [
              | inl tell ↦
                  rw
                    (
                      seek_lookup,
                      e,
                      fixed,
                      both (int_eq delta (pos 0)) (whence == seek_current),
                      near,
                      tell_lookup,
                      e,
                      tell,
                    )
                    refl
              | inr mute ↦
                  rw
                    (
                      seek_lookup,
                      e,
                      fixed,
                      both (int_eq delta (pos 0)) (whence == seek_current),
                      near,
                      tell_lookup,
                      e,
                      mute,
                    )
                    refl
            ]
          ]
        ]
      ]
    where
      both : (a b : Bool) → (not a && not b) ≡ not (a || b)
      both true b = refl
      both false b = refl

      at_away :
          (y : (ℕ × ℕ) × System File Dir World) (b : Bool)
          → ok ((0, enotcapable), s) ≡ ok (if b && false then y else ((0, enotcapable), s))
      at_away y true = refl
      at_away y false = refl
