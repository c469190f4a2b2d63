-- ===== src/FileTable/SocketLookups.antt =====
-- wasi.go: what `lookupSocketFD` answers, and when.
use wasi_go.Base.{
  ℕ, true, false, ◌≡◌, refl, ◌∙◌, none, some, ℤ, ok, inl, inr, Bool-cases, Option-cases, arith,
}
use wasi_go.Errno.{ebadf, enotcapable, enotsock}
use wasi_go.Rights.{has}
use wasi_go.Rights.Laws.{Subset, has-Subset}
use wasi_go.FileTable.{FileEntry, FileTable, Lookup, found, refused, lookup_socket_fd}
use wasi_go.FileTable.Lookups.{IsValid, entry, is_socket, lookup_socket_fd-checked}

module _ {File Dir : Type 0} (t : FileTable File Dir) (fd : ℤ) (rights : ℕ) where
  -- The four ways of a lookup, with the error that each of them has.
  pub data SocketLooksUp : Lookup (FileEntry File) → Type 0 where
    closed : entry t fd ≡ none → SocketLooksUp (refused ebadf)
    no_socket :
        (f : FileEntry File)
        → entry t fd ≡ some f
        → is_socket f ≡ false
        → SocketLooksUp (refused enotsock)
    lacking :
        (f : FileEntry File)
        → entry t fd ≡ some f
        → is_socket f ≡ true
        → ¬ Subset rights f.stat.rights_base
        → SocketLooksUp (refused enotcapable)
    granted :
        (f : FileEntry File)
        → entry t fd ≡ some f
        → is_socket f ≡ true
        → Subset rights f.stat.rights_base
        → SocketLooksUp (found f)

  -- On a valid table a lookup of a socket does not panic: it returns EBADF if the descriptor is
  -- not open, ENOTSOCK if it is open but not a socket, ENOTCAPABLE if it is a socket and a bit of
  -- the rights is not one of its base rights, and otherwise the entry.
  pub lookup_socket_fd-SocketLooksUp :
      IsValid t
      → (r : Lookup (FileEntry File)) × (lookup_socket_fd t fd rights ≡ ok r) × SocketLooksUp r
  lookup_socket_fd-SocketLooksUp v = elim (Option-cases (entry t fd)) [
    | inl e ↦ (refused ebadf, lookup_socket_fd-checked t fd rights v ∙ rw e refl, closed e)
    | inr (f, e) ↦ elim (Bool-cases (is_socket f)) [
      | inr other ↦ (
        refused enotsock,
        lookup_socket_fd-checked t fd rights v ∙ rw (e, other) refl,
        no_socket f e other,
      )
      | inl socket ↦ elim (Bool-cases (has f.stat.rights_base rights)) [
        | inl may ↦ (
          found f,
          lookup_socket_fd-checked t fd rights v ∙ rw (e, socket, may) refl,
          granted f e socket ((has-Subset f.stat.rights_base rights).0 may),
        )
        | inr lacks ↦ (
          refused enotcapable,
          lookup_socket_fd-checked t fd rights v ∙ rw (e, socket, lacks) refl,
          lacking f e socket λ s. ground (arith, (has-Subset f.stat.rights_base rights).1 s, lacks),
        )
      ]
    ]
  ]
