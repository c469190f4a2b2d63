-- ===== src/FileTable/Lookups.antt =====
-- The invariant of a file table, and the lookups in terms of the view of its descriptors.
use wasi_go.Base.{
  ℕ, Bool, true, false, ◌||◌, ◌==◌, ◌≡◌, ◌∙◌, refl, Option, none, some, ℤ, Run, ok, ◌>>=◌,
  if◌then◌else◌, inl, inr, Bool-cases, Option-cases, arith, ◌≢◌,
}
use wasi_go.Descriptor
use wasi_go.Descriptor.View
use wasi_go.Descriptor.View.{access-view}
use wasi_go.Errno.{esuccess, ebadf, enotcapable, enotdir, enotsock}
use wasi_go.File.{Bytes, directory_type, socket_stream_type, socket_dgram_type}
use wasi_go.Rights.{has}
use wasi_go.FileTable.{
  FileEntry, FileTable, System, Lookup, found, refused, check_rights, lookup_fd, lookup_socket_fd,
  lookup_preopen_path, is_preopen, with_fd,
}

-- Both descriptor tables are valid.
pub record IsValid {File Dir : Type 0} (t : FileTable File Dir) : Type 0 where
  pub files : View.IsValid t.files
  pub preopens : View.IsValid t.preopens

abbrev pub is_some : Option Bytes → Bool
is_some none = false
is_some (some _) = true

module _ {File : Type 0} where
  abbrev pub checked : Option (FileEntry File) → ℕ → Lookup (FileEntry File)
  checked none rights = refused ebadf
  checked (some f) rights = check_rights f rights

  abbrev pub is_socket : FileEntry File → Bool
  is_socket f = f.stat.file_type == socket_stream_type || f.stat.file_type == socket_dgram_type

  abbrev pub preopen_path : Option Bytes → Option (FileEntry File) → Lookup Bytes
  preopen_path none o = refused ebadf
  preopen_path (some path) none = refused ebadf
  preopen_path (some path) (some f) =
      if f.stat.file_type == directory_type then found path else refused enotdir

module _ {File Dir : Type 0} where
  -- The open file under a descriptor.
  abbrev pub entry : FileTable File Dir → ℤ → Option (FileEntry File)
  entry t fd = View.view t.files fd

  abbrev pub preopened : FileTable File Dir → ℤ → Option Bytes
  preopened t fd = View.view t.preopens fd

  pub lookup_fd-checked :
      (t : FileTable File Dir) (fd : ℤ) (rights : ℕ)
      → IsValid t
      → lookup_fd t fd rights ≡ ok (checked (entry t fd) rights)
  unfolding lookup_fd
  lookup_fd-checked t fd rights v = rw (access-view fd t.files v.files) (cases (entry t fd))
    where
      cases :
          (o : Option (FileEntry File))
          → (elim o [ none ↦ ok (refused ebadf) | some f ↦ ok (check_rights f rights) ])
            ≡ ok (checked o rights)
      cases none = refl
      cases (some f) = refl

  pub lookup_socket_fd-checked :
      (t : FileTable File Dir) (fd : ℤ) (rights : ℕ)
      → IsValid t
      → lookup_socket_fd t fd rights
        ≡ ok (elim (entry t fd) [
          | none ↦ refused ebadf
          | some f ↦ if is_socket f then check_rights f rights else refused enotsock
        ])
  unfolding lookup_socket_fd
  lookup_socket_fd-checked t fd rights v = rw (access-view fd t.files v.files) (cases (entry t fd))
    where
      branch :
          (b : Bool) (x y : Lookup (FileEntry File))
          → (if b then ok x else ok y) ≡ ok (if b then x else y)
      branch true x y = refl
      branch false x y = refl

      cases :
          (o : Option (FileEntry File))
          → (elim o [
            | none ↦ ok (refused ebadf)
            | some f ↦ if is_socket f then ok (check_rights f rights) else ok (refused enotsock)
          ])
            ≡ ok (elim o [
              | none ↦ refused ebadf
              | some f ↦ if is_socket f then check_rights f rights else refused enotsock
            ])
      cases none = refl
      cases (some f) = branch (is_socket f) (check_rights f rights) (refused enotsock)

  pub lookup_preopen_path-eq :
      (t : FileTable File Dir) (fd : ℤ)
      → IsValid t
      → lookup_preopen_path t fd ≡ ok (preopen_path (preopened t fd) (entry t fd))
  unfolding lookup_preopen_path Descriptor.lookup
  lookup_preopen_path-eq t fd v = rw (access-view fd t.preopens v.preopens) (paths (preopened t fd))
    where
      branch :
          (b : Bool) (x y : Lookup Bytes) → (if b then ok x else ok y) ≡ ok (if b then x else y)
      branch true x y = refl
      branch false x y = refl

      files :
          (path : Bytes) (o : Option (FileEntry File))
          → (elim o [
            | none ↦ ok (refused ebadf)
            | some f ↦
                if f.stat.file_type == directory_type then ok (found path) else ok (refused enotdir)
          ])
            ≡ ok (preopen_path (some path) o)
      files path none = refl
      files path (some f) =
          branch (f.stat.file_type == directory_type) (found path) (refused enotdir)

      paths :
          (p : Option Bytes)
          → (elim p [
            | none ↦ ok (refused ebadf)
            | some path ↦ Descriptor.access fd t.files >>= λ o. elim o [
              | none ↦ ok (refused ebadf)
              | some f ↦
                  if f.stat.file_type == directory_type
                  then ok (found path)
                  else ok (refused enotdir)
            ]
          ])
            ≡ ok (preopen_path p (entry t fd))
      paths none = refl
      paths (some path) = rw (access-view fd t.files v.files) (files path (entry t fd))

  pub is_preopen-eq :
      (t : FileTable File Dir) (fd : ℤ)
      → IsValid t
      → is_preopen t fd ≡ ok (is_some (preopened t fd))
  unfolding is_preopen
  is_preopen-eq t fd v = rw (access-view fd t.preopens v.preopens) (cases (preopened t fd))
    where
      cases : (p : Option Bytes) → (elim p [ none ↦ ok false | some _ ↦ ok true ]) ≡ ok (is_some p)
      cases none = refl
      cases (some _) = refl

module _ {ℓ} {File Dir World : Type 0} {R : Type ℓ} where
  module _ (s : System File Dir World) (fd : ℤ) (rights : ℕ) (failed : ℕ → R)
      (body : FileEntry File → Run (R × System File Dir World)) (v : IsValid s.open_files) where
    -- The three ways of a method on one descriptor.
    pub with_fd_closed :
        entry s.open_files fd ≡ none → with_fd s fd rights failed body ≡ ok (failed ebadf, s)
    unfolding with_fd
    with_fd_closed e = rw (lookup_fd-checked s.open_files fd rights v, e) refl

    pub with_fd_denied :
        (f : FileEntry File)
        → entry s.open_files fd ≡ some f
        → has f.stat.rights_base rights ≡ false
        → with_fd s fd rights failed body ≡ ok (failed enotcapable, s)
    unfolding with_fd
    with_fd_denied f e lacks = rw (lookup_fd-checked s.open_files fd rights v, e, lacks) refl

    pub with_fd_granted :
        (f : FileEntry File)
        → entry s.open_files fd ≡ some f
        → has f.stat.rights_base rights ≡ true
        → with_fd s fd rights failed body ≡ body f
    unfolding with_fd
    with_fd_granted f e holds = rw (lookup_fd-checked s.open_files fd rights v, e, holds) refl

    -- A method on one descriptor returns with `P` if it does so on an error of the lookup, and on
    -- each entry that has the rights.
    pub with_fd_rule {κ} :
        (P : R × System File Dir World → Type κ)
        → ((errno : ℕ) → errno ≢ esuccess → P (failed errno, s))
        → ((f : FileEntry File)
            → entry s.open_files fd ≡ some f
            → has f.stat.rights_base rights ≡ true
            → (r : R × System File Dir World) × (body f ≡ ok r) × P r)
        → (r : R × System File Dir World) × (with_fd s fd rights failed body ≡ ok r) × P r
    with_fd_rule P error granted = elim (Option-cases (entry s.open_files fd)) [
      | inl e ↦ ((failed ebadf, s), with_fd_closed e, error ebadf (λ e. omega arith))
      | inr (f, e) ↦ elim (Bool-cases (has f.stat.rights_base rights)) [
        | inr lacks ↦ (
          (failed enotcapable, s),
          with_fd_denied f e lacks,
          error enotcapable (λ e. omega arith),
        )
        | inl holds ↦ let (r, run, p) = granted f e holds in (r, with_fd_granted f e holds ∙ run, p)
      ]
    ]
