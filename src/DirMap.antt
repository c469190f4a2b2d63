-- ===== src/DirMap.antt =====
-- `map[FD]Dir` of wasi.go, with one entry for each key.
pub mod Laws
use wasi_go.Base.{Option, none, some, List, [], ◌∷◌, ℤ, int_eq, if◌then◌else◌}

module _ {ℓ} {Dir : Type ℓ} where
  unfoldable pub get : ℤ → List (ℤ × Dir) → Option Dir
  get fd [] = none
  get fd ((k, d) ∷ rest) = if int_eq k fd then some d else get fd rest

  -- `delete(m, fd)`
  unfoldable pub remove : ℤ → List (ℤ × Dir) → List (ℤ × Dir)
  remove fd [] = []
  remove fd ((k, d) ∷ rest) = if int_eq k fd then remove fd rest else (k, d) ∷ remove fd rest

  -- `m[fd] = d`
  unfoldable pub put : ℤ → Dir → List (ℤ × Dir) → List (ℤ × Dir)
  unfolding remove
  put fd d dirs = (fd, d) ∷ remove fd dirs
