-- ===== src/FileTable/Sizes.antt =====
-- wasi.go: `SizesGet` measures what the ABI writes of a list of strings.
use wasi_go.Base.{ℕ, ◌+◌, ◌≡◌, ap, List, [], ◌∷◌, ◌++◌, length, length-append, arith}
use wasi_go.File.{Bytes}
use wasi_go.FileTable.Paths.{sizes_loop, sizes_get}

-- The strings one after the other, each with a byte 0 at its end.
abbrev pub terminated : List Bytes → Bytes
terminated [] = []
terminated (value ∷ values) = value ++ 0 ∷ terminated values

sizes_loop-terminated :
    (size : ℕ) (values : List Bytes) → sizes_loop size values ≡ size + length (terminated values)
unfolding sizes_loop
sizes_loop-terminated size [] = omega arith
sizes_loop-terminated size (value ∷ values) = omega (
  arith,
  sizes_loop-terminated (size + (length value + 1)) values,
  length-append value (0 ∷ terminated values),
)

-- SizesGet returns the number of the strings, and as their size the length of all of them written
-- one after the other, each with a byte 0 at its end.
pub sizes_get-terminated :
    (values : List Bytes) → sizes_get values ≡ (length values, length (terminated values))
unfolding sizes_get
sizes_get-terminated values =
    ap (λ n. (length values, n)) (omega (arith, sizes_loop-terminated 0 values))
