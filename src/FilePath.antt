-- ===== src/FilePath.antt =====
-- What wasi.go uses of Go's path/filepath and strings on Unix: `filepath.Clean` and
-- `strings.HasPrefix`, over byte strings. `Clean` follows its documented rules, one path element at
-- a time.
pub mod Walk
pub mod Joined
use wasi_go.Base.{
  ℕ, zero, suc, Bool, true, false, ◌&&◌, ◌||◌, ◌==◌, if◌then◌else◌, List, [], ◌∷◌, ◌++◌,
}
use wasi_go.File.{Bytes}

unfoldable pub bytes_eq : Bytes → Bytes → Bool
bytes_eq [] [] = true
bytes_eq [] (y ∷ ys) = false
bytes_eq (x ∷ xs) [] = false
bytes_eq (x ∷ xs) (y ∷ ys) = x == y && bytes_eq xs ys

unfoldable pub has_prefix : Bytes → Bytes → Bool
has_prefix s [] = true
has_prefix [] (p ∷ ps) = false
has_prefix (c ∷ cs) (p ∷ ps) = c == p && has_prefix cs ps

abbrev pub dot : Bytes
dot = b'.' ∷ []

abbrev pub dot_dot : Bytes
dot_dot = b'.' ∷ b'.' ∷ []

abbrev pub slash : Bytes
slash = b'/' ∷ []

-- A byte joins the first element; a slash begins a new one.
abbrev pub push_byte : ℕ → List Bytes → List Bytes
push_byte c [] = (c ∷ []) ∷ []
push_byte c (e ∷ es) = (c ∷ e) ∷ es

-- The elements between slashes, empty ones included.
unfoldable pub elements : Bytes → List Bytes
elements [] = [] ∷ []
elements (c ∷ cs) = let rest = elements cs in if c == b'/' then [] ∷ rest else push_byte c rest

-- One element against those kept so far, the last one first.
unfoldable pub clean_element : Bool → List Bytes → Bytes → List Bytes
unfolding bytes_eq
clean_element rooted [] e =
    if bytes_eq e [] || bytes_eq e dot
    then []
    else if bytes_eq e dot_dot
    then (if rooted then [] else dot_dot ∷ [])
    else e ∷ []
clean_element rooted (top ∷ kept) e =
    if bytes_eq e [] || bytes_eq e dot
    then top ∷ kept
    else if bytes_eq e dot_dot
    then (if bytes_eq top dot_dot then dot_dot ∷ top ∷ kept else kept)
    else e ∷ top ∷ kept

unfoldable pub clean_elements : Bool → List Bytes → List Bytes → List Bytes
clean_elements rooted kept [] = kept
clean_elements rooted kept (e ∷ es) = clean_elements rooted (clean_element rooted kept e) es

-- The kept elements in their order, joined by slashes.
unfoldable pub join : List Bytes → Bytes → Bytes
join [] tail = tail
join (e ∷ []) tail = e ++ tail
join (e ∷ next ∷ kept) tail = join (next ∷ kept) (slash ++ e ++ tail)

abbrev pub or_dot : Bytes → Bytes
or_dot [] = dot
or_dot (c ∷ cs) = c ∷ cs

unfoldable pub clean : Bytes → Bytes
unfolding has_prefix elements clean_element clean_elements join
clean path =
    let rooted = has_prefix path slash in
    let kept = clean_elements rooted [] (elements path) in
    or_dot (if rooted then slash ++ join kept [] else join kept [])
