-- ===== src/FilePath/Walk.antt =====
-- `filepath.Clean` of a relative path against a walk along its elements, which counts how far the
-- path leads above its start and below that.
use wasi_go.Base.{
  ℕ, zero, suc, Bool, true, false, not, ◌&&◌, ◌||◌, ◌==◌, ◌≡◌, refl, inl, inr, List, [], ◌∷◌, ◌++◌,
  length, replicate, if◌then◌else◌, Bool-cases, arith,
}
use wasi_go.File.{Bytes}
use wasi_go.FilePath.{bytes_eq, dot, dot_dot, elements, push_byte, clean_element, clean_elements}

-- An element that leads nowhere.
abbrev pub skips : Bytes → Bool
skips e = bytes_eq e [] || bytes_eq e dot

-- One level up from a place `up` above the start and `down` below that.
abbrev pub parent : ℕ → ℕ → ℕ × ℕ
parent up zero = (suc up, 0)
parent up (suc down) = (up, down)

unfoldable pub walk_element : ℕ → ℕ → Bytes → ℕ × ℕ
walk_element up down e =
    if skips e then (up, down) else if bytes_eq e dot_dot then parent up down else (up, suc down)

unfoldable pub walk : ℕ × ℕ → List Bytes → ℕ × ℕ
walk p [] = p
walk p (e ∷ es) = walk (walk_element p.0 p.1 e) es

-- No byte is a slash.
unfoldable pub plain : Bytes → Bool
plain [] = true
plain (c ∷ cs) = not (c == b'/') && plain cs

abbrev pub is_name : Bytes → Bool
is_name e = not (skips e) && not (bytes_eq e dot_dot) && plain e

abbrev pub all_plain : List Bytes → Bool
all_plain [] = true
all_plain (e ∷ es) = plain e && all_plain es

abbrev pub all_names : List Bytes → Bool
all_names [] = true
all_names (e ∷ es) = is_name e && all_names es

-- The kept elements of a path that leads to `p`: one `..` for each level up, then the names.
pub record Kept (p : ℕ × ℕ) (kept : List Bytes) : Type 0 where
  pub names : List Bytes
  pub are_names : all_names names ≡ true
  pub count : p.1 ≡ length names
  pub form : kept ≡ names ++ replicate p.0 dot_dot

Kept-names :
    (names : List Bytes) (up : ℕ)
    → all_names names ≡ true
    → Kept (up, length names) (names ++ replicate up dot_dot)
Kept-names names up h = record { names = names; are_names = h; count = refl; form = refl }

clean_element-Kept :
    (names : List Bytes) (up : ℕ) (e : Bytes)
    → all_names names ≡ true
    → plain e ≡ true
    → Kept
        (walk_element up (length names) e)
        (clean_element false (names ++ replicate up dot_dot) e)
unfolding walk_element clean_element replicate
clean_element-Kept [] zero e h p = elim (Bool-cases (skips e)) [
  | inl same ↦ rw same (Kept-names [] 0 refl)
  | inr other ↦ elim (Bool-cases (bytes_eq e dot_dot)) [
    | inl above ↦ rw (other, above) (Kept-names [] 1 refl)
    | inr below ↦ rw (other, below) (Kept-names (e ∷ []) 0 (rw (other, below, p) refl))
  ]
]
clean_element-Kept [] (suc up) e h p = elim (Bool-cases (skips e)) [
  | inl same ↦ rw same (Kept-names [] (suc up) refl)
  | inr other ↦ elim (Bool-cases (bytes_eq e dot_dot)) [
    | inl above ↦ rw (other, above) (Kept-names [] (suc (suc up)) refl)
    | inr below ↦ rw (other, below) (Kept-names (e ∷ []) (suc up) (rw (other, below, p) refl))
  ]
]
clean_element-Kept (name ∷ names) up e h p = elim (Bool-cases (skips e)) [
  | inl same ↦ rw same (Kept-names (name ∷ names) up h)
  | inr other ↦ elim (Bool-cases (bytes_eq e dot_dot)) [
    | inl above ↦
        rw (other, above, not_up name (all_names names) h)
          (Kept-names names up (rest_names name (all_names names) h))
    | inr below ↦ rw (other, below) (Kept-names (e ∷ name ∷ names) up (rw (other, below, p) h))
  ]
]
  where
    not_up : (name : Bytes) (b : Bool) → (is_name name && b) ≡ true → bytes_eq name dot_dot ≡ false
    not_up name b h = ground arith

    rest_names : (name : Bytes) (b : Bool) → (is_name name && b) ≡ true → b ≡ true
    rest_names name b h = ground arith

clean_elements-Kept :
    (es : List Bytes) (p : ℕ × ℕ) (kept : List Bytes)
    → Kept p kept
    → all_plain es ≡ true
    → Kept (walk p es) (clean_elements false kept es)
unfolding walk clean_elements
clean_elements-Kept [] p kept k h = k
clean_elements-Kept (e ∷ es) p kept k h =
    clean_elements-Kept es (walk_element p.0 p.1 e) (clean_element false kept e)
      (rw (k.form, k.count)
        (clean_element-Kept k.names p.0 e k.are_names (first (plain e) (all_plain es) h)))
      (second (plain e) (all_plain es) h)
  where
    first : (a b : Bool) → (a && b) ≡ true → a ≡ true
    first a b h = ground arith

    second : (a b : Bool) → (a && b) ≡ true → b ≡ true
    second a b h = ground arith

push_byte-plain :
    (c : ℕ) (es : List Bytes)
    → (c == b'/') ≡ false
    → all_plain es ≡ true
    → all_plain (push_byte c es) ≡ true
unfolding plain
push_byte-plain c [] h p = rw h refl
push_byte-plain c (e ∷ es) h p = rw h p

pub elements-plain : (path : Bytes) → all_plain (elements path) ≡ true
unfolding elements plain
elements-plain [] = refl
elements-plain (c ∷ cs) = elim (Bool-cases (c == b'/')) [
  | inl slash ↦ rw slash (elements-plain cs)
  | inr other ↦ rw other (push_byte-plain c (elements cs) other (elements-plain cs))
]

-- `Clean` keeps what the walk along the elements comes to.
pub clean_elements-walk :
    (path : Bytes) → Kept (walk (0, 0) (elements path)) (clean_elements false [] (elements path))
unfolding replicate
clean_elements-walk path =
    clean_elements-Kept (elements path) (0, 0) [] (Kept-names [] 0 refl) (elements-plain path)
