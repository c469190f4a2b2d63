-- ===== src/FilePath/Joined.antt =====
-- The beginning of a cleaned path, from its first element.
use wasi_go.Base.{
  ℕ, zero, suc, ◌+◌, Bool, true, false, ◌&&◌, ◌||◌, ◌==◌, ltb, ◌≡◌, refl, sym, ◌∙◌, ap, inl, inr,
  List, [], ◌∷◌, ◌++◌, length, replicate, Bool-cases, arith,
}
use wasi_go.File.{Bytes}
use wasi_go.FilePath.{
  bytes_eq, has_prefix, dot_dot, slash, elements, clean_elements, join, or_dot, clean,
}
use wasi_go.FilePath.Walk.{plain, is_name, all_names, walk, clean_elements-walk}

-- What follows the first element in a joined path.
abbrev after : List Bytes → Bytes → Bytes
after [] tail = tail
after (e ∷ kept) tail = after kept (slash ++ e ++ tail)

join-after :
    (kept : List Bytes) (f tail : Bytes) → join (kept ++ f ∷ []) tail ≡ f ++ after kept tail
unfolding join
join-after [] f tail = refl
join-after (e ∷ []) f tail = refl
join-after (e ∷ k ∷ kept) f tail = join-after (k ∷ kept) f (slash ++ e ++ tail)

after-slash :
    (kept : List Bytes) (tail : Bytes)
    → has_prefix tail slash ≡ true
    → has_prefix (after kept tail) slash ≡ true
unfolding has_prefix
after-slash [] tail h = h
after-slash (e ∷ kept) tail h = after-slash kept (slash ++ e ++ tail) refl

-- It begins with a slash if there is anything.
after_kept : (e : Bytes) (kept : List Bytes) → has_prefix (after (e ∷ kept) []) slash ≡ true
unfolding has_prefix
after_kept e kept = after-slash kept (slash ++ e ++ []) refl

abbrev pub outer : Bytes
outer = b'.' ∷ b'.' ∷ b'/' ∷ []

-- A path that begins with a name and then ends or has a slash.
name_first :
    (f rest : Bytes)
    → is_name f ≡ true
    → has_prefix rest (b'.' ∷ []) ≡ false
    → (has_prefix (f ++ rest) slash ≡ false) × (has_prefix (f ++ rest) outer ≡ false)
unfolding has_prefix plain bytes_eq
name_first [] rest h r = cc
name_first (a ∷ []) rest h r = (ground arith, one (a == b'.') rest r)
  where
    one :
        (c : Bool) (rest : Bytes)
        → has_prefix rest (b'.' ∷ []) ≡ false
        → (c && has_prefix rest (b'.' ∷ b'/' ∷ [])) ≡ false
    one false rest r = refl
    one true [] r = refl
    one true (x ∷ rest) r = ground arith
name_first (a ∷ b ∷ []) rest h r = (ground arith, ground arith)
name_first (a ∷ b ∷ c ∷ f) rest h r = (ground arith, ground arith)

no_dot : (rest : Bytes) → has_prefix rest slash ≡ true → has_prefix rest (b'.' ∷ []) ≡ false
unfolding has_prefix
no_dot [] h = refl
no_dot (c ∷ rest) h = ground arith

after-no_dot : (kept : List Bytes) → has_prefix (after kept []) (b'.' ∷ []) ≡ false
unfolding has_prefix
after-no_dot [] = refl
after-no_dot (e ∷ kept) = no_dot (after (e ∷ kept) []) (after_kept e kept)

-- Whether a relative path leads out of its start and further than to the parent itself.
abbrev pub climbs : ℕ × ℕ → Bool
climbs p = ltb 0 p.0 && ltb 1 (p.0 + p.1)

last_name :
    (n : Bytes) (ns : List Bytes)
    → all_names (n ∷ ns) ≡ true
    → (init : List Bytes) × (f : Bytes) × (n ∷ ns ≡ init ++ f ∷ []) × (is_name f ≡ true)
last_name n [] h = ([], n, refl, only (is_name n) h)
  where
    only : (a : Bool) → (a && true) ≡ true → a ≡ true
    only a h = ground arith
last_name n (m ∷ ns) h =
    let (init, f, e, name) = last_name m ns (later (is_name n) (all_names (m ∷ ns)) h) in
    (n ∷ init, f, ap (λ xs. n ∷ xs) e, name)
  where
    later : (a b : Bool) → (a && b) ≡ true → b ≡ true
    later a b h = ground arith

replicate-last :
    (n : ℕ) (names : List Bytes)
    → names ++ replicate (suc n) dot_dot ≡ (names ++ replicate n dot_dot) ++ dot_dot ∷ []
unfolding replicate
replicate-last zero [] = refl
replicate-last (suc n) [] = ap (λ xs. dot_dot ∷ xs) (replicate-last n [])
replicate-last n (e ∷ names) = ap (λ xs. e ∷ xs) (replicate-last n names)

abbrev begins : Bytes → Bool
begins cleaned = has_prefix cleaned slash || has_prefix cleaned outer

named-begins :
    (f rest : Bytes)
    → is_name f ≡ true
    → has_prefix rest (b'.' ∷ []) ≡ false
    → begins (or_dot (f ++ rest)) ≡ false
unfolding bytes_eq
named-begins [] rest h r = cc
named-begins (c ∷ f) rest h r = let (a, b) = name_first (c ∷ f) rest h r in rw (a, b) refl

above-begins :
    (kept : List Bytes) (down up : ℕ)
    → length kept ≡ up + down
    → begins (dot_dot ++ after kept []) ≡ climbs (suc up, down)
unfolding has_prefix
above-begins [] down up e = ground arith
above-begins (k ∷ kept) down up e = rw (after_kept k kept) (ground arith)

length-kept :
    (names : List Bytes) (up : ℕ) → length (names ++ replicate up dot_dot) ≡ up + length names
unfolding replicate
length-kept [] zero = refl
length-kept [] (suc up) = omega (arith, length-kept [] up)
length-kept (e ∷ names) up = omega (arith, length-kept names up)

append-nil : (names : List Bytes) → names ++ replicate 0 dot_dot ≡ names
unfolding replicate
append-nil [] = refl
append-nil (e ∷ names) = ap (λ xs. e ∷ xs) (append-nil names)

kept-begins :
    (names : List Bytes) (up : ℕ)
    → all_names names ≡ true
    → begins (or_dot (join (names ++ replicate up dot_dot) [])) ≡ climbs (up, length names)
unfolding join has_prefix replicate
kept-begins [] zero h = nothing
  where
    nothing : begins (or_dot (join ([] ++ replicate 0 dot_dot) [])) ≡ false
    nothing = refl
kept-begins (n ∷ ns) zero h =
    let (init, f, e, name) = last_name n ns h in
    ap (λ xs. begins (or_dot (join xs []))) (append-nil (n ∷ ns) ∙ e)
    ∙ ap (λ x. begins (or_dot x)) (join-after init f [])
    ∙ named-begins f (after init []) name (after-no_dot init)
kept-begins names (suc up) h =
    ap (λ xs. begins (or_dot (join xs []))) (replicate-last up names)
    ∙ ap (λ x. begins (or_dot x)) (join-after (names ++ replicate up dot_dot) dot_dot [])
    ∙ above-begins (names ++ replicate up dot_dot) (length names) up (length-kept names up)

pub clean-begins :
    (path : Bytes)
    → begins (clean path) ≡ (has_prefix path slash || climbs (walk (0, 0) (elements path)))
unfolding clean has_prefix
clean-begins path = elim (Bool-cases (has_prefix path slash)) [
  | inl rooted ↦ rw rooted (rooted_begins (join (clean_elements true [] (elements path)) []))
  | inr relative ↦
      let k = clean_elements-walk path in
      rw relative (
        ap (λ xs. begins (or_dot (join xs []))) k.form
        ∙ kept-begins k.names (walk (0, 0) (elements path)).0 k.are_names
        ∙ ap (λ n. climbs ((walk (0, 0) (elements path)).0, n)) (sym k.count))
]
  where
    rooted_begins : (rest : Bytes) → begins (b'/' ∷ rest) ≡ true
    rooted_begins rest = refl
