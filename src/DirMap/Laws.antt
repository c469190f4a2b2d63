-- ===== src/DirMap/Laws.antt =====
-- The laws of the map, and its number of keys.
use wasi_go.Base.{
  ◌+◌, ◌≤◌, ◌≡◌, refl, none, some, List, [], ◌∷◌, length, ℤ, pos, negsuc, int_eq, true,
  if◌then◌else◌, ◌↔◌, arith,
}
use wasi_go.DirMap.{get, remove, put}

pub int_eq_iff : (a b : ℤ) → (int_eq a b ≡ true) ↔ (a ≡ b)
int_eq_iff (pos a) (pos b) = ground arith
int_eq_iff (negsuc a) (negsuc b) = ground arith
int_eq_iff (pos a) (negsuc b) = ((λ h. cc), (λ h. cc))
int_eq_iff (negsuc a) (pos b) = ((λ h. cc), (λ h. cc))

pub int_eq_refl : (a : ℤ) → int_eq a a ≡ true
int_eq_refl a = (int_eq_iff a a).1 refl

module _ {ℓ} {Dir : Type ℓ} where
  pub get-remove :
      (fd j : ℤ) (m : List (ℤ × Dir))
      → get j (remove fd m) ≡ (if int_eq fd j then none else get j m)
  unfolding get remove
  get-remove fd j [] = ground arith
  get-remove fd j ((k, d) ∷ m) =
      ground (arith, get-remove fd j m, int_eq_iff k fd, int_eq_iff k j, int_eq_iff fd j)

  pub get-put :
      (fd j : ℤ) (d : Dir) (m : List (ℤ × Dir))
      → get j (put fd d m) ≡ (if int_eq fd j then some d else get j m)
  unfolding get put
  get-put fd j d m = ground (arith, get-remove fd j m)

  pub length-remove-le : (fd : ℤ) (m : List (ℤ × Dir)) → length (remove fd m) ≤ length m
  unfolding remove
  length-remove-le fd [] = omega arith
  length-remove-le fd ((k, d) ∷ m) = ground (arith, length-remove-le fd m)

  pub length-put-le : (fd : ℤ) (d : Dir) (m : List (ℤ × Dir)) → length (put fd d m) ≤ length m + 1
  unfolding put
  length-put-le fd d m = omega (arith, length-remove-le fd m)

  -- A key that has no entry is not removed.
  pub remove-absent : (fd : ℤ) (m : List (ℤ × Dir)) → get fd m ≡ none → remove fd m ≡ m
  unfolding get remove
  remove-absent fd [] e = refl
  remove-absent fd ((k, d) ∷ m) e = ground (arith, remove-absent fd m)

  -- Replacing an entry adds none.
  pub length-remove-some :
      (fd : ℤ) (m : List (ℤ × Dir)) (d : Dir)
      → get fd m ≡ some d
      → length (remove fd m) + 1 ≤ length m
  unfolding get remove
  length-remove-some fd [] d e = cc
  length-remove-some fd ((k, x) ∷ m) d e =
      ground (arith, length-remove-some fd m d, length-remove-le fd m)
