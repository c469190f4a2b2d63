-- ===== src/Descriptor/View.antt =====
-- The invariant of a table, and the partial map from descriptors to objects that it stands for.
use wasi_go.Base.{
  ℕ, ◌*◌, ◌/◌, ◌%◌, ◌^◌, ◌≤◌, ◌<◌, ◌≡◌, inl, inr, refl, ltb, if◌then◌else◌, Bool, true, false,
  Option, none, some, length, get_elem?, get_elem?-within, get_elem?-beyond, ℤ, pos, negsuc, ok,
  Bool-cases, le_of_not_ltb, arith,
}
use wasi_go.Bits.{bit}
use wasi_go.Bits.Words.{bit_and_pow}
use wasi_go.Descriptor.{Table, is_set, access}

pub is_set-bit : (mask shift : ℕ) → is_set mask shift ≡ bit mask shift
is_set-bit mask shift = ground (arith, bit_and_pow mask shift)

-- Every mask is a 64-bit word and covers 64 slots of the slice.
pub record IsValid {ℓ} {A : Type ℓ} (t : Table A) : Type ℓ where
  pub sized : length t.table ≡ length t.masks * 64
  pub words : (i m : ℕ) → get_elem? t.masks i ≡ some m → m < 2 ^ 64

abbrev pub bit_at : Option ℕ → ℕ → Bool
bit_at none k = false
bit_at (some m) k = bit m k

-- Descriptor `d` is in use.
unfoldable pub used {ℓ} : {A : Type ℓ} → Table A → ℕ → Bool
used t d = bit_at (get_elem? t.masks (d / 64)) (d % 64)

-- The object under a descriptor.
unfoldable pub find {ℓ} : {A : Type ℓ} → Table A → ℕ → Option A
unfolding used
find t d = if used t d then get_elem? t.table d else none

abbrev pub view {ℓ} : {A : Type ℓ} → Table A → ℤ → Option A
view t (pos d) = find t d
view t (negsuc d) = none

module _ {ℓ} {A : Type ℓ} where
  pub mask_within :
      (t : Table A) (d : ℕ)
      → IsValid t
      → d < length t.table
      → (m : ℕ) × (get_elem? t.masks (d / 64) ≡ some m)
  mask_within t d v h = get_elem?-within t.masks (d / 64) (omega (arith, v.sized))

  pub used_beyond : (t : Table A) (d : ℕ) → IsValid t → length t.table ≤ d → used t d ≡ false
  unfolding used
  used_beyond t d v h = rw (get_elem?-beyond t.masks (d / 64) (omega (arith, v.sized))) refl

  access_word :
      (b : Bool) (a : A) → (if b then ok (some a) else ok none) ≡ ok (if b then some a else none)
  access_word true a = refl
  access_word false a = refl

  -- Access on a valid table does not panic, and computes the partial map that the table stands
  -- for: the object of a descriptor whose bit is set, and nothing for a descriptor that is out of
  -- range, not in use or negative.
  pub access-view : (d : ℤ) (t : Table A) → IsValid t → access d t ≡ ok (view t d)
  unfolding access find used
  access-view (negsuc d) t v = refl
  access-view (pos d) t v = elim (Bool-cases (ltb d (length t.table))) [
    | inr out ↦ rw (out, used_beyond t d v (le_of_not_ltb out)) refl
    | inl within ↦
        let (m, e) = mask_within t d v (ground arith) in
        let (a, o) = get_elem?-within t.table d (ground arith) in
        rw (within, e, o, is_set-bit m (d % 64)) (access_word (bit m (d % 64)) a)
  ]

  -- A descriptor is in use exactly when it has an object.
  pub find-used :
      (t : Table A) (d : ℕ) → IsValid t → used t d ≡ true → (a : A) × (find t d ≡ some a)
  unfolding find
  find-used t d v u = elim (Bool-cases (ltb d (length t.table))) [
    | inr out ↦ absurd (ground (arith, used_beyond t d v))
    | inl within ↦ let (a, o) = get_elem?-within t.table d (ground arith) in (a, rw u o)
  ]

  pub find-unused : (t : Table A) (d : ℕ) → used t d ≡ false → find t d ≡ none
  unfolding find
  find-unused t d u = rw u refl

  pub used_of_find : (t : Table A) (d : ℕ) (a : A) → find t d ≡ some a → used t d ≡ true
  unfolding find
  used_of_find t d a e = ground arith

  pub object_of_find :
      (t : Table A) (d : ℕ) (a : A) → find t d ≡ some a → get_elem? t.table d ≡ some a
  unfolding find
  object_of_find t d a e = ground arith
