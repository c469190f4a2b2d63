-- ===== src/Descriptor/Bounds.antt =====
-- The number of objects bounds the descriptors that `Insert` returns; `Reset`; negative descriptors.
use wasi_go.Base.{
  ℕ, zero, suc, ◌-◌, ◌*◌, ◌/◌, ◌%◌, ◌^◌, ◌≤◌, ◌<◌, ◌≡◌, inl, inr, refl, sym, ◌∙◌, ap, ◌==◌, ltb,
  ◌&&◌, true, false, none, some, List, [], ◌∷◌, length, get_elem?, map, get_elem?-beyond,
  Bool-cases, lt_of_ltb, le_of_not_ltb, arith, ok, panic, if◌then◌else◌, negsuc,
}
use wasi_go.Bits.Laws.{bit-zero}
use wasi_go.Bits.Words.{ones_count-zero}
use wasi_go.Descriptor.{Table, empty, len, sum_counts, assign_in, assign, delete, insert, reset}
use wasi_go.Descriptor.View.{IsValid, bit_at, used, find, find-unused}
use wasi_go.Descriptor.Counts.{le-len}
use wasi_go.Descriptor.Allocation.{insert-Inserts}

module _ {ℓ} {A : Type ℓ} where
  pub empty-IsValid : IsValid (empty {A = A})
  unfolding get_elem?
  empty-IsValid = record { sized = refl; words = λ i m e. cc }

  pub find-empty : (d : ℕ) → find (empty {A = A}) d ≡ none
  unfolding find used get_elem?
  find-empty d = refl

sum_counts-cleared : (masks : List ℕ) → sum_counts (map (λ _. 0) masks) ≡ 0
unfolding sum_counts
sum_counts-cleared [] = refl
sum_counts-cleared (m ∷ ms) = omega (arith, ones_count-zero 64, sum_counts-cleared ms)

cleared_word : (masks : List ℕ) (i k : ℕ) → bit_at (get_elem? (map (λ _. 0) masks) i) k ≡ false
unfolding get_elem?
cleared_word [] i k = refl
cleared_word (m ∷ ms) zero k = bit-zero k
cleared_word (m ∷ ms) (suc i) k = cleared_word ms i k

cleared_is_zero :
    (masks : List ℕ) (i m : ℕ) → get_elem? (map (λ _. 0) masks) i ≡ some m → m < 2 ^ 64
unfolding get_elem?
cleared_is_zero [] i m e = cc
cleared_is_zero (x ∷ xs) zero m e = ground arith
cleared_is_zero (x ∷ xs) (suc i) m e = cleared_is_zero xs i m e

length-map {ℓ κ} :
    {A : Type ℓ} {B : Type κ} (f : A → B) (xs : List A) → length (map f xs) ≡ length xs
length-map f [] = refl
length-map f (x ∷ xs) = ap suc (length-map f xs)

module _ {ℓ} {A : Type ℓ} (z : A) where
  -- Insert into a valid table of fewer than 2^31 objects returns a descriptor that was free and is
  -- at most the number of objects, and the table then counts one object more.
  pub insert-le-len :
      (t : Table A) (object : A)
      → IsValid t
      → len t < 2 ^ 31
      → (d : ℕ) × (t' : Table A) × (insert z t object ≡ ok (d, t'))
        × (find t d ≡ none)
        × (d ≤ len t)
        × (len t' ≡ suc (len t))
  insert-le-len t object v few =
      let (d, t', run, i) = insert-Inserts z t object v few in
      (
        d,
        t',
        run,
        find-unused t d i.free,
        le-len t d i.lowest,
        i.binds.count ∙ ap (λ u. if u then len t else suc (len t)) i.free,
      )

  -- Reset of a valid table gives a valid table in which no descriptor is bound and which counts no
  -- object.
  pub reset_lem :
      (t : Table A)
      → IsValid t
      → IsValid (reset z t) × ((d : ℕ) → find (reset z t) d ≡ none) × (len (reset z t) ≡ 0)
  unfolding reset find used len
  reset_lem t v = (
    record {
      sized =
          length-map (λ _. z) t.table
          ∙ v.sized
          ∙ ap (λ (n : ℕ). n * 64) (sym (length-map (λ _. 0) t.masks));
      words = cleared_is_zero t.masks;
    },
    λ d. rw (cleared_word t.masks (d / 64) (d % 64)) refl,
    sum_counts-cleared t.masks,
  )

  -- Delete of a negative descriptor shifts by a negative count or is out of range, unless there are
  -- no words for a quotient of 0 to be out of.
  pub delete-negative :
      (d : ℕ) (t : Table A)
      → delete z (negsuc d) t ≡ (if ltb d 63 && length t.masks == 0 then ok t else panic)
  unfolding delete get_elem?
  delete-negative d t = elim (Bool-cases (ltb d 63)) [
    | inr low ↦ rw low (far (suc d / 64) (omega (arith, le_of_not_ltb low)) refl)
    | inl high ↦
        rw high
          (near t.masks t.table (omega (arith, lt_of_ltb high)) (omega (arith, lt_of_ltb high)))
  ]
    where
      near :
          (masks : List ℕ) (table : List A)
          → suc d / 64 ≡ 0
          → suc d % 64 ≡ suc d
          → delete z (negsuc d) (record { masks = masks; table = table })
            ≡ (if length masks == 0 then ok (record { masks = masks; table = table }) else panic)
      near [] table e f = rw (delete, e) refl
      near (m ∷ ms) table e f =
          let within : ltb 0 (suc (length ms)) ≡ true = ground arith in
          let words : (suc (length ms) == 0) ≡ false = ground arith in
          rw (delete, e, f, within, words) refl

      far : (q : ℕ) → 1 ≤ q → suc d / 64 ≡ q → delete z (negsuc d) t ≡ panic
      far zero h e = absurd (omega arith)
      far (suc q) h e = rw (delete, e) refl

  -- Assign to a negative 32-bit descriptor is out of range, if there are fewer than 2^57 words.
  pub assign-negative :
      (d : ℕ) (t : Table A) (object : A)
      → d < 2 ^ 31
      → length t.masks < 2 ^ 57
      → assign z (negsuc d) object t ≡ panic
  unfolding assign assign_in
  assign-negative d t object h short =
      rw (get_elem?-beyond t.masks ((2 ^ 64 - suc d) / 64) (omega arith)) refl
