-- ===== src/Descriptor/Allocation.antt =====
-- `Insert` on a valid table: two rounds are enough, and the lowest free descriptor is taken.
use wasi_go.Base.{
  ℕ, zero, suc, ◌+◌, ◌*◌, ◌/◌, ◌%◌, ◌<◌, ◌≡◌, ◌≢◌, ◌⊎◌, inl, inr, refl, sym, ◌∙◌, ap, ap₂, ◌==◌,
  ==_iff, ltb, if◌then◌else◌, Bool, true, false, Option, none, some, List, [], ◌∷◌, length,
  get_elem?, get_elem?-within, get_elem?-beyond, Bool-cases, arith, ltb_of_lt, le_of_not_ltb,
  lt_of_ltb, ok, ◌>>=◌, to_int32-pos, ◌^◌,
}
use wasi_go.Bits.{bit, complement, trailing_zeros}
use wasi_go.Bits.Laws.{bit-complement}
use wasi_go.Bits.Words.{trailing_zeros_lem, bit-below_trailing_zeros, full, complement-lt}
use wasi_go.Descriptor.Counts.{le-len}
use wasi_go.Descriptor.{Table, len, grow, first_free, slice_from, insert_at, insert_loop, insert}
use wasi_go.Descriptor.View.{IsValid, used}
use wasi_go.Descriptor.Slots.{grow-IsValid, find-grow, used-grow, len-grow, grow-masks}
use wasi_go.Descriptor.Writes.{with_slot, with_slot-IsValid, find-with_slot, len-with_slot}
use wasi_go.Descriptor.Updates.{Binds}

-- The masks before `k` have no room.
abbrev AreFull : List ℕ → ℕ → Type 0
AreFull masks k = (j m : ℕ) → j < k → get_elem? masks j ≡ some m → complement 64 m ≡ 0

-- The first mask with room is at `k`, or there is none.
abbrev FirstFree : List ℕ → ℕ → Option (ℕ × ℕ) → Type 0
FirstFree masks i r =
    ((r ≡ none) × AreFull masks (length masks))
    ⊎ ((k m : ℕ) × (r ≡ some (i + k, m))
        × (get_elem? masks k ≡ some m)
        × (complement 64 m ≢ 0)
        × AreFull masks k)

AreFull-cons :
    (x : ℕ) (xs : List ℕ) (k : ℕ) → complement 64 x ≡ 0 → AreFull xs k → AreFull (x ∷ xs) (suc k)
unfolding get_elem?
AreFull-cons x xs k e all zero m h g = ground arith
AreFull-cons x xs k e all (suc j) m h g = all j m (omega arith) g

first_free_lem : (masks : List ℕ) (i : ℕ) → FirstFree masks i (first_free masks i)
unfolding first_free get_elem?
first_free_lem [] i = inl (refl, λ j m h g. absurd (omega arith))
first_free_lem (x ∷ xs) i = elim (Bool-cases (complement 64 x == 0)) [
  | inr room ↦ inr (
    0,
    x,
    rw room (ap (λ n. some (n, x)) (omega arith)),
    refl,
    (λ e. ground arith),
    λ j m h g. absurd (omega arith),
  )
  | inl filled ↦ elim (first_free_lem xs (i + 1)) [
    | inl (e, all) ↦ inl (rw filled e, AreFull-cons x xs (length xs) ((==_iff _ _).0 filled) all)
    | inr (k, m, e, g, room, all) ↦ inr (
      suc k,
      m,
      rw filled (e ∙ ap (λ n. some (n, m)) (omega arith)),
      g,
      room,
      AreFull-cons x xs k ((==_iff _ _).0 filled) all,
    )
  ]
]

slice_from-zero : (masks : List ℕ) → slice_from masks 0 ≡ ok masks
unfolding slice_from
slice_from-zero [] = refl
slice_from-zero (m ∷ ms) = refl

-- One round of the loop, in its two cases.
module _ {ℓ} {A : Type ℓ} (z : A) (fuel offset : ℕ) (t : Table A) (object : A) {masks : List ℕ}
    (sliced : slice_from t.masks offset ≡ ok masks) where
  round_found :
      (i m : ℕ)
      → first_free masks offset ≡ some (i, m)
      → insert_loop z (suc fuel) offset t object ≡ insert_at z i m object t
  unfolding insert_loop
  round_found i m found = rw (sliced, ◌>>=◌, found) refl

  round_full :
      first_free masks offset ≡ none
      → insert_loop z (suc fuel) offset t object
        ≡ insert_loop z fuel
            (length t.masks)
            (grow z (if 2 * length t.masks == 0 then 1 else 2 * length t.masks) t)
            object
  unfolding insert_loop
  round_full found = rw (sliced, ◌>>=◌, found) refl

-- How `t'` comes from `t` by an insertion that returned `d`.
pub record Inserts {ℓ} {A : Type ℓ} (t : Table A) (object : A) (d : ℕ) (t' : Table A) : Type ℓ where
  pub binds : Binds t d object t'
  pub free : used t d ≡ false
  pub lowest : (j : ℕ) → j < d → used t j ≡ true

module _ {ℓ} {A : Type ℓ} (z : A) (t : Table A) (object : A) (v : IsValid t) where
  module _ (k m : ℕ) (e : get_elem? t.masks k ≡ some m) (room : complement 64 m ≢ 0)
      (all : AreFull t.masks k) where
    shift : ℕ
    shift = trailing_zeros 64 (complement 64 m)

    fits : (shift < 64) × (bit (complement 64 m) shift ≡ true)
    unfolding shift
    fits = trailing_zeros_lem 64 (complement 64 m) (complement-lt m (v.words k m e)) room

    k_within : k < length t.masks
    k_within = elim (Bool-cases (ltb k (length t.masks))) [
      | inl within ↦ lt_of_ltb within
      | inr out ↦ absurd (ground (arith, get_elem?-beyond t.masks k (le_of_not_ltb out)))
    ]

    at_index : (k * 64 + shift) / 64 ≡ k
    at_index = omega (arith, fits.0)

    at_word : get_elem? t.masks ((k * 64 + shift) / 64) ≡ some m
    at_word = rw at_index e

    at_bit : (k * 64 + shift) % 64 ≡ shift
    at_bit = omega (arith, fits.0)

    free_bit : used t (k * 64 + shift) ≡ false
    unfolding used
    free_bit = rw (at_word, at_bit) (ground (arith, bit-complement 64 m shift, fits.0, fits.1))

    lower_used : (j : ℕ) → j < k * 64 + shift → used t j ≡ true
    unfolding used shift
    lower_used j h = elim (Bool-cases (ltb (j / 64) k)) [
      | inl below ↦
          let (w, g) =
            get_elem?-within t.masks (j / 64) (omega (arith, lt_of_ltb below, k_within)) in
          rw g (full w (all (j / 64) w (lt_of_ltb below) g) (j % 64) (omega arith))
      | inr same ↦
          let q : j / 64 ≡ k = omega (arith, le_of_not_ltb same, fits.0) in
          rw (q, e)
            (ground (
              arith,
              bit-complement 64 m (j % 64),
              bit-below_trailing_zeros 64 (complement 64 m) (j % 64) (omega arith),
            ))
    ]

    insert_at-Inserts :
        len t < 2 ^ 31
        → (t' : Table A) × (insert_at z k m object t ≡ ok (k * 64 + shift, t'))
          × Inserts t object (k * 64 + shift) t'
    unfolding insert_at shift
    insert_at-Inserts few =
        let d = k * 64 + shift in
        let narrow = to_int32-pos d (omega (arith, le-len t d lower_used)) in
        let h : d < length t.table = omega (arith, v.sized, k_within, fits.0) in
        (
          with_slot t d m object,
          rw (narrow, ltb_of_lt h, ltb_of_lt k_within, at_index, at_bit) refl,
          record {
            binds = record {
              valid = with_slot-IsValid t d m v at_word h object;
              reads = find-with_slot t d m v at_word h object;
              count = rw free_bit (len-with_slot t d m at_word object free_bit);
            };
            free = free_bit;
            lowest = lower_used;
          },
        )

module _ {ℓ} {A : Type ℓ} (z : A) where
  Inserts-grow :
      (n : ℕ) (t : Table A) (object : A) (d : ℕ) (t' : Table A)
      → IsValid t
      → Inserts (grow z n t) object d t'
      → Inserts t object d t'
  Inserts-grow n t object d t' v i = record {
    binds = record {
      valid = i.binds.valid;
      reads =
          λ j. i.binds.reads j ∙ ap (λ o. if d == j then some object else o) (find-grow z n j t v);
      count =
          i.binds.count
          ∙ ap₂ (λ (u : Bool) (c : ℕ). if u then c else suc c) (used-grow z n d t) (len-grow z n t);
    };
    free = sym (used-grow z n d t) ∙ i.free;
    lowest = λ j h. sym (used-grow z n j t) ∙ i.lowest j h;
  }

  -- When every mask is full, a word that `Grow` adds takes the object.
  grown_round :
      (n : ℕ) (t : Table A) (object : A)
      → IsValid t
      → len t < 2 ^ 31
      → length t.masks < n
      → AreFull t.masks (length t.masks)
      → (d : ℕ) × (t' : Table A) × (insert_loop z 1 (length t.masks) (grow z n t) object
          ≡ ok (d, t'))
        × Inserts t object d t'
  unfolding first_free
  grown_round n t object v few more all =
      let (rest, sliced, first, same) = grow-masks z n t more in
      let (t', run, i) =
        insert_at-Inserts z (grow z n t) object (grow-IsValid z n t v) (length t.masks) 0 first
          (λ e. omega (arith, e)) (λ j m h g. all j m h (sym (same j h) ∙ g))
          (omega (arith, few, len-grow z n t)) in
      (
        _,
        t',
        round_found z 0 (length t.masks) (grow z n t) object sliced (length t.masks) 0 refl ∙ run,
        Inserts-grow n t object _ t' v i,
      )

  -- Insert into a valid table of fewer than 2^31 objects returns within two rounds of its loop and
  -- without a panic: the lowest descriptor that was free, bound to the object in a valid table
  -- that differs at no other descriptor and counts one object more.
  pub insert-Inserts :
      (t : Table A) (object : A)
      → IsValid t
      → len t < 2 ^ 31
      → (d : ℕ) × (t' : Table A) × (insert z t object ≡ ok (d, t')) × Inserts t object d t'
  unfolding insert
  insert-Inserts t object v few = elim (first_free_lem t.masks 0) [
    | inr (k, m, found, e, room, all) ↦
        let (t', run, i) = insert_at-Inserts z t object v k m e room all few in
        (
          _,
          t',
          round_found z 1 0 t object (slice_from-zero t.masks) k m
                (found ∙ ap (λ n. some (n, m)) (omega arith))
              ∙ run,
          i,
        )
    | inl (found, all) ↦
        let (d, t', run, i) =
          grown_round (if 2 * length t.masks == 0 then 1 else 2 * length t.masks) t object v few
            (ground arith) all in
        (d, t', round_full z 1 0 t object (slice_from-zero t.masks) found ∙ run, i)
  ]
