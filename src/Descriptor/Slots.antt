-- ===== src/Descriptor/Slots.antt =====
-- `Grow`, and one slot written: what they keep of the invariant and do to the view.
use wasi_go.Base.{
  ℕ, zero, suc, ◌+◌, ◌*◌, ◌/◌, ◌%◌, ◌^◌, ◌≤◌, ◌<◌, max, ◌≡◌, inl, inr, refl, sym, ◌∙◌, ap, ltb,
  some, List, [], ◌∷◌, length, get_elem?, get_elem?-beyond, Bool-cases, arith, ltb_of_lt,
  le_of_not_ltb, lt_of_ltb, ok,
}
use wasi_go.Bits.Words.{ones_count-zero}
use wasi_go.Bits.Laws.{bit-zero}
use wasi_go.Descriptor.{Table, resized, grow, len, sum_counts, slice_from}
use wasi_go.Descriptor.View.{IsValid, bit_at, used, find, used_beyond}

module _ {ℓ} {A : Type ℓ} (z : A) where
  pub length-resized : (n : ℕ) (xs : List A) → length (resized z n xs) ≡ n
  unfolding resized
  length-resized zero xs = refl
  length-resized (suc n) [] = ap suc (length-resized n [])
  length-resized (suc n) (x ∷ xs) = ap suc (length-resized n xs)

  pub get_elem?-resized :
      (n i : ℕ) (xs : List A)
      → length xs ≤ n
      → i < length xs
      → get_elem? (resized z n xs) i ≡ get_elem? xs i
  unfolding resized get_elem?
  get_elem?-resized n i [] le h = absurd (omega arith)
  get_elem?-resized zero i (x ∷ xs) le h = absurd (omega arith)
  get_elem?-resized (suc n) zero (x ∷ xs) le h = refl
  get_elem?-resized (suc n) (suc i) (x ∷ xs) le h =
      get_elem?-resized n i xs (omega arith) (omega arith)

  pub get_elem?-resized_new :
      (n i : ℕ) (xs : List A) → length xs ≤ i → i < n → get_elem? (resized z n xs) i ≡ some z
  unfolding resized get_elem?
  get_elem?-resized_new zero i xs le h = absurd (omega arith)
  get_elem?-resized_new (suc n) zero [] le h = refl
  get_elem?-resized_new (suc n) (suc i) [] le h =
      get_elem?-resized_new n i [] (omega arith) (omega arith)
  get_elem?-resized_new (suc n) zero (x ∷ xs) le h = absurd (omega arith)
  get_elem?-resized_new (suc n) (suc i) (x ∷ xs) le h =
      get_elem?-resized_new n i xs (omega arith) (omega arith)

-- The bits of the masks after a longer slice has been made.
bit_at-resized :
    (n i k : ℕ) (masks : List ℕ)
    → length masks ≤ n
    → bit_at (get_elem? (resized 0 n masks) i) k ≡ bit_at (get_elem? masks i) k
bit_at-resized n i k masks le = elim (Bool-cases (ltb i (length masks))) [
  | inl old ↦ rw (get_elem?-resized 0 n i masks le (lt_of_ltb old)) refl
  | inr new ↦ elim (Bool-cases (ltb i n)) [
    | inl within ↦
        rw
          (
            get_elem?-resized_new 0 n i masks (le_of_not_ltb new) (lt_of_ltb within),
            get_elem?-beyond masks i (le_of_not_ltb new),
          )
          (bit-zero k)
    | inr out ↦
        rw
          (
            get_elem?-beyond (resized 0 n masks) i
                (omega (arith, length-resized 0 n masks, le_of_not_ltb out)),
            get_elem?-beyond masks i (le_of_not_ltb new),
          )
          refl
  ]
]

words-resized :
    (n : ℕ) (masks : List ℕ)
    → length masks ≤ n
    → ((i m : ℕ) → get_elem? masks i ≡ some m → m < 2 ^ 64)
    → (i m : ℕ) → get_elem? (resized 0 n masks) i ≡ some m
    → m < 2 ^ 64
words-resized n masks le words i m e = elim (Bool-cases (ltb i (length masks))) [
  | inl old ↦ words i m (sym (get_elem?-resized 0 n i masks le (lt_of_ltb old)) ∙ e)
  | inr new ↦ elim (Bool-cases (ltb i n)) [
    | inl within ↦
        ground (arith, get_elem?-resized_new 0 n i masks (le_of_not_ltb new) (lt_of_ltb within))
    | inr out ↦ ground (
      arith,
      get_elem?-beyond (resized 0 n masks) i
          (omega (arith, length-resized 0 n masks, le_of_not_ltb out)),
    )
  ]
]

module _ {ℓ} {A : Type ℓ} (z : A) where
  -- `Grow n` makes at least `n` masks, and changes nothing that is in use.
  pub length-grow : (n : ℕ) (t : Table A) → length (grow z n t).masks ≡ max n (length t.masks)
  unfolding grow
  length-grow n t = elim (Bool-cases (ltb (length t.masks) ((n * 64 + 63) / 64))) [
    | inl more ↦
        rw more (omega (arith, length-resized 0 ((n * 64 + 63) / 64) t.masks, lt_of_ltb more))
    | inr enough ↦ rw enough (omega (arith, le_of_not_ltb enough))
  ]

  pub grow-IsValid : (n : ℕ) (t : Table A) → IsValid t → IsValid (grow z n t)
  unfolding grow
  grow-IsValid n t v = elim (Bool-cases (ltb (length t.masks) ((n * 64 + 63) / 64))) [
    | inr enough ↦ rw enough v
    | inl more ↦
        let m = (n * 64 + 63) / 64 in
        rw more (record {
          sized =
              length-resized z (m * 64) t.table
              ∙ ap (λ (x : ℕ). x * 64) (sym (length-resized 0 m t.masks));
          words = words-resized m t.masks (omega (arith, lt_of_ltb more)) v.words;
        })
  ]

  pub used-grow : (n d : ℕ) (t : Table A) → used (grow z n t) d ≡ used t d
  unfolding grow used
  used-grow n d t = elim (Bool-cases (ltb (length t.masks) ((n * 64 + 63) / 64))) [
    | inr enough ↦ rw enough refl
    | inl more ↦ rw more (
        bit_at-resized ((n * 64 + 63) / 64) (d / 64) (d % 64) t.masks
          (omega (arith, lt_of_ltb more)))
  ]

  pub find-grow : (n d : ℕ) (t : Table A) → IsValid t → find (grow z n t) d ≡ find t d
  unfolding find grow
  find-grow n d t v = elim (Bool-cases (ltb d (length t.table))) [
    | inr out ↦ rw (used-grow n d t, used_beyond t d v (le_of_not_ltb out)) refl
    | inl within ↦ rw (used-grow n d t, same_object (lt_of_ltb within)) refl
  ]
    where
      same_object : d < length t.table → get_elem? (grow z n t).table d ≡ get_elem? t.table d
      same_object h = elim (Bool-cases (ltb (length t.masks) ((n * 64 + 63) / 64))) [
        | inr enough ↦ rw (enough, grow) refl
        | inl more ↦
            rw (more, grow)
              (get_elem?-resized z ((n * 64 + 63) / 64 * 64) d t.table
                (omega (arith, v.sized, lt_of_ltb more)) h)
      ]

sum_counts-resized :
    (n : ℕ) (masks : List ℕ) → length masks ≤ n → sum_counts (resized 0 n masks) ≡ sum_counts masks
unfolding sum_counts resized
sum_counts-resized zero [] h = refl
sum_counts-resized zero (x ∷ xs) h = absurd (omega arith)
sum_counts-resized (suc n) [] h =
    omega (arith, ones_count-zero 64, sum_counts-resized n [] (omega arith))
sum_counts-resized (suc n) (x ∷ xs) h = omega (arith, sum_counts-resized n xs (omega arith))

pub len-grow {ℓ} : {A : Type ℓ} (z : A) (n : ℕ) (t : Table A) → len (grow z n t) ≡ len t
unfolding len grow
len-grow z n t = elim (Bool-cases (ltb (length t.masks) ((n * 64 + 63) / 64))) [
  | inr enough ↦ rw enough refl
  | inl more ↦
      rw more (sum_counts-resized ((n * 64 + 63) / 64) t.masks (omega (arith, lt_of_ltb more)))
]

-- The masks that a longer slice adds begin with an empty word.
pub slice_from-resized :
    (n : ℕ) (masks : List ℕ)
    → length masks < n
    → (rest : List ℕ) × (slice_from (resized 0 n masks) (length masks) ≡ ok (0 ∷ rest))
unfolding slice_from resized
slice_from-resized zero masks h = absurd (omega arith)
slice_from-resized (suc n) [] h = (resized 0 n [], refl)
slice_from-resized (suc n) (x ∷ xs) h = slice_from-resized n xs (omega arith)

get_elem?_of_slice_from :
    (masks : List ℕ) (n m : ℕ) (rest : List ℕ)
    → slice_from masks n ≡ ok (m ∷ rest)
    → get_elem? masks n ≡ some m
unfolding slice_from get_elem?
get_elem?_of_slice_from [] zero m rest e = cc
get_elem?_of_slice_from [] (suc n) m rest e = cc
get_elem?_of_slice_from (x ∷ xs) zero m rest e = ground (arith, e)
get_elem?_of_slice_from (x ∷ xs) (suc n) m rest e = get_elem?_of_slice_from xs n m rest e

pub grow-masks {ℓ} :
    {A : Type ℓ} (z : A) (n : ℕ) (t : Table A)
    → length t.masks < n
    → (rest : List ℕ) × (slice_from (grow z n t).masks (length t.masks) ≡ ok (0 ∷ rest))
      × (get_elem? (grow z n t).masks (length t.masks) ≡ some 0)
      × ((j : ℕ) → j < length t.masks → get_elem? (grow z n t).masks j ≡ get_elem? t.masks j)
unfolding grow
grow-masks z n t more =
    let m = (n * 64 + 63) / 64 in
    let (rest, e) = slice_from-resized m t.masks (omega arith) in
    rw (ltb_of_lt {a = length t.masks} {b = m} (omega arith)) (
      rest,
      e,
      get_elem?_of_slice_from (resized 0 m t.masks) (length t.masks) 0 rest e,
      λ j h. get_elem?-resized 0 m j t.masks (omega arith) h,
    )
