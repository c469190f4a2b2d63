-- ===== src/Descriptor.antt =====
-- internal/descriptor/table.go: a sparse map from descriptors to objects, held as one bit mask for
-- each 64 slots and a dense slice of objects.
pub mod View
pub mod Slots
pub mod Writes
pub mod Updates
pub mod Counts
pub mod Allocation
pub mod Ranges
pub mod Bounds
pub mod Pointer
use wasi_go.Base.{
  ℕ, zero, suc, ◌+◌, ◌-◌, ◌*◌, ◌/◌, ◌%◌, ◌^◌, bit_and, bit_or, Bool, true, false, ◌&&◌, ◌==◌, ltb,
  leb, if◌then◌else◌, Option, none, some, List, [], ◌∷◌, length, get_elem?, set, replicate, ℤ, pos,
  negsuc, to_uint, to_int32, at_least, quot, rem, is_natural, below, Run, ok, panic, unfinished,
  ◌>>=◌, or_panic, map,
}
use wasi_go.Bits.{complement, and_not, ones_count, trailing_zeros}

pub record Table {ℓ} (A : Type ℓ) : Type ℓ where
  pub masks : List ℕ
  pub table : List A

abbrev pub empty {ℓ} : {A : Type ℓ} → Table A
empty = record { masks = []; table = [] }

-- `(mask & (1 << shift)) != 0`
abbrev pub is_set : ℕ → ℕ → Bool
is_set mask shift = if bit_and mask (2 ^ shift) == 0 then false else true

unfoldable pub sum_counts : List ℕ → ℕ
sum_counts [] = 0
sum_counts (mask ∷ rest) = ones_count 64 mask + sum_counts rest

unfoldable pub len {ℓ} : {A : Type ℓ} → Table A → ℕ
unfolding sum_counts
len t = sum_counts t.masks

-- `make([]T, n)` and `copy` into it.
unfoldable pub resized {ℓ} : {A : Type ℓ} → A → ℕ → List A → List A
resized z zero xs = []
resized z (suc n) [] = z ∷ resized z n []
resized z (suc n) (x ∷ xs) = x ∷ resized z n xs

-- `xs[i] = v`, which panics out of range.
unfoldable pub store {ℓ} : {A : Type ℓ} → List A → ℕ → A → Run (List A)
store xs i v = if ltb i (length xs) then ok (set xs i v) else panic

-- A signed integer as an index or as a count of bits to shift by, which panics if it is negative.
abbrev pub natural : ℤ → Run ℕ
natural (pos n) = ok n
natural (negsuc n) = panic

-- `for index, mask := range masks` up to the first mask that is not full, with its index.
unfoldable pub first_free : List ℕ → ℕ → Option (ℕ × ℕ)
first_free [] index = none
first_free (mask ∷ rest) index =
    if complement 64 mask == 0 then first_free rest (index + 1) else some (index, mask)

-- `masks[offset:]`, which panics out of range.
unfoldable pub slice_from : List ℕ → ℕ → Run (List ℕ)
slice_from xs zero = ok xs
slice_from [] (suc n) = panic
slice_from (x ∷ xs) (suc n) = slice_from xs n

-- `z` is Go's zero value of the objects.
module _ {ℓ} {A : Type ℓ} (z : A) where
  unfoldable pub grow : ℕ → Table A → Table A
  unfolding resized
  grow n t =
      let m = (n * 64 + 63) / 64 in
      if ltb (length t.masks) m
      then record { masks = resized 0 m t.masks; table = resized z (m * 64) t.table }
      else t

  -- The body of the loop of `Insert` at a mask that is not full. Descriptors have 32 bits.
  unfoldable pub insert_at : ℕ → ℕ → A → Table A → Run (ℕ × Table A)
  unfolding store
  insert_at index mask object t = do
    let shift = trailing_zeros 64 (complement 64 mask)
    desc ← natural (to_int32 (index * 64 + shift))
    objects ← store t.table desc object
    words ← store t.masks index (bit_or mask (2 ^ shift))
    ok (desc, record { masks = words; table = objects })

  -- The loop of `Insert` runs until a mask has room; the caller gives it two rounds.
  unfoldable pub insert_loop : ℕ → ℕ → Table A → A → Run (ℕ × Table A)
  insert_loop zero offset t object = unfinished
  insert_loop (suc fuel) offset t object = do
    let n = 2 * length t.masks
    let rest = insert_loop fuel (length t.masks) (grow (if n == 0 then 1 else n) t) object
    masks ← slice_from t.masks offset
    elim (first_free masks offset) [
      | none ↦ rest
      | some (index, mask) ↦ insert_at index mask object t
    ]

  unfoldable pub insert : Table A → A → Run (ℕ × Table A)
  unfolding insert_loop
  insert t object = insert_loop 2 0 t object

  -- `Assign` after the table has grown. `(prev, replaced)` is `some prev` when `replaced` is true.
  unfoldable pub assign_in : ℤ → A → Table A → Run (Option A × Table A)
  unfolding store
  assign_in desc object t = do
    let index = to_uint desc / 64
    let shift = to_uint desc % 64
    mask ← or_panic (get_elem? t.masks index)
    prev ←
        if is_set mask shift
        then (or_panic (get_elem? t.table (to_uint desc)) >>= λ object. ok (some object))
        else ok none
    words ← store t.masks index (bit_or mask (2 ^ shift))
    objects ← store t.table (to_uint desc) object
    ok (prev, record { masks = words; table = objects })

  unfoldable pub assign : ℤ → A → Table A → Run (Option A × Table A)
  unfolding grow assign_in
  assign desc object t =
      assign_in desc object
        (if at_least desc (length t.table) then grow (to_uint desc + 1) t else t)

  unfoldable pub delete : ℤ → Table A → Run (Table A)
  unfolding store
  delete desc t =
      let index = quot desc 64 in
      let shift = rem desc 64 in
      if below index (length t.masks)
      then (do
        word ← natural index
        mask ← or_panic (get_elem? t.masks word)
        bit ← natural shift
        if is_set mask bit
            then (do
              slot ← natural desc
              objects ← store t.table slot z
              words ← store t.masks word (and_not 64 mask (2 ^ bit))
              ok (record { masks = words; table = objects }))
            else ok t)
      else ok t

  unfoldable pub reset : Table A → Table A
  reset t = record { masks = map (λ _. 0) t.masks; table = map (λ _. z) t.table }

module _ {ℓ} {A : Type ℓ} where
  -- The pointer that `Access` returns is the object here; a write through it is `modify`.
  unfoldable pub access : ℤ → Table A → Run (Option A)
  access desc t =
      if is_natural desc && below desc (length t.table)
      then (do
        mask ← or_panic (get_elem? t.masks (to_uint desc / 64))
        if is_set mask (to_uint desc % 64)
            then (natural desc >>= λ slot.
                or_panic (get_elem? t.table slot) >>= λ object. ok (some object))
            else ok none)
      else ok none

  unfoldable pub lookup : ℤ → Table A → Run (Option A)
  unfolding access
  lookup desc t = access desc t

  -- `*p = object` for a pointer `p` that `Access` has returned.
  unfoldable pub modify : ℤ → A → Table A → Table A
  modify desc object t = record t { table = set t.table (to_uint desc) object }

-- The loop goes on with `k` unless the callback has returned false.
abbrev pub continue {κ} : {S : Type κ} → S × Bool → (S → Run (S × Bool)) → Run (S × Bool)
continue (s, true) k = k s
continue (s, false) k = ok (s, false)

-- `Range` over a callback that works on a state `S`; its flag says whether to go on.
module _ {ℓ κ} {A : Type ℓ} {S : Type κ} (f : ℕ → A → S → S × Bool) where
  -- The loop over `j`, with the rounds left.
  unfoldable pub range_word : ℕ → ℕ → ℕ → ℕ → List A → S → Run (S × Bool)
  range_word zero j i mask objects s = ok (s, true)
  range_word (suc r) j i mask objects s =
      let next = range_word r (j + 1) i mask objects in
      if is_set mask j
      then (or_panic (get_elem? objects (i * 64 + j)) >>= λ object.
          continue (f (i * 64 + j) object s) next)
      else next s

  unfoldable pub range_masks : List ℕ → ℕ → List A → S → Run (S × Bool)
  range_masks [] i objects s = ok (s, true)
  range_masks (mask ∷ masks) i objects s =
      let next = range_masks masks (i + 1) objects in
      if mask == 0 then next s else (range_word 64 0 i mask objects s >>= λ r. continue r next)

  unfoldable pub range : Table A → S → Run (S × Bool)
  unfolding range_word range_masks
  range t s = range_masks t.masks 0 t.table s
