-- ===== src/Descriptor/Writes.antt =====
-- One slot set or cleared: the invariant, the view and the count after it.
use wasi_go.Base.{
  ℕ, zero, suc, ◌+◌, ◌/◌, ◌%◌, ◌^◌, ◌<◌, bit_or, ◌≡◌, refl, ◌==◌, if◌then◌else◌, Bool, true, false,
  Option, none, some, List, [], ◌∷◌, length, get_elem?, set, get_elem?-set, length-set, arith,
}
use wasi_go.Bits.{bit, and_not, ones_count}
use wasi_go.Bits.Words.{
  bit-set_bit, bit-clear_bit, set_bit-lt, and-lt, ones_count_one_more, ones_count_congr,
}
use wasi_go.Descriptor.{Table, len, sum_counts}
use wasi_go.Descriptor.View.{IsValid, bit_at, used, find}

-- Slot `d`, under mask `m`, gets `object`, or is cleared to `z`.
abbrev pub with_slot {ℓ} : {A : Type ℓ} → Table A → ℕ → ℕ → A → Table A
with_slot t d m object = record {
  masks = set t.masks (d / 64) (bit_or m (2 ^ (d % 64)));
  table = set t.table d object;
}

abbrev pub without_slot {ℓ} : {A : Type ℓ} → Table A → ℕ → ℕ → A → Table A
without_slot t d m z = record {
  masks = set t.masks (d / 64) (and_not 64 m (2 ^ (d % 64)));
  table = set t.table d z;
}

-- A new mask `n` for word `i` gives each bit of that word from `n`.
bit_at-set :
    (masks : List ℕ) (i n j k : ℕ)
    → i < length masks
    → bit_at (get_elem? (set masks i n) j) k
      ≡ (if i == j then bit n k else bit_at (get_elem? masks j) k)
bit_at-set masks i n j k h = ground (arith, get_elem?-set masks i j n)

module _ {ℓ} {A : Type ℓ} (t : Table A) (d m : ℕ) (v : IsValid t)
    (e : get_elem? t.masks (d / 64) ≡ some m) (h : d < length t.table) where
  word_within : d / 64 < length t.masks
  word_within = omega (arith, v.sized)

  words_set :
      (n : ℕ) → n < 2 ^ 64 → (i w : ℕ) → get_elem? (set t.masks (d / 64) n) i ≡ some w → w < 2 ^ 64
  words_set n lt i w g = ground (arith, get_elem?-set t.masks (d / 64) i n word_within, v.words i w)

  replaced-IsValid :
      (n : ℕ) (object : A)
      → n < 2 ^ 64
      → IsValid (record { masks = set t.masks (d / 64) n; table = set t.table d object })
  replaced-IsValid n object lt = record {
    sized = omega (arith, v.sized, length-set t.table d object, length-set t.masks (d / 64) n);
    words = words_set n lt;
  }

  pub with_slot-IsValid : (object : A) → IsValid (with_slot t d m object)
  with_slot-IsValid object =
      replaced-IsValid _ object (set_bit-lt m (d % 64) (v.words (d / 64) m e) (omega arith))

  pub without_slot-IsValid : (z : A) → IsValid (without_slot t d m z)
  without_slot-IsValid z = replaced-IsValid _ z (and-lt 64 m _ (v.words (d / 64) m e))

  pub used-with_slot :
      (object : A) (j : ℕ) → used (with_slot t d m object) j ≡ (if d == j then true else used t j)
  unfolding used
  used-with_slot object j = ground (
    arith,
    e,
    bit_at-set t.masks (d / 64) (bit_or m (2 ^ (d % 64))) (j / 64) (j % 64) word_within,
    bit-set_bit m (d % 64) (j % 64),
  )

  pub used-without_slot :
      (z : A) (j : ℕ) → used (without_slot t d m z) j ≡ (if d == j then false else used t j)
  unfolding used
  used-without_slot z j = ground (
    arith,
    e,
    bit_at-set t.masks (d / 64) (and_not 64 m (2 ^ (d % 64))) (j / 64) (j % 64) word_within,
    bit-clear_bit m (d % 64) (j % 64) (omega arith),
  )

  pub find-with_slot :
      (object : A) (j : ℕ)
      → find (with_slot t d m object) j ≡ (if d == j then some object else find t j)
  unfolding find
  find-with_slot object j =
      rw (used-with_slot object j, get_elem?-set t.table d j object h)
        (same (d == j) (used t j) (get_elem? t.table j))
    where
      same :
          (b u : Bool) (o : Option A)
          → (if (if b then true else u) then (if b then some object else o) else none)
            ≡ (if b then some object else (if u then o else none))
      same true u o = refl
      same false u o = refl

  pub find-without_slot :
      (z : A) (j : ℕ) → find (without_slot t d m z) j ≡ (if d == j then none else find t j)
  unfolding find
  find-without_slot z j =
      rw (used-without_slot z j, get_elem?-set t.table d j z h)
        (same (d == j) (used t j) (get_elem? t.table j))
    where
      same :
          (b u : Bool) (o : Option A)
          → (if (if b then false else u) then (if b then some z else o) else none)
            ≡ (if b then none else (if u then o else none))
      same true u o = refl
      same false u o = refl

sum_counts-set :
    (masks : List ℕ) (i m n : ℕ)
    → get_elem? masks i ≡ some m
    → sum_counts (set masks i n) + ones_count 64 m ≡ sum_counts masks + ones_count 64 n
unfolding sum_counts get_elem? set
sum_counts-set [] i m n e = cc
sum_counts-set (x ∷ xs) zero m n e = ground arith
sum_counts-set (x ∷ xs) (suc i) m n e = omega (arith, sum_counts-set xs i m n e)

module _ {ℓ} {A : Type ℓ} (t : Table A) (d m : ℕ) (e : get_elem? t.masks (d / 64) ≡ some m) where
  -- A slot that was free counts for one more, a slot that was in use for one less.
  pub len-with_slot : (object : A) → used t d ≡ false → len (with_slot t d m object) ≡ suc (len t)
  unfolding len used
  len-with_slot object free = omega (
    arith,
    sum_counts-set t.masks (d / 64) m (bit_or m (2 ^ (d % 64))) e,
    ones_count_one_more 64 (d % 64) m (bit_or m (2 ^ (d % 64))) (omega arith) (ground arith)
        (ground (arith, bit-set_bit m (d % 64) (d % 64)))
        (λ j lt ne. ground (arith, bit-set_bit m (d % 64) j)),
  )

  pub len-with_slot-used : (object : A) → used t d ≡ true → len (with_slot t d m object) ≡ len t
  unfolding len used
  len-with_slot-used object taken = omega (
    arith,
    sum_counts-set t.masks (d / 64) m (bit_or m (2 ^ (d % 64))) e,
    ones_count_congr 64 m (bit_or m (2 ^ (d % 64)))
        (λ j lt. ground (arith, bit-set_bit m (d % 64) j)),
  )

  pub len-without_slot : (z : A) → used t d ≡ true → suc (len (without_slot t d m z)) ≡ len t
  unfolding len used
  len-without_slot z taken = omega (
    arith,
    sum_counts-set t.masks (d / 64) m (and_not 64 m (2 ^ (d % 64))) e,
    ones_count_one_more 64 (d % 64) (and_not 64 m (2 ^ (d % 64))) m (omega arith)
        (ground (arith, bit-clear_bit m (d % 64) (d % 64))) (ground arith)
        (λ j lt ne. ground (arith, bit-clear_bit m (d % 64) j)),
  )
