-- ===== src/Bits/Words.antt =====
-- Single bits tested, set and cleared through a mask, and the counts of `math/bits`.
use wasi_go.Base.{
  ℕ, zero, suc, ◌-◌, ◌/◌, ◌^◌, ◌≤◌, ◌<◌, bit_and, bit_or, ◌≡◌, ◌≢◌, refl, ap, true, false, not,
  ◌==◌, if◌then◌else◌, arith, Bool-cases, inl, inr,
}
use mathlib.Core.Bool.{xor}
use native.Mathlib.Nat.{pow-suc}
use wasi_go.Bits.{bit, complement, and_not, ones_count, trailing_zeros}
use wasi_go.Bits.Laws.{
  bit-bit_and, bit-bit_or, bit-bit_xor, bit-pow, bit-complement, bit-and_not, bit-above,
  eq_zero_of_bits, lt_of_bits, bit-zero,
}

-- `(m & (1 << k)) != 0` tests bit `k`.
pub bit_and_pow : (m k : ℕ) → (bit_and m (2 ^ k) == 0) ≡ not (bit m k)
bit_and_pow m k = elim (Bool-cases (bit m k)) [
  | inl set ↦ ground (arith, nonzero)
  | inr clear ↦ ground (arith, eq_zero_of_bits (bit_and m (2 ^ k)) (none_set clear))
]
  where
    none_set : bit m k ≡ false → (j : ℕ) → bit (bit_and m (2 ^ k)) j ≡ false
    none_set clear j = ground (arith, bit-bit_and m (2 ^ k) j, bit-pow k j)

    nonzero : bit m k ≡ true → bit_and m (2 ^ k) ≢ 0
    nonzero set e =
        ground (arith, ap (λ x. bit x k) e, bit-bit_and m (2 ^ k) k, bit-pow k k, bit-zero k)

-- `m | (1 << k)` sets bit `k` and no other.
pub bit-set_bit : (m k j : ℕ) → bit (bit_or m (2 ^ k)) j ≡ (if k == j then true else bit m j)
bit-set_bit m k j = ground (arith, bit-bit_or m (2 ^ k) j, bit-pow k j)

-- `m & ^(1 << k)` clears bit `k` and no other.
pub bit-clear_bit :
    (m k j : ℕ) → j < 64 → bit (and_not 64 m (2 ^ k)) j ≡ (if k == j then false else bit m j)
bit-clear_bit m k j h = ground (arith, bit-and_not 64 m (2 ^ k) j, bit-pow k j)

pub set_bit-lt : (m k : ℕ) → m < 2 ^ 64 → k < 64 → bit_or m (2 ^ k) < 2 ^ 64
set_bit-lt m k h hk =
    lt_of_bits 64 (bit_or m (2 ^ k))
      λ j le. ground (arith, bit-set_bit m k j, bit-above 64 m j h le)

pub and-lt : (w m n : ℕ) → m < 2 ^ w → bit_and m n < 2 ^ w
and-lt w m n h =
    lt_of_bits w (bit_and m n) λ j le. ground (arith, bit-bit_and m n j, bit-above w m j h le)

-- The complement is 0 exactly for the full word.
pub full : (m : ℕ) → complement 64 m ≡ 0 → (k : ℕ) → k < 64 → bit m k ≡ true
full m e k h = ground (arith, bit-complement 64 m k, ap (λ x. bit x k) e, bit-zero k)

-- `TrailingZeros` of a word that is not 0 is its lowest bit.
pub trailing_zeros_lem :
    (w a : ℕ) → a < 2 ^ w → a ≢ 0 → (trailing_zeros w a < w) × (bit a (trailing_zeros w a) ≡ true)
unfolding trailing_zeros bit
trailing_zeros_lem zero a h ne = absurd (omega arith)
trailing_zeros_lem (suc w) a h ne = ground (arith, pow-suc 2 w, trailing_zeros_lem w (a / 2))

pub bit-below_trailing_zeros : (w a j : ℕ) → j < trailing_zeros w a → bit a j ≡ false
unfolding trailing_zeros bit
bit-below_trailing_zeros zero a j h = absurd (omega arith)
bit-below_trailing_zeros (suc w) a zero h = ground arith
bit-below_trailing_zeros (suc w) a (suc j) h = ground (arith, bit-below_trailing_zeros w (a / 2) j)

pub ones_count-zero : (w : ℕ) → ones_count w 0 ≡ 0
unfolding ones_count
ones_count-zero zero = refl
ones_count-zero (suc w) = omega (arith, ones_count-zero w)

pub ones_count-le : (w a : ℕ) → ones_count w a ≤ w
unfolding ones_count
ones_count-le zero a = omega arith
ones_count-le (suc w) a = omega (arith, ones_count-le w (a / 2))

-- Words with the same low bits have the same count.
pub ones_count_congr :
    (w a b : ℕ) → ((j : ℕ) → j < w → bit a j ≡ bit b j) → ones_count w a ≡ ones_count w b
unfolding ones_count bit
ones_count_congr zero a b h = refl
ones_count_congr (suc w) a b h =
    ground (
      arith,
      h 0 (omega arith),
      ones_count_congr w (a / 2) (b / 2) (λ j lt. h (suc j) (omega arith)),
    )

-- One more bit set is one more in the count.
pub ones_count_one_more :
    (w k a b : ℕ)
    → k < w
    → bit a k ≡ false
    → bit b k ≡ true
    → ((j : ℕ) → j < w → j ≢ k → bit a j ≡ bit b j)
    → ones_count w b ≡ suc (ones_count w a)
unfolding ones_count bit
ones_count_one_more zero k a b h ha hb same = absurd (omega arith)
ones_count_one_more (suc w) zero a b h ha hb same =
    ground
      (arith, ones_count_congr w (a / 2) (b / 2) (λ j lt. same (suc j) (omega arith) (omega arith)))
ones_count_one_more (suc w) (suc k) a b h ha hb same = ground (
  arith,
  same 0 (omega arith) (omega arith),
  ones_count_one_more w k (a / 2) (b / 2) (omega arith) ha hb
      (λ j lt ne. same (suc j) (omega arith) (omega arith)),
)

-- A word whose `n` lowest bits are set counts at least `n`.
pub le-ones_count : (w n a : ℕ) → n ≤ w → ((j : ℕ) → j < n → bit a j ≡ true) → n ≤ ones_count w a
unfolding ones_count bit
le-ones_count w zero a h all = omega arith
le-ones_count zero (suc n) a h all = absurd (omega arith)
le-ones_count (suc w) (suc n) a h all = ground (
  arith,
  all 0 (omega arith),
  le-ones_count w n (a / 2) (omega arith) (λ j lt. all (suc j) (omega arith)),
)

pub complement-lt : (m : ℕ) → m < 2 ^ 64 → complement 64 m < 2 ^ 64
unfolding xor
complement-lt m h = lt_of_bits 64 (complement 64 m) λ j le. ground (
  arith,
  bit-bit_xor m (2 ^ 64 - 1) j,
  bit-above 64 m j h le,
  bit-above 64 (2 ^ 64 - 1) j (omega arith) le,
)
