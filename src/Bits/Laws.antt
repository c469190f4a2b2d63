-- ===== src/Bits/Laws.antt =====
-- What the operators do to each bit, and equality of words from equality of bits.
use mathlib.Core.Bool.{xor}
use native.Mathlib.Nat.{pow-suc, one-le-pow}
use wasi_go.Base.{
  ℕ, zero, suc, ◌+◌, ◌-◌, ◌/◌, ◌%◌, ◌^◌, ◌≤◌, ◌<◌, bit_and, bit_or, bit_xor, ◌≡◌, refl, sym, ◌∙◌,
  ap, Bool, false, not, ◌&&◌, ◌||◌, ◌==◌, ltb, arith,
}
use wasi_go.Bits.{bit, complement, and_not}
use wasi_go.Bits.Step.{bit_and_step, bit_or_step, bit_xor_step, differ-digits}

pub bit-bit_and : (a b k : ℕ) → bit (bit_and a b) k ≡ (bit a k && bit b k)
unfolding bit
bit-bit_and a b zero = ground (arith, bit_and_step a b)
bit-bit_and a b (suc k) =
    ap (λ x. bit x k) (omega (arith, bit_and_step a b)) ∙ bit-bit_and (a / 2) (b / 2) k

pub bit-bit_or : (a b k : ℕ) → bit (bit_or a b) k ≡ (bit a k || bit b k)
unfolding bit
bit-bit_or a b zero = ground (arith, bit_or_step a b)
bit-bit_or a b (suc k) =
    ap (λ x. bit x k) (omega (arith, bit_or_step a b)) ∙ bit-bit_or (a / 2) (b / 2) k

pub bit-bit_xor : (a b k : ℕ) → bit (bit_xor a b) k ≡ xor (bit a k) (bit b k)
unfolding bit xor
bit-bit_xor a b zero = ground (arith, bit_xor_step a b, differ-digits a b)
bit-bit_xor a b (suc k) =
    ap (λ x. bit x k) (omega (arith, bit_xor_step a b, differ-digits a b))
    ∙ bit-bit_xor (a / 2) (b / 2) k

pub bit-zero : (k : ℕ) → bit 0 k ≡ false
unfolding bit
bit-zero zero = refl
bit-zero (suc k) = bit-zero k

bit-low_mask : (w k : ℕ) → bit (2 ^ w - 1) k ≡ ltb k w
unfolding bit
bit-low_mask zero k = bit-zero k ∙ ground arith
bit-low_mask (suc w) zero = ground (arith, one-le-pow w 2, pow-suc 2 w)
bit-low_mask (suc w) (suc k) =
    ap (λ x. bit x k) (omega (arith, pow-suc 2 w, one-le-pow w 2)) ∙ bit-low_mask w k ∙ ground arith

pub bit-pow : (i k : ℕ) → bit (2 ^ i) k ≡ (i == k)
unfolding bit
bit-pow zero zero = refl
bit-pow zero (suc k) = bit-zero k ∙ ground arith
bit-pow (suc i) zero = ground (arith, pow-suc 2 i)
bit-pow (suc i) (suc k) =
    ap (λ x. bit x k) (omega (arith, pow-suc 2 i)) ∙ bit-pow i k ∙ ground arith

pub bit-complement : (w a k : ℕ) → k < w → bit (complement w a) k ≡ not (bit a k)
unfolding xor
bit-complement w a k h = bit-bit_xor a (2 ^ w - 1) k ∙ ground (arith, bit-low_mask w k)

pub bit-and_not : (w a b k : ℕ) → k < w → bit (and_not w a b) k ≡ (bit a k && not (bit b k))
bit-and_not w a b k h = bit-bit_and a (complement w b) k ∙ ground (arith, bit-complement w b k)

-- A word of `w` bits has no bit from `w` on.
pub bit-above : (w a k : ℕ) → a < 2 ^ w → w ≤ k → bit a k ≡ false
unfolding bit
bit-above zero a k h g = ap (λ x. bit x k) (omega arith) ∙ bit-zero k
bit-above (suc w) a zero h g = absurd (omega arith)
bit-above (suc w) a (suc k) h g = bit-above w (a / 2) k (omega (arith, pow-suc 2 w)) (omega arith)

same_parity : (a b : ℕ) → (a % 2 == 1) ≡ (b % 2 == 1) → a % 2 ≡ b % 2
same_parity a b h = ground arith

eq_of_bits_fuel : (n a b : ℕ) → a < n → b < n → ((k : ℕ) → bit a k ≡ bit b k) → a ≡ b
unfolding bit
eq_of_bits_fuel zero a b p q h = absurd (omega arith)
eq_of_bits_fuel (suc zero) a b p q h = omega arith
eq_of_bits_fuel (suc (suc n)) a b p q h = omega (
  arith,
  same_parity a b (h 0),
  eq_of_bits_fuel (suc n) (a / 2) (b / 2) (omega arith) (omega arith) (λ k. h (suc k)),
)

-- Words with the same bits are equal.
pub eq_of_bits : (a b : ℕ) → ((k : ℕ) → bit a k ≡ bit b k) → a ≡ b
eq_of_bits a b h = eq_of_bits_fuel (suc (a + b)) a b (omega arith) (omega arith) h

pub eq_zero_of_bits : (a : ℕ) → ((k : ℕ) → bit a k ≡ false) → a ≡ 0
eq_zero_of_bits a h = eq_of_bits a 0 (λ k. h k ∙ sym (bit-zero k))

pub lt_of_bits : (w a : ℕ) → ((k : ℕ) → w ≤ k → bit a k ≡ false) → a < 2 ^ w
unfolding bit
lt_of_bits zero a h = ground (arith, eq_zero_of_bits a (λ k. h k (omega arith)))
lt_of_bits (suc w) a h =
    omega (arith, pow-suc 2 w, lt_of_bits w (a / 2) (λ k le. h (suc k) (omega arith)))

xor-eq_of_false : (x y : Bool) → xor x y ≡ false → x ≡ y
unfolding xor
xor-eq_of_false x y e = ground arith

pub eq_of_xor_zero : (a b : ℕ) → bit_xor a b ≡ 0 → a ≡ b
eq_of_xor_zero a b e = eq_of_bits a b λ k.
    xor-eq_of_false (bit a k) (bit b k) (sym (bit-bit_xor a b k) ∙ ap (λ x. bit x k) e ∙ bit-zero k)

-- Flipping the differing bits of `a` gives `b`.
pub xor_xor : (a b : ℕ) → bit_xor a (bit_xor b a) ≡ b
unfolding xor
xor_xor a b =
    eq_of_bits (bit_xor a (bit_xor b a)) b
      λ k. ground (arith, bit-bit_xor a (bit_xor b a) k, bit-bit_xor b a k)
