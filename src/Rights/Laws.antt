-- ===== src/Rights/Laws.antt =====
-- Sets of rights: `&`, `&^` and `Has` read as intersection, difference and inclusion.
use wasi_go.Base.{
  ℕ, ◌^◌, ◌<◌, bit_and, ◌≡◌, ◌↔◌, ap, true, ==_iff, inl, inr, Bool-cases, ltb, lt_of_ltb,
  le_of_not_ltb, arith,
}
use wasi_go.Bits.{bit, and_not, complement}
use wasi_go.Bits.Laws.{bit-bit_and, bit-and_not, bit-zero, bit-above, eq_of_bits, eq_zero_of_bits}
use wasi_go.Rights.{has}

-- Every right in `a` is in `b`.
abbrev pub Subset : ℕ → ℕ → Type 0
Subset a b = (k : ℕ) → bit a k ≡ true → bit b k ≡ true

pub Subset-refl : (a : ℕ) → Subset a a
Subset-refl a k h = h

pub Subset-trans : (a b c : ℕ) → Subset a b → Subset b c → Subset a c
Subset-trans a b c p q k h = q k (p k h)

pub and-Subset_left : (a b : ℕ) → Subset (bit_and a b) a
and-Subset_left a b k h = ground (arith, bit-bit_and a b k)

pub and-Subset_right : (a b : ℕ) → Subset (bit_and a b) b
and-Subset_right a b k h = ground (arith, bit-bit_and a b k)

pub Subset-and : (a b c : ℕ) → Subset a b → Subset a c → Subset a (bit_and b c)
Subset-and a b c p q k h = ground (arith, bit-bit_and b c k, p k, q k)

-- Meeting with a superset changes nothing.
pub and-eq_of_Subset : (a b : ℕ) → Subset a b → bit_and a b ≡ a
and-eq_of_Subset a b s = eq_of_bits (bit_and a b) a λ k. ground (arith, bit-bit_and a b k, s k)

pub has-Subset : (flags f : ℕ) → (has flags f ≡ true) ↔ Subset f flags
unfolding has
has-Subset flags f = (
  λ h k set.
      ground (arith, ap (λ x. bit x k) ((==_iff (bit_and flags f) f).0 h), bit-bit_and flags f k),
  λ s.
      (==_iff (bit_and flags f) f).1
        (eq_of_bits (bit_and flags f) f λ k. ground (arith, bit-bit_and flags f k, s k)),
)

-- `(a &^ b) == 0` tests inclusion of 64-bit words.
pub and_not_zero-Subset : (a b : ℕ) → a < 2 ^ 64 → (and_not 64 a b ≡ 0) ↔ Subset a b
and_not_zero-Subset a b w = (
  λ e k set. elim (Bool-cases (ltb k 64)) [
    | inl low ↦
        ground (arith, ap (λ x. bit x k) e, bit-zero k, bit-and_not 64 a b k (lt_of_ltb low))
    | inr high ↦ ground (arith, bit-above 64 a k w (le_of_not_ltb high))
  ],
  λ s. eq_zero_of_bits (and_not 64 a b) λ k. elim (Bool-cases (ltb k 64)) [
    | inl low ↦ ground (arith, bit-and_not 64 a b k (lt_of_ltb low), s k)
    | inr high ↦
        ground (arith, bit-bit_and a (complement 64 b) k, bit-above 64 a k w (le_of_not_ltb high))
  ],
)
