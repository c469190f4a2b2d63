-- ===== src/Bits.antt =====
-- Go's operators on unsigned words as functions on natural numbers, and the functions of
-- `math/bits` that the descriptor table calls.
pub mod Step
pub mod Laws
pub mod Words
use wasi_go.Base.{
  ℕ, zero, suc, ◌+◌, ◌-◌, ◌/◌, ◌%◌, ◌^◌, bit_and, bit_xor, Bool, ◌==◌, if◌then◌else◌,
}

-- Bit `k` of a word.
unfoldable pub bit : ℕ → ℕ → Bool
bit a zero = a % 2 == 1
bit a (suc k) = bit (a / 2) k

-- `^a` on words of `w` bits.
abbrev pub complement : ℕ → ℕ → ℕ
complement w a = bit_xor a (2 ^ w - 1)

-- `a &^ b` on words of `w` bits.
abbrev pub and_not : ℕ → ℕ → ℕ → ℕ
and_not w a b = bit_and a (complement w b)

-- `bits.OnesCount` of the `w` low bits.
unfoldable pub ones_count : ℕ → ℕ → ℕ
ones_count zero a = 0
ones_count (suc w) a = a % 2 + ones_count w (a / 2)

-- `bits.TrailingZeros` on words of `w` bits: `w` for 0.
unfoldable pub trailing_zeros : ℕ → ℕ → ℕ
trailing_zeros zero a = 0
trailing_zeros (suc w) a =
    let rest = suc (trailing_zeros w (a / 2)) in if a % 2 == 1 then 0 else rest
