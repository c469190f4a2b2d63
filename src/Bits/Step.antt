-- ===== src/Bits/Step.antt =====
-- The lowest digit of `&`, `|` and `^`. The native operations run along the binary digits of their
-- first argument with a count of rounds, of which any that is not too small gives the same.
use Prim.Native.Nat.{digits, bitwise, differ, bit_and-bitwise, bit_or-bitwise, bit_xor-bitwise}
use wasi_go.Base.{
  ℕ, zero, suc, ◌+◌, ◌*◌, ◌/◌, ◌%◌, ◌≤◌, ◌<◌, min, max, bit_and, bit_or, bit_xor, ◌≡◌, refl, sym,
  ◌∙◌, ap, arith,
}

module _ (rest : ℕ → ℕ) (digit : ℕ → ℕ → ℕ) where
  digits_surplus :
      (a rounds more b : ℕ)
      → a ≤ rounds
      → rounds ≤ more
      → digits rest digit more a b ≡ digits rest digit rounds a b
  digits_surplus zero zero zero b enough le = refl
  digits_surplus zero zero (suc more) b enough le = refl
  digits_surplus zero (suc rounds) zero b enough le = refl
  digits_surplus zero (suc rounds) (suc more) b enough le = refl
  digits_surplus (suc a) zero more b enough le = absurd (omega arith)
  digits_surplus (suc a) (suc rounds) zero b enough le = absurd (omega arith)
  digits_surplus (suc a) (suc rounds) (suc more) b enough le =
      ap (λ x. x * 2 + digit (suc a % 2) (b % 2))
        (digits_surplus (suc a / 2) rounds more (b / 2) (omega arith) (omega arith))

  -- An operation that means `bitwise`, if a number that has run out of digits is one of zeros.
  module _ (op : ℕ → ℕ → ℕ) (op_means : (a b : ℕ) → op a b ≡ bitwise rest digit a b)
      (zeros : (b : ℕ) → rest b ≡ rest (b / 2) * 2 + digit 0 (b % 2)) where
    lowest_digit : (a b : ℕ) → op a b ≡ op (a / 2) (b / 2) * 2 + digit (a % 2) (b % 2)
    lowest_digit zero b =
        op_means zero b ∙ zeros b ∙ ap (λ x. x * 2 + digit 0 (b % 2)) (sym (op_means zero (b / 2)))
    lowest_digit (suc a) b =
        op_means (suc a) b
        ∙ ap (λ x. x * 2 + digit (suc a % 2) (b % 2))
            (digits_surplus (suc a / 2) (suc a / 2) a (b / 2) (omega arith) (omega arith)
              ∙ sym (op_means (suc a / 2) (b / 2)))

pub bit_or_step : (a b : ℕ) → bit_or a b ≡ bit_or (a / 2) (b / 2) * 2 + max (a % 2) (b % 2)
bit_or_step = lowest_digit (λ y. y) max bit_or (λ a b. bit_or-bitwise a b) (λ b. omega arith)

pub bit_and_step : (a b : ℕ) → bit_and a b ≡ bit_and (a / 2) (b / 2) * 2 + min (a % 2) (b % 2)
bit_and_step = lowest_digit (λ y. 0) min bit_and (λ a b. bit_and-bitwise a b) (λ b. omega arith)

pub bit_xor_step : (a b : ℕ) → bit_xor a b ≡ bit_xor (a / 2) (b / 2) * 2 + differ (a % 2) (b % 2)
bit_xor_step = lowest_digit (λ y. y) differ bit_xor (λ a b. bit_xor-bitwise a b) (λ b. omega arith)

differ-binary : (x y : ℕ) → x < 2 → y < 2 → differ x y ≡ (x + y) % 2
differ-binary zero zero p q = refl
differ-binary zero (suc zero) p q = refl
differ-binary (suc zero) zero p q = refl
differ-binary (suc zero) (suc zero) p q = refl
differ-binary (suc (suc x)) y p q = absurd (omega arith)
differ-binary zero (suc (suc y)) p q = absurd (omega arith)
differ-binary (suc zero) (suc (suc y)) p q = absurd (omega arith)

pub differ-digits : (a b : ℕ) → differ (a % 2) (b % 2) ≡ (a + b) % 2
differ-digits a b = omega (arith, differ-binary (a % 2) (b % 2) (omega arith) (omega arith))
