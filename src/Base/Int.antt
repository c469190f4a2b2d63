-- ===== src/Base/Int.antt =====
-- Go's signed integers, as far as the code computes with them.
use Prim.Native.Nat.{ℕ, zero, suc, ◌-◌, ◌^◌, ◌/◌, ◌%◌, ◌<◌}
use mathlib.Core.Bool.{Bool, true, false}
use wasi_go.Base.Tests.{◌==◌, leb, ltb, if◌then◌else◌, ltb_of_lt}
use mathlib.Core.Path.{◌≡◌, refl}
use native.Mathlib.Omega.{arith}

-- `negsuc n` is -(n + 1).
pub data ℤ : Type 0 where
  pos : ℕ → ℤ
  negsuc : ℕ → ℤ

-- `int32(n)` of a natural number.
abbrev pub to_int32 : ℕ → ℤ
to_int32 n =
    if ltb (n % 2 ^ 32) (2 ^ 31) then pos (n % 2 ^ 32) else negsuc (2 ^ 32 - 1 - n % 2 ^ 32)

-- `uint(d)` on 64 bits.
abbrev pub to_uint : ℤ → ℕ
to_uint (pos n) = n
to_uint (negsuc n) = 2 ^ 64 - suc n

-- `int(d) >= n` for a length `n`.
abbrev pub at_least : ℤ → ℕ → Bool
at_least (pos d) n = leb n d
at_least (negsuc d) n = false

abbrev pub int_eq : ℤ → ℤ → Bool
int_eq (pos a) (pos b) = a == b
int_eq (negsuc a) (negsuc b) = a == b
int_eq (pos a) (negsuc b) = false
int_eq (negsuc a) (pos b) = false

-- `-n`
abbrev pub negated : ℕ → ℤ
negated zero = pos 0
negated (suc n) = negsuc n

-- `d / n` and `d % n` round towards 0.
abbrev pub quot : ℤ → ℕ → ℤ
quot (pos d) n = pos (d / n)
quot (negsuc d) n = negated (suc d / n)

abbrev pub rem : ℤ → ℕ → ℤ
rem (pos d) n = pos (d % n)
rem (negsuc d) n = negated (suc d % n)

-- `d >= 0`, and `d < n` for a length `n`.
abbrev pub is_natural : ℤ → Bool
is_natural (pos d) = true
is_natural (negsuc d) = false

abbrev pub below : ℤ → ℕ → Bool
below (pos d) n = ltb d n
below (negsuc d) n = true

pub to_int32-pos : (n : ℕ) → n < 2 ^ 31 → to_int32 n ≡ pos n
to_int32-pos n h = let small : n % 2 ^ 32 ≡ n = omega arith in rw (small, ltb_of_lt h) refl
