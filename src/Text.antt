-- ===== src/Text.antt =====
-- What the methods `String`, `Name` and `Error` use of Go's package fmt: `%d` of a number, in texts
-- like "Signal(31)".
use Prim.Native.String.{◌++◌}
use wasi_go.Base.{
  ℕ, zero, suc, ◌/◌, ◌%◌, ltb, if◌then◌else◌, String, Option, none, some, List, [], ◌∷◌, get_elem?,
}

abbrev digits : List String
digits = "0" ∷ "1" ∷ "2" ∷ "3" ∷ "4" ∷ "5" ∷ "6" ∷ "7" ∷ "8" ∷ "9" ∷ []

abbrev or_empty : Option String → String
or_empty none = ""
or_empty (some s) = s

-- The decimal digits of a number, at most as many as the fuel.
unfoldable decimal_loop : ℕ → ℕ → String
unfolding get_elem?
decimal_loop zero n = ""
decimal_loop (suc fuel) n =
    let rest = decimal_loop fuel (n / 10) in
    let digit = or_empty (get_elem? digits (n % 10)) in if ltb n 10 then digit else rest ++ digit

-- A 64-bit number has 20 digits at most.
unfoldable pub decimal : ℕ → String
unfolding decimal_loop
decimal n = decimal_loop 20 n

-- An entry of a table of texts, or `prefix` with the number behind it.
unfoldable pub or_format : Option String → String → ℕ → String
unfolding decimal
or_format (some s) prefix n = s
or_format none prefix n = prefix ++ decimal n ++ ")"
