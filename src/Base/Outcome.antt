-- ===== src/Base/Outcome.antt =====
-- A run of Go code: a value, or a run-time panic (an index out of range, a negative shift).
-- `unfinished` stands for a loop that is cut off by its fuel.
use mathlib.Core.Option.{Option, none, some}
use mathlib.Core.Path.{◌≡◌, sym, ◌∙◌, subst}

pub data Run {ℓ} (A : Type ℓ) : Type ℓ where
  ok : A → Run A
  panic : Run A
  unfinished : Run A

infixl 5 ◌>>=◌
abbrev pub ◌>>=◌ {ℓ κ} : {A : Type ℓ} {B : Type κ} → Run A → (A → Run B) → Run B
ok a >>= f = f a
panic >>= f = panic
unfinished >>= f = unfinished

-- `xs[i]`, which panics out of range.
abbrev pub or_panic {ℓ} : {A : Type ℓ} → Option A → Run A
or_panic none = panic
or_panic (some a) = ok a

pub ok_inj {ℓ} : {A : Type ℓ} (a b : A) → ok a ≡ ok b → a ≡ b
ok_inj a b e = cc

-- What holds of the value that a run is known to have holds of the value that it has returned.
pub of_returned {ℓ κ} :
    {A : Type ℓ} (P : A → Type κ) (m : Run A) (b : A) → (a : A) × (m ≡ ok a) × P a → m ≡ ok b → P b
of_returned P m b (a, run, p) e = subst P (ok_inj a b (sym run ∙ e)) p
