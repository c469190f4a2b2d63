-- ===== src/Descriptor/Counts.antt =====
-- internal/descriptor/table.go: descriptors in use bound what `Len` counts.
use wasi_go.Base.{
  ℕ, zero, suc, ◌+◌, ◌-◌, ◌/◌, ◌%◌, ◌≤◌, ◌<◌, ◌≡◌, inl, inr, sym, ◌∙◌, ap, ap₂, ltb, true, List, [],
  ◌∷◌, get_elem?, Bool-cases, lt_of_ltb, le_of_not_ltb, arith,
}
use wasi_go.Bits.{bit}
use wasi_go.Bits.Words.{le-ones_count}
use wasi_go.Descriptor.{Table, len, sum_counts}
use wasi_go.Descriptor.View.{bit_at, used}

le-sum_counts :
    (masks : List ℕ) (d : ℕ)
    → ((j : ℕ) → j < d → bit_at (get_elem? masks (j / 64)) (j % 64) ≡ true)
    → d ≤ sum_counts masks
unfolding sum_counts get_elem?
le-sum_counts masks zero h = omega arith
le-sum_counts [] (suc d) h = cc (h 0 (omega arith))
le-sum_counts (m ∷ ms) (suc d) h = elim (Bool-cases (ltb d 64)) [
  | inl small ↦ omega (
    arith,
    le-ones_count 64 (suc d) m (omega (arith, lt_of_ltb small))
        (λ j lt. first j (omega (arith, lt_of_ltb small)) lt),
  )
  | inr large ↦ omega (
    arith,
    le-ones_count 64 64 m (omega arith) (λ j lt. first j lt (omega (arith, le_of_not_ltb large))),
    le-sum_counts ms (suc d - 64) (λ j lt. later j (omega (arith, le_of_not_ltb large))),
  )
]
  where
    first : (j : ℕ) → j < 64 → j < suc d → bit m j ≡ true
    first j small lt = word (j / 64) (j % 64) (omega arith) (omega arith) (h j lt)
      where
        word : (q r : ℕ) → q ≡ 0 → r ≡ j → bit_at (get_elem? (m ∷ ms) q) r ≡ true → bit m j ≡ true
        word zero r e f g = ap (bit m) (sym f) ∙ g
        word (suc q) r e f g = absurd (omega arith)

    later : (j : ℕ) → j + 64 < suc d → bit_at (get_elem? ms (j / 64)) (j % 64) ≡ true
    later j lt = word ((j + 64) / 64) ((j + 64) % 64) (omega arith) (omega arith) (h (j + 64) lt)
      where
        word :
            (q r : ℕ)
            → q ≡ suc (j / 64)
            → r ≡ j % 64
            → bit_at (get_elem? (m ∷ ms) q) r ≡ true
            → bit_at (get_elem? ms (j / 64)) (j % 64) ≡ true
        word zero r e f g = absurd (omega arith)
        word (suc q) r e f g =
            ap₂ (λ q r. bit_at (get_elem? ms q) r) {x = j / 64} {y = q} (omega arith) (sym f) ∙ g

module _ {ℓ} {A : Type ℓ} where
  -- If all descriptors below `d` are in use, `Len` is at least `d`.
  pub le-len : (t : Table A) (d : ℕ) → ((j : ℕ) → j < d → used t j ≡ true) → d ≤ len t
  unfolding len used
  le-len t d h = le-sum_counts t.masks d h
