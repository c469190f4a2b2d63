-- ===== src/Descriptor/Pointer.antt =====
-- A write through the pointer that `Access` returned.
use wasi_go.Base.{
  ℕ, ◌≡◌, ◌<◌, ◌≤◌, refl, sym, ◌∙◌, ap, ◌==◌, ltb, if◌then◌else◌, true, some, length, set,
  get_elem?-set, length-set, get_elem?-beyond, ℤ, pos, negsuc, int_eq, inl, inr, Bool-cases, ==_iff,
  lt_of_ltb, le_of_not_ltb,
}
use wasi_go.Descriptor.{Table, len, modify}
use wasi_go.Descriptor.View.{IsValid, used, find, view, used_of_find, object_of_find}

-- How `t'` comes from `t` by a new object under `fd`.
pub record Modifies {ℓ} {A : Type ℓ} (t : Table A) (fd : ℤ) (object : A) (t' : Table A)
    : Type ℓ where
  pub valid : IsValid t'
  pub reads : (j : ℤ) → view t' j ≡ (if int_eq fd j then some object else view t j)
  pub count : len t' ≡ len t

module _ {ℓ} {A : Type ℓ} where
  find-set :
      (t : Table A) (d : ℕ) (a object : A) (j : ℕ)
      → find t d ≡ some a
      → find (record t { table = set t.table d object }) j
        ≡ (if d == j then some object else find t j)
  unfolding find
  find-set t d a object j e = elim (Bool-cases (d == j)) [
    | inl same ↦
        let u : used t j ≡ true = ap (used t) (sym ((==_iff d j).0 same)) ∙ used_of_find t d a e in
        rw (same, get_elem?-set t.table d j object within, same) (rw u refl)
    | inr other ↦ rw (other, get_elem?-set t.table d j object within, other) refl
  ]
    where
      within : d < length t.table
      within = elim (Bool-cases (ltb d (length t.table))) [
        | inl h ↦ lt_of_ltb h
        | inr h ↦ absurd (out_of_range (le_of_not_ltb h))
      ]
        where
          out_of_range : length t.table ≤ d → ⊥
          out_of_range h = cc (object_of_find t d a e, get_elem?-beyond t.table d h)

  pub modify-Modifies :
      (t : Table A) (fd : ℤ) (a object : A)
      → IsValid t
      → view t fd ≡ some a
      → Modifies t fd object (modify fd object t)
  unfolding modify len
  modify-Modifies t (pos d) a object v e = record {
    valid = record { sized = length-set t.table d object ∙ v.sized; words = v.words };
    reads = λ j. reads j;
    count = refl;
  }
    where
      reads :
          (j : ℤ)
          → view (record t { table = set t.table d object }) j
            ≡ (if int_eq (pos d) j then some object else view t j)
      reads (pos j) = find-set t d a object j e
      reads (negsuc j) = refl
  modify-Modifies t (negsuc d) a object v e = cc
