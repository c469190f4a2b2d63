-- ===== src/Descriptor/Updates.antt =====
-- `Assign` and `Delete` on a valid table: they do not panic, and change one descriptor of the view.
use wasi_go.Base.{
  ℕ, suc, ◌+◌, ◌/◌, ◌%◌, ◌<◌, ◌≡◌, inl, inr, refl, sym, ◌∙◌, ap, ap₂, ◌==◌, ==_iff, ltb, leb,
  if◌then◌else◌, Bool, true, false, Option, none, some, length, get_elem?, get_elem?-within,
  Bool-cases, arith, ltb_of_lt, le_of_not_ltb, lt_of_ltb, pos, Run, ok, ◌>>=◌,
}
use wasi_go.Bits.{bit}
use wasi_go.Descriptor.{Table, len, grow, assign_in, assign, delete}
use wasi_go.Descriptor.View.{
  IsValid, bit_at, is_set-bit, used, find, find-unused, mask_within, used_beyond,
}
use wasi_go.Descriptor.Slots.{length-grow, grow-IsValid, find-grow, used-grow, len-grow}
use wasi_go.Descriptor.Writes.{
  with_slot, without_slot, with_slot-IsValid, without_slot-IsValid, find-with_slot,
  find-without_slot, len-with_slot, len-with_slot-used, len-without_slot,
}

-- How `t'` comes from `t` by binding `d` to `object`.
pub record Binds {ℓ} {A : Type ℓ} (t : Table A) (d : ℕ) (object : A) (t' : Table A) : Type ℓ where
  pub valid : IsValid t'
  pub reads : (j : ℕ) → find t' j ≡ (if d == j then some object else find t j)
  pub count : len t' ≡ (if used t d then len t else suc (len t))

-- And by removing `d`.
pub record Unbinds {ℓ} {A : Type ℓ} (t : Table A) (d : ℕ) (t' : Table A) : Type ℓ where
  pub valid : IsValid t'
  pub reads : (j : ℕ) → find t' j ≡ (if d == j then none else find t j)
  pub count : len t ≡ (if used t d then suc (len t') else len t')

module _ {ℓ} {A : Type ℓ} (z : A) where
  with_slot-Binds :
      (t : Table A) (d m : ℕ) (object : A)
      → IsValid t
      → get_elem? t.masks (d / 64) ≡ some m
      → d < length t.table
      → Binds t d object (with_slot t d m object)
  with_slot-Binds t d m object v e h = record {
    valid = with_slot-IsValid t d m v e h object;
    reads = find-with_slot t d m v e h object;
    count = elim (Bool-cases (used t d)) [
      | inl u ↦ rw (len-with_slot-used t d m e object u, u) refl
      | inr u ↦ rw (len-with_slot t d m e object u, u) refl
    ];
  }

  bind_found {κ} :
      {B : Type κ} (b : Bool) (a : A) (k : Option A → Run B)
      → ((if b then ok (some a) else ok none) >>= k) ≡ k (if b then some a else none)
  bind_found true a k = refl
  bind_found false a k = refl

  pub assign_in-Binds :
      (t : Table A) (d : ℕ) (object : A)
      → IsValid t
      → d < length t.table
      → (t' : Table A) × (assign_in z (pos d) object t ≡ ok (find t d, t')) × Binds t d object t'
  unfolding assign_in find
  assign_in-Binds t d object v h =
      let (m, e) = mask_within t d v h in
      let (a, o) = get_elem?-within t.table d h in
      (
        with_slot t d m object,
        rw
            (
              e,
              o,
              is_set-bit m (d % 64),
              ltb_of_lt h,
              ltb_of_lt {a = d / 64} {b = length t.masks} (omega (arith, v.sized)),
            )
            (bind_found (bit m (d % 64)) a _),
        with_slot-Binds t d m object v e h,
      )

  -- Assign to a non-negative descriptor of a valid table returns what the descriptor was bound to,
  -- if anything, and a valid table in which it is bound to the object and all other descriptors
  -- are as before, with one object more if the descriptor was free and as many otherwise.
  pub assign-Binds :
      (t : Table A) (d : ℕ) (object : A)
      → IsValid t
      → (t' : Table A) × (assign z (pos d) object t ≡ ok (find t d, t')) × Binds t d object t'
  unfolding assign
  assign-Binds t d object v = elim (Bool-cases (leb (length t.table) d)) [
    | inr within ↦ rw within (assign_in-Binds t d object v (ground arith))
    | inl beyond ↦
        let g = grow z (d + 1) t in
        let gv = grow-IsValid z (d + 1) t v in
        let (t', run, b) =
          assign_in-Binds g d object gv (omega (arith, gv.sized, length-grow z (d + 1) t)) in
        (
          t',
          rw beyond (run ∙ ap (λ o. ok (o, t')) (find-grow z (d + 1) d t v)),
          record {
            valid = b.valid;
            reads = λ j.
                b.reads j ∙ ap (λ o. if d == j then some object else o) (find-grow z (d + 1) j t v);
            count =
                b.count
                ∙ ap₂ (λ (u : Bool) (n : ℕ). if u then n else suc n) (used-grow z (d + 1) d t)
                    (len-grow z (d + 1) t);
          },
        )
  ]

  unused-Unbinds : (t : Table A) (d : ℕ) → IsValid t → used t d ≡ false → Unbinds t d t
  unused-Unbinds t d v u = record {
    valid = v;
    reads = λ j. elim (Bool-cases (d == j)) [
      | inl same ↦ rw same (ap (find t) (sym ((==_iff d j).0 same)) ∙ find-unused t d u)
      | inr other ↦ rw other refl
    ];
    count = rw u refl;
  }

  cleared :
      (t : Table A) (d m : ℕ)
      → get_elem? t.masks (d / 64) ≡ some m
      → used t d ≡ true
      → len t ≡ (if used t d then suc (len (without_slot t d m z)) else len (without_slot t d m z))
  cleared t d m e u = rw u (sym (len-without_slot t d m e z u))

  -- Delete of a non-negative descriptor of a valid table returns a valid table in which it is not
  -- bound and all other descriptors are as before, with one object less if it was bound and as
  -- many otherwise.
  pub delete-Unbinds :
      (t : Table A) (d : ℕ)
      → IsValid t
      → (t' : Table A) × (delete z (pos d) t ≡ ok t') × Unbinds t d t'
  unfolding delete used
  delete-Unbinds t d v = elim (Bool-cases (ltb (d / 64) (length t.masks))) [
    | inr out ↦ (
      t,
      rw out refl,
      unused-Unbinds t d v (used_beyond t d v (omega (arith, v.sized, le_of_not_ltb out))),
    )
    | inl within ↦
        let h : d < length t.table = omega (arith, v.sized, lt_of_ltb within) in
        let (m, e) = mask_within t d v h in
        elim (Bool-cases (bit m (d % 64))) [
          | inr free ↦ (
            t,
            rw (within, e, is_set-bit m (d % 64), free) refl,
            unused-Unbinds t d v (ap (λ o. bit_at o (d % 64)) e ∙ free),
          )
          | inl taken ↦ (
            without_slot t d m z,
            rw (within, e, is_set-bit m (d % 64), taken, ltb_of_lt h) refl,
            record {
              valid = without_slot-IsValid t d m v e h z;
              reads = find-without_slot t d m v e h z;
              count = cleared t d m e (ap (λ o. bit_at o (d % 64)) e ∙ taken);
            },
          )
        ]
  ]
