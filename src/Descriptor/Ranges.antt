-- ===== src/Descriptor/Ranges.antt =====
-- `Range` visits the bindings of the view, in the order of the descriptors, until it is told to stop.
use mathlib.Core.Path.{fun_ext}
use native.Mathlib.Nat.{add_assoc, add-zero}
use wasi_go.Base.{
  ℕ, zero, suc, ◌+◌, ◌*◌, ◌/◌, ◌%◌, ◌≤◌, ◌<◌, ◌≡◌, inl, inr, refl, sym, ◌∙◌, ap, ap₂, ◌==◌, ==_iff,
  Bool, true, false, Option, none, some, List, [], ◌∷◌, ◌++◌, length, get_elem?, Bool-cases, arith,
  Run, ok,
}
use wasi_go.Bits.{bit}
use wasi_go.Bits.Laws.{bit-zero}
use wasi_go.Descriptor.{Table, range_word, range_masks, range, continue}
use wasi_go.Descriptor.View.{
  IsValid, is_set-bit, used, find, find-used, find-unused, object_of_find,
}

module _ {ℓ} {A : Type ℓ} where
  abbrev cons_found : ℕ → Option A → List (ℕ × A) → List (ℕ × A)
  cons_found d none rest = rest
  cons_found d (some a) rest = (d, a) ∷ rest

  -- The bindings of `n` descriptors from `d` on.
  unfoldable pub bindings : Table A → ℕ → ℕ → List (ℕ × A)
  bindings t d zero = []
  bindings t d (suc n) = cons_found d (find t d) (bindings t (d + 1) n)

  cons_found-append :
      (d : ℕ) (o : Option A) (xs ys : List (ℕ × A))
      → cons_found d o (xs ++ ys) ≡ cons_found d o xs ++ ys
  cons_found-append d none xs ys = refl
  cons_found-append d (some a) xs ys = refl

  bindings-add :
      (t : Table A) (m d n k : ℕ)
      → m + n ≡ k
      → bindings t d k ≡ bindings t d m ++ bindings t (d + m) n
  unfolding bindings
  bindings-add t zero d n k e =
      ap₂ (λ d n. bindings t d n) {x = d} {y = d + 0} (omega arith) (omega arith)
  bindings-add t (suc m) d n zero e = absurd (omega arith)
  bindings-add t (suc m) d n (suc k) e =
      ap (cons_found d (find t d)) (
        bindings-add t m (d + 1) n k (omega arith)
        ∙ ap (λ x. bindings t (d + 1) m ++ bindings t x n) (omega arith))
      ∙ cons_found-append d (find t d) (bindings t (d + 1) m) (bindings t (d + suc m) n)

  -- A word with no bit set has no bindings.
  bindings_unused :
      (t : Table A) (n d : ℕ)
      → ((j : ℕ) → d ≤ j → j < d + n → find t j ≡ none)
      → bindings t d n ≡ []
  unfolding bindings
  bindings_unused t zero d h = refl
  bindings_unused t (suc n) d h =
      rw (h d (omega arith) (omega arith))
        (bindings_unused t n (d + 1) (λ j le lt. h j (omega arith) (omega arith)))

module _ {κ} {S : Type κ} where
  abbrev and_then : S × Bool → (S → S × Bool) → S × Bool
  and_then (s, true) k = k s
  and_then (s, false) k = (s, false)

  and_then_assoc :
      (r : S × Bool) (k l : S → S × Bool)
      → and_then (and_then r k) l ≡ and_then r (λ s. and_then (k s) l)
  and_then_assoc (s, true) k l = refl
  and_then_assoc (s, false) k l = refl

  continue-ok :
      (r : S × Bool) (k : S → Run (S × Bool)) (l : S → S × Bool)
      → ((s : S) → k s ≡ ok (l s))
      → continue r k ≡ ok (and_then r l)
  continue-ok (s, true) k l h = h s
  continue-ok (s, false) k l h = refl

module _ {ℓ κ} {A : Type ℓ} {S : Type κ} (f : ℕ → A → S → S × Bool) where
  -- The callback on each binding in turn, until it says stop.
  unfoldable pub visit : List (ℕ × A) → S → S × Bool
  visit [] s = (s, true)
  visit ((d, a) ∷ rest) s = and_then (f d a s) (visit rest)

  visit-append :
      (xs ys : List (ℕ × A)) (s : S) → visit (xs ++ ys) s ≡ and_then (visit xs s) (visit ys)
  unfolding visit
  visit-append [] ys s = refl
  visit-append ((d, a) ∷ xs) ys s =
      rw (fun_ext (visit-append xs ys)) (sym (and_then_assoc (f d a s) (visit xs) (visit ys)))

  module _ (t : Table A) (v : IsValid t) where
    used_in_word :
        (i j m : ℕ) → get_elem? t.masks i ≡ some m → j < 64 → used t (i * 64 + j) ≡ bit m j
    unfolding used
    used_in_word i j m e h = rw (quotient, remainder, e) refl
      where
        quotient : (i * 64 + j) / 64 ≡ i
        quotient = omega arith

        remainder : (i * 64 + j) % 64 ≡ j
        remainder = omega arith

    range_word-visit :
        (r j i m : ℕ) (s : S)
        → get_elem? t.masks i ≡ some m
        → j + r ≡ 64
        → range_word f r j i m t.table s ≡ ok (visit (bindings t (i * 64 + j) r) s)
    unfolding range_word bindings visit
    range_word-visit zero j i m s e h = refl
    range_word-visit (suc r) j i m s e h = elim (Bool-cases (bit m j)) [
      | inr clear ↦
          rw
            (
              is_set-bit m j,
              clear,
              find-unused t (i * 64 + j) (used_in_word i j m e (omega arith) ∙ clear),
              add_assoc (i * 64) j 1,
            )
            (range_word-visit r (j + 1) i m s e (omega arith))
      | inl taken ↦
          let u = used_in_word i j m e (omega arith) ∙ taken in
          let (a, found) = find-used t (i * 64 + j) v u in
          rw
            (
              is_set-bit m j,
              taken,
              object_of_find t (i * 64 + j) a found,
              found,
              add_assoc (i * 64) j 1,
            )
            (continue-ok (f (i * 64 + j) a s) _ (visit (bindings t (i * 64 + (j + 1)) r))
              (λ s'. range_word-visit r (j + 1) i m s' e (omega arith)))
    ]

    visit_nothing : (d : ℕ) (s : S) → ok (s, true) ≡ ok (visit (bindings t d 0) s)
    unfolding bindings visit
    visit_nothing d s = refl

    visit_unused_word :
        (i : ℕ) (rest : List (ℕ × A)) (s : S)
        → get_elem? t.masks i ≡ some 0
        → visit (bindings t (i * 64) 64 ++ rest) s ≡ visit rest s
    visit_unused_word i rest s e =
        ap (λ xs. visit (xs ++ rest) s)
          (bindings_unused t 64 (i * 64) λ j le lt. find-unused t j (
            ap (used t) (omega arith)
            ∙ used_in_word i (j % 64) 0 e (omega arith)
            ∙ bit-zero (j % 64)))

    range_masks-visit :
        (masks : List ℕ) (i : ℕ) (s : S)
        → ((j : ℕ) → get_elem? masks j ≡ get_elem? t.masks (i + j))
        → range_masks f masks i t.table s ≡ ok (visit (bindings t (i * 64) (length masks * 64)) s)
    unfolding range_masks get_elem?
    range_masks-visit [] i s e = visit_nothing (i * 64) s
    range_masks-visit (m ∷ masks) i s e =
        let word : get_elem? t.masks i ≡ some m =
          sym (e 0 ∙ ap (get_elem? t.masks) (omega arith)) in
        let later : (s' : S)
            → range_masks f masks (i + 1) t.table s'
              ≡ ok (visit (bindings t (i * 64 + 64) (length masks * 64)) s') =
          λ s'.
            range_masks-visit masks (i + 1) s'
              (λ j. e (suc j) ∙ ap (get_elem? t.masks) (omega arith))
            ∙ ap (λ d. ok (visit (bindings t d (length masks * 64)) s')) (omega arith) in
        rw (bindings-add t 64 (i * 64) (length masks * 64) (suc (length masks) * 64) (omega arith))
          (elim (Bool-cases (m == 0)) [
            | inl nothing ↦
                let empty_word = word ∙ ap some ((==_iff m 0).0 nothing) in
                rw (nothing, visit_unused_word i _ s empty_word) (later s)
            | inr something ↦
                rw
                  (
                    something,
                    range_word-visit 64 0 i m s word refl,
                    add-zero (i * 64),
                    visit-append (bindings t (i * 64) 64)
                        (bindings t (i * 64 + 64) (length masks * 64)) s,
                  )
                  (continue-ok (visit (bindings t (i * 64) 64) s) _ _ later)
          ])

    -- Range over a valid table calls its function on the bindings of the table in the order of the
    -- descriptors, until the function says to stop, and does not panic.
    pub range-visit : (s : S) → range f t s ≡ ok (visit (bindings t 0 (length t.table)) s)
    unfolding range
    range-visit s =
        range_masks-visit t.masks 0 s (λ j. ap (get_elem? t.masks) (omega arith))
        ∙ ap (λ n. ok (visit (bindings t 0 n) s)) (sym v.sized)
