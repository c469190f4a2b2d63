-- ===== src/Unix/OpenFlags.antt =====
-- systems/unix/file.go: the flags with which `PathOpen` opens a file, bit by bit.
use wasi_go.Base.{
  ℕ, suc, bit_and, ◌≡◌, refl, sym, ◌∙◌, ap, Bool, true, false, not, ◌&&◌, ◌||◌, if◌then◌else◌, inl,
  inr, Bool-cases, ==_iff, ◌==◌, arith,
}
use wasi_go.Bits.{bit}
use wasi_go.Bits.Laws.{bit-bit_or, bit-bit_and, bit-zero, bit-pow, eq_zero_of_bits}
use wasi_go.File.{open_directory}
use wasi_go.Rights.{has, directory_rights, fd_write_right}
use wasi_go.Rights.Laws.{Subset, has-Subset, and-Subset_right, Subset-trans}
use wasi_go.Unix.FilePaths.{or_if, access_mode}

pub bit-or_if : (c : Bool) (f x k : ℕ) → bit (or_if c f x) k ≡ (bit x k || (c && bit f k))
unfolding or_if
bit-or_if true f x k = ground (arith, bit-bit_or x f k)
bit-or_if false f x k = ground arith

pub and_false : (c : Bool) → (c && false) ≡ false
and_false true = refl
and_false false = refl

pub and_true : (c : Bool) → (c && true) ≡ c
and_true true = refl
and_true false = refl

pub if_not : (b : Bool) (x y : ℕ) → (if not b then x else y) ≡ (if b then y else x)
if_not true x y = refl
if_not false x y = refl

pub or_false : (c : Bool) → (c || false) ≡ c
or_false true = refl
or_false false = refl

pub access_mode-high : (d r w : Bool) (k : ℕ) → bit (access_mode d r w) (suc (suc k)) ≡ false
unfolding access_mode bit
access_mode-high true r w k = bit-zero k
access_mode-high false true true k = bit-zero k
access_mode-high false true false k = bit-zero k
access_mode-high false false true k = bit-zero k
access_mode-high false false false k = bit-zero k

-- Which of O_WRONLY and O_RDWR the access mode is; a directory has no right to write.
pub access_mode-bits :
    (d r w : Bool)
    → (d ≡ true → w ≡ false)
    → ((bit (access_mode d r w) 0 || bit (access_mode d r w) 1) ≡ w)
      × (bit (access_mode d r w) 1 ≡ (r && w))
unfolding access_mode bit
access_mode-bits true true w h = (sym (h refl), sym (h refl))
access_mode-bits true false w h = (sym (h refl), refl)
access_mode-bits false true true h = (refl, refl)
access_mode-bits false true false h = (refl, refl)
access_mode-bits false false true h = (refl, refl)
access_mode-bits false false false h = (refl, refl)

-- The rights of a file that is opened.
abbrev pub granted : ℕ → ℕ → ℕ
granted open_flags rights =
    if has open_flags open_directory then bit_and rights directory_rights else rights

pub granted-no_write :
    (open_flags rights : ℕ)
    → has open_flags open_directory ≡ true
    → has (granted open_flags rights) fd_write_right ≡ false
unfolding has
granted-no_write open_flags rights d =
    elim (Bool-cases (has (granted open_flags rights) fd_write_right)) [
      | inr lacks ↦ lacks
      | inl held ↦
          let held' : has (bit_and rights directory_rights) fd_write_right ≡ true = rw d at held in
          let absent : has directory_rights fd_write_right ≡ false = refl in
          absurd (
            cc (
              absent,
              (has-Subset directory_rights fd_write_right).1 (
                  Subset-trans fd_write_right (bit_and rights directory_rights) directory_rights
                    ((has-Subset (bit_and rights directory_rights) fd_write_right).0 held')
                    (and-Subset_right rights directory_rights)),
            ))
    ]

pub no_directory : (w : ℕ) → (bit_and w 65536 == 0) ≡ not (bit w 16)
no_directory w = elim (Bool-cases (bit w 16)) [
  | inl set ↦ elim (Bool-cases (bit_and w 65536 == 0)) [
    | inl zero ↦
        let none : bit (bit_and w 65536) 16 ≡ false =
          ap (λ x. bit x 16) ((==_iff (bit_and w 65536) 0).0 zero) ∙ bit-zero 16 in
        ground (arith, none, set, bit-bit_and w 65536 16, bit-pow 16 16)
    | inr some ↦ rw (set, some) refl
  ]
  | inr unset ↦ rw unset (
      (==_iff (bit_and w 65536) 0).1 (
        eq_zero_of_bits (bit_and w 65536) λ k. elim (Bool-cases (16 == k)) [
          | inl at ↦ bit-bit_and w 65536 k ∙ rw (sym ((==_iff 16 k).0 at)) (rw unset refl)
          | inr off ↦ ground (arith, off, bit-bit_and w 65536 k, bit-pow 16 k)
        ]))
]

pub ruleset flag_bits = (bit-bit_or, bit-or_if, and_true, and_false, or_false)

-- All flags that are used.
abbrev pub used_flags : ℕ
used_flags = 1777347

pub or_if-Subset : (c : Bool) (f x m : ℕ) → has m f ≡ true → Subset x m → Subset (or_if c f x) m
unfolding or_if
or_if-Subset true f x m h s k set = ground (arith, bit-bit_or x f k, s k, (has-Subset m f).0 h k)
or_if-Subset false f x m h s k set = s k set

pub access_mode-Subset : (d r w : Bool) → Subset (access_mode d r w) used_flags
unfolding access_mode has
access_mode-Subset true r w = (has-Subset used_flags 0).0 refl
access_mode-Subset false true true = (has-Subset used_flags 2).0 refl
access_mode-Subset false true false = (has-Subset used_flags 0).0 refl
access_mode-Subset false false true = (has-Subset used_flags 1).0 refl
access_mode-Subset false false false = (has-Subset used_flags 0).0 refl
