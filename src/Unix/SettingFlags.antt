-- ===== src/Unix/SettingFlags.antt =====
-- systems/unix/file.go: `FDStatSetFlags`, which changes two flags of an open file.
use wasi_go.Base.{
  ℕ, suc, ◌^◌, ◌<◌, bit_or, ◌≡◌, refl, ◌∙◌, ap, Bool, true, false, ◌==◌, ltb, if◌then◌else◌, inl,
  inr, Bool-cases, lt_of_ltb, le_of_not_ltb, arith, ok, ◌>>=◌,
}
use wasi_go.Bits.{bit, and_not, complement}
use wasi_go.Bits.Laws.{bit-bit_or, bit-bit_and, bit-and_not, bit-pow, bit-above, lt_of_bits}
use wasi_go.File.{append, non_block}
use wasi_go.Rights.{has}
use wasi_go.Unix.Calls.{returned, ignore_eintr2, errno_of}
use wasi_go.Unix.Calls.Laws.{ignore_eintr2-returned}
use wasi_go.Unix.FileKernel.{FileKernel}
use wasi_go.Unix.Files.{set_flags, set_flags_to, stat_set_flags}

-- A flag that is set or cleared.
bit-changed :
    (c : Bool) (i fl k : ℕ)
    → i < 64
    → fl < 2 ^ 64
    → bit (if c then bit_or fl (2 ^ i) else and_not 64 fl (2 ^ i)) k
      ≡ (if i == k then c else bit fl k)
bit-changed true i fl k low small = ground (arith, bit-bit_or fl (2 ^ i) k, bit-pow i k)
bit-changed false i fl k low small = elim (Bool-cases (ltb k 64)) [
  | inl in_word ↦ ground (arith, bit-and_not 64 fl (2 ^ i) k (lt_of_ltb in_word), bit-pow i k)
  | inr above ↦ ground (
    arith,
    bit-bit_and fl (complement 64 (2 ^ i)) k,
    bit-above 64 fl k small (le_of_not_ltb above),
  )
]

changed-small :
    (c : Bool) (i fl : ℕ)
    → i < 64
    → fl < 2 ^ 64
    → (if c then bit_or fl (2 ^ i) else and_not 64 fl (2 ^ i)) < 2 ^ 64
changed-small c i fl low small =
    lt_of_bits 64 _
      λ k above. bit-changed c i fl k low small ∙ ground (arith, bit-above 64 fl k small above)

set_flags-bits :
    (flags fl k : ℕ)
    → fl < 2 ^ 64
    → bit (set_flags flags fl) k
      ≡ (if 11 == k then has flags non_block else if 10 == k then has flags append else bit fl k)
unfolding set_flags
set_flags-bits flags fl k small =
    bit-changed (has flags non_block) 11 _ k (omega arith)
      (changed-small (has flags append) 10 fl (omega arith) small)
    ∙ ap (λ b. if 11 == k then has flags non_block else b)
        (bit-changed (has flags append) 10 fl k (omega arith) small)

module _ {File World : Type 0} (k : FileKernel File World) (rounds : ℕ) where
  -- If the flags of an open file can be read, FDStatSetFlags writes flags that differ from them at
  -- most in O_APPEND and O_NONBLOCK, which are set exactly if they are asked for, and returns the
  -- error number of that.
  pub stat_set_flags-changes :
      (f : File) (flags fl : ℕ) (w w' : World)
      → k.getfl f w ≡ (returned fl, w')
      → fl < 2 ^ 64
      → (new : ℕ) × ((i : ℕ)
          → bit new i ≡ (
              if 11 == i
              then has flags non_block
              else if 10 == i
              then has flags append
              else bit fl i))
        × (stat_set_flags k (suc rounds) f flags w ≡ (
            ignore_eintr2 (suc rounds) (k.setfl f new) w' >>= λ r.
            errno_of r.0 >>= λ errno. ok (errno, r.1)))
  unfolding stat_set_flags set_flags_to
  stat_set_flags-changes f flags fl w w' reads small = (
    set_flags flags fl,
    λ i. set_flags-bits flags fl i small,
    rw (ignore_eintr2-returned rounds (k.getfl f) w w' fl reads) refl,
  )
