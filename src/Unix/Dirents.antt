-- ===== src/Unix/Dirents.antt =====
-- systems/unix/readdir_linux.go: the records that getdents(2) writes, and what the buffer reads of them.
use wasi_go.Base.{
  ℕ, zero, suc, ◌+◌, ◌-◌, ◌/◌, ◌%◌, ◌^◌, ◌<◌, ◌==◌, leb, ◌≡◌, ap, ◌∙◌, if◌then◌else◌, List, [], ◌∷◌,
  ◌++◌, length, take, drop, take-append, drop-append, drop-length, arith,
}
use wasi_go.File.{Bytes, DirEntry}
use wasi_go.Unix.Directory.{le, ino_at, reclen_at, typ_at, entry_type, until_zero}

-- A record of the kernel; `body` is the name with what follows it.
pub record Dirent : Type 0 where
  pub ino : ℕ
  pub off : ℕ
  pub typ : ℕ
  pub body : Bytes

pub record IsDirent (e : Dirent) : Type 0 where
  pub small_ino : e.ino < 256 ^ 8
  pub small_typ : e.typ < 256
  pub small_body : 19 + length e.body < 256 ^ 2

-- The `n` bytes of a number, the lowest first.
abbrev pub le_bytes : ℕ → ℕ → Bytes
le_bytes zero x = []
le_bytes (suc n) x = x % 256 ∷ le_bytes n (x / 256)

unfoldable pub encode : Dirent → Bytes
encode e = le_bytes 8 e.ino ++ le_bytes 8 e.off ++ le_bytes 2 (19 + length e.body) ++ e.typ ∷ e.body

abbrev pub encode_all : List Dirent → Bytes
encode_all [] = []
encode_all (e ∷ es) = encode e ++ encode_all es

abbrev pub AllDirents : List Dirent → Type 0
AllDirents [] = Unit
AllDirents (e ∷ es) = IsDirent e × AllDirents es

le-le_bytes8 : (x : ℕ) → x < 256 ^ 8 → le (le_bytes 8 x) ≡ x
unfolding le
le-le_bytes8 x h = omega arith

le-le_bytes2 : (x : ℕ) → x < 256 ^ 2 → le (le_bytes 2 x) ≡ x
unfolding le
le-le_bytes2 x h = omega arith

le-one : (x : ℕ) → le (x ∷ []) ≡ x
unfolding le
le-one x = omega arith

pub length-encode : (e : Dirent) → length (encode e) ≡ 19 + length e.body
unfolding encode
length-encode e = omega arith

-- The entries that have a number among the records, from a cookie on; `i` is the cookie of the first.
unfoldable pub wanted : ℕ → ℕ → List Dirent → List DirEntry
wanted from i [] = []
wanted from i (e ∷ es) =
    if e.ino == 0
    then wanted from i es
    else if leb from i
    then record {
      next = i + 1;
      inode = e.ino;
      file_type = entry_type e.typ;
      name = until_zero e.body;
    }
      ∷ wanted from (i + 1) es
    else wanted from (i + 1) es

module _ (pre post : Bytes) (e : Dirent) (v : IsDirent e) where
  pub ino_at-encode : ino_at (pre ++ (encode e ++ post)) (length pre) ≡ e.ino
  unfolding ino_at encode
  ino_at-encode =
      ap (λ b. le (take 8 b)) (drop-length pre (encode e ++ post)) ∙ le-le_bytes8 e.ino v.small_ino

  pub reclen_at-encode : reclen_at (pre ++ (encode e ++ post)) (length pre) ≡ 19 + length e.body
  unfolding reclen_at encode
  reclen_at-encode =
      ap (λ b. le (take 2 b)) (drop-append pre (encode e ++ post) 16)
      ∙ le-le_bytes2 (19 + length e.body) v.small_body

  pub typ_at-encode : typ_at (pre ++ (encode e ++ post)) (length pre) ≡ e.typ
  unfolding typ_at encode
  typ_at-encode = ap (λ b. le (take 1 b)) (drop-append pre (encode e ++ post) 18) ∙ le-one e.typ

  pub body_at-encode :
      take (19 + length e.body - 19) (drop (length pre + 19) (pre ++ (encode e ++ post))) ≡ e.body
  unfolding encode
  body_at-encode =
      let same : 19 + length e.body - 19 ≡ length e.body = omega arith in
      ap (λ b. take (19 + length e.body - 19) b) (drop-append pre (encode e ++ post) 19)
      ∙ rw same (take-append e.body post)
