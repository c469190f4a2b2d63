-- ===== src/Unix/Listing.antt =====
-- systems/unix/readdir_linux.go: `readDirEntries` over a directory that the kernel lists.
use wasi_go.Base.{
  ℕ, suc, ◌+◌, ◌≤◌, ◌==◌, leb, ◌≡◌, ◌≢◌, ap, ◌∙◌, false, if◌then◌else◌, List, [], ◌∷◌, ◌++◌, length,
  arith, Bool-cases, ◌⊎◌, inl, inr,
}
use wasi_go.File.{Bytes, DirEntry}
use wasi_go.Unix.Calls.{Called, returned}
use wasi_go.Unix.Directory.{
  DirKernel, Dirbuf, Request, Round, stop, go, bytes_of, entry_type, until_zero, buffer_size,
}
use wasi_go.Unix.Dirents.{Dirent, AllDirents, encode_all, wanted}

-- The number of records that have a number.
unfoldable pub live : List Dirent → ℕ
live [] = 0
live (e ∷ es) = if e.ino == 0 then live es else 1 + live es

abbrev pub entry_of : ℕ → Dirent → DirEntry
entry_of i e = record {
  next = i + 1;
  inode = e.ino;
  file_type = entry_type e.typ;
  name = until_zero e.body;
}

pub live-append : (xs ys : List Dirent) → live (xs ++ ys) ≡ live xs + live ys
unfolding live
live-append [] ys = omega arith
live-append (x ∷ xs) ys = ground (arith, live-append xs ys)

pub wanted-append :
    (from i : ℕ) (xs ys : List Dirent)
    → i + live xs ≤ from
    → wanted from i (xs ++ ys) ≡ wanted from (i + live xs) ys
unfolding wanted live
wanted-append from i [] ys h = ap (λ j. wanted from j ys) (omega arith)
wanted-append from i (x ∷ xs) ys h = elim (Bool-cases (x.ino == 0)) [
  | inl unused ↦ rw unused (wanted-append from i xs ys (rw unused at h))
  | inr used ↦
      let h' : i + (1 + live xs) ≤ from = rw used at h in
      let past : leb from i ≡ false = ground arith in
      rw (used, past)
        (wanted-append from (i + 1) xs ys (omega arith) ∙ ap (λ j. wanted from j ys) (omega arith))
]

pub append-ne-nil : (out : List DirEntry) (x : DirEntry) → out ++ x ∷ [] ≢ []
append-ne-nil [] x e = cc
append-ne-nil (y ∷ out) x e = cc

pub AllDirents-right : (xs ys : List Dirent) → AllDirents (xs ++ ys) → AllDirents ys
AllDirents-right [] ys v = v
AllDirents-right (x ∷ xs) ys v = AllDirents-right xs ys v.1

pub AllDirents-left : (xs ys : List Dirent) → AllDirents (xs ++ ys) → AllDirents xs
AllDirents-left [] ys v = tt
AllDirents-left (x ∷ xs) ys v = (v.0, AllDirents-left xs ys v.1)

-- A kernel that lists the records `all` of the file `f`: each call of getdents(2) returns the next ones,
-- whole and at least one if there are more, and a seek to the start begins again.
pub record Chunk {World : Type 0} (rest : World → List Dirent) (w : World)
    (r : Called Bytes × World) : Type 0 where
  pub chunk : List Dirent
  pub w' : World
  pub writes : r ≡ (returned (encode_all chunk), w')
  pub next : rest w ≡ chunk ++ rest w'
  pub some_more : chunk ≡ [] → rest w ≡ []

pub record ListsDir {File World : Type 0} (k : DirKernel File World) (f : File) (all : List Dirent)
    : Type 0 where
  pub rest : World → List Dirent
  pub lists : (w : World) → Chunk rest w (k.getdents f buffer_size w)
  pub starts : (w : World) → (w' : World) × (k.rewind f w ≡ (returned 0, w')) × (rest w' ≡ all)

module _ {File World : Type 0} (k : DirKernel File World) (f : File) (all : List Dirent)
    (valid : AllDirents all) (l : ListsDir k f all) where
  -- The buffer holds records that follow those that are done, and the kernel has the others.
  pub record Holds (d : Dirbuf File) (w : World) : Type 0 where
    pub done : List Dirent
    pub buffered : List Dirent
    pub whole : all ≡ done ++ (buffered ++ l.rest w)
    pub counted : d.cookie ≡ live done
    pub pre : Bytes
    pub post : Bytes
    pub bytes : bytes_of d.buffer ≡ pre ++ (encode_all buffered ++ post)
    pub at : d.offset ≡ length pre
    pub upto : d.len ≡ length pre + length (encode_all buffered)
    pub file : d.fd ≡ f

  abbrev pub pending : {d : Dirbuf File} {w : World} → Holds d w → List Dirent
  pending {w = w} hd = hd.buffered ++ l.rest w

  module _ (q : Request) where
    -- What a round does with the entries `out` so far, of which `target` are still wanted.
    pub record Stops (out : List DirEntry) (target : List DirEntry) (out' : List DirEntry)
        (d' : Dirbuf File) (w' : World) : Type 0 where
      pub new : List DirEntry
      pub more : List DirEntry
      pub reply : out' ≡ out ++ new
      pub split : target ≡ new ++ more
      pub fits : length out' ≤ q.room
      pub progress : (out' ≡ []) → (more ≡ []) ⊎ (q.room ≡ 0)
      pub holds : Holds d' w'

    pub record GoesOn (out : List DirEntry) (target : List DirEntry) (left : ℕ)
        (out' : List DirEntry) (d' : Dirbuf File) (w' : World) : Type 0 where
      pub new : List DirEntry
      pub holds : Holds d' w'
      pub reply : out' ≡ out ++ new
      pub split : target ≡ new ++ wanted q.from d'.cookie (pending holds)
      pub fits : length out' ≤ q.room
      pub fewer : suc (length (pending holds)) ≡ left

    abbrev pub RoundDoes : List DirEntry → List DirEntry → ℕ → Round File World → Type 0
    RoundDoes out target left (stop out' err d' w') =
        (err ≡ returned tt) × Stops out target out' d' w'
    RoundDoes out target left (go out' size d' w') = GoesOn out target left out' d' w'
