-- ===== src/Unix/Directory.antt =====
-- systems/unix/readdir_linux.go: the buffer of a directory that is being read; systems/unix/file.go:
-- `FDOpenDir`, `FDReadDir` and `FDCloseDir`.
use wasi_go.Base.{
  ℕ, zero, suc, ◌+◌, ◌-◌, ◌*◌, ◌==◌, ltb, leb, if◌then◌else◌, Option, none, some, List, [], ◌∷◌,
  ◌++◌, length, take, drop, replicate, Run, ok, panic, unfinished, ◌>>=◌,
}
use wasi_go.File.{
  Bytes, DirEntry, block_device_type, character_device_type, directory_type, symbolic_link_type,
  regular_file_type, socket_stream_type, unknown_type,
}
use wasi_go.Unix.Calls.{Called, returned, broken, eintr, ignore_eintr2, errno_of}

-- The system calls on a directory: `getdents` returns the bytes that it writes into the buffer, whose
-- size it is given, and `rewind` is a seek to the start.
pub record DirKernel (File World : Type 0) : Type 0 where
  pub getdents : File → ℕ → World → Called Bytes × World
  pub rewind : File → World → Called ℕ × World

abbrev pub size_of_dirent : ℕ
size_of_dirent = 19

abbrev pub buffer_size : ℕ
buffer_size = 4096

-- `wasi.SizeOfDirent`
abbrev pub wasi_dirent_size : ℕ
wasi_dirent_size = 24

pub record Dirbuf (File : Type 0) : Type 0 where
  pub buffer : Option Bytes
  pub offset : ℕ
  pub len : ℕ
  pub fd : File
  pub cookie : ℕ

-- A number from its bytes, the lowest first.
unfoldable pub le : Bytes → ℕ
le [] = 0
le (b ∷ bs) = b + 256 * le bs

-- The fields of the `dirent` at an offset of the buffer.
unfoldable pub ino_at : Bytes → ℕ → ℕ
unfolding le
ino_at b i = le (take 8 (drop i b))

unfoldable pub reclen_at : Bytes → ℕ → ℕ
unfolding le
reclen_at b i = le (take 2 (drop (i + 16) b))

unfoldable pub typ_at : Bytes → ℕ → ℕ
unfolding le
typ_at b i = le (take 1 (drop (i + 18) b))

-- A type of the host: DT_BLK, DT_CHR, DT_DIR, DT_LNK, DT_REG or DT_SOCK.
unfoldable pub entry_type : ℕ → ℕ
entry_type typ =
    if typ == 6
    then block_device_type
    else if typ == 2
    then character_device_type
    else if typ == 4
    then directory_type
    else if typ == 10
    then symbolic_link_type
    else if typ == 8
    then regular_file_type
    else if typ == 12
    then socket_stream_type
    else unknown_type

-- A name up to its first byte 0.
unfoldable pub until_zero : Bytes → Bytes
until_zero [] = []
until_zero (b ∷ bs) = if b == 0 then [] else b ∷ until_zero bs

-- The bytes of a buffer, which is not nil where they are read.
abbrev pub bytes_of : Option Bytes → Bytes
bytes_of none = []
bytes_of (some b) = b

-- The buffer is allocated once.
unfoldable pub or_new : Option Bytes → Bytes
unfolding replicate
or_new none = replicate buffer_size 0
or_new (some b) = b

abbrev pub allocated : {File : Type 0} → Dirbuf File → Dirbuf File
allocated d = record d { buffer = some (or_new d.buffer) }

-- What a round of the loop does: return, or go on with the entries so far and the bytes left.
pub data Round (File World : Type 0) : Type 0 where
  stop : List DirEntry → Called (Unit {0}) → Dirbuf File → World → Round File World
  go : List DirEntry → ℕ → Dirbuf File → World → Round File World

-- The variables of a call: the number of entries that there is room for, and the cookie.
pub record Request : Type 0 where
  pub room : ℕ
  pub from : ℕ

module _ {File World : Type 0} where
  -- A round from the entry at the offset on; a size that is used up or negative is 0.
  unfoldable pub parse_entry :
      Request → List DirEntry → ℕ → Bytes → Dirbuf File → World → Run (Round File World)
  parse_entry q out size b d w =
      let reclen = reclen_at b d.offset in
      let next = record d { offset = d.offset + reclen } in
      if ltb d.len (d.offset + reclen)
      then ok (go out size (record d { offset = d.len }) w)
      else if ino_at b d.offset == 0
      then ok (go out size next w)
      else if leb q.from d.cookie
      then (if ltb reclen size_of_dirent
          then panic
          else (let name =
                until_zero (take (reclen - size_of_dirent) (drop (d.offset + size_of_dirent) b)) in
              let out' =
                out
                ++ record {
                  next = d.cookie + 1;
                  inode = ino_at b d.offset;
                  file_type = entry_type (typ_at b d.offset);
                  name = name;
                }
                  ∷ [] in
              if leb size (wasi_dirent_size + length name)
              then ok (stop out' (returned tt) d w)
              else ok (
                  go out' (size - wasi_dirent_size - length name)
                    (record next { cookie = d.cookie + 1 }) w)))
      else ok (go out size (record next { cookie = d.cookie + 1 }) w)

  module _ (k : DirKernel File World) (rounds : ℕ) where
    -- The round behind getdents(2).
    unfoldable pub refilled :
        Request → ℕ → Dirbuf File → Called Bytes → World → Run (Round File World)
    unfolding parse_entry
    refilled q size d (returned bytes) w =
        if length bytes == 0
        then ok (stop [] (returned tt) d w)
        else (let b = bytes ++ drop (length bytes) (bytes_of d.buffer) in
            parse_entry q [] size b (record d { buffer = some b; offset = 0; len = length bytes })
              w)
    refilled q size d (broken err) w = ok (stop [] (broken err) d w)
    refilled q size d eintr w = unfinished

    unfoldable pub read_round :
        Request → List DirEntry → ℕ → Dirbuf File → World → Run (Round File World)
    unfolding parse_entry refilled
    read_round q out size d w =
        if length out == q.room
        then ok (stop out (returned tt) d w)
        else if ltb (d.len - d.offset) size_of_dirent
        then (if ltb 0 (length out)
            then ok (stop out (returned tt) d w)
            else (ignore_eintr2 rounds (k.getdents d.fd buffer_size) w >>= λ r.
                refilled q size d r.0 r.1))
        else parse_entry q out size (bytes_of d.buffer) d w

    -- The loop of `readDirEntries`, with the rounds left.
    unfoldable pub read_loop :
        ℕ
        → Request
        → List DirEntry
        → ℕ
        → Dirbuf File
        → World
        → Run ((List DirEntry × Called (Unit {0})) × Dirbuf File × World)
    unfolding read_round
    read_loop zero q out size d w = unfinished
    read_loop (suc left) q out size d w = read_round q out size d w >>= λ x. elim x [
      | stop out' err d' w' ↦ ok ((out', err), d', w')
      | go out' size' d' w' ↦ read_loop left q out' size' d' w'
    ]

    unfoldable pub rewound :
        ℕ
        → Request
        → ℕ
        → Dirbuf File
        → Called ℕ
        → World
        → Run ((List DirEntry × Called (Unit {0})) × Dirbuf File × World)
    unfolding read_loop
    rewound left q size d (returned _) w =
        read_loop left q [] size (record d { offset = 0; len = 0; cookie = 0 }) w
    rewound left q size d (broken err) w = ok (([], broken err), d, w)
    rewound left q size d eintr w = unfinished

    unfoldable pub read_dir_entries :
        ℕ
        → Request
        → ℕ
        → Dirbuf File
        → World
        → Run ((List DirEntry × Called (Unit {0})) × Dirbuf File × World)
    unfolding read_loop rewound or_new
    read_dir_entries left q size d w =
        let d' = allocated d in
        if ltb q.from d'.cookie
        then (ignore_eintr2 rounds (k.rewind d'.fd) w >>= λ r. rewound left q size d' r.0 r.1)
        else read_loop left q [] size d' w

    -- `FDReadDir` of a directory.
    unfoldable pub fd_read_dir_entries :
        ℕ → Request → ℕ → Dirbuf File → World → Run ((List DirEntry × ℕ) × Dirbuf File × World)
    unfolding read_dir_entries errno_of
    fd_read_dir_entries left q size d w = read_dir_entries left q size d w >>= λ r.
        errno_of r.0.1 >>= λ errno. ok ((r.0.0, errno), r.1, r.2)
