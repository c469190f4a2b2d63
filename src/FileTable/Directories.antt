-- ===== src/FileTable/Directories.antt =====
-- wasi.go: the methods of `FileTable` that close, renumber or list: `FDClose`, `FDReadDir`,
-- `FDRenumber` and `Close`.
use wasi_go.Base.{
  ℕ, true, ◌&&◌, ◌||◌, not, ◌==◌, leb, ltb, if◌then◌else◌, Option, none, some, List, [], ◌∷◌, ℤ,
  Run, ok, ◌>>=◌,
}
use wasi_go.Descriptor
use wasi_go.DirMap
use wasi_go.Errno.{esuccess, einval, enfile, enotsup}
use wasi_go.Rights.{fd_read_dir_right}
use wasi_go.File.{no_fd_stat, Host}
use wasi_go.FileTable.{FileEntry, System, with_fd, is_preopen, num_open_dirs}

module _ {ℓ} {Dir : Type ℓ} where
  -- `t.dirs[to] = d` after `delete(t.dirs, from)`, if there was a `d`.
  abbrev pub move_dir : Option Dir → ℤ → ℤ → List (ℤ × Dir) → List (ℤ × Dir)
  move_dir none from to dirs = dirs
  move_dir (some d) from to dirs = DirMap.put to d (DirMap.remove from dirs)

module _ {File Dir World : Type 0} (h : Host File Dir World) where
  abbrev pub no_entry : FileEntry File
  no_entry = record { file = h.no_file; stat = no_fd_stat }

  -- `dir.FDCloseDir(ctx)` of a directory that the map may hold, with its result dropped.
  abbrev pub close_dir_of : Option Dir → World → World
  close_dir_of none w = w
  close_dir_of (some d) w = (h.close_dir d w).1

  abbrev pub close_file_of : Option (FileEntry File) → World → World
  close_file_of none w = w
  close_file_of (some f) w = (h.close f.file w).1

  -- `FDClose` of the entry `f`.
  unfoldable pub close_entry :
      ℤ → System File Dir World → FileEntry File → Run (ℕ × System File Dir World)
  close_entry fd s f = do
    let t = s.open_files
    files ← Descriptor.delete no_entry fd t.files
    preopens ← Descriptor.delete [] fd t.preopens
    let d = DirMap.get fd t.dirs
    let t' = record t { files = files; preopens = preopens; dirs = DirMap.remove fd t.dirs }
    let r = h.close f.file (close_dir_of d s.world)
    ok (r.0, record { open_files = t'; world = r.1 })

  unfoldable pub fd_close : ℤ → System File Dir World → Run (ℕ × System File Dir World)
  unfolding with_fd close_entry
  fd_close fd s = with_fd s fd 0 (λ e. e) (close_entry fd s)

  -- The last part of `FDReadDir`: at the end of the directory it is closed.
  unfoldable pub read_entries :
      ℤ → Dir → ℕ → ℕ → ℕ → System File Dir World → Run ((ℕ × ℕ) × System File Dir World)
  read_entries fd d entries cookie buffer_size s =
      let r = h.read_dir d entries cookie buffer_size s.world in
      let t = s.open_files in
      if r.0.1 == esuccess && r.0.0 == 0
      then ok (
        r.0,
        record {
          open_files = record t { dirs = DirMap.remove fd t.dirs };
          world = (h.close_dir d r.1).1;
        },
      )
      else ok (r.0, record s { world = r.1 })

  -- `FDReadDir` on the entry `f`; `entries` is the length of the buffer.
  unfoldable pub read_dir_of :
      ℤ → ℕ → ℕ → ℕ → System File Dir World → FileEntry File → Run ((ℕ × ℕ) × System File Dir World)
  unfolding read_entries num_open_dirs
  read_dir_of fd entries cookie buffer_size s f =
      let t = s.open_files in
      if entries == 0 then ok ((0, einval), s) else elim (DirMap.get fd t.dirs) [
        | some d ↦ read_entries fd d entries cookie buffer_size s
        | none ↦
            if ltb 0 t.max_open_dirs && leb t.max_open_dirs (num_open_dirs t)
            then ok ((0, enfile), s)
            else (let r = h.open_dir f.file s.world in
                if not (r.0.1 == esuccess)
                then ok ((0, r.0.1), record s { world = r.1 })
                else read_entries fd r.0.0 entries cookie buffer_size (record {
                  open_files = record t { dirs = DirMap.put fd r.0.0 t.dirs };
                  world = r.1;
                }))
      ]

  unfoldable pub fd_read_dir :
      ℤ → ℕ → ℕ → ℕ → System File Dir World → Run ((ℕ × ℕ) × System File Dir World)
  unfolding with_fd read_dir_of
  fd_read_dir fd entries cookie buffer_size s =
      with_fd s fd fd_read_dir_right (λ e. (0, e)) (read_dir_of fd entries cookie buffer_size s)

  -- The effects on the host when a file was replaced.
  abbrev pub close_replaced : Option (FileEntry File) → Option Dir → World → World
  close_replaced none d w = w
  close_replaced (some g) d w = close_dir_of d (h.close g.file w).1

  -- `FDRenumber` of the entry `f`.
  unfoldable pub renumber_entry :
      ℤ → ℤ → System File Dir World → FileEntry File → Run (ℕ × System File Dir World)
  renumber_entry from to s f = do
    let t = s.open_files
    let d = DirMap.get from t.dirs
    (g, files) ← Descriptor.assign no_entry to f t.files
    let w = close_replaced g (DirMap.get to t.dirs) s.world
    files' ← Descriptor.delete no_entry from files
    ok (
      esuccess,
      record {
        open_files = record t { files = files'; dirs = move_dir d from to t.dirs };
        world = w;
      },
    )

  unfoldable pub fd_renumber : ℤ → ℤ → System File Dir World → Run (ℕ × System File Dir World)
  unfolding with_fd renumber_entry
  fd_renumber from to s = do
    from_preopen ← is_preopen s.open_files from
    to_preopen ← is_preopen s.open_files to
    if from_preopen || to_preopen
        then ok (enotsup, s)
        else with_fd s from 0 (λ e. e) (renumber_entry from to s)

  -- The directories of the map, closed in the order of an iteration over it.
  unfoldable pub close_dirs : List (ℤ × Dir) → World → World
  close_dirs [] w = w
  close_dirs ((fd, d) ∷ rest) w = close_dirs rest (h.close_dir d w).1

  -- `Close`. Go leaves the order of an iteration over a map open: it is an argument.
  unfoldable pub close :
      (List (ℤ × Dir) → List (ℤ × Dir)) → System File Dir World → Run (System File Dir World)
  unfolding close_dirs
  close order s = do
    let t = s.open_files
    (w, _) ← Descriptor.range (λ fd f w. ((h.close f.file w).1, true)) t.files s.world
    ok (record {
      open_files = record t {
        files = Descriptor.reset no_entry t.files;
        preopens = Descriptor.reset [] t.preopens;
        dirs = [];
      };
      world = close_dirs (order t.dirs) w;
    })
