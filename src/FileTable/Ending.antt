-- ===== src/FileTable/Ending.antt =====
-- wasi.go: `Close` of a file table.
use wasi_go.Base.{ℕ, Bool, true, ◌≡◌, refl, none, List, [], ◌∷◌, length, ℤ, pos, negsuc, ok}
use wasi_go.Descriptor
use wasi_go.Descriptor.View
use wasi_go.Descriptor.Bounds.{reset_lem}
use wasi_go.Descriptor.Ranges.{bindings, visit, range-visit}
use wasi_go.File.{Host}
use wasi_go.FileTable.{FileEntry, System, num_open_files, num_open_dirs, num_preopens}
use wasi_go.FileTable.Lookups.{IsValid, entry, preopened}
use wasi_go.FileTable.Directories.{no_entry, close_dirs, close}

module _ {File Dir World : Type 0} (h : Host File Dir World) where
  -- The files of some bindings, closed one after the other.
  abbrev pub close_files : List (ℕ × FileEntry File) → World → World
  close_files [] w = w
  close_files ((fd, f) ∷ rest) w = close_files rest (h.close f.file w).1

  close_files-visit :
      (xs : List (ℕ × FileEntry File)) (w : World)
      → visit (λ fd f w. ((h.close f.file w).1, true)) xs w ≡ (close_files xs w, true)
  unfolding visit
  close_files-visit [] w = refl
  close_files-visit ((fd, f) ∷ rest) w = close_files-visit rest (h.close f.file w).1

  -- All that `Close` leaves behind.
  pub record Ends (order : List (ℤ × Dir) → List (ℤ × Dir)) (s s' : System File Dir World)
      : Type 0 where
    pub valid : IsValid s'.open_files
    pub no_files : (fd : ℤ) → entry s'.open_files fd ≡ none
    pub no_preopens : (fd : ℤ) → preopened s'.open_files fd ≡ none
    pub counts :
        (num_open_files s'.open_files ≡ 0)
        × (num_preopens s'.open_files ≡ 0)
        × (num_open_dirs s'.open_files ≡ 0)
    pub closed :
        s'.world
        ≡ close_dirs h
            (order s.open_files.dirs)
            (close_files (bindings s.open_files.files 0 (length s.open_files.files.table)) s.world)

  view_of_reset {ℓ} :
      {A : Type ℓ} (z : A) (t : Descriptor.Table A)
      → View.IsValid t
      → (fd : ℤ) → View.view (Descriptor.reset z t) fd ≡ none
  view_of_reset z t v (pos d) = (reset_lem z t v).1 d
  view_of_reset z t v (negsuc d) = refl

  -- Close of a valid table closes each open file once, in the order of the descriptors, then the
  -- open directories in the order that the iteration takes; it leaves a valid table with no file,
  -- no preopen and no directory.
  pub close-Ends :
      (order : List (ℤ × Dir) → List (ℤ × Dir)) (s : System File Dir World)
      → IsValid s.open_files
      → (s' : System File Dir World) × (close h order s ≡ ok s') × Ends order s s'
  unfolding close num_open_files num_preopens num_open_dirs
  close-Ends order s v =
      let t = s.open_files in
      let all = bindings t.files 0 (length t.files.table) in
      let f : ℕ → FileEntry File → World → World × Bool = λ fd f w. ((h.close f.file w).1, true) in
      let files = reset_lem (no_entry h) t.files v.files in
      let preopens = reset_lem [] t.preopens v.preopens in
      let s' : System File Dir World = record {
        open_files = record t {
          files = Descriptor.reset (no_entry h) t.files;
          preopens = Descriptor.reset [] t.preopens;
          dirs = [];
        };
        world = close_dirs h (order t.dirs) (close_files all s.world);
      } in
      (
        s',
        rw (range-visit f t.files v.files s.world, close_files-visit all s.world) refl,
        record {
          valid = record { files = files.0; preopens = preopens.0 };
          no_files = view_of_reset (no_entry h) t.files v.files;
          no_preopens = view_of_reset [] t.preopens v.preopens;
          counts = (files.2, preopens.2, refl);
          closed = refl;
        },
      )
