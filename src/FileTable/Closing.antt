-- ===== src/FileTable/Closing.antt =====
-- wasi.go: `FDClose` forgets a descriptor everywhere and closes what stood behind it.
use wasi_go.Base.{
  ℕ, suc, Bool, true, false, ◌==◌, ◌≡◌, ◌≢◌, ◌⊎◌, inl, inr, refl, sym, ◌∙◌, ap, Option, none, some,
  [], ℤ, pos, negsuc, int_eq, ok, if◌then◌else◌,
}
use wasi_go.Descriptor
use wasi_go.Descriptor.{Table}
use wasi_go.Descriptor.View
use wasi_go.Descriptor.View.{used_of_find}
use wasi_go.Descriptor.Updates.{delete-Unbinds}
use wasi_go.DirMap
use wasi_go.DirMap.Laws.{get-remove}
use wasi_go.Errno.{esuccess}
use wasi_go.File.{Host}
use wasi_go.FileTable.{FileEntry, FileTable, System, num_open_files}
use wasi_go.FileTable.Lookups.{IsValid, entry, preopened, with_fd_rule}
use wasi_go.FileTable.Directories.{no_entry, close_dir_of, close_entry, fd_close}

-- A binding removed from the view, for all descriptors.
pub view_of_unbound {ℓ} :
    {A : Type ℓ} (t t' : Table A) (d : ℕ)
    → ((j : ℕ) → View.find t' j ≡ (if d == j then none else View.find t j))
    → (j : ℤ) → View.view t' j ≡ (if int_eq (pos d) j then none else View.view t j)
view_of_unbound {A = A} t t' d reads (pos j) = reads j
view_of_unbound {A = A} t t' d reads (negsuc j) = negative (int_eq (pos d) (negsuc j))
  where
    negative : (b : Bool) → ◌≡◌ {A = Option A} none (if b then none else none)
    negative true = refl
    negative false = refl

module _ {File Dir : Type 0} where
  -- How `t'` comes from `t` when `fd` is forgotten.
  pub record Forgets (t : FileTable File Dir) (fd : ℤ) (t' : FileTable File Dir) : Type 0 where
    pub valid : IsValid t'
    pub reads : (j : ℤ) → entry t' j ≡ (if int_eq fd j then none else entry t j)
    pub reads_preopens : (j : ℤ) → preopened t' j ≡ (if int_eq fd j then none else preopened t j)
    pub reads_dirs :
        (j : ℤ) → DirMap.get j t'.dirs ≡ (if int_eq fd j then none else DirMap.get j t.dirs)
    pub count : suc (num_open_files t') ≡ num_open_files t
    pub same_max_files : t'.max_open_files ≡ t.max_open_files
    pub same_max_dirs : t'.max_open_dirs ≡ t.max_open_dirs
    pub shrunk_dirs : t'.dirs ≡ DirMap.remove fd t.dirs

module _ {File Dir World : Type 0} (h : Host File Dir World) where
  -- The outcome of `FDClose`: an error of the lookup and no effect, or the descriptor is forgotten,
  -- its directory is closed, if it has one, then its file, and the result is that of the file.
  abbrev pub Closed : ℤ → System File Dir World → ℕ × System File Dir World → Type 0
  Closed fd s r =
      ((r.0 ≢ esuccess) × (r.1 ≡ s))
      ⊎ ((f : FileEntry File) × (entry s.open_files fd ≡ some f)
          × (r.0 ≡ (h.close f.file (close_dir_of h (DirMap.get fd s.open_files.dirs) s.world)).0)
          × (r.1.world
              ≡ (h.close f.file (close_dir_of h (DirMap.get fd s.open_files.dirs) s.world)).1)
          × Forgets s.open_files fd r.1.open_files)

  close_entry-Closed :
      (fd : ℤ) (s : System File Dir World)
      → IsValid s.open_files
      → (f : FileEntry File) → entry s.open_files fd ≡ some f
      → (r : ℕ × System File Dir World) × (close_entry h fd s f ≡ ok r) × Closed fd s r
  unfolding close_entry num_open_files
  close_entry-Closed (negsuc d) s v f e = cc
  close_entry-Closed (pos d) s v f e =
      let t = s.open_files in
      let (files, run, u) = delete-Unbinds (no_entry h) t.files d v.files in
      let (preopens, run', u') = delete-Unbinds [] t.preopens d v.preopens in
      let r = h.close f.file (close_dir_of h (DirMap.get (pos d) t.dirs) s.world) in
      let t' : FileTable File Dir = record t {
        files = files;
        preopens = preopens;
        dirs = DirMap.remove (pos d) t.dirs;
      } in
      (
        (r.0, record { open_files = t'; world = r.1 }),
        rw (run, run') refl,
        inr (
          f,
          e,
          refl,
          refl,
          record {
            valid = record { files = u.valid; preopens = u'.valid };
            reads = view_of_unbound t.files files d u.reads;
            reads_preopens = view_of_unbound t.preopens preopens d u'.reads;
            reads_dirs = λ j. get-remove (pos d) j t.dirs;
            count = sym (
                u.count
                ∙ ap (λ b. if b then suc (Descriptor.len files) else Descriptor.len files)
                    (used_of_find t.files d f e));
            same_max_files = refl;
            same_max_dirs = refl;
            shrunk_dirs = refl;
          },
        ),
      )

  -- On a valid table FDClose returns without a panic. Either it returns an error and has no
  -- effect, or the descriptor is forgotten in the files, the preopens and the directories, its
  -- directory is closed if it has one, then its file, and the result is that of closing the file.
  pub fd_close-Closed :
      (fd : ℤ) (s : System File Dir World)
      → IsValid s.open_files
      → (r : ℕ × System File Dir World) × (fd_close h fd s ≡ ok r) × Closed fd s r
  unfolding fd_close
  fd_close-Closed fd s v =
      with_fd_rule s fd 0 (λ e. e) (close_entry h fd s) v (Closed fd s) (λ errno ne. inl (ne, refl))
        (λ f e _. close_entry-Closed fd s v f e)
