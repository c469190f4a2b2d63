-- ===== src/FileTable/Renumbering.antt =====
-- wasi.go: `FDRenumber` moves an open file to another descriptor.
use wasi_go.Base.{
  ℕ, suc, ◌≤◌, ◌<◌, ◌^◌, length, Bool, true, false, ◌||◌, ◌==◌, ◌≡◌, ◌≢◌, ◌⊎◌, inl, inr, refl, sym,
  ◌∙◌, ap, Option, none, some, List, ℤ, pos, negsuc, int_eq, ok, panic, if◌then◌else◌, Bool-cases,
  Option-cases, arith,
}
use wasi_go.Descriptor
use wasi_go.Descriptor.{Table}
use wasi_go.Descriptor.View
use wasi_go.Descriptor.View.{used_of_find, used, find-used, find-unused}
use wasi_go.Descriptor.Updates.{assign-Binds, delete-Unbinds}
use wasi_go.DirMap
use wasi_go.DirMap.Laws.{get-remove, get-put, length-put-le, length-remove-some}
use wasi_go.Errno.{esuccess, ebadf, enotsup}
use wasi_go.Bits.Laws.{bit-zero}
use wasi_go.Rights.{has}
use wasi_go.Rights.Laws.{has-Subset}
use wasi_go.Descriptor.Bounds.{assign-negative}
use wasi_go.File.{Host}
use wasi_go.FileTable.{FileEntry, FileTable, System, num_open_files, num_open_dirs}
use wasi_go.FileTable.Lookups.{
  IsValid, entry, preopened, is_some, is_preopen-eq, with_fd_rule, with_fd_closed, with_fd_granted,
}
use wasi_go.FileTable.Directories.{no_entry, close_replaced, move_dir, renumber_entry, fd_renumber}
use wasi_go.FileTable.Closing.{view_of_unbound}

-- A binding added to the view, for all descriptors.
pub view_of_bound {ℓ} :
    {A : Type ℓ} (t t' : Table A) (d : ℕ) (object : A)
    → ((j : ℕ) → View.find t' j ≡ (if d == j then some object else View.find t j))
    → (j : ℤ) → View.view t' j ≡ (if int_eq (pos d) j then some object else View.view t j)
view_of_bound t t' d object reads (pos j) = reads j
view_of_bound t t' d object reads (negsuc j) = refl

-- The number of files before one of them was replaced.
abbrev pub with_replaced {ℓ} : {A : Type ℓ} → Option A → ℕ → ℕ
with_replaced none n = n
with_replaced (some _) n = suc n

-- The directory of `j` after that of `from`, if there was one, has moved to `to`.
abbrev pub dir_after {ℓ} : {Dir : Type ℓ} → Option Dir → ℤ → ℤ → ℤ → Option Dir → Option Dir
dir_after none from to j o = o
dir_after (some d) from to j o = if int_eq to j then some d else if int_eq from j then none else o

module _ {File Dir : Type 0} where
  -- How `t'` comes from `t` when the entry `f` moves from `from` to the other descriptor `to`. The
  -- open directory of `from`, if it has one, moves too.
  pub record Moves (t : FileTable File Dir) (from to : ℤ) (f : FileEntry File)
      (t' : FileTable File Dir) : Type 0 where
    pub valid : IsValid t'
    pub reads :
        (j : ℤ)
        → entry t' j ≡ (if int_eq from j then none else if int_eq to j then some f else entry t j)
    pub reads_dirs :
        (j : ℤ)
        → DirMap.get j t'.dirs ≡ dir_after (DirMap.get from t.dirs) from to j (DirMap.get j t.dirs)
    pub no_more_dirs : num_open_dirs t' ≤ num_open_dirs t
    pub count : num_open_files t ≡ with_replaced (entry t to) (num_open_files t')
    pub same_preopens : t'.preopens ≡ t.preopens
    pub same_max_files : t'.max_open_files ≡ t.max_open_files
    pub same_max_dirs : t'.max_open_dirs ≡ t.max_open_dirs

count_of_moved {ℓ} :
    {A : Type ℓ} (t t1 t2 : Table A) (to : ℕ)
    → View.IsValid t
    → Descriptor.len t1 ≡ (if used t to then Descriptor.len t else suc (Descriptor.len t))
    → Descriptor.len t1 ≡ suc (Descriptor.len t2)
    → Descriptor.len t ≡ with_replaced (View.find t to) (Descriptor.len t2)
count_of_moved t t1 t2 to v first second = elim (Bool-cases (used t to)) [
  | inl u ↦ let (a, e) = find-used t to v u in rw e (ground (arith, first, second, u))
  | inr u ↦ rw (find-unused t to u) (ground (arith, first, second, u))
]

pub reads_of_moved {ℓ} :
    {A : Type ℓ} (from to j : ℤ) (o o1 o2 : Option A) (f : A)
    → o1 ≡ (if int_eq to j then some f else o)
    → o2 ≡ (if int_eq from j then none else o1)
    → o2 ≡ (if int_eq from j then none else if int_eq to j then some f else o)
reads_of_moved from to j o o1 o2 f first second = rw (sym first) second

module _ {ℓ} {Dir : Type ℓ} where
  get-move_dir :
      (from to : ℤ) (dirs : List (ℤ × Dir)) (o : Option Dir) (j : ℤ)
      → DirMap.get j (move_dir o from to dirs) ≡ dir_after o from to j (DirMap.get j dirs)
  get-move_dir from to dirs none j = refl
  get-move_dir from to dirs (some d) j =
      get-put to j d (DirMap.remove from dirs)
      ∙ ap (λ x. if int_eq to j then some d else x) (get-remove from j dirs)

  length-move_dir :
      (from to : ℤ) (dirs : List (ℤ × Dir)) (o : Option Dir)
      → DirMap.get from dirs ≡ o
      → length (move_dir o from to dirs) ≤ length dirs
  length-move_dir from to dirs none e = omega arith
  length-move_dir from to dirs (some d) e =
      omega (arith, length-put-le to d (DirMap.remove from dirs), length-remove-some from dirs d e)

module _ {File Dir World : Type 0} (h : Host File Dir World) where
  -- The outcome of `FDRenumber`: an error with the system as it was, or a move.
  abbrev pub Renumbered : ℤ → ℤ → System File Dir World → ℕ × System File Dir World → Type 0
  Renumbered from to s r =
      ((r.0 ≢ esuccess) × (r.1 ≡ s))
      ⊎ ((f : FileEntry File) × (r.0 ≡ esuccess)
          × (entry s.open_files from ≡ some f)
          × (r.1.world
              ≡ close_replaced h (entry s.open_files to) (DirMap.get to s.open_files.dirs) s.world)
          × Moves s.open_files from to f r.1.open_files)

  renumber_entry-Renumbered :
      (from : ℤ) (to : ℕ) (s : System File Dir World)
      → IsValid s.open_files
      → (f : FileEntry File) → entry s.open_files from ≡ some f
      → (r : ℕ × System File Dir World) × (renumber_entry h from (pos to) s f ≡ ok r)
        × Renumbered from (pos to) s r
  unfolding renumber_entry num_open_files num_open_dirs
  renumber_entry-Renumbered (negsuc from) to s v f e = cc
  renumber_entry-Renumbered (pos from) to s v f e =
      let t = s.open_files in
      let d = DirMap.get (pos from) t.dirs in
      let (files, run, b) = assign-Binds (no_entry h) t.files to f v.files in
      let (files', run', u) = delete-Unbinds (no_entry h) files from b.valid in
      let found : View.find files from ≡ some f = still (to == from) (b.reads from) e in
      let w = close_replaced h (entry t (pos to)) (DirMap.get (pos to) t.dirs) s.world in
      let t' : FileTable File Dir = record t {
        files = files';
        dirs = move_dir d (pos from) (pos to) t.dirs;
      } in
      (
        (esuccess, record { open_files = t'; world = w }),
        rw (run, run') refl,
        inr (
          f,
          refl,
          e,
          refl,
          record {
            valid = record { files = u.valid; preopens = v.preopens };
            reads = λ j.
                reads_of_moved (pos from) (pos to) j (entry t j) (View.view files j)
                  (View.view files' j) f (view_of_bound t.files files to f b.reads j)
                  (view_of_unbound files files' from u.reads j);
            reads_dirs = get-move_dir (pos from) (pos to) t.dirs d;
            no_more_dirs = length-move_dir (pos from) (pos to) t.dirs d refl;
            count = count_of_moved t.files files files' to v.files b.count (
                u.count
                ∙ ap (λ x. if x then suc (Descriptor.len files') else Descriptor.len files')
                    (used_of_find files from f found));
            same_preopens = refl;
            same_max_files = refl;
            same_max_dirs = refl;
          },
        ),
      )
    where
      still :
          (c : Bool) {x y : Option (FileEntry File)}
          → x ≡ (if c then some f else y)
          → y ≡ some f
          → x ≡ some f
      still true e e' = e
      still false e e' = e ∙ e'

  -- On a valid table FDRenumber onto a non-negative descriptor returns without a panic. Either it
  -- returns an error and has no effect, or the open file and its directory move: the new
  -- descriptor has the file unless it is the old one, the old descriptor has none, a file that was
  -- replaced is closed, then its directory, the number of open files drops by one if a file was
  -- replaced, and a directory of the new descriptor stays in the map if the old descriptor had
  -- none.
  pub fd_renumber-Renumbered :
      (from : ℤ) (to : ℕ) (s : System File Dir World)
      → IsValid s.open_files
      → (r : ℕ × System File Dir World) × (fd_renumber h from (pos to) s ≡ ok r)
        × Renumbered from (pos to) s r
  unfolding fd_renumber
  fd_renumber-Renumbered from to s v =
      let t = s.open_files in
      let p = is_some (preopened t from) || is_some (preopened t (pos to)) in
      elim (Bool-cases p) [
        | inl fixed ↦ (
          (enotsup, s),
          rw (is_preopen-eq t from v, is_preopen-eq t (pos to) v, fixed) refl,
          inl ((λ e. omega arith), refl),
        )
        | inr free ↦
            let (r, run, p) =
              with_fd_rule s from 0 (λ e. e) (renumber_entry h from (pos to) s) v
                (Renumbered from (pos to) s) (λ errno ne. inl (ne, refl))
                (λ f e _. renumber_entry-Renumbered from to s v f e) in
            (r, rw (is_preopen-eq t from v, is_preopen-eq t (pos to) v, free) run, p)
      ]

  -- On a valid table with fewer than 2^57 words, FDRenumber onto a negative 32-bit descriptor
  -- returns ENOTSUP if the old descriptor is preopened and EBADF if it is not open, with no
  -- effect; for every other open file it panics.
  pub fd_renumber-negative :
      (from : ℤ) (to : ℕ) (s : System File Dir World)
      → IsValid s.open_files
      → to < 2 ^ 31
      → length s.open_files.files.masks < 2 ^ 57
      → fd_renumber h from (negsuc to) s ≡ (
          if is_some (preopened s.open_files from)
          then ok (enotsup, s)
          else elim (entry s.open_files from) [ none ↦ ok (ebadf, s) | some f ↦ panic ])
  unfolding fd_renumber renumber_entry
  fd_renumber-negative from to s v small short =
      let t = s.open_files in
      elim (Bool-cases (is_some (preopened t from))) [
        | inl fixed ↦ rw (is_preopen-eq t from v, is_preopen-eq t (negsuc to) v, fixed) refl
        | inr free ↦ elim (Option-cases (entry t from)) [
          | inl closed ↦
              rw
                (
                  is_preopen-eq t from v,
                  is_preopen-eq t (negsuc to) v,
                  free,
                  with_fd_closed s from 0 (λ e. e) (renumber_entry h from (negsuc to) s) v closed,
                  closed,
                )
                refl
          | inr (f, e) ↦
              rw
                (
                  is_preopen-eq t from v,
                  is_preopen-eq t (negsuc to) v,
                  free,
                  with_fd_granted s from 0 (λ e. e) (renumber_entry h from (negsuc to) s) v f e
                      (has_none f.stat.rights_base),
                  e,
                  assign-negative (no_entry h) to t.files f small short,
                )
                refl
        ]
      ]
    where
      has_none : (rights : ℕ) → has rights 0 ≡ true
      has_none rights = (has-Subset rights 0).1 λ k b. ground (arith, bit-zero k, b)
