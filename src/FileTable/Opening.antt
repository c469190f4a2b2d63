-- ===== src/FileTable/Opening.antt =====
-- wasi.go: `Register` and `PathOpen`. A file that is opened gets a descriptor that was free, and no
-- right that its directory cannot pass on.
use wasi_go.Base.{
  ℕ, suc, Bool, true, ◌&&◌, ◌==◌, ==_iff, ne_of_beq, ltb, leb, ◌≤◌, ◌<◌, ◌^◌, bit_and, ◌≡◌, ◌≢◌,
  ◌⊎◌, inl, inr, refl, ◌∙◌, ap, none, some, ℤ, pos, negsuc, int_eq, ok, if◌then◌else◌, Bool-cases,
}
use wasi_go.Descriptor
use wasi_go.Descriptor.{Table}
use wasi_go.Descriptor.View
use wasi_go.Descriptor.View.{find-unused}
use wasi_go.Descriptor.Allocation.{insert-Inserts}
use wasi_go.Descriptor.Counts.{le-len}
use wasi_go.DirMap.Laws.{int_eq_refl}
use wasi_go.Errno.{esuccess}
use wasi_go.File.{Bytes, FdStat, no_fd_stat, Host, open_directory}
use wasi_go.Rights.{has, all_rights, directory_rights, path_open_right}
use wasi_go.Rights.Laws.{Subset, Subset-trans, and-Subset_left, and-Subset_right}
use wasi_go.FileTable.{FileEntry, FileTable, System, register, num_open_files}
use wasi_go.FileTable.Lookups.{IsValid, entry, with_fd_rule}
use wasi_go.FileTable.Paths.{
  granted_base, granted_inheriting, opened_stat, open_errno, open_below, path_open,
}

-- The rights that exist.
abbrev pub known : FdStat → FdStat
known stat = record stat {
  rights_base = bit_and stat.rights_base all_rights;
  rights_inheriting = bit_and stat.rights_inheriting all_rights;
}

module _ {File Dir : Type 0} where
  abbrev pub at_limit : FileTable File Dir → Bool
  at_limit t = ltb 0 t.max_open_files && leb t.max_open_files (num_open_files t)

  -- How `t'` comes from `t` when `file` is registered under `fd`.
  pub record Registers (t : FileTable File Dir) (file : File) (stat : FdStat) (fd : ℕ)
      (t' : FileTable File Dir) : Type 0 where
    pub valid : IsValid t'
    pub fresh : entry t (pos fd) ≡ none
    pub reads :
        (j : ℤ)
        → entry t' j ≡ (
            if int_eq (pos fd) j
            then some (record { file = file; stat = known stat })
            else entry t j)
    pub count : num_open_files t' ≡ suc (num_open_files t)
    pub small : fd ≤ num_open_files t
    pub same_preopens : t'.preopens ≡ t.preopens
    pub same_dirs : t'.dirs ≡ t.dirs
    pub same_max_files : t'.max_open_files ≡ t.max_open_files
    pub same_max_dirs : t'.max_open_dirs ≡ t.max_open_dirs

-- A binding in the view, for all descriptors.
pub view_of_reads {ℓ} :
    {A : Type ℓ} (t t' : Table A) (d : ℕ) (a : A)
    → ((j : ℕ) → View.find t' j ≡ (if d == j then some a else View.find t j))
    → (j : ℤ) → View.view t' j ≡ (if int_eq (pos d) j then some a else View.view t j)
view_of_reads t t' d a reads (pos j) = reads j
view_of_reads t t' d a reads (negsuc j) = refl

module _ {File Dir World : Type 0} (h : Host File Dir World) where
  -- Register in a valid table with fewer than 2^31 open files does not panic: it binds a
  -- descriptor that was free, and is at most the number of open files, to the file with the known
  -- ones of its rights, and changes nothing else.
  pub register-Registers :
      (file : File) (stat : FdStat) (t : FileTable File Dir)
      → IsValid t
      → num_open_files t < 2 ^ 31
      → (fd : ℕ) × (t' : FileTable File Dir) × (register h file stat t ≡ ok (fd, t'))
        × Registers t file stat fd t'
  unfolding register num_open_files
  register-Registers file stat t v few =
      let z : FileEntry File = record { file = h.no_file; stat = no_fd_stat } in
      let f : FileEntry File = record { file = file; stat = known stat } in
      let (fd, files, run, i) = insert-Inserts z t.files f v.files few in
      (
        fd,
        record t { files = files },
        rw run refl,
        record {
          valid = record { files = i.binds.valid; preopens = v.preopens };
          fresh = find-unused t.files fd i.free;
          reads = view_of_reads t.files files fd f i.binds.reads;
          count =
              i.binds.count
              ∙ ap (λ u. if u then Descriptor.len t.files else suc (Descriptor.len t.files)) i.free;
          small = le-len t.files fd i.lowest;
          same_preopens = refl;
          same_dirs = refl;
          same_max_files = refl;
          same_max_dirs = refl;
        },
      )

-- `stat` is what `PathOpen` may give to a file below a directory: the rights that were asked for,
-- all of which the directory passes on.
pub record Attenuates (parent : FdStat) (open_flags base inheriting : ℕ) (stat : FdStat)
    : Type 0 where
  pub base_asked : Subset stat.rights_base base
  pub base_passed_on : Subset stat.rights_base parent.rights_inheriting
  pub base_of_kind :
      Subset stat.rights_base (if has open_flags open_directory then directory_rights else base)
  pub inheriting_asked : Subset stat.rights_inheriting inheriting
  pub inheriting_passed_on : Subset stat.rights_inheriting parent.rights_inheriting

module _ (parent : FdStat) (open_flags base inheriting : ℕ) where
  masked_base : ℕ
  masked_base = bit_and (bit_and base all_rights) parent.rights_inheriting

  masked_base-Subset : Subset masked_base base × Subset masked_base parent.rights_inheriting
  unfolding masked_base
  masked_base-Subset = (
    Subset-trans masked_base (bit_and base all_rights) base
        (and-Subset_left (bit_and base all_rights) parent.rights_inheriting)
        (and-Subset_left base all_rights),
    and-Subset_right (bit_and base all_rights) parent.rights_inheriting,
  )

  granted_base-Subset :
      Subset (granted_base base parent.rights_inheriting open_flags) masked_base
      × Subset
          (granted_base base parent.rights_inheriting open_flags)
          (if has open_flags open_directory then directory_rights else base)
  unfolding granted_base masked_base
  granted_base-Subset = elim (Bool-cases (has open_flags open_directory)) [
    | inl dir ↦ rw dir (
      and-Subset_left masked_base directory_rights,
      and-Subset_right masked_base directory_rights,
    )
    | inr other ↦ rw other ((λ k h. h), masked_base-Subset.0)
  ]

  pub opened_stat-Attenuates :
      (fd_flags : ℕ)
      → Attenuates parent open_flags base inheriting
          (known (opened_stat parent open_flags base inheriting fd_flags))
  unfolding granted_inheriting
  opened_stat-Attenuates fd_flags =
      let granted = granted_base base parent.rights_inheriting open_flags in
      let passed = granted_inheriting inheriting parent.rights_inheriting in
      record {
        base_asked = λ k b.
            masked_base-Subset.0 k
              (granted_base-Subset.0 k (and-Subset_left granted all_rights k b));
        base_passed_on = λ k b.
            masked_base-Subset.1 k
              (granted_base-Subset.0 k (and-Subset_left granted all_rights k b));
        base_of_kind = λ k b. granted_base-Subset.1 k (and-Subset_left granted all_rights k b);
        inheriting_asked = λ k b. and-Subset_left inheriting all_rights k (
            and-Subset_left (bit_and inheriting all_rights) parent.rights_inheriting k
              (and-Subset_left passed all_rights k b));
        inheriting_passed_on = λ k b.
            and-Subset_right (bit_and inheriting all_rights) parent.rights_inheriting k
              (and-Subset_left passed all_rights k b);
      }

module _ {File Dir World : Type 0} (h : Host File Dir World) where
  module _ (fd : ℤ) (lookup_flags : ℕ) (path : Bytes) (open_flags base inheriting fd_flags : ℕ)
      (s : System File Dir World) where
    -- A failed `PathOpen`: -1 and an error number, with the table as it was.
    abbrev pub OpenFails : (ℤ × ℕ) × System File Dir World → Type 0
    OpenFails r = (r.0.0 ≡ negsuc 0) × (r.0.1 ≢ esuccess) × (r.1.open_files ≡ s.open_files)

    -- A successful one, below the directory `d`.
    pub record Opens (r : (ℤ × ℕ) × System File Dir World) : Type 0 where
      pub parent : FileEntry File
      pub is_open : entry s.open_files fd ≡ some parent
      pub may_open : has parent.stat.rights_base path_open_right ≡ true
      pub passes :
          open_errno parent.stat path open_flags base inheriting (at_limit s.open_files) ≡ esuccess
      pub file : File
      pub new_fd : ℕ
      pub reply : r.0 ≡ (pos new_fd, esuccess)
      pub opened :
          h.open_path parent.file lookup_flags path open_flags
            (granted_base base parent.stat.rights_inheriting open_flags)
            (granted_inheriting inheriting parent.stat.rights_inheriting)
            fd_flags
            s.world
          ≡ ((file, esuccess), r.1.world)
      pub registers :
          Registers s.open_files file
            (opened_stat parent.stat open_flags base inheriting fd_flags)
            new_fd
            r.1.open_files

    open_below-Opens :
        IsValid s.open_files
        → num_open_files s.open_files < 2 ^ 31
        → (d : FileEntry File) → entry s.open_files fd ≡ some d
        → has d.stat.rights_base path_open_right ≡ true
        → (r : (ℤ × ℕ) × System File Dir World) × (open_below h d lookup_flags path open_flags base
              inheriting fd_flags s
            ≡ ok r)
          × (OpenFails r ⊎ Opens r)
    unfolding open_below
    open_below-Opens v few d e may =
        let t = s.open_files in
        let errno = open_errno d.stat path open_flags base inheriting (at_limit t) in
        let r =
          h.open_path d.file lookup_flags path open_flags
            (granted_base base d.stat.rights_inheriting open_flags)
            (granted_inheriting inheriting d.stat.rights_inheriting) fd_flags s.world in
        elim (Bool-cases (errno == esuccess)) [
          | inr fails ↦ (((negsuc 0, errno), s), rw fails refl, inl (refl, ne_of_beq fails, refl))
          | inl passes ↦ elim (Bool-cases (r.0.1 == esuccess)) [
            | inr fails ↦ (
              ((negsuc 0, r.0.1), record s { world = r.1 }),
              rw (passes, fails) refl,
              inl (refl, ne_of_beq fails, refl),
            )
            | inl opened ↦
                let stat = opened_stat d.stat open_flags base inheriting fd_flags in
                let (n, t', run, reg) = register-Registers h r.0.0 stat t v few in
                (
                  ((pos n, esuccess), record { open_files = t'; world = r.1 }),
                  rw (passes, opened, run) refl,
                  inr (record {
                    parent = d;
                    is_open = e;
                    may_open = may;
                    passes = (==_iff errno esuccess).0 passes;
                    file = r.0.0;
                    new_fd = n;
                    reply = refl;
                    opened = ap (λ e. ((r.0.0, e), r.1)) ((==_iff r.0.1 esuccess).0 opened);
                    registers = reg;
                  }),
                )
          ]
        ]

    -- On a valid table with fewer than 2^31 open files PathOpen returns without a panic. Either it
    -- fails with -1 and an error number and the table is as it was, or the directory is open with
    -- the right to open paths, all checks pass, and the file that the host has opened with the
    -- rights that the directory passes on is registered under a fresh descriptor, with these
    -- rights.
    pub path_open-Opens :
        IsValid s.open_files
        → num_open_files s.open_files < 2 ^ 31
        → (r : (ℤ × ℕ) × System File Dir World) × (path_open h fd lookup_flags path open_flags base
              inheriting fd_flags s
            ≡ ok r)
          × (OpenFails r ⊎ Opens r)
    unfolding path_open
    path_open-Opens v few =
        with_fd_rule s fd path_open_right (λ e. (negsuc 0, e))
          (λ d. open_below h d lookup_flags path open_flags base inheriting fd_flags s) v
          (λ r. OpenFails r ⊎ Opens r) (λ errno ne. inl (refl, ne, refl)) (open_below-Opens v few)

    -- The descriptor of the reply is open, and its rights are attenuated from those of `fd`.
    pub record OpensWithin (r : (ℤ × ℕ) × System File Dir World) : Type 0 where
      pub parent : FileEntry File
      pub is_open : entry s.open_files fd ≡ some parent
      pub opened : FileEntry File
      pub is_opened : entry r.1.open_files r.0.0 ≡ some opened
      pub attenuates : Attenuates parent.stat open_flags base inheriting opened.stat

    -- On a valid table with fewer than 2^31 open files PathOpen fails with an error number and the
    -- table as it was, or the descriptor that it returns is then open, and the base and inheriting
    -- rights of its entry were asked for and are among the inheriting rights of the directory; its
    -- base rights, if it is opened as a directory, are those of directories.
    pub path_open-OpensWithin :
        IsValid s.open_files
        → num_open_files s.open_files < 2 ^ 31
        → (r : (ℤ × ℕ) × System File Dir World) × (path_open h fd lookup_flags path open_flags base
              inheriting fd_flags s
            ≡ ok r)
          × (OpenFails r ⊎ OpensWithin r)
    path_open-OpensWithin v few =
        let (r, run, e) = path_open-Opens v few in
        (r, run, elim e [ inl fails ↦ inl fails | inr o ↦ inr (within r o) ])
      where
        within : (r : (ℤ × ℕ) × System File Dir World) → Opens r → OpensWithin r
        within r o = record {
          parent = o.parent;
          is_open = o.is_open;
          opened = record {
            file = o.file;
            stat = known (opened_stat o.parent.stat open_flags base inheriting fd_flags);
          };
          is_opened =
              ap (λ e. entry r.1.open_files e.0) o.reply
              ∙ o.registers.reads (pos o.new_fd)
              ∙ rw (int_eq_refl (pos o.new_fd)) refl;
          attenuates = opened_stat-Attenuates o.parent.stat open_flags base inheriting fd_flags;
        }
