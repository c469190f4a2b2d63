-- ===== src/FileTable/Reading.antt =====
-- wasi.go: `FDReadDir` opens the directory behind a descriptor once, and closes it at its end.
use wasi_go.Base.{
  ℕ, max, ◌+◌, ◌≤◌, Bool, false, ◌&&◌, ◌==◌, ==_iff, ne_of_beq, leb, ltb, ◌≡◌, ◌≢◌, ◌⊎◌, inl, inr,
  refl, sym, ◌∙◌, ap, none, some, List, length, ℤ, int_eq, ok, if◌then◌else◌, Bool-cases,
  Option-cases, arith,
}
use wasi_go.DirMap
use wasi_go.DirMap.Laws.{get-remove, get-put, int_eq_iff, length-remove-le, length-put-le}
use wasi_go.Errno.{esuccess, einval, enfile}
use wasi_go.File.{Host}
use wasi_go.Rights.{fd_read_dir_right}
use wasi_go.FileTable.{FileEntry, FileTable, System, num_open_dirs}
use wasi_go.FileTable.Lookups.{IsValid, entry, with_fd_rule}
use wasi_go.FileTable.Directories.{read_entries, read_dir_of, fd_read_dir}

-- A reply of no entries without an error.
abbrev pub at_end : ℕ × ℕ → Bool
at_end r = r.1 == esuccess && r.0 == 0

module _ {File Dir : Type 0} where
  -- Two tables that differ in their directories at most.
  pub record SameFiles (t t' : FileTable File Dir) : Type 0 where
    pub files : t'.files ≡ t.files
    pub preopens : t'.preopens ≡ t.preopens
    pub max_files : t'.max_open_files ≡ t.max_open_files
    pub max_dirs : t'.max_open_dirs ≡ t.max_open_dirs

module _ {File Dir World : Type 0} (h : Host File Dir World) where
  module _ (fd : ℤ) (entries cookie buffer_size : ℕ) (s : System File Dir World) where
    -- What has been done after `d` was read in the world `w`, from the directories `dirs`.
    pub record ReadsFrom (d : Dir) (w : World) (dirs : List (ℤ × Dir))
        (r : (ℕ × ℕ) × System File Dir World) : Type 0 where
      pub reply : r.0 ≡ (h.read_dir d entries cookie buffer_size w).0
      pub world : r.1.world ≡ (
          if at_end r.0
          then (h.close_dir d (h.read_dir d entries cookie buffer_size w).1).1
          else (h.read_dir d entries cookie buffer_size w).1)
      pub dirs_after :
          (j : ℤ)
          → DirMap.get j r.1.open_files.dirs
            ≡ (if int_eq fd j then if at_end r.0 then none else some d else DirMap.get j dirs)
      pub same : SameFiles s.open_files r.1.open_files

    -- A directory that was open, or one that the file has opened while there was room for it.
    pub data Source (d : Dir) : World → Type 0 where
      was_open : DirMap.get fd s.open_files.dirs ≡ some d → Source d s.world
      opens :
          (f : FileEntry File)
          → DirMap.get fd s.open_files.dirs ≡ none
          → entry s.open_files fd ≡ some f
          → (h.open_dir f.file s.world).0 ≡ (d, esuccess)
          → Source d (h.open_dir f.file s.world).1

    -- The outcome of `FDReadDir`.
    pub record DirRead (r : (ℕ × ℕ) × System File Dir World) : Type 0 where
      pub dir : Dir
      pub before : World
      pub source : Source dir before
      pub reads : ReadsFrom dir before s.open_files.dirs r
      pub limited :
          (s.open_files.max_open_dirs ≡ 0)
          ⊎ (num_open_dirs r.1.open_files
              ≤ max (num_open_dirs s.open_files) s.open_files.max_open_dirs)

    -- The system with the directories `m` in the world `w`.
    abbrev with_dirs : List (ℤ × Dir) → World → System File Dir World
    with_dirs m w = record { open_files = record s.open_files { dirs = m }; world = w }

    after_end :
        (d : Dir) (m : List (ℤ × Dir))
        → ((j : ℤ)
            → DirMap.get j m ≡ (if int_eq fd j then some d else DirMap.get j s.open_files.dirs))
        → (j : ℤ)
        → DirMap.get j (DirMap.remove fd m)
          ≡ (if int_eq fd j then none else DirMap.get j s.open_files.dirs)
    after_end d m reads j = elim (Bool-cases (int_eq fd j)) [
      | inl eq ↦ rw eq (get-remove fd j m ∙ ap (λ b. if b then none else DirMap.get j m) eq)
      | inr other ↦ rw other (
          get-remove fd j m
          ∙ ap (λ b. if b then none else DirMap.get j m) other
          ∙ reads j
          ∙ ap (λ b. if b then some d else DirMap.get j s.open_files.dirs) other)
    ]

    same : (m : List (ℤ × Dir)) → SameFiles s.open_files (record s.open_files { dirs = m })
    same m = record { files = refl; preopens = refl; max_files = refl; max_dirs = refl }

    read_entries-ReadsFrom :
        (d : Dir) (m : List (ℤ × Dir)) (w : World)
        → ((j : ℤ)
            → DirMap.get j m ≡ (if int_eq fd j then some d else DirMap.get j s.open_files.dirs))
        → (r : (ℕ × ℕ) × System File Dir World) × (read_entries h fd d entries cookie buffer_size
              (with_dirs m w)
            ≡ ok r)
          × ReadsFrom d w s.open_files.dirs r
          × (num_open_dirs r.1.open_files ≤ length m)
    unfolding read_entries num_open_dirs
    read_entries-ReadsFrom d m w reads =
        let call = h.read_dir d entries cookie buffer_size w in
        elim (Bool-cases (at_end call.0)) [
          | inl stops ↦ (
            (call.0, with_dirs (DirMap.remove fd m) (h.close_dir d call.1).1),
            rw stops refl,
            record {
              reply = refl;
              world = rw stops refl;
              dirs_after = rw stops (after_end d m reads);
              same = same (DirMap.remove fd m);
            },
            length-remove-le fd m,
          )
          | inr more ↦ (
            (call.0, with_dirs m call.1),
            rw more refl,
            record {
              reply = refl;
              world = rw more refl;
              dirs_after = rw more reads;
              same = same m;
            },
            omega arith,
          )
        ]

    -- A failed `FDReadDir`.
    abbrev pub ReadFails : (ℕ × ℕ) × System File Dir World → Type 0
    ReadFails r = (r.0.0 ≡ 0) × (r.0.1 ≢ esuccess) × (r.1.open_files ≡ s.open_files)

    was_open_reads :
        (d : Dir) (m : List (ℤ × Dir))
        → DirMap.get fd m ≡ some d
        → (j : ℤ) → DirMap.get j m ≡ (if int_eq fd j then some d else DirMap.get j m)
    was_open_reads d m e j = elim (Bool-cases (int_eq fd j)) [
      | inl eq ↦ rw eq (ap (λ k. DirMap.get k m) (sym ((int_eq_iff fd j).0 eq)) ∙ e)
      | inr other ↦ rw other refl
    ]

    within_of_le :
        (t' : FileTable File Dir)
        → num_open_dirs t' ≤ length s.open_files.dirs
        → num_open_dirs t' ≤ max (num_open_dirs s.open_files) s.open_files.max_open_dirs
    unfolding num_open_dirs
    within_of_le t' le = omega arith

    within_of_put :
        (t' : FileTable File Dir) (d : Dir)
        → num_open_dirs t' ≤ length (DirMap.put fd d s.open_files.dirs)
        → (ltb 0 s.open_files.max_open_dirs
            && leb s.open_files.max_open_dirs (num_open_dirs s.open_files))
          ≡ false
        → (s.open_files.max_open_dirs ≡ 0)
          ⊎ (num_open_dirs t' ≤ max (num_open_dirs s.open_files) s.open_files.max_open_dirs)
    unfolding num_open_dirs
    within_of_put t' d le room = elim (Bool-cases (s.open_files.max_open_dirs == 0)) [
      | inl zero_max ↦ inl ((==_iff s.open_files.max_open_dirs 0).0 zero_max)
      | inr positive ↦ inr (
          omega (
            arith,
            length-put-le fd d s.open_files.dirs,
            below s.open_files.max_open_dirs (length s.open_files.dirs) positive room,
          ))
    ]
      where
        below : (max n : ℕ) → (max == 0) ≡ false → (ltb 0 max && leb max n) ≡ false → n + 1 ≤ max
        below max n p e = ground arith

    read_dir_of-DirRead :
        (f : FileEntry File)
        → entry s.open_files fd ≡ some f
        → (r : (ℕ × ℕ) × System File Dir World) × (read_dir_of h fd entries cookie buffer_size s f
            ≡ ok r)
          × (ReadFails r ⊎ DirRead r)
    unfolding read_dir_of
    read_dir_of-DirRead f e =
        let t = s.open_files in
        let call = h.open_dir f.file s.world in
        elim (Bool-cases (entries == 0)) [
          | inl nothing ↦ (((0, einval), s), rw nothing refl, inl (refl, (λ e. omega arith), refl))
          | inr some_entries ↦ elim (Option-cases (DirMap.get fd t.dirs)) [
            | inr (d, e') ↦
                let (r, run, reads, le) =
                  read_entries-ReadsFrom d t.dirs s.world (was_open_reads d t.dirs e') in
                (
                  r,
                  rw (some_entries, e') run,
                  inr (record {
                    dir = d;
                    before = s.world;
                    source = was_open e';
                    reads = reads;
                    limited = inr (within_of_le r.1.open_files le);
                  }),
                )
            | inl e' ↦
                elim (Bool-cases (ltb 0 t.max_open_dirs && leb t.max_open_dirs (num_open_dirs t))) [
                  | inl full ↦ (
                    ((0, enfile), s),
                    rw (some_entries, e', full) refl,
                    inl (refl, (λ e. omega arith), refl),
                  )
                  | inr room ↦ elim (Bool-cases (call.0.1 == esuccess)) [
                    | inr fails ↦ (
                      ((0, call.0.1), record s { world = call.1 }),
                      rw (some_entries, e', room, fails) refl,
                      inl (refl, ne_of_beq fails, refl),
                    )
                    | inl opened ↦
                        let m = DirMap.put fd call.0.0 t.dirs in
                        let (r, run, reads, le) =
                          read_entries-ReadsFrom call.0.0 m call.1
                            (λ j. get-put fd j call.0.0 t.dirs) in
                        (
                          r,
                          rw (some_entries, e', room, opened) run,
                          inr (record {
                            dir = call.0.0;
                            before = call.1;
                            source =
                                opens f e' e
                                  (ap (λ x. (call.0.0, x)) ((==_iff call.0.1 esuccess).0 opened));
                            reads = reads;
                            limited = within_of_put r.1.open_files call.0.0 le room;
                          }),
                        )
                  ]
                ]
          ]
        ]

    -- On a valid table FDReadDir returns without a panic. Either it returns no entries and an
    -- error and the table is as it was, or it reads the directory of the descriptor, which was
    -- open or is opened by the file, and then the directory is closed and forgotten if it has no
    -- more entries and kept otherwise. If there is a limit on open directories, it is not exceeded
    -- unless it was exceeded before.
    pub fd_read_dir-DirRead :
        IsValid s.open_files
        → (r : (ℕ × ℕ) × System File Dir World) × (fd_read_dir h fd entries cookie buffer_size s
            ≡ ok r)
          × (ReadFails r ⊎ DirRead r)
    unfolding fd_read_dir
    fd_read_dir-DirRead v =
        with_fd_rule s fd fd_read_dir_right (λ e. (0, e))
          (read_dir_of h fd entries cookie buffer_size s) v (λ r. ReadFails r ⊎ DirRead r)
          (λ errno ne. inl (refl, ne, refl)) (λ f e _. read_dir_of-DirRead f e)
