-- ===== src/FileTable/Confinement/Steps.antt =====
-- wasi.go: each call of the file table keeps the guest confined.
use wasi_go.Base.{
  ℕ, List, length, Bool, true, false, ◌≡◌, ◌⊎◌, inl, inr, refl, sym, ◌∙◌, ap, subst, Option, none,
  some, ℤ, pos, ok, Bool-cases, Option-cases, arith, of_returned,
}
use wasi_go.DirMap.Laws.{length-remove-le}
use wasi_go.Errno.{ebadf, enotcapable}
use wasi_go.File.{Bytes, Host}
use wasi_go.Rights.{has}
use wasi_go.Rights.Laws.{Subset-trans, has-Subset}
use wasi_go.FileTable.{FileEntry, System, num_open_dirs}
use wasi_go.FileTable.Lookups.{entry}
use wasi_go.FileTable.Guards.{Call, needs, failure, method, perform, guarded, perform-guarded}
use wasi_go.FileTable.PairGuards.{guarded_pair, path_link_rename-guarded}
use wasi_go.FileTable.Paths.{opened_stat}
use wasi_go.FileTable.Opening.{at_limit, OpenFails, Opens, path_open-Opens}
use wasi_go.FileTable.Changes.{
  RightsSet, FlagsSet, fd_stat_set_rights-RightsSet, fd_stat_set_flags-FlagsSet,
}
use wasi_go.FileTable.Closing.{Closed, fd_close-Closed}
use wasi_go.FileTable.Renumbering.{Renumbered, fd_renumber-Renumbered}
use wasi_go.FileTable.Reading.{DirRead, ReadFails, fd_read_dir-DirRead}
use wasi_go.FileTable.Seeking.{may_seek, sought, fd_seek-sought}
use wasi_go.FileTable.Confinement.{
  Within, Safe, Step, opens, closes, renumbers, sets_rights, sets_flags, reads_dir, seeks, calls,
  links, renames, Reach, start, next,
}
use wasi_go.FileTable.Confinement.Tables.{
  Forgets-Safe, Moves-Safe, Restats-Safe, Registers-Safe, DirRead-Safe, opened-Within,
  narrowed-Within, room_of_passes,
}

module _ {File Dir World : Type 0} (h : Host File Dir World) where
  -- Calls that leave the table alone.
  unchanged-Safe :
      (rights : ℕ) (s s' : System File Dir World)
      → Safe rights s.open_files
      → s'.open_files ≡ s.open_files
      → Safe rights s'.open_files
  unchanged-Safe rights s s' safe e = subst (Safe rights) (sym e) safe

  guarded-Safe {ℓ} :
      {R : Type ℓ} (rights : ℕ) (o : Option (FileEntry File)) (needed : ℕ) (failed : ℕ → R)
      (run : File → World → R × World) (s : System File Dir World)
      → Safe rights s.open_files
      → Safe rights (guarded o needed failed run s).1.open_files
  guarded-Safe rights none needed failed run s safe = safe
  guarded-Safe rights (some f) needed failed run s safe =
      elim (Bool-cases (has f.stat.rights_base needed)) [
        | inl holds ↦ rw holds safe
        | inr lacks ↦ rw lacks safe
      ]

  guarded_pair-Safe :
      (rights : ℕ) (o o' : Option (FileEntry File)) (needed needed' : ℕ)
      (run : File → File → World → ℕ × World) (s : System File Dir World)
      → Safe rights s.open_files
      → Safe rights (guarded_pair h o o' needed needed' run s).1.open_files
  guarded_pair-Safe rights none o' needed needed' run s safe = safe
  guarded_pair-Safe rights (some f) o' needed needed' run s safe =
      elim (Bool-cases (has f.stat.rights_base needed)) [
        | inl holds ↦ rw holds (guarded-Safe rights o' needed' (λ e. e) (run f.file) s safe)
        | inr lacks ↦ rw lacks safe
      ]

  sought-Safe :
      (rights : ℕ) (o : Option (FileEntry File)) (delta : ℤ) (whence : ℕ)
      (s : System File Dir World)
      → Safe rights s.open_files
      → Safe rights (sought h o delta whence s).1.open_files
  sought-Safe rights none delta whence s safe = safe
  sought-Safe rights (some f) delta whence s safe =
      elim (Bool-cases (may_seek f.stat.rights_base delta whence)) [
        | inl holds ↦ rw holds safe
        | inr lacks ↦ rw lacks safe
      ]

  module _ (rights : ℕ) (s : System File Dir World) (safe : Safe rights s.open_files) where
    -- The property of a result that the invariant holds in its state.
    abbrev After : {R : Type 0} → R × System File Dir World → Type 0
    After r = Safe rights r.1.open_files

    Opens-Safe :
        (fd : ℤ) (lookup_flags : ℕ) (path : Bytes) (open_flags base inheriting fd_flags : ℕ)
        (r : (ℤ × ℕ) × System File Dir World)
        → OpenFails h fd lookup_flags path open_flags base inheriting fd_flags s r
          ⊎ Opens h fd lookup_flags path open_flags base inheriting fd_flags s r
        → After r
    Opens-Safe fd lookup_flags path open_flags base inheriting fd_flags r (inl (a, b, same)) =
        unchanged-Safe rights s r.1 safe same
    Opens-Safe fd lookup_flags path open_flags base inheriting fd_flags r (inr o) =
        Registers-Safe rights s.open_files o.file
          (opened_stat o.parent.stat open_flags base inheriting fd_flags) o.new_fd r.1.open_files
          safe
          (opened-Within rights o.parent.stat open_flags base inheriting fd_flags
            (safe.confined fd o.parent o.is_open))
          (room_of_passes o.parent.stat path open_flags base inheriting (at_limit s.open_files)
            o.passes)
          o.registers

    closes-Safe : (fd : ℤ) (r : ℕ × System File Dir World) → Closed h fd s r → After r
    unfolding num_open_dirs
    closes-Safe fd r (inl (ne, same)) =
        unchanged-Safe rights s r.1 safe (ap (λ s. s.open_files) same)
    closes-Safe fd r (inr (f, e, reply, world, g)) =
        Forgets-Safe rights s.open_files fd r.1.open_files safe g (
          omega (
            arith,
            ap (λ (m : List (ℤ × Dir)). length m) g.shrunk_dirs,
            length-remove-le fd s.open_files.dirs,
          ))

    renumbers-Safe :
        (from : ℤ) (to : ℕ) (r : ℕ × System File Dir World)
        → Renumbered h from (pos to) s r
        → After r
    renumbers-Safe from to r (inl (ne, same)) =
        unchanged-Safe rights s r.1 safe (ap (λ s. s.open_files) same)
    renumbers-Safe from to r (inr (f, reply, e, world, m)) =
        Moves-Safe rights s.open_files from (pos to) f r.1.open_files safe e m

    sets_rights-Safe :
        (fd : ℤ) (base inheriting : ℕ) (r : ℕ × System File Dir World)
        → RightsSet fd base inheriting s r
        → After r
    sets_rights-Safe fd base inheriting r (inl (ne, same)) =
        unchanged-Safe rights s r.1 safe (ap (λ s. s.open_files) same)
    sets_rights-Safe fd base inheriting r (inr (f, reply, e, world, m)) =
        Restats-Safe rights s.open_files fd f _ r.1.open_files safe
          (narrowed-Within rights f.stat _ _ (safe.confined fd f e)) m

    sets_flags-Safe :
        (fd : ℤ) (flags : ℕ) (r : ℕ × System File Dir World) → FlagsSet h fd flags s r → After r
    sets_flags-Safe fd flags r (inl (ne, same)) = unchanged-Safe rights s r.1 safe same
    sets_flags-Safe fd flags r (inr (f, reply, e, inl (same_flags, same))) =
        unchanged-Safe rights s r.1 safe (ap (λ s. s.open_files) same)
    sets_flags-Safe fd flags r (inr (f, reply, e, inr (accepted, world, m))) =
        Restats-Safe rights s.open_files fd f (record f.stat { flags = flags }) r.1.open_files safe
          (safe.confined fd f e) m

    reads_dir-Safe :
        (fd : ℤ) (entries cookie buffer_size : ℕ) (r : (ℕ × ℕ) × System File Dir World)
        → ReadFails h fd entries cookie buffer_size s r
          ⊎ DirRead h fd entries cookie buffer_size s r
        → After r
    reads_dir-Safe fd entries cookie buffer_size r (inl (a, b, same)) =
        unchanged-Safe rights s r.1 safe same
    reads_dir-Safe fd entries cookie buffer_size r (inr d) =
        DirRead-Safe rights s.open_files r.1.open_files safe d.reads.same d.limited

    Step-Safe : (s' : System File Dir World) → Step h s s' → Safe rights s'.open_files
    Step-Safe s' (opens fd lookup_flags path open_flags base inheriting fd_flags r few run) =
        Opens-Safe fd lookup_flags path open_flags base inheriting fd_flags (r, s')
          (of_returned _ _ (r, s')
            (path_open-Opens h fd lookup_flags path open_flags base inheriting fd_flags s safe.valid
              few)
            run)
    Step-Safe s' (closes fd r run) =
        closes-Safe fd (r, s')
          (of_returned (Closed h fd s) _ (r, s') (fd_close-Closed h fd s safe.valid) run)
    Step-Safe s' (renumbers from to r run) =
        renumbers-Safe from to (r, s')
          (of_returned (Renumbered h from (pos to) s) _ (r, s')
            (fd_renumber-Renumbered h from to s safe.valid) run)
    Step-Safe s' (sets_rights fd base inheriting r run) =
        sets_rights-Safe fd base inheriting (r, s')
          (of_returned (RightsSet fd base inheriting s) _ (r, s')
            (fd_stat_set_rights-RightsSet fd base inheriting s safe.valid) run)
    Step-Safe s' (sets_flags fd flags r run) =
        sets_flags-Safe fd flags (r, s')
          (of_returned (FlagsSet h fd flags s) _ (r, s')
            (fd_stat_set_flags-FlagsSet h fd flags s safe.valid) run)
    Step-Safe s' (reads_dir fd entries cookie buffer_size r run) =
        reads_dir-Safe fd entries cookie buffer_size (r, s')
          (of_returned _ _ (r, s')
            (fd_read_dir-DirRead h fd entries cookie buffer_size s safe.valid) run)
    Step-Safe s' (seeks fd delta whence r run) =
        of_returned After _ (r, s')
          (
            _,
            fd_seek-sought h fd delta whence s safe.valid,
            sought-Safe rights (entry s.open_files fd) delta whence s safe,
          )
          run
    Step-Safe s' (calls fd c r run) =
        of_returned After _ (r, s')
          (
            _,
            perform-guarded h fd c s safe.valid,
            guarded-Safe rights (entry s.open_files fd) (needs c) (failure c) (method h c) s safe,
          )
          run
    Step-Safe s' (links fd new_fd flags old new r run) =
        of_returned After _ (r, s')
          (
            _,
            (path_link_rename-guarded h fd new_fd flags old new s safe.valid).0,
            guarded_pair-Safe rights (entry s.open_files fd) (entry s.open_files new_fd) _ _ _ s
                safe,
          )
          run
    Step-Safe s' (renames fd new_fd old new r run) =
        of_returned After _ (r, s')
          (
            _,
            (path_link_rename-guarded h fd new_fd 0 old new s safe.valid).1,
            guarded_pair-Safe rights (entry s.open_files fd) (entry s.open_files new_fd) _ _ _ s
                safe,
          )
          run

  -- From a file table that is valid, whose open files have no right outside a set, and which has
  -- no more open files and open directories than its limits, any sequence of guest calls that
  -- return leads to such a table again, for the same set. The calls are PathOpen while fewer than
  -- 2^31 files are open, FDClose, FDRenumber onto a non-negative descriptor, FDStatSetRights,
  -- FDStatSetFlags, FDReadDir, FDSeek, PathLink, PathRename and those handed over to one file.
  pub Reach-Safe :
      (rights : ℕ) (s s' : System File Dir World)
      → Safe rights s.open_files
      → Reach h s s'
      → Safe rights s'.open_files
  Reach-Safe rights s s' safe start = safe
  Reach-Safe rights s s'' safe (next {s' = s'} reach step) =
      Step-Safe rights s' (Reach-Safe rights s s' safe reach) s'' step

  -- The error of a call that is refused.
  abbrev pub refusal : Option (FileEntry File) → ℕ
  refusal none = ebadf
  refusal (some f) = enotcapable

  -- After any such sequence of guest calls, a call that needs a right outside that set is refused
  -- on every descriptor: EBADF where it is not open and ENOTCAPABLE where it is, with no effect on
  -- the table and the host.
  pub Reach-refused :
      (rights : ℕ) (s s' : System File Dir World) (fd : ℤ) (c : Call)
      → Safe rights s.open_files
      → Reach h s s'
      → has rights (needs c) ≡ false
      → perform h fd c s' ≡ ok (failure c (refusal (entry s'.open_files fd)), s')
  Reach-refused rights s s' fd c safe reach lacks =
      let safe' = Reach-Safe rights s s' safe reach in
      perform-guarded h fd c s' safe'.valid ∙ elim (Option-cases (entry s'.open_files fd)) [
        | inl e ↦ rw e refl
        | inr (f, e) ↦ rw (e, lacks_too f (safe'.confined fd f e)) refl
      ]
    where
      clash : (b : Bool) → has rights (needs c) ≡ true → b ≡ false
      clash b e = cc

      lacks_too :
          (f : FileEntry File) → Within rights f.stat → has f.stat.rights_base (needs c) ≡ false
      lacks_too f w = elim (Bool-cases (has f.stat.rights_base (needs c))) [
        | inr missing ↦ missing
        | inl held ↦ clash _ (
            (has-Subset rights (needs c)).1 (
              Subset-trans (needs c) f.stat.rights_base rights
                ((has-Subset f.stat.rights_base (needs c)).0 held) w.0))
      ]
