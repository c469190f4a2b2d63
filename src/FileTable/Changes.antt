-- ===== src/FileTable/Changes.antt =====
-- wasi.go: `FDStatSetRights` and `FDStatSetFlags`, which change the entry of one descriptor.
use wasi_go.Base.{
  ℕ, ◌==◌, ==_iff, ne_of_beq, bit_and, bit_or, bit_xor, ◌≡◌, ◌≢◌, ◌⊎◌, inl, inr, refl, subst, some,
  ℤ, int_eq, ok, if◌then◌else◌, Bool-cases, arith,
}
use wasi_go.Bits.{and_not}
use wasi_go.Bits.Laws.{eq_of_xor_zero, xor_xor}
use wasi_go.Descriptor
use wasi_go.Descriptor.Pointer.{modify-Modifies}
use wasi_go.Errno.{esuccess, enosys, enotcapable}
use wasi_go.File.{FdStat, Host, dsync, rsync, sync}
use wasi_go.Rights.{has, all_rights, fd_stat_set_flags_right}
use wasi_go.FileTable.{FileEntry, FileTable, System}
use wasi_go.FileTable.Lookups.{IsValid, entry, with_fd_rule}
use wasi_go.FileTable.Descriptors.{
  set_stat, narrowed, flipped, set_rights_of, set_flags_of, fd_stat_set_rights, fd_stat_set_flags,
}

module _ {File Dir : Type 0} where
  -- How `t'` comes from `t` by a new stat for the entry `f` under `fd`.
  pub record Restats (t : FileTable File Dir) (fd : ℤ) (f : FileEntry File) (stat : FdStat)
      (t' : FileTable File Dir) : Type 0 where
    pub valid : IsValid t'
    pub reads :
        (j : ℤ) → entry t' j ≡ (if int_eq fd j then some (record f { stat = stat }) else entry t j)
    pub count : Descriptor.len t'.files ≡ Descriptor.len t.files
    pub same_preopens : t'.preopens ≡ t.preopens
    pub same_dirs : t'.dirs ≡ t.dirs
    pub same_max_files : t'.max_open_files ≡ t.max_open_files
    pub same_max_dirs : t'.max_open_dirs ≡ t.max_open_dirs

module _ {File Dir World : Type 0} where
  set_stat-Restats :
      (s : System File Dir World) (fd : ℤ) (f : FileEntry File) (stat : FdStat)
      → IsValid s.open_files
      → entry s.open_files fd ≡ some f
      → Restats s.open_files fd f stat (set_stat s fd f stat).open_files
  set_stat-Restats s fd f stat v e =
      let m = modify-Modifies s.open_files.files fd f (record f { stat = stat }) v.files e in
      record {
        valid = record { files = m.valid; preopens = v.preopens };
        reads = m.reads;
        count = m.count;
        same_preopens = refl;
        same_dirs = refl;
        same_max_files = refl;
        same_max_dirs = refl;
      }

  -- The outcome of `FDStatSetRights`: an error with the system as it was, or the entry keeps of
  -- each of its sets of rights those that were asked for.
  abbrev pub RightsSet : ℤ → ℕ → ℕ → System File Dir World → ℕ × System File Dir World → Type 0
  RightsSet fd base inheriting s r =
      ((r.0 ≢ esuccess) × (r.1 ≡ s))
      ⊎ ((f : FileEntry File) × (r.0 ≡ esuccess)
          × (entry s.open_files fd ≡ some f)
          × (r.1.world ≡ s.world)
          × Restats s.open_files fd f
              (narrowed f.stat (bit_and base all_rights) (bit_and inheriting all_rights))
              r.1.open_files)

  set_rights_of-RightsSet :
      (fd : ℤ) (base inheriting : ℕ) (s : System File Dir World)
      → IsValid s.open_files
      → (f : FileEntry File) → entry s.open_files fd ≡ some f
      → (r : ℕ × System File Dir World) × (set_rights_of fd base inheriting s f ≡ ok r)
        × RightsSet fd base inheriting s r
  unfolding set_rights_of
  set_rights_of-RightsSet fd base inheriting s v f e =
      let base' = bit_and base all_rights in
      let inheriting' = bit_and inheriting all_rights in
      elim (Bool-cases (and_not 64 base' f.stat.rights_base == 0)) [
        | inr more ↦ ((enotcapable, s), rw more refl, inl ((λ e. omega arith), refl))
        | inl within ↦ elim (Bool-cases (and_not 64 inheriting' f.stat.rights_inheriting == 0)) [
          | inr more ↦ ((enotcapable, s), rw (within, more) refl, inl ((λ e. omega arith), refl))
          | inl also ↦ (
            (esuccess, set_stat s fd f (narrowed f.stat base' inheriting')),
            rw (within, also) refl,
            inr (f, refl, e, refl, set_stat-Restats s fd f _ v e),
          )
        ]
      ]

  -- On a valid table FDStatSetRights returns without a panic. Either it returns an error and has
  -- no effect, or the entry keeps of each of its two sets of rights those that were asked for, and
  -- nothing else changes.
  pub fd_stat_set_rights-RightsSet :
      (fd : ℤ) (base inheriting : ℕ) (s : System File Dir World)
      → IsValid s.open_files
      → (r : ℕ × System File Dir World) × (fd_stat_set_rights fd base inheriting s ≡ ok r)
        × RightsSet fd base inheriting s r
  unfolding fd_stat_set_rights
  fd_stat_set_rights-RightsSet fd base inheriting s v =
      with_fd_rule s fd 0 (λ e. e) (set_rights_of fd base inheriting s) v
        (RightsSet fd base inheriting s) (λ errno ne. inl (ne, refl))
        (λ f e _. set_rights_of-RightsSet fd base inheriting s v f e)

module _ {File Dir World : Type 0} (h : Host File Dir World) where
  -- The outcome of `FDStatSetFlags`: an error, or success with nothing to change, with the table as
  -- it was; or the host has accepted the flags, and the entry has them.
  abbrev pub FlagsSet : ℤ → ℕ → System File Dir World → ℕ × System File Dir World → Type 0
  FlagsSet fd flags s r =
      ((r.0 ≢ esuccess) × (r.1.open_files ≡ s.open_files))
      ⊎ ((f : FileEntry File) × (r.0 ≡ esuccess)
          × (entry s.open_files fd ≡ some f)
          × (((flags ≡ f.stat.flags) × (r.1 ≡ s))
              ⊎ (((h.stat_set_flags f.file flags s.world).0 ≡ esuccess)
                  × (r.1.world ≡ (h.stat_set_flags f.file flags s.world).1)
                  × Restats s.open_files fd f (record f.stat { flags = flags }) r.1.open_files)))

  set_flags_of-FlagsSet :
      (fd : ℤ) (flags : ℕ) (s : System File Dir World)
      → IsValid s.open_files
      → (f : FileEntry File) → entry s.open_files fd ≡ some f
      → (r : ℕ × System File Dir World) × (set_flags_of h fd flags s f ≡ ok r)
        × FlagsSet fd flags s r
  unfolding set_flags_of
  set_flags_of-FlagsSet fd flags s v f e =
      let changes = bit_xor flags f.stat.flags in
      let call = h.stat_set_flags f.file flags s.world in
      elim (Bool-cases (changes == 0)) [
        | inl nothing ↦ (
          (esuccess, s),
          rw nothing refl,
          inr (
            f,
            refl,
            e,
            inl (eq_of_xor_zero flags f.stat.flags ((==_iff changes 0).0 nothing), refl),
          ),
        )
        | inr something ↦ elim (Bool-cases (has changes (bit_or sync (bit_or dsync rsync)))) [
          | inl all ↦ ((enosys, s), rw (something, all) refl, inl ((λ e. omega arith), refl))
          | inr others ↦ elim (Bool-cases (call.0 == esuccess)) [
            | inr fails ↦ (
              (call.0, record s { world = call.1 }),
              rw (something, others, fails) refl,
              inl (ne_of_beq fails, refl),
            )
            | inl accepted ↦
                let s' : System File Dir World = record s { world = call.1 } in
                (
                  (esuccess, set_stat s' fd f (flipped f.stat changes)),
                  rw (something, others, accepted) refl,
                  inr (
                    f,
                    refl,
                    e,
                    inr (
                      (==_iff call.0 esuccess).0 accepted,
                      refl,
                      subst
                          (λ (x : ℕ).
                            Restats s.open_files fd f (record f.stat { flags = x })
                              (set_stat s' fd f (flipped f.stat changes)).open_files)
                          (xor_xor f.stat.flags flags)
                          (set_stat-Restats s' fd f (flipped f.stat changes) v e),
                    ),
                  ),
                )
          ]
        ]
      ]

  -- On a valid table FDStatSetFlags returns without a panic. Either it fails and the table is as
  -- it was; or it succeeds and the entry has the flags that were asked for, either because it had
  -- them before, or because the host has accepted them.
  pub fd_stat_set_flags-FlagsSet :
      (fd : ℤ) (flags : ℕ) (s : System File Dir World)
      → IsValid s.open_files
      → (r : ℕ × System File Dir World) × (fd_stat_set_flags h fd flags s ≡ ok r)
        × FlagsSet fd flags s r
  unfolding fd_stat_set_flags
  fd_stat_set_flags-FlagsSet fd flags s v =
      with_fd_rule s fd fd_stat_set_flags_right (λ e. e) (set_flags_of h fd flags s) v
        (FlagsSet fd flags s) (λ errno ne. inl (ne, refl))
        (λ f e _. set_flags_of-FlagsSet fd flags s v f e)
