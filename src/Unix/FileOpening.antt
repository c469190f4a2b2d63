-- ===== src/Unix/FileOpening.antt =====
-- systems/unix/file.go: how `PathOpen` opens a file.
use wasi_go.Base.{
  ℕ, suc, ◌≡◌, refl, ap, Bool, true, false, not, ◌&&◌, ◌||◌, if◌then◌else◌, inl, inr, Bool-cases,
}
use wasi_go.Bits.{bit}
use wasi_go.Bits.Laws.{bit-bit_or}
use wasi_go.File.{
  Bytes, symlink_follow, open_create, open_directory, open_exclusive, open_truncate, append, dsync,
  sync, rsync, non_block,
}
use wasi_go.Rights.{has, fd_read_right, fd_write_right}
use wasi_go.Rights.Laws.{Subset, has-Subset}
use wasi_go.Unix.FilePaths.{or_if, access_mode, open_word, open_mode, open_with, open_path}
use wasi_go.Unix.FileKernel.{FileKernel}
use wasi_go.Unix.OpenFlags.{
  or_false, if_not, access_mode-high, access_mode-bits, granted, granted-no_write, no_directory,
  used_flags, or_if-Subset, access_mode-Subset, flag_bits,
}

-- The flags `w` of open(2) are those that a call of `PathOpen` asks for: each is set exactly if its
-- flag is asked for, and it is opened for writing exactly if the rights that are granted contain that
-- to write.
pub record OpensAs (lookup_flags open_flags rights fd_flags w : ℕ) : Type 0 where
  pub close_on_exec : bit w 19 ≡ true
  pub directory : bit w 16 ≡ has open_flags open_directory
  pub creates : bit w 6 ≡ has open_flags open_create
  pub exclusive : bit w 7 ≡ has open_flags open_exclusive
  pub truncates : bit w 9 ≡ has open_flags open_truncate
  pub appends : bit w 10 ≡ has fd_flags append
  pub data_synced : bit w 12 ≡ ((has fd_flags dsync || has fd_flags sync) || has fd_flags rsync)
  pub synced : bit w 20 ≡ (has fd_flags sync || has fd_flags rsync)
  pub nonblocking : bit w 11 ≡ has fd_flags non_block
  pub follows_no_link : bit w 17 ≡ not (has lookup_flags symlink_follow)
  pub writes : (bit w 0 || bit w 1) ≡ has (granted open_flags rights) fd_write_right
  pub reads_and_writes : bit w 1 ≡ (
      has (granted open_flags rights) fd_read_right
      && has (granted open_flags rights) fd_write_right)
  pub nothing_else : Subset w used_flags

module _ (lookup_flags open_flags rights fd_flags : ℕ) where
  abbrev word : ℕ
  word = open_word lookup_flags open_flags rights fd_flags

  abbrev directory : Bool
  directory = has open_flags open_directory

  abbrev reads : Bool
  reads = has (granted open_flags rights) fd_read_right

  abbrev writes : Bool
  writes = has (granted open_flags rights) fd_write_right

  abbrev mode : ℕ
  mode = access_mode directory reads writes

  high : (k : ℕ) → bit (mode) (suc (suc k)) ≡ false
  high = access_mode-high directory reads writes

  -- The word without the access mode.
  asked_word : ℕ
  asked_word = or_if (not (has lookup_flags symlink_follow)) 131072 (
      or_if (has fd_flags non_block) 2048 (
        or_if (has fd_flags rsync) 1052672 (
          or_if (has fd_flags sync) 1052672 (
            or_if (has fd_flags dsync) 4096 (
              or_if (has fd_flags append) 1024 (
                or_if (has open_flags open_truncate) 512 (
                  or_if (has open_flags open_exclusive) 128 (
                    or_if (has open_flags open_create) 64
                      (or_if (has open_flags open_directory) 65536 524288)))))))))

  asked : Subset asked_word used_flags
  unfolding asked_word has
  asked = or_if-Subset _ _ _ used_flags refl (
      or_if-Subset _ _ _ used_flags refl (
        or_if-Subset _ _ _ used_flags refl (
          or_if-Subset _ _ _ used_flags refl (
            or_if-Subset _ _ _ used_flags refl (
              or_if-Subset _ _ _ used_flags refl (
                or_if-Subset _ _ _ used_flags refl (
                  or_if-Subset _ _ _ used_flags refl (
                    or_if-Subset _ _ _ used_flags refl (
                      or_if-Subset _ _ _ used_flags refl
                        ((has-Subset used_flags 524288).0 refl))))))))))

  open_word-OpensAs : OpensAs lookup_flags open_flags rights fd_flags word
  unfolding open_word bit has asked_word
  open_word-OpensAs =
      let (any, both) =
        access_mode-bits directory reads writes (granted-no_write open_flags rights) in
      record {
        close_on_exec = simp (flag_bits, high 17);
        directory = simp (flag_bits, high 14);
        creates = simp (flag_bits, high 4);
        exclusive = simp (flag_bits, high 5);
        truncates = simp (flag_bits, high 7);
        appends = simp (flag_bits, high 8);
        data_synced = simp (flag_bits, high 10);
        synced = simp (flag_bits, high 18);
        nonblocking = simp (flag_bits, high 9);
        follows_no_link = simp (flag_bits, high 15);
        writes = simp flag_bits any;
        reads_and_writes = simp flag_bits both;
        nothing_else = λ k set. elim (Bool-cases (bit (mode) k)) [
          | inl at ↦ access_mode-Subset directory reads writes k at
          | inr off ↦ asked k (rw (bit-bit_or, off, or_false) at set)
        ];
      }

module _ {File World : Type 0} (k : FileKernel File World) (rounds : ℕ) where
  -- PathOpen of a file calls openat(2) with flags and a mode that say what was asked for: each
  -- flag is set exactly if it was asked for, O_DSYNC and O_SYNC also for the flags that imply
  -- them, and nothing else but O_CLOEXEC; the file is opened for writing exactly if the rights,
  -- less those that no directory has, contain that to write; and the mode is 0644, or 0 for a
  -- directory.
  pub open_path-OpensAs :
      (f : File) (path : Bytes) (lookup_flags open_flags rights inheriting fd_flags : ℕ)
      → (oflags : ℕ) × OpensAs lookup_flags open_flags rights fd_flags oflags
        × (open_path k rounds f lookup_flags path open_flags rights inheriting fd_flags
            ≡ open_with k rounds f path oflags (if has open_flags open_directory then 0 else 420))
  unfolding open_path open_mode
  open_path-OpensAs f path lookup_flags open_flags rights inheriting fd_flags =
      let oflags = open_word lookup_flags open_flags rights fd_flags in
      let opens = open_word-OpensAs lookup_flags open_flags rights fd_flags in
      (
        oflags,
        opens,
        ap (open_with k rounds f path oflags) (
            rw (no_directory oflags, opens.directory)
              (if_not (has open_flags open_directory) 420 0)),
      )
