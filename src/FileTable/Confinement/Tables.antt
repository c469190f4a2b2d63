-- ===== src/FileTable/Confinement/Tables.antt =====
-- wasi.go: what the calls of the file table do to it keeps the guest confined.
use wasi_go.Base
use wasi_go.Base.{
  ℕ, suc, List, length, ◌≤◌, ◌<◌, Bool, true, false, ◌&&◌, ◌≡◌, ◌≢◌, ◌⊎◌, inl, inr, refl, sym, ◌∙◌,
  ap, subst, Option, none, some, ℤ, pos, int_eq, Run, ok, if◌then◌else◌, Bool-cases, Option-cases,
  arith, of_returned, not, ◌==◌, leb, ltb,
}
use wasi_go.Descriptor
use wasi_go.Descriptor.View
use wasi_go.Errno.{esuccess}
use wasi_go.File.{Bytes, FdStat}
use wasi_go.Rights.Laws.{and-Subset_left}
use wasi_go.FileTable.{FileEntry, FileTable, num_open_files, num_open_dirs}
use wasi_go.FileTable.Lookups.{entry}
use wasi_go.FileTable.Descriptors.{narrowed}
use wasi_go.FileTable.Paths.{opened_stat, open_errno}
use wasi_go.FileTable.Opening.{Registers, known, opened_stat-Attenuates, at_limit}
use wasi_go.FileTable.Changes.{Restats}
use wasi_go.FileTable.Closing.{Forgets}
use wasi_go.FileTable.Renumbering.{Moves, with_replaced}
use wasi_go.FileTable.Reading.{SameFiles}
use wasi_go.FileTable.Confinement.{Within, AllWithin, within_if, Within-some, within_none, Safe}

-- A limit is kept when there are no more of what it limits.
pub kept_limit :
    (max n max' n' : ℕ) → (max ≡ 0) ⊎ (n ≤ max) → max' ≡ max → n' ≤ n → (max' ≡ 0) ⊎ (n' ≤ max')
kept_limit max n max' n' (inl zero_max) same le = inl (omega arith)
kept_limit max n max' n' (inr within) same le = inr (omega arith)

-- And when one more is let in below it, or as many as there may be.
pub raised_limit :
    (max n max' n' : ℕ)
    → (ltb 0 max && leb max n) ≡ false
    → max' ≡ max
    → n' ≡ suc n
    → (max' ≡ 0) ⊎ (n' ≤ max')
raised_limit max n max' n' room same more = elim (Bool-cases (max == 0)) [
  | inl zero_max ↦ inl (ground arith)
  | inr positive ↦ inr (ground arith)
]

pub filled_limit :
    (max n max' n' : ℕ)
    → (max ≡ 0) ⊎ (n ≤ max)
    → max' ≡ max
    → (max ≡ 0) ⊎ (n' ≤ Base.max n max)
    → (max' ≡ 0) ⊎ (n' ≤ max')
filled_limit max n max' n' (inl zero_max) same le = inl (omega arith)
filled_limit max n max' n' (inr within) same (inl zero_max) = inl (omega arith)
filled_limit max n max' n' (inr within) same (inr le) = inr (omega arith)

module _ {File Dir : Type 0} where
  -- Entries that are closed or were there before.
  pub Forgets-Safe :
      (rights : ℕ) (t : FileTable File Dir) (fd : ℤ) (t' : FileTable File Dir)
      → Safe rights t
      → Forgets t fd t'
      → num_open_dirs t' ≤ num_open_dirs t
      → Safe rights t'
  Forgets-Safe rights t fd t' safe g fewer = record {
    valid = g.valid;
    confined = λ j.
        within_if rights (int_eq fd j) (entry t' j) none (entry t j) (g.reads j)
          (within_none rights) (safe.confined j);
    files_limit =
        kept_limit t.max_open_files (num_open_files t) t'.max_open_files (num_open_files t')
          safe.files_limit g.same_max_files (omega (arith, g.count));
    dirs_limit =
        kept_limit t.max_open_dirs (num_open_dirs t) t'.max_open_dirs (num_open_dirs t')
          safe.dirs_limit g.same_max_dirs fewer;
  }

  pub Moves-Safe :
      (rights : ℕ) (t : FileTable File Dir) (from to : ℤ) (f : FileEntry File)
      (t' : FileTable File Dir)
      → Safe rights t
      → entry t from ≡ some f
      → Moves t from to f t'
      → Safe rights t'
  Moves-Safe rights t from to f t' safe e m = record {
    valid = m.valid;
    confined = λ j.
        within_if rights (int_eq from j) (entry t' j) none
          (if int_eq to j then some f else entry t j) (m.reads j) (within_none rights)
          (within_if rights (int_eq to j) _ (some f) (entry t j) refl
            (Within-some rights f (safe.confined from f e)) (safe.confined j));
    files_limit =
        kept_limit t.max_open_files (num_open_files t) t'.max_open_files (num_open_files t')
          safe.files_limit m.same_max_files (at_most (entry t to) (num_open_files t') m.count);
    dirs_limit =
        kept_limit t.max_open_dirs (num_open_dirs t) t'.max_open_dirs (num_open_dirs t')
          safe.dirs_limit m.same_max_dirs m.no_more_dirs;
  }
    where
      at_most :
          (o : Option (FileEntry File)) (n : ℕ)
          → num_open_files t ≡ with_replaced o n
          → n ≤ num_open_files t
      at_most none n e = omega arith
      at_most (some g) n e = omega arith

  pub Restats-Safe :
      (rights : ℕ) (t : FileTable File Dir) (fd : ℤ) (f : FileEntry File) (stat : FdStat)
      (t' : FileTable File Dir)
      → Safe rights t
      → Within rights stat
      → Restats t fd f stat t'
      → Safe rights t'
  unfolding num_open_files num_open_dirs
  Restats-Safe rights t fd f stat t' safe w m = record {
    valid = m.valid;
    confined = λ j.
        within_if rights (int_eq fd j) (entry t' j) (some (record f { stat = stat })) (entry t j)
          (m.reads j) (Within-some rights (record f { stat = stat }) w) (safe.confined j);
    files_limit =
        kept_limit t.max_open_files (num_open_files t) t'.max_open_files (num_open_files t')
          safe.files_limit m.same_max_files (omega (arith, m.count));
    dirs_limit =
        kept_limit t.max_open_dirs (num_open_dirs t) t'.max_open_dirs (num_open_dirs t')
          safe.dirs_limit m.same_max_dirs
          (omega (arith, ap (λ (m : List (ℤ × Dir)). length m) m.same_dirs));
  }

  pub Registers-Safe :
      (rights : ℕ) (t : FileTable File Dir) (file : File) (stat : FdStat) (fd : ℕ)
      (t' : FileTable File Dir)
      → Safe rights t
      → Within rights (known stat)
      → at_limit t ≡ false
      → Registers t file stat fd t'
      → Safe rights t'
  unfolding num_open_dirs
  Registers-Safe rights t file stat fd t' safe w room m = record {
    valid = m.valid;
    confined = λ j.
        within_if rights (int_eq (pos fd) j) (entry t' j)
          (some (record { file = file; stat = known stat })) (entry t j) (m.reads j)
          (Within-some rights (record { file = file; stat = known stat }) w) (safe.confined j);
    files_limit =
        raised_limit t.max_open_files (num_open_files t) t'.max_open_files (num_open_files t') room
          m.same_max_files m.count;
    dirs_limit =
        kept_limit t.max_open_dirs (num_open_dirs t) t'.max_open_dirs (num_open_dirs t')
          safe.dirs_limit m.same_max_dirs
          (omega (arith, ap (λ (m : List (ℤ × Dir)). length m) m.same_dirs));
  }

  pub DirRead-Safe :
      (rights : ℕ) (t t' : FileTable File Dir)
      → Safe rights t
      → SameFiles t t'
      → (t.max_open_dirs ≡ 0) ⊎ (num_open_dirs t' ≤ Base.max (num_open_dirs t) t.max_open_dirs)
      → Safe rights t'
  unfolding num_open_files
  DirRead-Safe rights t t' safe m limited = record {
    valid = record {
      files = subst View.IsValid (sym m.files) safe.valid.files;
      preopens = subst View.IsValid (sym m.preopens) safe.valid.preopens;
    };
    confined = λ j.
        subst (λ (x : Descriptor.Table (FileEntry File)). AllWithin rights (View.view x j))
          (sym m.files) (safe.confined j);
    files_limit =
        kept_limit t.max_open_files (num_open_files t) t'.max_open_files (num_open_files t')
          safe.files_limit m.max_files
          (omega (arith, ap (λ (m : Descriptor.Table (FileEntry File)). Descriptor.len m) m.files));
    dirs_limit =
        filled_limit t.max_open_dirs (num_open_dirs t) t'.max_open_dirs (num_open_dirs t')
          safe.dirs_limit m.max_dirs limited;
  }

-- An opened file has rights that its directory passes on.
pub opened-Within :
    (rights : ℕ) (parent : FdStat) (open_flags base inheriting fd_flags : ℕ)
    → Within rights parent
    → Within rights (known (opened_stat parent open_flags base inheriting fd_flags))
opened-Within rights parent open_flags base inheriting fd_flags w =
    let a = opened_stat-Attenuates parent open_flags base inheriting fd_flags in
    ((λ k b. w.1 k (a.base_passed_on k b)), (λ k b. w.1 k (a.inheriting_passed_on k b)))

pub narrowed-Within :
    (rights : ℕ) (stat : FdStat) (base inheriting : ℕ)
    → Within rights stat
    → Within rights (narrowed stat base inheriting)
narrowed-Within rights stat base inheriting w = (
  (λ k b. w.0 k (and-Subset_left stat.rights_base base k b)),
  (λ k b. w.1 k (and-Subset_left stat.rights_inheriting inheriting k b)),
)

-- All the checks of `PathOpen` include that of the limit.
pub room_of_passes :
    (parent : FdStat) (path : Bytes) (open_flags base inheriting : ℕ) (full : Bool)
    → open_errno parent path open_flags base inheriting full ≡ esuccess
    → full ≡ false
unfolding open_errno
room_of_passes parent path open_flags base inheriting full e = ground arith
