-- ===== src/Unix/ShuttingDown.antt =====
-- systems/unix/system.go: what a system that was closed still does.
use wasi_go.Base.{
  ℕ, ◌==◌, ltb, ◌≤◌, true, false, ◌||◌, ◌≡◌, ◌≢◌, refl, ◌∙◌, ap, none, some, inr, Option, List, [],
  ◌∷◌, length, ℤ, ok, arith,
}
use wasi_go.Errno.{ecanceled}
use wasi_go.Errno.Syscall.{make_errno}
use wasi_go.Descriptor.Ranges.{bindings}
use wasi_go.File.{Host}
use wasi_go.FileTable.{FileEntry, System}
use wasi_go.FileTable.Lookups.{IsValid, entry}
use wasi_go.FileTable.Directories.{close_dirs}
use wasi_go.FileTable.Ending.{close_files, close-Ends}
use wasi_go.Subscription.{Subscription}
use wasi_go.Unix.{Kernel, UnixSystem, canceled, init}
use wasi_go.Unix.Poll.{poll_one_off}
use wasi_go.Unix.Lifecycle.{ShutKernel, close_ends, close_system, shutdown_begun, shutdown_system}

module _ {File Dir World : Type 0} (h : Host File Dir World) (k : Kernel File World)
    (x : ShutKernel World) where
  -- The flag is set by a store, and nothing that is closed clears it.
  pub record StaysShut : Type 0 where
    pub stored : (w : World) → k.is_shut (x.store_shut w) ≡ true
    pub ends : (fd : ℤ) (w : World) → k.is_shut w ≡ true → k.is_shut (x.close_end fd w).1 ≡ true
    pub files : (f : File) (w : World) → k.is_shut w ≡ true → k.is_shut (h.close f w).1 ≡ true
    pub dirs : (d : Dir) (w : World) → k.is_shut w ≡ true → k.is_shut (h.close_dir d w).1 ≡ true

  module _ (stays : StaysShut) where
    close_ends-shut :
        (ends : Option (ℤ × ℤ)) (w : World)
        → k.is_shut w ≡ true
        → k.is_shut (close_ends h k x ends w) ≡ true
    unfolding close_ends
    close_ends-shut none w e = e
    close_ends-shut (some (r, s)) w e = stays.ends s _ (stays.ends r w e)

    close_files-shut :
        (xs : List (ℕ × FileEntry File)) (w : World)
        → k.is_shut w ≡ true
        → k.is_shut (close_files h xs w) ≡ true
    close_files-shut [] w e = e
    close_files-shut ((fd, f) ∷ rest) w e = close_files-shut rest _ (stays.files f.file w e)

    close_dirs-shut :
        (ds : List (ℤ × Dir)) (w : World)
        → k.is_shut w ≡ true
        → k.is_shut (close_dirs h ds w) ≡ true
    unfolding close_dirs
    close_dirs-shut [] w e = e
    close_dirs-shut ((fd, d) ∷ rest) w e = close_dirs-shut rest _ (stays.dirs d w e)

  -- A system that is shut and has no pipe.
  module _ (s : UnixSystem File Dir World) (shut : k.is_shut s.world ≡ true)
      (no_pipe : s.wake ≡ none) where
    init-shut : init k s ≡ (inr canceled, s)
    unfolding init
    init-shut = rw (no_pipe, shut) refl

    poll_one_off-shut :
        (rounds size : ℕ) (subs : List Subscription)
        → length subs ≢ 0
        → length subs ≤ size
        → poll_one_off h k rounds subs size s ≡ ok (([], ecanceled), s)
    unfolding poll_one_off make_errno
    poll_one_off-shut rounds size subs some_subs fits =
        let valid : (length subs == 0 || ltb size (length subs)) ≡ false = ground arith in
        rw (poll_one_off, valid, init-shut) (ap (λ r. ok (([], ecanceled), r.1)) init-shut)

    shutdown_system-shut : shutdown_system h k x s ≡ (none, s)
    unfolding shutdown_system shutdown_begun
    shutdown_system-shut =
        rw (shutdown_system, init-shut)
          (ap (λ r. shutdown_begun h k x r.1.wake (some canceled) r.1) init-shut)

  -- What `Close` leaves: no file is open, a poll is cancelled, and `Shutdown` does nothing.
  pub record Closes (s' : UnixSystem File Dir World) : Type 0 where
    pub valid : IsValid s'.files
    pub no_files : (fd : ℤ) → entry s'.files fd ≡ none
    pub no_pipe : s'.wake ≡ none
    pub cancels :
        (rounds size : ℕ) (subs : List Subscription)
        → length subs ≢ 0
        → length subs ≤ size
        → poll_one_off h k rounds subs size s' ≡ ok (([], ecanceled), s')
    pub stays_shut : shutdown_system h k x s' ≡ (none, s')

  -- If the flag that says that the system is shut keeps what is stored in it while files are
  -- closed, Close of a system with a valid table returns, and leaves a system with a valid table,
  -- no open file and no pipe, on which PollOneOff of some subscriptions, with a buffer for their
  -- events, returns ECANCELED at once, and Shutdown changes nothing and returns no error.
  pub close_system-Closes :
      StaysShut
      → (order : List (ℤ × Dir) → List (ℤ × Dir)) (s : UnixSystem File Dir World) → IsValid s.files
      → (s' : UnixSystem File Dir World) × (close_system h k x order s ≡ ok s') × Closes s'
  unfolding close_system
  close_system-Closes stays order s v =
      let w = close_ends h k x s.wake (x.store_shut s.world) in
      let t : System File Dir World = record { open_files = s.files; world = w } in
      let (t', run, e) = close-Ends h order t v in
      let s' : UnixSystem File Dir World = record {
        files = t'.open_files;
        wake = none;
        world = t'.world;
      } in
      let shut : k.is_shut t'.world ≡ true =
        ap k.is_shut e.closed
        ∙ close_dirs-shut stays (order s.files.dirs) _ (
            close_files-shut stays (bindings s.files.files 0 (length s.files.files.table)) w
              (close_ends-shut stays s.wake _ (stays.stored s.world))) in
      (
        s',
        rw run refl,
        record {
          valid = e.valid;
          no_files = e.no_files;
          no_pipe = refl;
          cancels = poll_one_off-shut s' shut refl;
          stays_shut = shutdown_system-shut s' shut refl;
        },
      )
