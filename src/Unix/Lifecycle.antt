-- ===== src/Unix/Lifecycle.antt =====
-- systems/unix/system.go: `Close` and `Shutdown`.
use wasi_go.Base.{if◌then◌else◌, Option, none, some, List, ℤ, inl, inr, Run, ok, ◌>>=◌}
use wasi_go.Errno.Syscall.{GoError}
use wasi_go.File.{Host}
use wasi_go.FileTable.{System}
use wasi_go.FileTable.Directories
use wasi_go.Unix.{Kernel, UnixSystem, init}

-- The flag that says that the system is shut, and the ends of the pipe.
pub record ShutKernel (World : Type 0) : Type 0 where
  pub store_shut : World → World
  pub close_end : ℤ → World → Option GoError × World

module _ {File Dir World : Type 0} (h : Host File Dir World) (k : Kernel File World)
    (x : ShutKernel World) where
  unfoldable pub close_ends : Option (ℤ × ℤ) → World → World
  close_ends none w = w
  close_ends (some (r, e)) w = (x.close_end e (x.close_end r w).1).1

  -- `Close`, with the order of the iteration over the open directories.
  unfoldable pub close_system :
      (List (ℤ × Dir) → List (ℤ × Dir))
      → UnixSystem File Dir World
      → Run (UnixSystem File Dir World)
  unfolding close_ends Directories.close
  close_system order s =
      let w = close_ends s.wake (x.store_shut s.world) in
      let t : System File Dir World = record { open_files = s.files; world = w } in
      Directories.close h order t >>= λ t'.
      ok (record { files = t'.open_files; wake = none; world = t'.world })

  -- `Shutdown` behind `init`: a system that is shut already is no error.
  unfoldable pub shutdown_begun :
      Option (ℤ × ℤ)
      → Option GoError
      → UnixSystem File Dir World
      → Option GoError × UnixSystem File Dir World
  shutdown_begun ends (some err) s = (if err.is_canceled then none else some err, s)
  shutdown_begun none none s = (none, s)
  shutdown_begun (some (r, e)) none s =
      let c = x.close_end e (x.store_shut s.world) in (c.0, record s { world = c.1 })

  unfoldable pub shutdown_system :
      UnixSystem File Dir World → Option GoError × UnixSystem File Dir World
  unfolding init shutdown_begun
  shutdown_system s =
      let begun = init k s in
      elim begun.0 [
        | inr err ↦ shutdown_begun begun.1.wake (some err) begun.1
        | inl read_end ↦ shutdown_begun begun.1.wake none begun.1
      ]
