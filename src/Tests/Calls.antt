-- ===== src/Tests/Calls.antt =====
-- Runs of the calls that `FileTable` hands over, and of what a guest can reach.
use wasi_go.Base.{ℕ, get_elem?, ◌||◌, ◌≡◌, refl, [], ◌∷◌, length, pos, ok, false}
use wasi_go.Bits
use wasi_go.Descriptor.View
use wasi_go.File.{Bytes, seek_current}
use wasi_go.FilePath.{has_prefix, slash, elements}
use wasi_go.FilePath.Walk.{walk}
use wasi_go.FilePath.Joined.{climbs}
use wasi_go.Rights.{
  has, fd_read_right, path_link_source_right, path_link_target_right, path_rename_source_right,
  path_rename_target_right,
}
use wasi_go.FileTable.{FileEntry, Lookup, lookup_socket_fd}
use wasi_go.FileTable.Lookups.{entry}
use wasi_go.FileTable.SocketLookups.{SocketLooksUp, lookup_socket_fd-SocketLooksUp}
use wasi_go.FileTable.Paths.{path_link, path_rename, is_outside, sizes_get}
use wasi_go.FileTable.Descriptors.{fd_seek}
use wasi_go.FileTable.Guards.{
  sized, read, data_sync, needs, failure, method, perform, guarded, perform-guarded,
}
use wasi_go.FileTable.PairGuards.{guarded_pair, path_link_rename-guarded}
use wasi_go.FileTable.Seeking.{sought, fd_seek-sought}
use wasi_go.FileTable.Sizes.{terminated, sizes_get-terminated}
use wasi_go.FileTable.Outside.{is_outside-climbs}
use wasi_go.FileTable.Confinement.{Safe, Reach, start, next, calls}
use wasi_go.FileTable.Confinement.Steps.{Reach-Safe, Reach-refused, refusal}
use wasi_go.Tests.Demo.{host, table, system, rights, table-IsValid, table-Safe}

perform-guarded_example :
    perform host (pos 2) (read (8 ∷ [])) system
    ≡ ok (
        guarded
          (entry table (pos 2))
          fd_read_right
          (failure (read (8 ∷ [])))
          (method host (read (8 ∷ [])))
          system)
perform-guarded_example = perform-guarded host (pos 2) (read (8 ∷ [])) system table-IsValid

path_link_rename-guarded_example :
    (path_link host (pos 0) 0 (b'a' ∷ []) (pos 0) (b'b' ∷ []) system
      ≡ ok (
          guarded_pair host
            (entry table (pos 0))
            (entry table (pos 0))
            path_link_source_right
            path_link_target_right
            (λ d d'. host.link d 0 (b'a' ∷ []) d' (b'b' ∷ []))
            system))
    × (path_rename host (pos 0) (b'a' ∷ []) (pos 0) (b'b' ∷ []) system
        ≡ ok (
            guarded_pair host
              (entry table (pos 0))
              (entry table (pos 0))
              path_rename_source_right
              path_rename_target_right
              (λ d d'. host.rename d (b'a' ∷ []) d' (b'b' ∷ []))
              system))
path_link_rename-guarded_example =
    path_link_rename-guarded host (pos 0) (pos 0) 0 (b'a' ∷ []) (b'b' ∷ []) system table-IsValid

lookup_socket_fd-SocketLooksUp_example :
    (r : Lookup (FileEntry ℕ)) × (lookup_socket_fd table (pos 2) fd_read_right ≡ ok r)
    × SocketLooksUp table (pos 2) fd_read_right r
lookup_socket_fd-SocketLooksUp_example =
    lookup_socket_fd-SocketLooksUp table (pos 2) fd_read_right table-IsValid

fd_seek-sought_example :
    fd_seek host (pos 2) (pos 7) seek_current system
    ≡ ok (sought host (entry table (pos 2)) (pos 7) seek_current system)
fd_seek-sought_example = fd_seek-sought host (pos 2) (pos 7) seek_current system table-IsValid

-- "a/../.."
abbrev parent_path : Bytes
parent_path = b'a' ∷ b'/' ∷ b'.' ∷ b'.' ∷ b'/' ∷ b'.' ∷ b'.' ∷ []

is_outside-climbs_example :
    is_outside parent_path
    ≡ (has_prefix parent_path slash || climbs (walk (0, 0) (elements parent_path)))
is_outside-climbs_example = is_outside-climbs parent_path

-- The parent of the directory itself is let through.
parent_path_passes : is_outside parent_path ≡ false
unfolding is_outside
parent_path_passes = refl

sizes_get-terminated_example :
    sizes_get ((b'a' ∷ []) ∷ (b'b' ∷ b'c' ∷ []) ∷ [])
    ≡ (2, length (terminated ((b'a' ∷ []) ∷ (b'b' ∷ b'c' ∷ []) ∷ [])))
sizes_get-terminated_example = sizes_get-terminated ((b'a' ∷ []) ∷ (b'b' ∷ b'c' ∷ []) ∷ [])

-- One read under descriptor 2.
read_runs : perform host (pos 2) (read (8 ∷ [])) system ≡ ok (sized (3, 0), system)
unfolding View.find get_elem? Bits.bit has
read_runs = perform-guarded host (pos 2) (read (8 ∷ [])) system table-IsValid

one_read : Reach host system system
one_read = next start (calls (pos 2) (read (8 ∷ [])) (sized (3, 0)) read_runs)

no_sync : has rights (needs data_sync) ≡ false
unfolding has
no_sync = refl

Reach-Safe_example : Safe rights table
Reach-Safe_example = Reach-Safe host rights system system table-Safe one_read

Reach-refused_example :
    perform host (pos 2) data_sync system
    ≡ ok (failure data_sync (refusal host (entry table (pos 2))), system)
Reach-refused_example =
    Reach-refused host rights system system (pos 2) data_sync table-Safe one_read no_sync
