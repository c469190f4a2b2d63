-- ===== src/FileTable/Outside.antt =====
-- wasi.go: the test of `PathOpen` on a path, by where the path leads.
use wasi_go.Base.{◌||◌, ◌≡◌}
use wasi_go.File.{Bytes}
use wasi_go.FilePath.{has_prefix, slash, elements}
use wasi_go.FilePath.Walk.{walk}
use wasi_go.FilePath.Joined.{climbs, clean-begins}
use wasi_go.FileTable.Paths.{is_outside}

-- PathOpen takes a path for one outside the directory exactly if it begins with a slash, or if a
-- walk along its elements ends above the directory and not at the parent of the directory itself.
pub is_outside-climbs :
    (path : Bytes)
    → is_outside path ≡ (has_prefix path slash || climbs (walk (0, 0) (elements path)))
unfolding is_outside
is_outside-climbs path = clean-begins path
