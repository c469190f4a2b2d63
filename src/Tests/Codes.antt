-- ===== src/Tests/Codes.antt =====
-- Runs of the conversions and names of the error codes.
use wasi_go.Base.{◌≡◌, refl, ok, arith}
use wasi_go.Errno.{enoent, enotcapable}
use wasi_go.Errno.Host
use wasi_go.Errno.Syscall.{errno_to_syscall, syscall_errno_to_wasi}
use wasi_go.Errno.Roundtrip.{
  to_host_and_back, survives, to_host_and_back_lem, syscall_errno_to_wasi-inverse,
}

to_host_and_back_lem_example : to_host_and_back enotcapable ≡ ok (survives enotcapable)
to_host_and_back_lem_example = to_host_and_back_lem enotcapable (omega arith)

noent_of_host : syscall_errno_to_wasi Host.enoent ≡ ok enoent
unfolding syscall_errno_to_wasi
noent_of_host = refl

syscall_errno_to_wasi-inverse_example : errno_to_syscall enoent ≡ ok Host.enoent
syscall_errno_to_wasi-inverse_example =
    syscall_errno_to_wasi-inverse Host.enoent enoent noent_of_host
