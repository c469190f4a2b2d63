-- ===== src/Unix/Sockets.antt =====
-- systems/unix/system.go and syscall_unix.go: `SockOpen`, and the calls that are made again when a
-- signal interrupts them; socket.go: families, protocols and types of sockets.
use wasi_go.Base.{
  ℕ, ◌==◌, leb, ltb, ◌&&◌, if◌then◌else◌, Option, none, some, ℤ, pos, negsuc, Run, ok, unfinished,
  ◌>>=◌,
}
use wasi_go.Errno.{esuccess, einval, enfile}
use wasi_go.Errno.Host
use wasi_go.Errno.Syscall.{GoError, make_errno}
use wasi_go.File.{Host, FdStat, socket_dgram_type, socket_stream_type}
use wasi_go.FileTable.{register, num_open_files}
use wasi_go.Unix.{UnixSystem}
use wasi_go.Unix.Calls.{Called, returned, broken, eintr, ignore_eintr2, sys_error, is_errno}

-- `ProtocolFamily`
abbrev pub inet_family : ℕ
inet_family = 1

abbrev pub inet6_family : ℕ
inet6_family = 2

abbrev pub unix_family : ℕ
unix_family = 3

-- `Protocol`
abbrev pub ip_protocol : ℕ
ip_protocol = 0

abbrev pub tcp_protocol : ℕ
tcp_protocol = 1

abbrev pub udp_protocol : ℕ
udp_protocol = 2

-- `SocketType`
abbrev pub any_socket : ℕ
any_socket = 0

abbrev pub datagram_socket : ℕ
datagram_socket = 1

abbrev pub stream_socket : ℕ
stream_socket = 2

-- The numbers of the host: AF_INET, AF_INET6 and AF_UNIX.
unfoldable pub sys_domain : ℕ → Option ℕ
sys_domain pf =
    if pf == inet_family
    then some 2
    else if pf == inet6_family
    then some 10
    else if pf == unix_family
    then some 1
    else none

-- A socket of any type is one of the type of its protocol.
unfoldable pub of_protocol : ℕ → ℕ → ℕ
of_protocol socket_type protocol =
    if socket_type == any_socket
    then (if protocol == tcp_protocol
        then stream_socket
        else if protocol == udp_protocol
        then datagram_socket
        else socket_type)
    else socket_type

-- SOCK_DGRAM or SOCK_STREAM, with the type of the file.
unfoldable pub sys_type : ℕ → Option (ℕ × ℕ)
sys_type socket_type =
    if socket_type == datagram_socket
    then some (2, socket_dgram_type)
    else if socket_type == stream_socket
    then some (1, socket_stream_type)
    else none

-- IPPROTO_IP, IPPROTO_TCP or IPPROTO_UDP.
unfoldable pub sys_protocol : ℕ → Option ℕ
sys_protocol protocol =
    if protocol == ip_protocol
    then some 0
    else if protocol == tcp_protocol
    then some 6
    else if protocol == udp_protocol
    then some 17
    else none

-- EPROTOTYPE is replaced by EPROTONOSUPPORT.
abbrev pub portable : GoError → GoError
portable err =
    if is_errno err.sys_errno Host.eprototype then sys_error Host.eprotonosupport else err

module _ {File Dir World : Type 0} (h : Host File Dir World)
    (socket : ℕ → ℕ → ℕ → World → Called File × World) where
  -- What follows `socket(2)`, with the type of the file and its rights.
  unfoldable pub opened_socket :
      FdStat
      → UnixSystem File Dir World
      → Called File
      → World
      → Run ((ℤ × ℕ) × UnixSystem File Dir World)
  unfolding register
  opened_socket stat s (returned file) w = register h file stat s.files >>= λ r.
      ok ((pos r.0, esuccess), record s { files = r.1; world = w })
  opened_socket stat s (broken err) w =
      make_errno (some (portable err)) >>= λ errno. ok ((negsuc 0, errno), record s { world = w })
  opened_socket stat s eintr w = unfinished

  -- `SockOpen`, with the rounds of its calls.
  unfoldable pub sock_open :
      ℕ → ℕ → ℕ → ℕ → ℕ → ℕ → UnixSystem File Dir World → Run ((ℤ × ℕ) × UnixSystem File Dir World)
  unfolding sys_domain of_protocol sys_type sys_protocol num_open_files ignore_eintr2 opened_socket
  sock_open rounds pf socket_type protocol rights_base rights_inheriting s = elim (sys_domain pf) [
    | none ↦ ok ((negsuc 0, einval), s)
    | some domain ↦ elim (sys_type (of_protocol socket_type protocol)) [
      | none ↦ ok ((negsuc 0, einval), s)
      | some type ↦ elim (sys_protocol protocol) [
        | none ↦ ok ((negsuc 0, einval), s)
        | some number ↦
            if ltb 0 s.files.max_open_files && leb s.files.max_open_files (num_open_files s.files)
            then ok ((negsuc 0, enfile), s)
            else (ignore_eintr2 rounds (socket domain type.0 number) s.world >>= λ r.
                opened_socket
                  (record {
                    file_type = type.1;
                    flags = 0;
                    rights_base = rights_base;
                    rights_inheriting = rights_inheriting;
                  })
                  s r.0 r.1)
      ]
    ]
  ]
