-- ===== src/Unix/Addresses.antt =====
-- socket.go: addresses of sockets; systems/unix/system.go: `toUnixSockAddress` and
-- `makeSocketAddress`, which convert them from and to those of the host.
use wasi_go.Base.{ℕ, Option, none, some, List, [], ◌∷◌, ℤ}
use wasi_go.File.{Bytes}
use wasi_go.Unix.Sockets.{inet_family, inet6_family, unix_family}

-- `SocketAddress`: `Inet4Address`, `Inet6Address` and `UnixAddress`, or any other, with its family.
pub data SocketAddress : Type 0 where
  inet4_address : ℤ → List ℕ → SocketAddress
  inet6_address : ℤ → List ℕ → SocketAddress
  unix_address : Bytes → SocketAddress
  other_address : ℕ → SocketAddress

-- `unix.Sockaddr` of the package x/sys.
pub data Sockaddr : Type 0 where
  sockaddr_inet4 : ℤ → List ℕ → Sockaddr
  sockaddr_inet6 : ℤ → List ℕ → Sockaddr
  sockaddr_unix : Bytes → Sockaddr
  other_sockaddr : Sockaddr

abbrev pub unspecified_family : ℕ
unspecified_family = 0

-- The methods `Family`.
unfoldable pub family : SocketAddress → ℕ
family (inet4_address port addr) = inet_family
family (inet6_address port addr) = inet6_family
family (unix_address name) = unix_family
family (other_address pf) = pf

-- The three addresses of the system that this method writes are only used by the call that follows.
unfoldable pub to_unix_sock_address : SocketAddress → Option Sockaddr
to_unix_sock_address (inet4_address port addr) = some (sockaddr_inet4 port addr)
to_unix_sock_address (inet6_address port addr) = some (sockaddr_inet6 port addr)
to_unix_sock_address (unix_address name) = some (sockaddr_unix name)
to_unix_sock_address (other_address pf) = none

-- The name "@" for an empty one.
abbrev pub socket_name : Bytes → Bytes
socket_name [] = b'@' ∷ []
socket_name (c ∷ name) = c ∷ name

unfoldable pub make_socket_address : Sockaddr → Option SocketAddress
make_socket_address (sockaddr_inet4 port addr) = some (inet4_address port addr)
make_socket_address (sockaddr_inet6 port addr) = some (inet6_address port addr)
make_socket_address (sockaddr_unix name) = some (unix_address (socket_name name))
make_socket_address other_sockaddr = none
