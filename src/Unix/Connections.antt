-- ===== src/Unix/Connections.antt =====
-- systems/unix/system.go: the methods that connect sockets; syscall_linux.go: `accept` and
-- `getsocketdomain`.
use wasi_go.Base.{
  ℕ, bit_or, ◌==◌, Bool, false, if◌then◌else◌, Option, none, some, ℤ, pos, negsuc, ok, unfinished,
  ◌>>=◌,
}
use wasi_go.Errno.{esuccess, einval, enotsup, enotconn, eafnosupport}
use wasi_go.Errno.Host
use wasi_go.Errno.Syscall.{GoError, make_errno}
use wasi_go.FileTable.{FileEntry}
use wasi_go.Rights.{has, sock_accept_right, sock_shutdown_right}
use wasi_go.Unix.Addresses.{
  SocketAddress, family, to_unix_sock_address, make_socket_address, unspecified_family,
}
use wasi_go.Unix.Calls.{Called, returned, broken, eintr, ignore_eintr, sys_error, is_errno}
use wasi_go.Unix.Sockets.{inet_family, inet6_family, unix_family}
use wasi_go.Unix.SocketKernel.{SocketKernel, Method, with_socket, attempt, conclude}

-- `SDFlags`
abbrev pub shutdown_rd : ℕ
shutdown_rd = 1

abbrev pub shutdown_wr : ℕ
shutdown_wr = 2

-- The numbers of the host.
abbrev pub sol_socket : ℕ
sol_socket = 1

abbrev pub so_acceptconn : ℕ
so_acceptconn = 30

abbrev pub so_domain : ℕ
so_domain = 39

-- What a method replies with an address: the address, if any, and an error number.
abbrev pub AddressReply : Type 0
AddressReply = Option SocketAddress × ℕ

abbrev pub no_address : ℕ → AddressReply
no_address errno = (none, errno)

abbrev pub or_enotsup : Option SocketAddress → AddressReply
or_enotsup none = (none, enotsup)
or_enotsup (some addr) = (some addr, esuccess)

-- SHUT_RDWR, SHUT_RD or SHUT_WR.
unfoldable pub sys_how : ℕ → Option ℕ
unfolding has
sys_how flags =
    if has flags (bit_or shutdown_rd shutdown_wr)
    then some 2
    else if has flags shutdown_rd
    then some 0
    else if has flags shutdown_wr
    then some 1
    else none

-- The family of a domain of the host.
unfoldable pub domain_family : ℤ → ℕ
domain_family (pos domain) =
    if domain == 2
    then inet_family
    else if domain == 10
    then inet6_family
    else if domain == 1
    then unix_family
    else unspecified_family
domain_family (negsuc domain) = unspecified_family

-- The errors of connect(2) that differ between hosts.
unfoldable pub connect_error : GoError → GoError
connect_error err =
    if is_errno err.sys_errno Host.einval
    then sys_error Host.eafnosupport
    else if is_errno err.sys_errno Host.enotsup
    then sys_error Host.eisconn
    else err

abbrev pub is_zero : ℤ → Bool
is_zero (pos n) = n == 0
is_zero (negsuc n) = false

module _ {File Dir World : Type 0} (k : SocketKernel File World) (rounds : ℕ) where
  -- `SockLocalAddress` on the socket that it has found.
  unfoldable pub local_address_on : FileEntry File → Method File Dir World AddressReply
  unfolding attempt
  local_address_on f =
      attempt rounds (k.getsockname f.file) no_address
        λ sa s. ok (or_enotsup (make_socket_address sa), s)

  unfoldable pub sock_local_address : ℤ → Method File Dir World AddressReply
  unfolding with_socket local_address_on
  sock_local_address fd = with_socket fd 0 no_address local_address_on

  -- `SockRemoteAddress` on the socket that it has found.
  unfoldable pub remote_address_on : FileEntry File → Method File Dir World AddressReply
  unfolding attempt
  remote_address_on f =
      attempt rounds (k.getpeername f.file) no_address
        λ sa s. ok (or_enotsup (make_socket_address sa), s)

  unfoldable pub sock_remote_address : ℤ → Method File Dir World AddressReply
  unfolding with_socket remote_address_on
  sock_remote_address fd = with_socket fd 0 no_address remote_address_on

  -- `SockShutdown` on the socket that it has found.
  unfoldable pub shutdown_on : ℕ → FileEntry File → Method File Dir World ℕ
  unfolding attempt conclude sys_how
  shutdown_on flags f s = elim (sys_how flags) [
    | none ↦ ok (einval, s)
    | some how ↦
        attempt rounds (k.getsockopt_int f.file sol_socket so_acceptconn) (λ e. e)
          (λ v s'.
            if is_zero v
            then conclude rounds (k.shutdown f.file how) (λ e. e) s'
            else ok (enotconn, s'))
          s
  ]

  unfoldable pub sock_shutdown : ℤ → ℕ → Method File Dir World ℕ
  unfolding with_socket shutdown_on
  sock_shutdown fd flags = with_socket fd sock_shutdown_right (λ e. e) (shutdown_on flags)

  -- `SockListen` on the socket that it has found.
  unfoldable pub listen_on : ℤ → FileEntry File → Method File Dir World ℕ
  unfolding conclude
  listen_on backlog f = conclude rounds (k.listen f.file backlog) (λ e. e)

  unfoldable pub sock_listen : ℤ → ℤ → Method File Dir World ℕ
  unfolding with_socket listen_on
  sock_listen fd backlog = with_socket fd sock_accept_right (λ e. e) (listen_on backlog)

  -- `SockBind` on the socket that it has found.
  unfoldable pub bind_on : ℤ → SocketAddress → FileEntry File → Method File Dir World AddressReply
  unfolding attempt sock_local_address to_unix_sock_address
  bind_on fd addr f s = elim (to_unix_sock_address addr) [
    | none ↦ ok (no_address einval, s)
    | some sa ↦ attempt rounds (k.bind f.file sa) no_address (λ _ s'. sock_local_address fd s') s
  ]

  unfoldable pub sock_bind : ℤ → SocketAddress → Method File Dir World AddressReply
  unfolding with_socket bind_on
  sock_bind fd addr = with_socket fd sock_accept_right no_address (bind_on fd addr)

  -- What follows connect(2), with the error that is not returned at once.
  unfoldable pub connected : ℤ → Option GoError → Method File Dir World AddressReply
  unfolding sock_local_address
  connected fd err s = sock_local_address fd s >>= λ r.
      if r.0.1 == esuccess
      then (make_errno err >>= λ errno. ok ((r.0.0, errno), r.1))
      else ok (no_address r.0.1, r.1)

  unfoldable pub finish_connect : ℤ → Called (Unit {0}) → Method File Dir World AddressReply
  unfolding connected connect_error
  finish_connect fd (returned _) s = connected fd none s
  finish_connect fd (broken err) s =
      if is_errno err.sys_errno Host.einprogress
      then connected fd (some err) s
      else (make_errno (some (connect_error err)) >>= λ errno. ok (no_address errno, s))
  finish_connect fd eintr s = unfinished

  -- `SockConnect` on the socket that it has found.
  unfoldable pub connect_on :
      ℤ → SocketAddress → FileEntry File → Method File Dir World AddressReply
  unfolding attempt finish_connect to_unix_sock_address domain_family family
  connect_on fd peer f s = elim (to_unix_sock_address peer) [
    | none ↦ ok (no_address einval, s)
    | some sa ↦
        attempt rounds (k.getsockopt_int f.file sol_socket so_domain) no_address
          (λ domain s'.
            if domain_family domain == family peer
            then (ignore_eintr rounds (k.connect f.file sa) s'.world >>= λ r.
                finish_connect fd r.0 (record s' { world = r.1 }))
            else ok (no_address eafnosupport, s'))
          s
  ]

  unfoldable pub sock_connect : ℤ → SocketAddress → Method File Dir World AddressReply
  unfolding with_socket connect_on
  sock_connect fd peer = with_socket fd 0 no_address (connect_on fd peer)
