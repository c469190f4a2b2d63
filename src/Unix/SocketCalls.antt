-- ===== src/Unix/SocketCalls.antt =====
-- systems/unix/system.go: the calls on one socket that register no file, as data.
use wasi_go.Base.{ℕ, ◌≡◌, refl, none, List, ℤ}
use wasi_go.FileTable.{FileEntry}
use wasi_go.Rights.{fd_read_right, fd_write_right, sock_accept_right, sock_shutdown_right}
use wasi_go.Unix.{UnixSystem}
use wasi_go.Unix.Addresses.{SocketAddress}
use wasi_go.Unix.SocketKernel.{SocketKernel, Method, with_socket}
use wasi_go.Unix.Connections.{
  AddressReply, no_address, sock_local_address, sock_remote_address, sock_shutdown, sock_listen,
  sock_bind, sock_connect, local_address_on, remote_address_on, shutdown_on, listen_on, bind_on,
  connect_on,
}
use wasi_go.Unix.Messages.{
  RecvReply, recv_failed, sock_recv, sock_recv_from, sock_send, sock_send_to, recv_on, recv_from_on,
  send_on, send_to_on,
}
use wasi_go.Unix.Options.{
  OptionValue, OptionReply, sock_get_opt, sock_set_opt, get_opt_on, set_opt_on,
}

-- A call on one socket that registers no file.
pub data SocketCall : Type 0 where
  recv recv_from send : List ℕ → ℕ → SocketCall
  send_to : List ℕ → ℕ → SocketAddress → SocketCall
  shutdown : ℕ → SocketCall
  bind connect : SocketAddress → SocketCall
  listen : ℤ → SocketCall
  get_opt : ℕ → SocketCall
  set_opt : ℕ → OptionValue → SocketCall
  local_address remote_address : SocketCall

abbrev pub SocketReply : SocketCall → Type 0
SocketReply (recv iovecs flags) = ℕ × ℕ × ℕ
SocketReply (recv_from iovecs flags) = RecvReply
SocketReply (send iovecs flags) = ℕ × ℕ
SocketReply (send_to iovecs flags addr) = ℕ × ℕ
SocketReply (shutdown flags) = ℕ
SocketReply (bind addr) = AddressReply
SocketReply (connect peer) = AddressReply
SocketReply (listen backlog) = ℕ
SocketReply (get_opt option) = OptionReply
SocketReply (set_opt option value) = ℕ
SocketReply local_address = AddressReply
SocketReply remote_address = AddressReply

-- The rights that a call needs.
abbrev pub socket_needs : SocketCall → ℕ
socket_needs (recv iovecs flags) = fd_read_right
socket_needs (recv_from iovecs flags) = fd_read_right
socket_needs (send iovecs flags) = fd_write_right
socket_needs (send_to iovecs flags addr) = fd_write_right
socket_needs (shutdown flags) = sock_shutdown_right
socket_needs (bind addr) = sock_accept_right
socket_needs (connect peer) = 0
socket_needs (listen backlog) = sock_accept_right
socket_needs (get_opt option) = 0
socket_needs (set_opt option value) = 0
socket_needs local_address = 0
socket_needs remote_address = 0

-- The reply of a call that fails with an error number.
abbrev pub socket_failure : (c : SocketCall) → ℕ → SocketReply c
socket_failure (recv iovecs flags) e = (0, 0, e)
socket_failure (recv_from iovecs flags) e = recv_failed e
socket_failure (send iovecs flags) e = (0, e)
socket_failure (send_to iovecs flags addr) e = (0, e)
socket_failure (shutdown flags) e = e
socket_failure (bind addr) e = no_address e
socket_failure (connect peer) e = no_address e
socket_failure (listen backlog) e = e
socket_failure (get_opt option) e = (none, e)
socket_failure (set_opt option value) e = e
socket_failure local_address e = no_address e
socket_failure remote_address e = no_address e

module _ {File Dir World : Type 0} (k : SocketKernel File World) (rounds : ℕ) where
  unfoldable pub perform_socket : ℤ → (c : SocketCall) → Method File Dir World (SocketReply c)
  perform_socket fd (recv iovecs flags) = sock_recv k rounds fd iovecs flags
  perform_socket fd (recv_from iovecs flags) = sock_recv_from k rounds fd iovecs flags
  perform_socket fd (send iovecs flags) = sock_send k rounds fd iovecs flags
  perform_socket fd (send_to iovecs flags addr) = sock_send_to k rounds fd iovecs flags addr
  perform_socket fd (shutdown flags) = sock_shutdown k rounds fd flags
  perform_socket fd (bind addr) = sock_bind k rounds fd addr
  perform_socket fd (connect peer) = sock_connect k rounds fd peer
  perform_socket fd (listen backlog) = sock_listen k rounds fd backlog
  perform_socket fd (get_opt option) = sock_get_opt k rounds fd option
  perform_socket fd (set_opt option value) = sock_set_opt k rounds fd option value
  perform_socket fd local_address = sock_local_address k rounds fd
  perform_socket fd remote_address = sock_remote_address k rounds fd

  -- The call on the socket that it has found.
  abbrev pub socket_on :
      ℤ → (c : SocketCall) → FileEntry File → Method File Dir World (SocketReply c)
  socket_on fd (recv iovecs flags) = recv_on k rounds iovecs flags
  socket_on fd (recv_from iovecs flags) = recv_from_on k rounds iovecs flags
  socket_on fd (send iovecs flags) = send_on k rounds iovecs flags
  socket_on fd (send_to iovecs flags addr) = send_to_on k rounds iovecs flags addr
  socket_on fd (shutdown flags) = shutdown_on k rounds flags
  socket_on fd (bind addr) = bind_on k rounds fd addr
  socket_on fd (connect peer) = connect_on k rounds fd peer
  socket_on fd (listen backlog) = listen_on k rounds backlog
  socket_on fd (get_opt option) = get_opt_on k rounds option
  socket_on fd (set_opt option value) = set_opt_on k rounds option value
  socket_on fd local_address = local_address_on k rounds
  socket_on fd remote_address = remote_address_on k rounds

  pub perform_socket-with_socket :
      (fd : ℤ) (c : SocketCall) (s : UnixSystem File Dir World)
      → perform_socket fd c s
        ≡ with_socket fd (socket_needs c) (socket_failure c) (socket_on fd c) s
  unfolding perform_socket sock_recv sock_recv_from sock_send sock_send_to sock_shutdown sock_bind
      sock_connect sock_listen sock_get_opt sock_set_opt sock_local_address sock_remote_address
  perform_socket-with_socket fd (recv iovecs flags) s = refl
  perform_socket-with_socket fd (recv_from iovecs flags) s = refl
  perform_socket-with_socket fd (send iovecs flags) s = refl
  perform_socket-with_socket fd (send_to iovecs flags addr) s = refl
  perform_socket-with_socket fd (shutdown flags) s = refl
  perform_socket-with_socket fd (bind addr) s = refl
  perform_socket-with_socket fd (connect peer) s = refl
  perform_socket-with_socket fd (listen backlog) s = refl
  perform_socket-with_socket fd (get_opt option) s = refl
  perform_socket-with_socket fd (set_opt option value) s = refl
  perform_socket-with_socket fd local_address s = refl
  perform_socket-with_socket fd remote_address s = refl
