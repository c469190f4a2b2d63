-- ===== src/Unix/Messages.antt =====
-- systems/unix/system.go: the methods that receive and send.
use wasi_go.Base.{
  ℕ, zero, suc, bit_and, bit_or, ◌==◌, if◌then◌else◌, Bool, false, Option, none, some, List, ℤ, Run,
  ok, unfinished, ◌>>=◌,
}
use wasi_go.Errno.{einval, eisconn}
use wasi_go.Errno.Host
use wasi_go.FileTable.{FileEntry}
use wasi_go.Rights.{has, fd_read_right, fd_write_right}
use wasi_go.Unix.Addresses.{SocketAddress, Sockaddr, to_unix_sock_address, make_socket_address}
use wasi_go.Unix.Calls.{Called, returned, broken, eintr, ignore_eintr2, is_errno, errno_of, to_u32}
use wasi_go.Unix.SocketKernel.{SocketKernel, Method, with_socket, transfer}

-- `RIFlags`
abbrev pub recv_peek : ℕ
recv_peek = 1

abbrev pub recv_wait_all : ℕ
recv_wait_all = 2

-- `ROFlags`
abbrev pub recv_data_truncated : ℕ
recv_data_truncated = 1

-- The numbers of the host.
abbrev pub msg_peek : ℕ
msg_peek = 2

abbrev pub msg_trunc : ℕ
msg_trunc = 0x20

abbrev pub msg_waitall : ℕ
msg_waitall = 0x100

unfoldable pub sys_iflags : ℕ → ℕ
unfolding has
sys_iflags flags =
    let peek = if has flags recv_peek then msg_peek else 0 in
    if has flags recv_wait_all then bit_or peek msg_waitall else peek

abbrev pub roflags : ℕ → ℕ
roflags sys_oflags = if bit_and sys_oflags msg_trunc == 0 then 0 else recv_data_truncated

abbrev pub Received : Type 0
Received = (ℤ × ℕ × Option Sockaddr) × Called (Unit {0})

-- The loop of `SockRecv` and `SockRecvFrom`.
unfoldable pub recv_loop :
    {World : Type 0} → ℕ → (World → Received × World) → World → Run (Received × World)
recv_loop zero call w = unfinished
recv_loop (suc rounds) call w =
    let again = recv_loop rounds call (call w).1 in
    elim (call w).0.1 [ returned _ ↦ ok (call w) | broken err ↦ ok (call w) | eintr ↦ again ]

-- A reply of `SockRecvFrom`: a size, flags, the address of the sender and an error number.
pub record RecvReply : Type 0 where
  pub size : ℕ
  pub flags : ℕ
  pub addr : Option SocketAddress
  pub errno : ℕ

abbrev pub recv_failed : ℕ → RecvReply
recv_failed e = record { size = 0; flags = 0; addr = none; errno = e }

-- An address that is not known is nil; the ENOTSUP that is assigned for it is not returned.
abbrev pub sender : Option Sockaddr → Option SocketAddress
sender none = none
sender (some sa) = make_socket_address sa

-- `errors.Is(err, unix.ENOTCONN)`
abbrev pub is_not_connected : Called Sockaddr → Bool
is_not_connected (returned sa) = false
is_not_connected (broken err) = is_errno err.sys_errno Host.enotconn
is_not_connected eintr = false

module _ {File Dir World : Type 0} (k : SocketKernel File World) (rounds : ℕ) where
  -- `SockRecv` on the socket that it has found.
  unfoldable pub recv_on : List ℕ → ℕ → FileEntry File → Method File Dir World (ℕ × ℕ × ℕ)
  unfolding recv_loop sys_iflags errno_of
  recv_on iovecs flags f s =
      recv_loop rounds (k.recvmsg f.file iovecs (sys_iflags flags)) s.world >>= λ r.
      errno_of r.0.1 >>= λ errno.
      ok ((to_u32 r.0.0.0, roflags r.0.0.1, errno), record s { world = r.1 })

  -- `SockRecvFrom` on the socket that it has found.
  unfoldable pub recv_from_on : List ℕ → ℕ → FileEntry File → Method File Dir World RecvReply
  unfolding recv_loop sys_iflags errno_of
  recv_from_on iovecs flags f s =
      recv_loop rounds (k.recvmsg f.file iovecs (sys_iflags flags)) s.world >>= λ r.
      errno_of r.0.1 >>= λ errno. ok (
        record {
          size = to_u32 r.0.0.0;
          flags = roflags r.0.0.1;
          addr = sender r.0.0.2;
          errno = errno;
        },
        record s { world = r.1 },
      )

  unfoldable pub sock_recv_from : ℤ → List ℕ → ℕ → Method File Dir World RecvReply
  unfolding with_socket recv_from_on
  sock_recv_from fd iovecs flags =
      with_socket fd fd_read_right recv_failed (recv_from_on iovecs flags)

  -- `SockSend` on the socket that it has found.
  unfoldable pub send_on : List ℕ → ℕ → FileEntry File → Method File Dir World (ℕ × ℕ)
  unfolding transfer
  send_on iovecs flags f = transfer rounds (k.sendmsg f.file iovecs none 0)

  unfoldable pub sock_send : ℤ → List ℕ → ℕ → Method File Dir World (ℕ × ℕ)
  unfolding with_socket send_on
  sock_send fd iovecs flags = with_socket fd fd_write_right (λ e. (0, e)) (send_on iovecs flags)

  -- `SockSendTo` on the socket that it has found.
  unfoldable pub send_to_on :
      List ℕ → ℕ → SocketAddress → FileEntry File → Method File Dir World (ℕ × ℕ)
  unfolding transfer ignore_eintr2 to_unix_sock_address
  send_to_on iovecs flags addr f s = ignore_eintr2 rounds (k.getpeername f.file) s.world >>= λ r.
      let s' = record s { world = r.1 } in
      if is_not_connected r.0
      then elim (to_unix_sock_address addr) [
        | none ↦ ok ((0, einval), s')
        | some sa ↦ transfer rounds (k.sendmsg f.file iovecs (some sa) 0) s'
      ]
      else ok ((0, eisconn), s')

  unfoldable pub sock_send_to : ℤ → List ℕ → ℕ → SocketAddress → Method File Dir World (ℕ × ℕ)
  unfolding with_socket send_to_on
  sock_send_to fd iovecs flags addr =
      with_socket fd fd_write_right (λ e. (0, e)) (send_to_on iovecs flags addr)

  unfoldable pub sock_recv : ℤ → List ℕ → ℕ → Method File Dir World (ℕ × ℕ × ℕ)
  unfolding with_socket recv_on
  sock_recv fd iovecs flags = with_socket fd fd_read_right (λ e. (0, 0, e)) (recv_on iovecs flags)
