-- ===== src/Unix/Accept.antt =====
-- systems/unix/system.go: `SockAccept`, and `accept` of syscall_linux.go.
-- `getsocketdomain`.
use wasi_go.Base.{
  ℕ, bit_or, bit_and, ◌==◌, ltb, leb, ◌&&◌, if◌then◌else◌, Option, none, some, ℤ, pos, negsuc, ok,
  ◌>>=◌,
}
use wasi_go.Bits.{and_not}
use wasi_go.Errno.{esuccess, einval, enfile, enotsup}
use wasi_go.File.{Host, non_block, socket_stream_type}
use wasi_go.FileTable.{FileEntry, register, num_open_files}
use wasi_go.Rights.{sock_accept_right}
use wasi_go.Unix.Addresses.{SocketAddress, Sockaddr, make_socket_address}
use wasi_go.Unix.Calls.{Called, returned, broken, eintr, errno_of, close_trace_ebadf}
use wasi_go.Unix.SocketKernel.{SocketKernel, Method, with_socket}
use wasi_go.Unix.Connections.{sock_local_address}

-- The numbers of the host.
abbrev pub o_nonblock : ℕ
o_nonblock = 0x800

abbrev pub o_cloexec : ℕ
o_cloexec = 0x80000

-- What `SockAccept` replies: a descriptor, the addresses of the peer and of the socket, and an error
-- number.
pub record AcceptReply : Type 0 where
  pub fd : ℤ
  pub peer : Option SocketAddress
  pub addr : Option SocketAddress
  pub errno : ℕ

abbrev pub accept_failed : ℕ → AcceptReply
accept_failed e = record { fd = negsuc 0; peer = none; addr = none; errno = e }

module _ {File World : Type 0} (k : SocketKernel File World) where
  -- `accept` of syscall_linux.go.
  unfoldable pub accept : File → ℕ → World → Called (File × Sockaddr) × World
  accept socket flags = k.accept4 socket (bit_or flags o_cloexec)

module _ {File Dir World : Type 0} (k : SocketKernel File World) (rounds : ℕ) where
  module _ (h : Host File Dir World) where
    -- `SockAccept` behind accept(2), for the new file, with the inheriting rights of the socket.
    unfoldable pub accepted :
        ℕ → ℕ → Option SocketAddress → File × Sockaddr → Method File Dir World AcceptReply
    unfolding num_open_files register close_trace_ebadf
    accepted flags rights addr conn s =
        if ltb 0 s.files.max_open_files && leb s.files.max_open_files (num_open_files s.files)
        then ok (accept_failed enfile, record s { world = (k.close conn.0 s.world).1 })
        else elim (make_socket_address conn.1) [
          | none ↦ ok (
            accept_failed enotsup,
            record s { world = (close_trace_ebadf (k.close conn.0) (k.number conn.0) s.world).1 },
          )
          | some peer ↦
              (register h conn.0
                  (record {
                    file_type = socket_stream_type;
                    flags = flags;
                    rights_base = rights;
                    rights_inheriting = rights;
                  })
                  s.files
                >>= λ r. ok (
                  record { fd = pos r.0; peer = some peer; addr = addr; errno = esuccess },
                  record s { files = r.1 },
                ))
        ]

    -- `SockAccept` from accept(2) on.
    unfoldable pub finish_accept :
        ℕ → ℕ → Option SocketAddress → Called (File × Sockaddr) → Method File Dir World AcceptReply
    unfolding accepted errno_of
    finish_accept flags rights addr (returned conn) s = accepted flags rights addr conn s
    finish_accept flags rights addr (broken err) s =
        errno_of {A = File × Sockaddr} (broken err) >>= λ errno. ok (accept_failed errno, s)
    finish_accept flags rights addr eintr s =
        errno_of {A = File × Sockaddr} eintr >>= λ errno. ok (accept_failed errno, s)

    -- `SockAccept` on the socket that it has found.
    unfoldable pub accept_on : ℤ → ℕ → FileEntry File → Method File Dir World AcceptReply
    unfolding sock_local_address finish_accept accept
    accept_on fd flags f s =
        if and_not 16 flags non_block == 0
        then (sock_local_address k rounds fd s >>= λ r.
            if r.0.1 == esuccess
            then (let nonblock = if bit_and flags non_block == 0 then 0 else o_nonblock in
                let c = accept k f.file nonblock r.1.world in
                finish_accept flags f.stat.rights_inheriting r.0.0 c.0 (record r.1 { world = c.1 }))
            else ok (accept_failed r.0.1, r.1))
        else ok (accept_failed einval, s)

    unfoldable pub sock_accept : ℤ → ℕ → Method File Dir World AcceptReply
    unfolding with_socket accept_on
    sock_accept fd flags = with_socket fd sock_accept_right accept_failed (accept_on fd flags)
