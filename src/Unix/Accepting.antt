-- ===== src/Unix/Accepting.antt =====
-- systems/unix/system.go: what `SockAccept` does to the file table, and to a connection that it cannot
-- register.
use wasi_go.Base.{
  ℕ, ◌==◌, ◌≡◌, true, false, if◌then◌else◌, bit_or, Option, none, some, ℤ, pos, ◌⊎◌, Run, ok,
  unfinished, bit_and,
}
use wasi_go.Errno.{esuccess, enfile, enotsup}
use wasi_go.File.{Host, FdStat, non_block, socket_stream_type}
use wasi_go.FileTable.{FileEntry}
use wasi_go.FileTable.Lookups.{entry, is_socket}
use wasi_go.FileTable.Opening.{Registers, at_limit}
use wasi_go.Rights.{has, sock_accept_right}
use wasi_go.Unix.{UnixSystem}
use wasi_go.Unix.Addresses.{SocketAddress, Sockaddr, make_socket_address}
use wasi_go.Unix.Calls.{returned, close_trace_ebadf}
use wasi_go.Unix.Scanning.{Panics}
use wasi_go.Unix.SocketKernel.{SocketKernel}
use wasi_go.Unix.Connections.{sock_local_address}
use wasi_go.Unix.Accept.{AcceptReply, accept_failed, o_nonblock, o_cloexec}
use wasi_go.Unix.SocketKeeps.{SameTables}

module _ {File Dir World : Type 0} (k : SocketKernel File World) (rounds : ℕ)
    (h : Host File Dir World) where
  module _ (fd : ℤ) (flags : ℕ) (s : UnixSystem File Dir World) where
    -- The state of the file under a new connection: a stream socket with the inheriting rights of
    -- the listening socket.
    abbrev pub connection_stat : FileEntry File → FdStat
    connection_stat f = record {
      file_type = socket_stream_type;
      flags = flags;
      rights_base = f.stat.rights_inheriting;
      rights_inheriting = f.stat.rights_inheriting;
    }

    -- No connection is registered, and the tables are as they were.
    pub record Refuses (r : AcceptReply × UnixSystem File Dir World) : Type 0 where
      pub errno : ℕ
      pub reply : r.0 ≡ accept_failed errno
      pub tables : SameTables s r.1

    -- accept(2) has returned a connection to the socket, which is open and may accept, after its
    -- local address was known.
    pub record Arrives : Type 0 where
      pub listener : FileEntry File
      pub is_open : entry s.files fd ≡ some listener
      pub listens : is_socket listener ≡ true
      pub may : has listener.stat.rights_base sock_accept_right ≡ true
      pub addr : Option SocketAddress
      pub before : UnixSystem File Dir World
      pub local : sock_local_address k rounds fd s ≡ ok ((addr, esuccess), before)
      pub conn : File × Sockaddr
      pub w : World
      pub arrives :
          k.accept4 listener.file
            (bit_or (if bit_and flags non_block == 0 then 0 else o_nonblock) o_cloexec)
            before.world
          ≡ (returned conn, w)

    -- A connection that accept(2) has returned is closed: the table is full, or its address is not
    -- known.
    pub record Drops (r : AcceptReply × UnixSystem File Dir World) : Type 0 where
      pub arrival : Arrives
      pub tables : SameTables s r.1
      pub closes :
          ((at_limit s.files ≡ true)
            × (r.0 ≡ accept_failed enfile)
            × (r.1.world ≡ (k.close arrival.conn.0 arrival.w).1))
          ⊎ ((at_limit s.files ≡ false)
              × (make_socket_address arrival.conn.1 ≡ none)
              × (r.0 ≡ accept_failed enotsup)
              × (r.1.world
                  ≡ (close_trace_ebadf
                      (k.close arrival.conn.0)
                      (k.number arrival.conn.0)
                      arrival.w).1))

    -- A connection is registered, for which there was room.
    pub record Accepts (r : AcceptReply × UnixSystem File Dir World) : Type 0 where
      pub arrival : Arrives
      pub room : at_limit s.files ≡ false
      pub peer : SocketAddress
      pub known : make_socket_address arrival.conn.1 ≡ some peer
      pub new_fd : ℕ
      pub reply :
          r.0 ≡ record { fd = pos new_fd; peer = some peer; addr = arrival.addr; errno = esuccess }
      pub registers :
          Registers s.files arrival.conn.0 (connection_stat arrival.listener) new_fd r.1.files
      pub nothing_else : (r.1.world ≡ arrival.w) × (r.1.wake ≡ s.wake)

    abbrev pub AcceptEnds : Run (AcceptReply × UnixSystem File Dir World) → Type 0
    AcceptEnds m =
        (m ≡ unfinished)
        ⊎ (Panics m
            ⊎ ((r : AcceptReply × UnixSystem File Dir World) × (m ≡ ok r)
                × (Refuses r ⊎ (Drops r ⊎ Accepts r))))
