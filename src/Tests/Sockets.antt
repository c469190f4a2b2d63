-- ===== src/Tests/Sockets.antt =====
-- Runs of the methods on sockets over a kernel that takes and makes all connections, and a file table with
-- a listening socket under 0.
use wasi_go.Base.{
  ℕ, ◌<◌, ◌≡◌, ◌↔◌, refl, none, some, [], ◌∷◌, ℤ, pos, negsuc, get_elem?, replicate, ok, arith,
}
use wasi_go.Bits
use wasi_go.Descriptor
use wasi_go.Descriptor.{Table}
use wasi_go.Descriptor.View
use wasi_go.Errno.{esuccess, enotcapable}
use wasi_go.File.{socket_stream_type}
use wasi_go.FileTable.{FileEntry, FileTable, lookup_socket_fd}
use wasi_go.FileTable.Lookups.{IsValid, entry}
use wasi_go.Rights.{has, sock_accept_right, fd_read_right}
use wasi_go.Unix.{UnixSystem}
use wasi_go.Unix.Messages
use wasi_go.Unix.Addresses.{sockaddr_inet4, sockaddr_unix}
use wasi_go.Unix.Calls.{Called, returned, eintr, handle_eintr}
use wasi_go.Unix.Calls.Laws.{Transfers, handle_eintr-iff_Transfers}
use wasi_go.Unix.SocketKernel.{SocketKernel}
use wasi_go.Unix.Options.{int_value, recv_buffer_size, sock_get_opt, sock_set_opt}
use wasi_go.Unix.BufferSizes.{buffer_size-roundtrip}
use wasi_go.Unix.SocketCalls.{send, perform_socket, socket_needs}
use wasi_go.Unix.SocketKeeps.{refusal}
use wasi_go.Unix.SocketAnswers.{Answers, perform_socket-Answers}
use wasi_go.Tests.Demo.{Log, no_file_entry, preopens, preopens-IsValid, one_word}

-- A call that is interrupted as long as its log is empty; a buffer reports twice the size that was set.
abbrev socket_kernel : SocketKernel ℕ Log
socket_kernel = record {
  number = λ f. pos f;
  accept4 = λ f flags w. (returned (60, sockaddr_inet4 (pos 80) (127 ∷ 0 ∷ 0 ∷ 1 ∷ [])), w);
  close = λ f w. (returned tt, f ∷ w);
  recvmsg = λ f iovecs flags w. (((pos 3, 0, none), returned tt), w);
  sendmsg = λ f iovecs sa flags w. ((pos 3, returned tt), w);
  shutdown = λ f how w. (returned tt, w);
  getsockopt_int = λ f level option w. (returned (pos 2048), w);
  getsockopt_time = λ f level option w. (returned 0, w);
  setsockopt_int = λ f level option n w. (returned tt, w);
  setsockopt_time = λ f level option t w. (returned tt, w);
  bind = λ f sa w. (returned tt, w);
  connect = λ f sa w. (returned tt, w);
  listen = λ f backlog w. (returned tt, w);
  getsockname = λ f w. (returned (sockaddr_unix []), w);
  getpeername = λ f w. (returned (sockaddr_unix []), w);
}

abbrev listener : FileEntry ℕ
listener = record {
  file = 20;
  stat = record {
    file_type = socket_stream_type;
    flags = 0;
    rights_base = sock_accept_right;
    rights_inheriting = fd_read_right;
  };
}

abbrev socket_files : Table (FileEntry ℕ)
socket_files = record { masks = 1 ∷ []; table = listener ∷ replicate 63 no_file_entry }

abbrev socket_table : FileTable ℕ ℕ
socket_table = record {
  max_open_files = 8;
  max_open_dirs = 1;
  files = socket_files;
  preopens = preopens;
  dirs = [];
}

abbrev socket_system : UnixSystem ℕ ℕ Log
socket_system = record { files = socket_table; wake = none; world = [] }

socket_files-IsValid : View.IsValid socket_files
unfolding replicate
socket_files-IsValid = record { sized = refl; words = λ i m e. one_word 1 i m (omega arith) e }

socket_table-IsValid : IsValid socket_table
socket_table-IsValid = record { files = socket_files-IsValid; preopens = preopens-IsValid }

listener_entry : entry socket_table (pos 0) ≡ some listener
unfolding View.find get_elem? Bits.bit
listener_entry = refl

-- The size 1024 of a buffer.
buffer_size-roundtrip_example :
    (sock_set_opt socket_kernel 1 (pos 0) recv_buffer_size (int_value (pos 1024)) socket_system
      ≡ ok (esuccess, socket_system))
    × (sock_get_opt socket_kernel 1 (pos 0) recv_buffer_size socket_system
        ≡ ok ((some (int_value (pos 1024)), esuccess), socket_system))
buffer_size-roundtrip_example =
    buffer_size-roundtrip socket_kernel 0 (pos 0) recv_buffer_size 1024 socket_system listener [] []
      socket_table-IsValid listener_entry refl refl refl refl

perform_socket-Answers_example :
    Answers
      (send (3 ∷ []) 0)
      socket_system
      (perform_socket socket_kernel 1 (pos 0) (send (3 ∷ []) 0) socket_system)
      (refusal (entry socket_table (pos 0)) (socket_needs (send (3 ∷ []) 0)))
perform_socket-Answers_example =
    perform_socket-Answers socket_kernel 1 (pos 0) (send (3 ∷ []) 0) socket_system
      socket_table-IsValid

-- The listening socket cannot send.
send_denied :
    perform_socket socket_kernel 1 (pos 0) (send (3 ∷ []) 0) socket_system
    ≡ ok ((0, enotcapable), socket_system)
unfolding perform_socket lookup_socket_fd Messages.sock_send Descriptor.access get_elem? Bits.bit
    has replicate
send_denied = refl

-- A call that is interrupted twice, the second time after two bytes.
abbrev interrupted : Log → (ℤ × Called (Unit {0})) × Log
interrupted [] = ((negsuc 0, eintr), 1 ∷ [])
interrupted (x ∷ w) = ((pos 2, eintr), w)

handle_eintr-iff_Transfers_example :
    (handle_eintr 5 interrupted [] ≡ ok ((pos 2, returned tt), []))
    ↔ ((n : ℕ) × (n < 5) × Transfers interrupted ((pos 2, returned tt), []) [] n)
handle_eintr-iff_Transfers_example =
    handle_eintr-iff_Transfers interrupted 5 [] ((pos 2, returned tt), [])
