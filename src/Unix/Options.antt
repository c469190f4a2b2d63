-- ===== src/Unix/Options.antt =====
-- systems/unix/system.go: `SockGetOpt` and `SockSetOpt` on Linux; socket.go: the options of sockets.
use wasi_go.Base.{
  ℕ, zero, suc, ◌+◌, ◌*◌, ◌/◌, ◌%◌, ◌^◌, ◌==◌, ◌||◌, if◌then◌else◌, Bool, Option, none, some, List,
  [], ◌∷◌, ℤ, pos, negsuc, to_uint, Run, ok, ◌>>=◌, ◌⊎◌, inl, inr,
}
use wasi_go.Errno.{esuccess, einval, enotsup}
use wasi_go.Errno.Syscall.{make_errno, switch}
use wasi_go.File.{Bytes}
use wasi_go.FileTable.{FileEntry}
use wasi_go.Unix.Calls.{sys_error}
use wasi_go.Unix.Sockets.{datagram_socket, stream_socket}
use wasi_go.Unix.SocketKernel.{SocketKernel, Method, with_socket, attempt, conclude}

-- `SocketOptionLevel`
abbrev pub socket_level : ℕ
socket_level = 0

abbrev pub tcp_level : ℕ
tcp_level = 6

-- `SocketOption`, a 64-bit word; its method `Level`.
abbrev pub level : ℕ → ℕ
level option = option / 2 ^ 32 % 2 ^ 32

-- `MakeSocketOption`, for an option that is not negative.
abbrev pub make_socket_option : ℕ → ℕ → ℕ
make_socket_option lvl option = lvl * 2 ^ 32 + option

abbrev pub reuse_address : ℕ
reuse_address = 0

abbrev pub query_socket_type : ℕ
query_socket_type = 1

abbrev pub query_socket_error : ℕ
query_socket_error = 2

abbrev pub dont_route : ℕ
dont_route = 3

abbrev pub broadcast : ℕ
broadcast = 4

abbrev pub send_buffer_size : ℕ
send_buffer_size = 5

abbrev pub recv_buffer_size : ℕ
recv_buffer_size = 6

abbrev pub keep_alive : ℕ
keep_alive = 7

abbrev pub oob_inline : ℕ
oob_inline = 8

abbrev pub linger : ℕ
linger = 9

abbrev pub recv_low_watermark : ℕ
recv_low_watermark = 10

abbrev pub recv_timeout : ℕ
recv_timeout = 11

abbrev pub send_timeout : ℕ
send_timeout = 12

abbrev pub query_accept_connections : ℕ
query_accept_connections = 13

abbrev pub bind_to_device : ℕ
bind_to_device = 14

abbrev pub tcp_no_delay : ℕ
tcp_no_delay = make_socket_option tcp_level 15

-- `SocketOptionValue`; a time is in nanoseconds.
pub data OptionValue : Type 0 where
  int_value : ℤ → OptionValue
  time_value : ℕ → OptionValue
  bytes_value : Bytes → OptionValue

-- SOL_SOCKET or IPPROTO_TCP.
unfoldable pub sys_level : ℕ → Option ℕ
sys_level option =
    if level option == socket_level
    then some 1
    else if level option == tcp_level
    then some 6
    else none

-- The numbers of the host.
abbrev pub sys_options : List (ℕ × ℕ)
sys_options =
    (reuse_address, 2)
    ∷ (query_socket_type, 3)
    ∷ (query_socket_error, 4)
    ∷ (dont_route, 5)
    ∷ (broadcast, 6)
    ∷ (send_buffer_size, 7)
    ∷ (recv_buffer_size, 8)
    ∷ (keep_alive, 9)
    ∷ (oob_inline, 10)
    ∷ (recv_low_watermark, 18)
    ∷ (query_accept_connections, 30)
    ∷ (tcp_no_delay, 1)
    ∷ (recv_timeout, 20)
    ∷ (send_timeout, 21)
    ∷ []

-- The error of an option that has no number here.
abbrev pub no_option : ℕ → ℕ
no_option option = if option == linger || option == bind_to_device then enotsup else einval

-- The level and the number of an option, or an error number: the beginning of both methods.
unfoldable pub sys_option : ℕ → (ℕ × ℕ) ⊎ ℕ
unfolding sys_level switch
sys_option option = elim (sys_level option) [
  | none ↦ inr einval
  | some lvl ↦ elim (switch sys_options option) [
    | none ↦ inr (no_option option)
    | some number ↦ inl (lvl, number)
  ]
]

abbrev pub is_time : ℕ → Bool
is_time option = option == recv_timeout || option == send_timeout

abbrev pub is_buffer_size : ℕ → Bool
is_buffer_size option = option == recv_buffer_size || option == send_buffer_size

abbrev pub neg : ℕ → ℤ
neg zero = pos 0
neg (suc n) = negsuc n

-- `value / 2`
abbrev pub half : ℤ → ℤ
half (pos n) = pos (n / 2)
half (negsuc n) = neg ((n + 1) / 2)

abbrev pub OptionReply : Type 0
OptionReply = Option OptionValue × ℕ

abbrev pub int_reply : ℤ → ℕ → OptionReply
int_reply value errno = (some (int_value value), errno)

-- SOCK_DGRAM and SOCK_STREAM.
unfoldable pub type_reply : ℤ → OptionReply
type_reply (pos n) =
    if n == 2
    then int_reply (pos datagram_socket) esuccess
    else if n == 1
    then int_reply (pos stream_socket) esuccess
    else int_reply (negsuc 0) enotsup
type_reply (negsuc n) = int_reply (negsuc 0) enotsup

-- The end of `SockGetOpt`.
unfoldable pub int_option : ℕ → ℤ → Run OptionReply
unfolding type_reply
int_option option value =
    let of_error =
      make_errno (some (sys_error (to_uint value))) >>= λ e. ok (int_reply (pos e) esuccess) in
    if option == query_socket_type
    then ok (type_reply value)
    else if option == query_socket_error
    then of_error
    else if is_buffer_size option
    then ok (int_reply (half value) esuccess)
    else ok (int_reply value esuccess)

-- What `SockSetOpt` sets: a number or a time, or nothing if the value is of another type or a negative
-- size of a buffer.
unfoldable pub setting : ℕ → OptionValue → Option (ℤ ⊎ ℕ)
setting option (time_value t) = if is_time option then some (inr t) else none
setting option (int_value (pos n)) = if is_time option then none else some (inl (pos n))
setting option (int_value (negsuc n)) =
    if is_time option then none else if is_buffer_size option then none else some (inl (negsuc n))
setting option (bytes_value b) = none

module _ {File Dir World : Type 0} (k : SocketKernel File World) (rounds : ℕ) where
  -- `SockGetOpt` on the socket that it has found.
  unfoldable pub get_opt_on : ℕ → FileEntry File → Method File Dir World OptionReply
  unfolding attempt sys_option int_option
  get_opt_on option f s = elim (sys_option option) [
    | inr errno ↦ ok ((none, errno), s)
    | inl o ↦
        if is_time option
        then attempt rounds (k.getsockopt_time f.file o.0 o.1) (λ e. (none, e))
            (λ t s'. ok ((some (time_value t), esuccess), s')) s
        else attempt rounds (k.getsockopt_int f.file o.0 o.1) (λ e. (none, e))
            (λ value s'. int_option option value >>= λ reply. ok (reply, s')) s
  ]

  -- `SockSetOpt` on the socket that it has found.
  unfoldable pub set_opt_on : ℕ → OptionValue → FileEntry File → Method File Dir World ℕ
  unfolding conclude sys_option setting
  set_opt_on option value f s = elim (sys_option option) [
    | inr errno ↦ ok (errno, s)
    | inl o ↦ elim (setting option value) [
      | none ↦ ok (einval, s)
      | some (inl n) ↦ conclude rounds (k.setsockopt_int f.file o.0 o.1 n) (λ e. e) s
      | some (inr t) ↦ conclude rounds (k.setsockopt_time f.file o.0 o.1 t) (λ e. e) s
    ]
  ]

  unfoldable pub sock_set_opt : ℤ → ℕ → OptionValue → Method File Dir World ℕ
  unfolding with_socket set_opt_on
  sock_set_opt fd option value = with_socket fd 0 (λ e. e) (set_opt_on option value)

  unfoldable pub sock_get_opt : ℤ → ℕ → Method File Dir World OptionReply
  unfolding with_socket get_opt_on
  sock_get_opt fd option = with_socket fd 0 (λ e. (none, e)) (get_opt_on option)
