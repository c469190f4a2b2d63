-- ===== src/Unix/Resolving.antt =====
-- systems/unix/system.go: `SockAddressInfo`, with the types of socket.go for it.
use wasi_go.Base.{
  ℕ, ◌-◌, ◌^◌, leb, ◌==◌, if◌then◌else◌, Bool, true, false, not, ◌&&◌, Option, none, some, List, [],
  ◌∷◌, ◌++◌, length, take, drop, replicate, ℤ, pos, negsuc,
}
use wasi_go.Errno.{esuccess, einval, enotsup, ecanceled}
use wasi_go.File.{Bytes}
use wasi_go.Rights.{has}
use wasi_go.Unix.Addresses.{SocketAddress, inet4_address, inet6_address, unspecified_family}
use wasi_go.Unix.Sockets.{
  inet_family, inet6_family, tcp_protocol, udp_protocol, any_socket, datagram_socket, stream_socket,
}

pub record AddressInfo : Type 0 where
  pub flags : ℕ
  pub family : ℕ
  pub socket_type : ℕ
  pub protocol : ℕ
  pub address : Option SocketAddress
  pub canonical_name : Bytes

-- `AddressInfoFlags`
abbrev pub passive : ℕ
passive = 2 ^ 0

abbrev pub numeric_host : ℕ
numeric_host = 2 ^ 2

abbrev pub numeric_service : ℕ
numeric_service = 2 ^ 3

-- The names of networks that are used.
pub data Network : Type 0 where
  tcp : Network
  tcp4 : Network
  tcp6 : Network
  udp : Network
  udp4 : Network
  udp6 : Network
  ip : Network
  ip4 : Network
  ip6 : Network

-- What Go's packages strconv and net are asked for; an address is a slice of bytes.
pub record Resolver (World : Type 0) : Type 0 where
  pub atoi : Bytes → Option ℤ
  pub parse_ip : Bytes → Option Bytes
  pub lookup_port : Network → Bytes → World → Option ℤ × World
  pub lookup_ip : Network → Bytes → World → Option (List Bytes) × World

abbrev pub by_family : ℕ → Network → Network → Network → Option Network
by_family f any v4 v6 =
    if f == unspecified_family
    then some any
    else if f == inet_family
    then some v4
    else if f == inet6_family
    then some v6
    else none

-- The network of a type, a protocol and a family.
unfoldable pub network_of : ℕ → ℕ → ℕ → Option Network
network_of t p f =
    if t == stream_socket && not (p == udp_protocol)
    then by_family f tcp tcp4 tcp6
    else if t == datagram_socket && not (p == tcp_protocol)
    then by_family f udp udp4 udp6
    else if t == any_socket
    then by_family f ip ip4 ip6
    else none

-- The network for `LookupIP`.
unfoldable pub ip_network : Network → Network
ip_network tcp = ip
ip_network udp = ip
ip_network tcp4 = ip4
ip_network udp4 = ip4
ip_network tcp6 = ip6
ip_network udp6 = ip6
ip_network ip = ip
ip_network ip4 = ip4
ip_network ip6 = ip6

unfoldable pub valid_port : Option ℤ → Option ℕ
valid_port none = none
valid_port (some (negsuc n)) = none
valid_port (some (pos n)) = if leb n 65535 then some n else none

-- `net.IPv4`, in 16 bytes.
abbrev pub ipv4 : Bytes → Bytes
ipv4 bytes = replicate 10 0 ++ 255 ∷ 255 ∷ bytes

abbrev pub is_zeros : Bytes → Bool
is_zeros [] = true
is_zeros (b ∷ bs) = b == 0 && is_zeros bs

abbrev pub is_mapped : Bytes → Bool
is_mapped (a ∷ b ∷ bs) = a == 255 && b == 255
is_mapped (a ∷ []) = false
is_mapped [] = false

-- `To4` of an address.
unfoldable pub to4 : Bytes → Option Bytes
to4 addr =
    if length addr == 4
    then some addr
    else if length addr == 16 && is_zeros (take 10 addr) && is_mapped (drop 10 addr)
    then some (drop 12 addr)
    else none

-- `copy` into an array of `n` bytes 0.
abbrev pub copied : ℕ → Bytes → Bytes
copied n addr = take n (addr ++ replicate n 0)

-- The address that needs no lookup, if any.
pub data FixedIp : Type 0 where
  invalid : FixedIp
  unknown : FixedIp
  fixed : Bytes → FixedIp

abbrev pub parsed : Option Bytes → FixedIp
parsed none = invalid
parsed (some addr) = fixed addr

abbrev pub default_ip : AddressInfo → Bytes
default_ip hints =
    if has hints.flags passive
    then (if hints.family == inet6_family then replicate 16 0 else ipv4 (0 ∷ 0 ∷ 0 ∷ 0 ∷ []))
    else if hints.family == inet6_family
    then replicate 15 0 ++ 1 ∷ []
    else ipv4 (127 ∷ 0 ∷ 0 ∷ 1 ∷ [])

unfoldable pub make_address_info : AddressInfo → ℕ → Bytes → AddressInfo
make_address_info hints port addr = elim (to4 addr) [
  | some v4 ↦ record {
    flags = hints.flags;
    family = inet_family;
    socket_type = hints.socket_type;
    protocol = hints.protocol;
    address = some (inet4_address (pos port) (copied 4 v4));
    canonical_name = [];
  }
  | none ↦ record {
    flags = hints.flags;
    family = inet6_family;
    socket_type = hints.socket_type;
    protocol = hints.protocol;
    address = some (inet6_address (pos port) (copied 16 addr));
    canonical_name = [];
  }
]

-- The addresses of each kind, in their order.
unfoldable pub sorted : AddressInfo → ℕ → List Bytes → List AddressInfo × List AddressInfo
unfolding make_address_info to4
sorted hints port [] = ([], [])
sorted hints port (addr ∷ addrs) =
    let info = make_address_info hints port addr in
    let rest = sorted hints port addrs in
    elim (to4 addr) [ some v4 ↦ (info ∷ rest.0, rest.1) | none ↦ (rest.0, info ∷ rest.1) ]

-- The two copies into `room` results.
unfoldable pub copy_results : ℕ → List AddressInfo × List AddressInfo → List AddressInfo
copy_results room addrs =
    let first = take room addrs.0 in first ++ take (room - length first) addrs.1

module _ {World : Type 0} (k : Resolver World) where
  unfoldable pub find_port : AddressInfo → Network → Bytes → World → Option ℕ × World
  unfolding has valid_port
  find_port hints network service w =
      if has hints.flags numeric_service
      then (valid_port (k.atoi service), w)
      else (let r = k.lookup_port network service w in (valid_port r.0, r.1))

  unfoldable pub fixed_ip : AddressInfo → Bytes → FixedIp
  unfolding has
  fixed_ip hints name =
      if has hints.flags numeric_host
      then parsed (k.parse_ip name)
      else if length name == 0
      then fixed (default_ip hints)
      else unknown

  -- `SockAddressInfo` from the address on.
  unfoldable pub answer :
      AddressInfo → Network → Bytes → ℕ → ℕ → World → (List AddressInfo × ℕ) × World
  unfolding fixed_ip make_address_info sorted copy_results ip_network
  answer hints network name room port w = elim (fixed_ip hints name) [
    | invalid ↦ (([], einval), w)
    | fixed addr ↦ ((make_address_info hints port addr ∷ [], esuccess), w)
    | unknown ↦
        let r = k.lookup_ip (ip_network network) name w in
        elim r.0 [
          | none ↦ (([], ecanceled), r.1)
          | some addrs ↦ ((copy_results room (sorted hints port addrs), esuccess), r.1)
        ]
  ]

  -- `SockAddressInfo` with room for `room` results: those that it writes, and an error number.
  unfoldable pub sock_address_info :
      Bytes → Bytes → AddressInfo → ℕ → World → (List AddressInfo × ℕ) × World
  unfolding network_of find_port answer
  sock_address_info name service hints room w =
      if room == 0
      then (([], einval), w)
      else elim (network_of hints.socket_type hints.protocol hints.family) [
        | none ↦ (([], enotsup), w)
        | some network ↦
            let r = find_port hints network service w in
            elim r.0 [
              | none ↦ (([], einval), r.1)
              | some port ↦ answer hints network name room port r.1
            ]
      ]
