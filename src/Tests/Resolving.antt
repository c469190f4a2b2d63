-- ===== src/Tests/Resolving.antt =====
-- systems/unix/system.go: runs of `SockAddressInfo`.
use wasi_go.Base.{ℕ, ◌≡◌, refl, subst, inl, inr, none, some, List, [], ◌∷◌, replicate, pos}
use wasi_go.Errno.{esuccess, einval}
use wasi_go.File.{Bytes}
use wasi_go.Rights.{has}
use wasi_go.Unix.Addresses.{inet4_address, inet6_address}
use wasi_go.Unix.Sockets.{inet_family, inet6_family, stream_socket}
use wasi_go.Unix.Resolving.{AddressInfo, Resolver, numeric_service, sock_address_info}
use wasi_go.Unix.Resolutions.{IsIp, Each, ReturnsIps, Ends, sock_address_info-Ends}
use wasi_go.Tests.Demo.{Log}

abbrev ten : Bytes
ten = 10 ∷ 0 ∷ 0 ∷ 1 ∷ []

abbrev loopback : Bytes
loopback = 0 ∷ 0 ∷ 0 ∷ 0 ∷ 0 ∷ 0 ∷ 0 ∷ 0 ∷ 0 ∷ 0 ∷ 0 ∷ 0 ∷ 0 ∷ 0 ∷ 0 ∷ 1 ∷ []

-- Each name has an address of sixteen bytes and one of four, and each service the port 80.
abbrev resolver : Resolver Log
resolver = record {
  atoi = λ s. some (pos 70000);
  parse_ip = λ s. none;
  lookup_port = λ n s w. (some (pos 80), w);
  lookup_ip = λ n s w. (some (loopback ∷ ten ∷ []), w);
}

abbrev hints : ℕ → AddressInfo
hints flags = record {
  flags = flags;
  family = 0;
  socket_type = stream_socket;
  protocol = 0;
  address = none;
  canonical_name = [];
}

resolver-ReturnsIps : ReturnsIps resolver (b'a' ∷ []) (b'h' ∷ []) (hints 0) 4
resolver-ReturnsIps = record {
  parses = λ addr e. cc;
  looks_up = λ network w addrs e.
      subst (Each IsIp) (some_inj (loopback ∷ ten ∷ []) addrs e) (inr refl, (inl refl, tt));
}
  where
    some_inj : (a b : List Bytes) → some a ≡ some b → a ≡ b
    some_inj a b e = cc

sock_address_info-Ends_example :
    Ends resolver
      (b'a' ∷ [])
      (b'h' ∷ [])
      (hints 0)
      4
      []
      (sock_address_info resolver (b'a' ∷ []) (b'h' ∷ []) (hints 0) 4 [])
sock_address_info-Ends_example =
    sock_address_info-Ends resolver (b'a' ∷ []) (b'h' ∷ []) (hints 0) 4 [] resolver-ReturnsIps

-- The address of four bytes comes first.
resolved : sock_address_info resolver (b'a' ∷ []) (b'h' ∷ []) (hints 0) 4 [] ≡ (
  (
    record (hints 0) { family = inet_family; address = some (inet4_address (pos 80) ten) }
        ∷ record (hints 0) {
          family = inet6_family;
          address = some (inet6_address (pos 80) loopback);
        }
        ∷ [],
    esuccess,
  ),
  [],
)
unfolding sock_address_info has replicate
resolved = refl

-- A port that is too large.
no_port :
    sock_address_info resolver (b'a' ∷ []) (b'h' ∷ []) (hints numeric_service) 4 []
    ≡ (([], einval), [])
unfolding sock_address_info has
no_port = refl
