-- ===== src/Unix/Resolutions.antt =====
-- systems/unix/system.go: what `SockAddressInfo` answers.
use wasi_go.Base.{
  ℕ, zero, suc, ◌+◌, ◌-◌, ◌≤◌, ◌==◌, ==_iff, ne_of_beq, ◌&&◌, ◌≡◌, ◌≢◌, refl, sym, ◌∙◌, ap, ap₂,
  subst, ◌⊎◌, inl, inr, Bool-cases, Option-cases, Option, none, some, List, [], ◌∷◌, ◌++◌, map,
  length, take, drop, replicate, pos, negsuc, ℤ, arith,
}
use wasi_go.Errno.{esuccess, einval, enotsup, ecanceled}
use wasi_go.File.{Bytes}
use wasi_go.Rights.{has}
use wasi_go.Unix.Addresses.{inet4_address, inet6_address}
use wasi_go.Unix.Sockets.{inet_family, inet6_family}
use wasi_go.Unix.Resolving.{
  AddressInfo, Network, Resolver, passive, numeric_host, numeric_service, valid_port, is_zeros,
  is_mapped, to4, copied, invalid, unknown, fixed, FixedIp, parsed, default_ip, make_address_info,
  sorted, copy_results, find_port, fixed_ip, answer, network_of, ip_network, sock_address_info,
}

-- A `net.IP` of a version 4 or 6.
abbrev pub IsIp : Bytes → Type 0
IsIp addr = (length addr ≡ 4) ⊎ (length addr ≡ 16)

abbrev pub Each : {A : Type 0} → (A → Type 0) → List A → Type 0
Each P [] = Unit
Each P (x ∷ xs) = P x × Each P xs

-- The addresses that `To4` makes four bytes of, and the others.
abbrev pub v4s : List Bytes → List Bytes
v4s [] = []
v4s (addr ∷ addrs) = elim (to4 addr) [ some v4 ↦ v4 ∷ v4s addrs | none ↦ v4s addrs ]

abbrev pub v6s : List Bytes → List Bytes
v6s [] = []
v6s (addr ∷ addrs) = elim (to4 addr) [ some v4 ↦ v6s addrs | none ↦ addr ∷ v6s addrs ]

module _ (hints : AddressInfo) (port : ℕ) where
  -- The answer to the hints for an address of four bytes, and for one of sixteen.
  abbrev pub answer4 : Bytes → AddressInfo
  answer4 v4 = record {
    flags = hints.flags;
    family = inet_family;
    socket_type = hints.socket_type;
    protocol = hints.protocol;
    address = some (inet4_address (pos port) v4);
    canonical_name = [];
  }

  abbrev pub answer6 : Bytes → AddressInfo
  answer6 addr = record {
    flags = hints.flags;
    family = inet6_family;
    socket_type = hints.socket_type;
    protocol = hints.protocol;
    address = some (inet6_address (pos port) addr);
    canonical_name = [];
  }

take-whole : (n : ℕ) (xs ys : Bytes) → length xs ≡ n → take n (xs ++ ys) ≡ xs
take-whole zero [] ys e = refl
take-whole zero (x ∷ xs) ys e = absurd (omega arith)
take-whole (suc n) [] ys e = absurd (omega arith)
take-whole (suc n) (x ∷ xs) ys e = ap (λ zs. x ∷ zs) (take-whole n xs ys (omega arith))

copied-whole : (n : ℕ) (xs : Bytes) → length xs ≡ n → copied n xs ≡ xs
copied-whole n xs e = take-whole n xs (replicate n 0) e

length-drop : (n m : ℕ) (xs : Bytes) → length xs ≡ n + m → length (drop n xs) ≡ m
length-drop zero m xs e = omega arith
length-drop (suc n) m [] e = absurd (omega arith)
length-drop (suc n) m (x ∷ xs) e = length-drop n m xs (omega arith)

some_inj : (a b : Bytes) → some a ≡ some b → a ≡ b
some_inj a b e = cc

length-to4 : (addr v4 : Bytes) → to4 addr ≡ some v4 → length v4 ≡ 4
unfolding to4
length-to4 addr v4 e = elim (Bool-cases (length addr == 4)) [
  | inl four ↦ ap length (some_inj v4 addr (sym (rw four at e))) ∙ (==_iff (length addr) 4).0 four
  | inr other ↦
      elim (Bool-cases (length addr == 16 && is_zeros (take 10 addr) && is_mapped (drop 10 addr))) [
        | inl mapped ↦
            ap length (some_inj v4 (drop 12 addr) (sym (rw (other, mapped) at e)))
            ∙ length-drop 12 4 addr ((==_iff (length addr) 16).0 (ground arith))
        | inr unmapped ↦ let n : none ≡ some v4 = rw (other, unmapped) at e in cc
      ]
]

length_of_to4-none : (addr : Bytes) → IsIp addr → to4 addr ≡ none → length addr ≡ 16
unfolding to4
length_of_to4-none addr (inr long) e = long
length_of_to4-none addr (inl short) e =
    let n : some addr ≡ none = rw ((==_iff (length addr) 4).1 short) at e in cc

make_address_info-answer6 :
    (hints : AddressInfo) (port : ℕ) (addr : Bytes)
    → IsIp addr
    → to4 addr ≡ none
    → make_address_info hints port addr ≡ answer6 hints port addr
unfolding make_address_info
make_address_info-answer6 hints port addr is_ip e =
    rw (make_address_info, e)
      (ap (answer6 hints port) (copied-whole 16 addr (length_of_to4-none addr is_ip e)))

make_address_info-answer4 :
    (hints : AddressInfo) (port : ℕ) (addr v4 : Bytes)
    → to4 addr ≡ some v4
    → make_address_info hints port addr ≡ answer4 hints port v4
unfolding make_address_info
make_address_info-answer4 hints port addr v4 e =
    rw (make_address_info, e) (ap (answer4 hints port) (copied-whole 4 v4 (length-to4 addr v4 e)))

-- Behind the addresses that are sorted, those of each kind with all their bytes, in their order.
sorted-answers :
    (hints : AddressInfo) (port : ℕ) (addrs : List Bytes)
    → Each IsIp addrs
    → (sorted hints port addrs).0 ≡ map (answer4 hints port) (v4s addrs)
      × (sorted hints port addrs).1 ≡ map (answer6 hints port) (v6s addrs)
unfolding sorted
sorted-answers hints port [] is_ip = (refl, refl)
sorted-answers hints port (addr ∷ addrs) (is_ip, are_ip) =
    let (four, six) = sorted-answers hints port addrs are_ip in
    elim (Option-cases (to4 addr)) [
      | inl e ↦
          rw (sorted, v4s, v6s, e)
            (four, ap₂ (λ x xs. x ∷ xs) (make_address_info-answer6 hints port addr is_ip e) six)
      | inr (v4, e) ↦
          rw (sorted, v4s, v6s, e)
            (ap₂ (λ x xs. x ∷ xs) (make_address_info-answer4 hints port addr v4 e) four, six)
    ]

-- The two copies are one copy of both lists.
take-append_rest :
    (n : ℕ) (xs ys : List AddressInfo)
    → take n xs ++ take (n - length (take n xs)) ys ≡ take n (xs ++ ys)
take-append_rest zero xs ys = refl
take-append_rest (suc n) [] ys = let e : suc n - 0 ≡ suc n = omega arith in ap (λ m. take m ys) e
take-append_rest (suc n) (x ∷ xs) ys =
    ap (λ zs. x ∷ zs) (ap (λ m. take n xs ++ take m ys) (omega arith) ∙ take-append_rest n xs ys)

default_ip-IsIp : (hints : AddressInfo) → IsIp (default_ip hints)
unfolding replicate
default_ip-IsIp hints = elim (Bool-cases (has hints.flags passive)) [
  | inl on ↦ elim (Bool-cases (hints.family == inet6_family)) [
    | inl six ↦ rw (on, six) (inr refl)
    | inr four ↦ rw (on, four) (inr refl)
  ]
  | inr off ↦ elim (Bool-cases (hints.family == inet6_family)) [
    | inl six ↦ rw (off, six) (inr refl)
    | inr four ↦ rw (off, four) (inr refl)
  ]
]

valid_port-le : (p : Option ℤ) (port : ℕ) → valid_port p ≡ some port → port ≤ 65535
unfolding valid_port
valid_port-le none port e = cc
valid_port-le (some (negsuc n)) port e = cc
valid_port-le (some (pos n)) port e = ground arith

module _ {World : Type 0} (k : Resolver World) (name service : Bytes) (hints : AddressInfo)
    (room : ℕ) where
  -- `net.ParseIP` and `net.LookupIP` return addresses of four or sixteen bytes.
  pub record ReturnsIps : Type 0 where
    pub parses : (addr : Bytes) → k.parse_ip name ≡ some addr → IsIp addr
    pub looks_up :
        (network : Network) (w : World) (addrs : List Bytes)
        → (k.lookup_ip network name w).0 ≡ some addrs
        → Each IsIp addrs

  module _ (w : World) where
    -- The errors, and their reasons.
    pub data Unresolved : ℕ → Type 0 where
      no_room : room ≡ 0 → Unresolved einval
      no_network :
          network_of hints.socket_type hints.protocol hints.family ≡ none → Unresolved enotsup
      no_port :
          (network : Network)
          → network_of hints.socket_type hints.protocol hints.family ≡ some network
          → (find_port k hints network service w).0 ≡ none
          → Unresolved einval
      no_address : fixed_ip k hints name ≡ invalid → Unresolved einval
      not_found :
          (network : Network)
          → network_of hints.socket_type hints.protocol hints.family ≡ some network
          → fixed_ip k hints name ≡ unknown
          → (k.lookup_ip (ip_network network) name (find_port k hints network service w).1).0 ≡ none
          → Unresolved ecanceled

    -- The addresses that the name has: the one that needs no lookup, or those of the lookup in the
    -- network of the hints, after that of the port.
    abbrev pub Found : Network → List Bytes → Type 0
    Found network addrs =
        ((addr : Bytes) × (fixed_ip k hints name ≡ fixed addr) × (addrs ≡ addr ∷ []))
        ⊎ ((fixed_ip k hints name ≡ unknown)
            × ((k.lookup_ip (ip_network network) name (find_port k hints network service w).1).0
                ≡ some addrs))

    -- The results are the first ones of the answers, those for four bytes before the others.
    pub record Resolved (infos : List AddressInfo) : Type 0 where
      pub network : Network
      pub is_network : network_of hints.socket_type hints.protocol hints.family ≡ some network
      pub port : ℕ
      pub is_port : (find_port k hints network service w).0 ≡ some port
      pub small : port ≤ 65535
      pub addrs : List Bytes
      pub found : Found network addrs
      pub results :
          infos
          ≡ take room (map (answer4 hints port) (v4s addrs) ++ map (answer6 hints port) (v6s addrs))

    abbrev pub Ends : (List AddressInfo × ℕ) × World → Type 0
    Ends r = ((r.0.0 ≡ []) × Unresolved r.0.1) ⊎ ((r.0.1 ≡ esuccess) × Resolved r.0.0)

    fixed_ip-IsIp : ReturnsIps → (addr : Bytes) → fixed_ip k hints name ≡ fixed addr → IsIp addr
    unfolding fixed_ip
    fixed_ip-IsIp ips addr e = elim (Bool-cases (has hints.flags numeric_host)) [
      | inl on ↦ by_parse (k.parse_ip name) refl (rw on at e)
      | inr off ↦ elim (Bool-cases (length name == 0)) [
        | inl empty ↦ subst IsIp (fixed_inj (rw (off, empty) at e)) (default_ip-IsIp hints)
        | inr other ↦ let n : unknown ≡ fixed addr = rw (off, other) at e in cc
      ]
    ]
      where
        fixed_addr : FixedIp → Bytes
        fixed_addr invalid = []
        fixed_addr unknown = []
        fixed_addr (fixed addr) = addr

        fixed_inj : {a b : Bytes} → fixed a ≡ fixed b → a ≡ b
        fixed_inj e = ap fixed_addr e

        by_parse : (o : Option Bytes) → k.parse_ip name ≡ o → parsed o ≡ fixed addr → IsIp addr
        by_parse none p e = cc
        by_parse (some a) p e = subst IsIp (fixed_inj e) (ips.parses a p)

    module _ (ips : ReturnsIps) (network : Network)
        (e : network_of hints.socket_type hints.protocol hints.family ≡ some network) (port : ℕ)
        (good : (find_port k hints network service w).0 ≡ some port) (small : port ≤ 65535) where
      resolves :
          (addrs : List Bytes) (infos : List AddressInfo) (w' : World)
          → Found network addrs
          → Each IsIp addrs
          → infos ≡ take room ((sorted hints port addrs).0 ++ (sorted hints port addrs).1)
          → Ends ((infos, esuccess), w')
      resolves addrs infos w' found are_ip r =
          let (four, six) = sorted-answers hints port addrs are_ip in
          inr (
            refl,
            record {
              network = network;
              is_network = e;
              port = port;
              is_port = good;
              small = small;
              addrs = addrs;
              found = found;
              results = r ∙ ap₂ (λ xs ys. take room (xs ++ ys)) four six;
            },
          )

      -- A single result.
      single :
          (addr : Bytes)
          → room ≢ 0
          → make_address_info hints port addr ∷ []
            ≡ take room ((sorted hints port (addr ∷ [])).0 ++ (sorted hints port (addr ∷ [])).1)
      unfolding sorted
      single addr ne = one room ne
        where
          whole :
              (sorted hints port (addr ∷ [])).0 ++ (sorted hints port (addr ∷ [])).1
              ≡ make_address_info hints port addr ∷ []
          whole = elim (Option-cases (to4 addr)) [
            | inl e ↦ rw (sorted, e) refl
            | inr (v4, e) ↦ rw (sorted, e) refl
          ]

          one :
              (n : ℕ)
              → n ≢ 0
              → make_address_info hints port addr ∷ []
                ≡ take n ((sorted hints port (addr ∷ [])).0 ++ (sorted hints port (addr ∷ [])).1)
          one zero ne = absurd (ne refl)
          one (suc zero) ne = sym (ap (λ xs. take 1 xs) whole)
          one (suc (suc n)) ne = sym (ap (λ xs. take (suc (suc n)) xs) whole)

      answer-Ends :
          room ≢ 0
          → Ends (answer k hints network name room port (find_port k hints network service w).1)
      unfolding answer copy_results
      answer-Ends ne = by_ip (fixed_ip k hints name) refl
        where
          looked_up :
              (r : Option (List Bytes) × World)
              → fixed_ip k hints name ≡ unknown
              → k.lookup_ip (ip_network network) name (find_port k hints network service w).1 ≡ r
              → Ends (elim r.0 [
                | none ↦ (([], ecanceled), r.1)
                | some addrs ↦ ((copy_results room (sorted hints port addrs), esuccess), r.1)
              ])
          looked_up (none, w') u l = inl (refl, not_found network e u (ap (λ r. r.0) l))
          looked_up (some addrs, w') u l =
              resolves addrs _ w' (inr (u, ap (λ r. r.0) l))
                (ips.looks_up (ip_network network) (find_port k hints network service w).1 addrs
                  (ap (λ r. r.0) l))
                (take-append_rest room (sorted hints port addrs).0 (sorted hints port addrs).1)

          by_ip :
              (i : FixedIp)
              → fixed_ip k hints name ≡ i
              → Ends (elim i [
                | invalid ↦ (([], einval), (find_port k hints network service w).1)
                | fixed addr ↦ (
                  (make_address_info hints port addr ∷ [], esuccess),
                  (find_port k hints network service w).1,
                )
                | unknown ↦
                    let r =
                      k.lookup_ip
                        (ip_network network)
                        name
                        (find_port k hints network service w).1 in
                    elim r.0 [
                      | none ↦ (([], ecanceled), r.1)
                      | some addrs ↦ ((copy_results room (sorted hints port addrs), esuccess), r.1)
                    ]
              ])
          by_ip invalid i = inl (refl, no_address i)
          by_ip (fixed addr) i =
              resolves (addr ∷ []) _ (find_port k hints network service w).1 (inl (addr, i, refl))
                (fixed_ip-IsIp ips addr i, tt) (single addr ne)
          by_ip unknown i =
              looked_up
                (k.lookup_ip (ip_network network) name (find_port k hints network service w).1) i
                refl

    find_port-le :
        (network : Network) (port : ℕ)
        → (find_port k hints network service w).0 ≡ some port
        → port ≤ 65535
    unfolding find_port
    find_port-le network port e = elim (Bool-cases (has hints.flags numeric_service)) [
      | inl on ↦ valid_port-le (k.atoi service) port (rw (find_port, on) at e)
      | inr off ↦ valid_port-le (k.lookup_port network service w).0 port (rw (find_port, off) at e)
    ]

    -- If ParseIP and LookupIP return addresses of four or sixteen bytes, SockAddressInfo writes no
    -- results and returns EINVAL for no room, for a port that is not found or out of range or for
    -- an address that does not parse, ENOTSUP for hints that no network fits, or ECANCELED for a
    -- name that the lookup does not find; or it succeeds with a port of at most 65535 and as many
    -- results as there is room for, one for each address of the name, as it is given or as the
    -- lookup in the network of the hints returns it. Those that To4 makes four bytes of come
    -- first, then the others, both in their order; each result has the bytes of its address, the
    -- port, the family of the address, and the flags, the type and the protocol of the hints.
    pub sock_address_info-Ends : ReturnsIps → Ends (sock_address_info k name service hints room w)
    unfolding sock_address_info
    sock_address_info-Ends ips = elim (Bool-cases (room == 0)) [
      | inl none_fit ↦
          rw (sock_address_info, none_fit) (inl (refl, no_room ((==_iff room 0).0 none_fit)))
      | inr fits ↦ elim (Option-cases (network_of hints.socket_type hints.protocol hints.family)) [
        | inl e ↦ rw (sock_address_info, fits, e) (inl (refl, no_network e))
        | inr (network, e) ↦ elim (Option-cases (find_port k hints network service w).0) [
          | inl bad ↦ rw (sock_address_info, fits, e, bad) (inl (refl, no_port network e bad))
          | inr (port, good) ↦
              rw (sock_address_info, fits, e, good)
                (answer-Ends ips network e port good (find_port-le network port good)
                  (ne_of_beq fits))
        ]
      ]
    ]
