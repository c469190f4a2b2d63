-- ===== src/Unix/SocketOpening.antt =====
-- systems/unix/system.go: what `SockOpen` does to the file table.
use wasi_go.Base.{
  ℕ, ◌<◌, ◌^◌, false, ◌≡◌, ◌⊎◌, inl, inr, refl, some, ℤ, pos, negsuc, Run, ok, unfinished,
  Bool-cases, Option-cases,
}
use wasi_go.Errno.{esuccess, einval, enfile}
use wasi_go.File.{Host, FdStat}
use wasi_go.FileTable.{num_open_files}
use wasi_go.FileTable.Lookups.{IsValid}
use wasi_go.FileTable.Opening.{Registers, register-Registers, at_limit}
use wasi_go.Unix.{UnixSystem}
use wasi_go.Unix.Calls.{Called, returned, ignore_eintr2}
use wasi_go.Unix.Calls.Laws.{ignore_eintr2-ends}
use wasi_go.Unix.Scanning.{Panics, make_errno-Ends}
use wasi_go.Unix.Sockets.{
  sys_domain, sys_type, of_protocol, sys_protocol, portable, opened_socket, sock_open,
}

module _ {File Dir World : Type 0} (h : Host File Dir World)
    (socket : ℕ → ℕ → ℕ → World → Called File × World) where
  module _ (rounds pf socket_type protocol base inheriting : ℕ)
      (s : UnixSystem File Dir World) where
    -- A socket that is opened: its family, type and protocol are known, there was room for it,
    -- socket(2) has returned it for them, and it is registered with the rights that were asked for.
    pub record SocketOpens (r : (ℤ × ℕ) × UnixSystem File Dir World) : Type 0 where
      pub domain : ℕ
      pub is_domain : sys_domain pf ≡ some domain
      pub type : ℕ × ℕ
      pub is_type : sys_type (of_protocol socket_type protocol) ≡ some type
      pub number : ℕ
      pub is_number : sys_protocol protocol ≡ some number
      pub room : at_limit s.files ≡ false
      pub file : File
      pub calls :
          ignore_eintr2 rounds (socket domain type.0 number) s.world ≡ ok (returned file, r.1.world)
      pub new_fd : ℕ
      pub reply : r.0 ≡ (pos new_fd, esuccess)
      pub registers :
          Registers s.files file
            (record {
              file_type = type.1;
              flags = 0;
              rights_base = base;
              rights_inheriting = inheriting;
            })
            new_fd
            r.1.files

    abbrev pub SocketEnds : Run ((ℤ × ℕ) × UnixSystem File Dir World) → Type 0
    SocketEnds m =
        (m ≡ unfinished)
        ⊎ (Panics m
            ⊎ ((r : (ℤ × ℕ) × UnixSystem File Dir World) × (m ≡ ok r)
                × (((r.0.0 ≡ negsuc 0) × (r.1.files ≡ s.files)) ⊎ SocketOpens r)))

    -- On a valid file table with fewer than 2^31 open files, SockOpen either is still being
    -- interrupted after the given rounds, or MakeErrno panics on an error of socket(2) that it
    -- does not know, or it returns: -1 with the file table as it was, or the family, the type and
    -- the protocol are known, the limit on open files was not reached, and the socket that
    -- socket(2) returned for their numbers is registered under a fresh descriptor with the known
    -- ones of the rights that were asked for.
    pub sock_open-ends :
        IsValid s.files
        → num_open_files s.files < 2 ^ 31
        → SocketEnds (sock_open h socket rounds pf socket_type protocol base inheriting s)
    unfolding sock_open opened_socket
    sock_open-ends v few = elim (Option-cases (sys_domain pf)) [
      | inl none1 ↦
          inr (inr (((negsuc 0, einval), s), rw (sock_open, none1) refl, inl (refl, refl)))
      | inr (domain, is_domain) ↦
          elim (Option-cases (sys_type (of_protocol socket_type protocol))) [
            | inl none2 ↦ inr (
                inr (
                  ((negsuc 0, einval), s),
                  rw (sock_open, is_domain, none2) refl,
                  inl (refl, refl),
                ))
            | inr (type, is_type) ↦ elim (Option-cases (sys_protocol protocol)) [
              | inl none3 ↦ inr (
                  inr (
                    ((negsuc 0, einval), s),
                    rw (sock_open, is_domain, is_type, none3) refl,
                    inl (refl, refl),
                  ))
              | inr (number, is_number) ↦ elim (Bool-cases (at_limit s.files)) [
                | inl full ↦ inr (
                    inr (
                      ((negsuc 0, enfile), s),
                      rw (sock_open, is_domain, is_type, is_number, full) refl,
                      inl (refl, refl),
                    ))
                | inr room ↦
                    elim (ignore_eintr2-ends rounds (socket domain type.0 number) s.world) [
                      | inl cut ↦
                          inl (rw (sock_open, is_domain, is_type, is_number, room, cut) refl)
                      | inr (inr ((err, w), run)) ↦ elim (make_errno-Ends (portable err)) [
                        | inl unknown ↦ inr (
                            inl (
                              portable err,
                              unknown,
                              rw (sock_open, is_domain, is_type, is_number, room, run, unknown)
                                  refl,
                            ))
                        | inr (errno, known) ↦ inr (
                            inr (
                              ((negsuc 0, errno), record s { world = w }),
                              rw (sock_open, is_domain, is_type, is_number, room, run, known) refl,
                              inl (refl, refl),
                            ))
                      ]
                      | inr (inl ((file, w), run)) ↦
                          let stat : FdStat = record {
                            file_type = type.1;
                            flags = 0;
                            rights_base = base;
                            rights_inheriting = inheriting;
                          } in
                          let (fd, t', registered, g) =
                            register-Registers h file stat s.files v few in
                          inr (
                            inr (
                              ((pos fd, esuccess), record s { files = t'; world = w }),
                              rw (sock_open, is_domain, is_type, is_number, room, run, registered)
                                  refl,
                              inr (record {
                                domain = domain;
                                is_domain = is_domain;
                                type = type;
                                is_type = is_type;
                                number = number;
                                is_number = is_number;
                                room = room;
                                file = file;
                                calls = run;
                                new_fd = fd;
                                reply = refl;
                                registers = g;
                              }),
                            ))
                    ]
              ]
            ]
          ]
    ]
