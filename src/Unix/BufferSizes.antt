-- ===== src/Unix/BufferSizes.antt =====
-- systems/unix/system.go: the sizes of buffers that `SockSetOpt` sets and `SockGetOpt` reads.
use wasi_go.Base.{
  ℕ, suc, ◌*◌, ◌/◌, ◌==◌, ◌≡◌, ap, ◌∙◌, true, if◌then◌else◌, none, some, ℤ, pos, ◌⊎◌, inl, inr, ok,
  Bool-cases, ==_iff, arith, Run,
}
use wasi_go.Errno.{esuccess}
use wasi_go.Errno.Syscall.{make_errno, switch}
use wasi_go.FileTable.{FileEntry}
use wasi_go.FileTable.Lookups.{IsValid, entry, is_socket}
use wasi_go.Bits.Laws.{bit-zero}
use wasi_go.Rights.{has}
use wasi_go.Rights.Laws.{has-Subset}
use wasi_go.Unix.{UnixSystem}
use wasi_go.Unix.Calls.{Called, returned, ignore_eintr2, errno_of}
use wasi_go.Unix.SocketKernel.{SocketKernel, attempt, conclude}
use wasi_go.Unix.SocketKeeps.{with_socket_found}
use wasi_go.Unix.Options.{
  int_value, is_buffer_size, int_option, recv_buffer_size, send_buffer_size, get_opt_on, set_opt_on,
  sock_get_opt, sock_set_opt,
}

-- SO_RCVBUF or SO_SNDBUF.
abbrev pub size_number : ℕ → ℕ
size_number option = if option == recv_buffer_size then 8 else 7

size_cases :
    (option : ℕ)
    → is_buffer_size option ≡ true
    → (option ≡ recv_buffer_size) ⊎ (option ≡ send_buffer_size)
size_cases option b = elim (Bool-cases (option == recv_buffer_size)) [
  | inl r ↦ inl ((==_iff option recv_buffer_size).0 r)
  | inr r ↦ elim (Bool-cases (option == send_buffer_size)) [
    | inl x ↦ inr ((==_iff option send_buffer_size).0 x)
    | inr x ↦ absurd (ground arith)
  ]
]

has-zero : (rights : ℕ) → has rights 0 ≡ true
has-zero rights = (has-Subset rights 0).1 λ k set. cc (bit-zero k)

-- The world behind a call, in a result.
ok_world :
    {File Dir World R A : Type 0} (s : UnixSystem File Dir World) (reply : R) {c : Called A × World}
    {a : A} {w : World}
    → c ≡ (returned a, w)
    → ◌≡◌ {A = Run (R × UnixSystem File Dir World)}
        (ok (reply, record s { world = c.1 }))
        (ok (reply, record s { world = w }))
ok_world {World = World} {A = A} s reply e =
    ap (λ (c : Called A × World). ok (reply, record s { world = c.1 })) e

module _ {File Dir World : Type 0} (k : SocketKernel File World) (rounds : ℕ) where
  -- If setsockopt(2) takes a size of a buffer and getsockopt(2) then reports it doubled, as Linux
  -- does, SockSetOpt of a size succeeds on an open socket, and SockGetOpt then returns the size
  -- that was set; neither touches the tables.
  pub buffer_size-roundtrip :
      (fd : ℤ) (option n : ℕ) (s : UnixSystem File Dir World) (f : FileEntry File) (w w' : World)
      → IsValid s.files
      → entry s.files fd ≡ some f
      → is_socket f ≡ true
      → is_buffer_size option ≡ true
      → k.setsockopt_int f.file 1 (size_number option) (pos n) s.world ≡ (returned tt, w)
      → k.getsockopt_int f.file 1 (size_number option) w ≡ (returned (pos (2 * n)), w')
      → (sock_set_opt k (suc rounds) fd option (int_value (pos n)) s
          ≡ ok (esuccess, record s { world = w }))
        × (sock_get_opt k (suc rounds) fd option (record s { world = w })
            ≡ ok ((some (int_value (pos n)), esuccess), record s { world = w' }))
  unfolding sock_set_opt sock_get_opt set_opt_on get_opt_on ignore_eintr2 errno_of make_errno
      attempt conclude switch int_option
  buffer_size-roundtrip fd option n s f w w' v e socket size set get = (
    with_socket_found fd 0 (λ errno. errno) (set_opt_on k (suc rounds) option (int_value (pos n))) s
          v f e socket (has-zero f.stat.rights_base)
        ∙ on_set,
    with_socket_found fd 0 (λ errno. (none, errno)) (get_opt_on k (suc rounds) option)
          (record s { world = w }) v f e socket (has-zero f.stat.rights_base)
        ∙ on_get,
  )
    where
      half_of : 2 * n / 2 ≡ n
      half_of = omega arith

      set_at :
          {o : ℕ}
          → option ≡ o
          → k.setsockopt_int f.file 1 (size_number o) (pos n) s.world ≡ (returned tt, w)
      set_at r = rw r at set

      get_at :
          {o : ℕ}
          → option ≡ o
          → k.getsockopt_int f.file 1 (size_number o) w ≡ (returned (pos (2 * n)), w')
      get_at r = rw r at get

      on_set :
          set_opt_on k (suc rounds) option (int_value (pos n)) f s
          ≡ ok (esuccess, record s { world = w })
      on_set = elim (size_cases option size) [
        | inl r ↦
            let e : k.setsockopt_int f.file 1 8 (pos n) s.world ≡ (returned tt, w) = set_at r in
            rw r (rw (e, set_opt_on, conclude, ignore_eintr2) (ok_world s esuccess e))
        | inr r ↦
            let e : k.setsockopt_int f.file 1 7 (pos n) s.world ≡ (returned tt, w) = set_at r in
            rw r (rw (e, set_opt_on, conclude, ignore_eintr2) (ok_world s esuccess e))
      ]

      on_get :
          get_opt_on k (suc rounds) option f (record s { world = w })
          ≡ ok ((some (int_value (pos n)), esuccess), record s { world = w' })
      on_get = elim (size_cases option size) [
        | inl r ↦
            let e : k.getsockopt_int f.file 1 8 w ≡ (returned (pos (2 * n)), w') = get_at r in
            rw r (
              rw (e, get_opt_on, attempt, ignore_eintr2, half_of)
                (ok_world s (some (int_value (pos n)), esuccess) e))
        | inr r ↦
            let e : k.getsockopt_int f.file 1 7 w ≡ (returned (pos (2 * n)), w') = get_at r in
            rw r (
              rw (e, get_opt_on, attempt, ignore_eintr2, half_of)
                (ok_world s (some (int_value (pos n)), esuccess) e))
      ]
