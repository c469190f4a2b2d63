-- ===== src/Unix/SocketAnswers.antt =====
-- systems/unix/system.go: the checks of the methods on one socket, and what they leave alone.
use wasi_go.Base.{
  ℕ, zero, suc, ◌==◌, ◌≡◌, ◌≢◌, refl, sym, subst, Option, none, some, ℤ, pos, to_uint, ◌⊎◌, inl,
  inr, Run, ok, panic, unfinished, ◌>>=◌, Bool-cases,
}
use wasi_go.Errno.{esuccess, einval}
use wasi_go.Errno.Host
use wasi_go.Errno.Syscall.{GoError, make_errno}
use wasi_go.FileTable.{FileEntry}
use wasi_go.FileTable.Lookups.{IsValid, entry}
use wasi_go.Unix.{UnixSystem}
use wasi_go.Unix.Addresses.{to_unix_sock_address, family}
use wasi_go.Unix.Calls.{
  Called, returned, broken, eintr, ignore_eintr2, ignore_eintr, is_errno, sys_error,
}
use wasi_go.Unix.Calls.Laws.{ignore_eintr2-ne-panic}
use wasi_go.Unix.SocketKernel.{SocketKernel, Method, with_socket, conclude}
use wasi_go.Unix.Connections.{
  AddressReply, no_address, sock_local_address, sys_how, connected, finish_connect, domain_family,
  is_zero, connect_error, local_address_on, remote_address_on, shutdown_on, listen_on, bind_on,
  connect_on,
}
use wasi_go.Unix.Messages.{
  Received, recv_loop, sys_iflags, is_not_connected, recv_on, recv_from_on, send_on, send_to_on,
}
use wasi_go.Unix.Options.{
  sys_option, setting, query_socket_type, query_socket_error, is_buffer_size, int_reply, is_time,
  int_option, get_opt_on, set_opt_on,
}
use wasi_go.Unix.SocketCalls.{
  SocketCall, recv, recv_from, send, send_to, shutdown, bind, connect, listen, get_opt, set_opt,
  local_address, remote_address, SocketReply, socket_needs, socket_failure, socket_on,
  perform_socket, perform_socket-with_socket,
}
use wasi_go.Unix.SocketKeeps.{
  SameTables, Keeps, Keeps-ok, Keeps-unfinished, Keeps-bind, Keeps-errno, Keeps-make_errno,
  Keeps-if, Keeps-option, Keeps-attempt, Keeps-conclude, Keeps-transfer, refusal,
  with_socket_refused, Keeps-with_socket, Keeps-trans,
}

module _ {World : Type 0} where
  recv_loop-ne-panic :
      (rounds : ℕ) (call : World → Received × World) (w : World) → recv_loop rounds call w ≢ panic
  unfolding recv_loop
  recv_loop-ne-panic zero call w = λ e. cc
  recv_loop-ne-panic (suc rounds) call w =
      cases (call w) (recv_loop-ne-panic rounds call (call w).1)
    where
      Goal : Run (Received × World) → Type 0
      Goal m = m ≢ panic

      cases :
          (c : Received × World)
          → Goal (recv_loop rounds call c.1)
          → Goal (elim c.0.1 [
            | returned _ ↦ ok c
            | broken err ↦ ok c
            | eintr ↦ recv_loop rounds call c.1
          ])
      cases ((d, returned u), w') h = λ e. cc
      cases ((d, broken err), w') h = λ e. cc
      cases ((d, eintr), w') h = h

module _ {File Dir World : Type 0} where
  -- The reply of a call to the error of its lookup, or else a run that leaves the tables alone.
  abbrev pub Answers :
      (c : SocketCall)
      → UnixSystem File Dir World
      → Run (SocketReply c × UnixSystem File Dir World)
      → Option ℕ
      → Type 0
  Answers c s m (some e) = m ≡ ok (socket_failure c e, s)
  Answers c s m none = Keeps s m

  answers_lem :
      (c : SocketCall) (fd : ℤ) (s : UnixSystem File Dir World)
      (body : FileEntry File → Method File Dir World (SocketReply c))
      → IsValid s.files
      → ((f : FileEntry File) → Keeps s (body f s))
      → Answers c s
          (with_socket fd (socket_needs c) (socket_failure c) body s)
          (refusal (entry s.files fd) (socket_needs c))
  answers_lem c fd s body v keeps = cases (refusal (entry s.files fd) (socket_needs c)) refl
    where
      cases :
          (o : Option ℕ)
          → refusal (entry s.files fd) (socket_needs c) ≡ o
          → Answers c s (with_socket fd (socket_needs c) (socket_failure c) body s) o
      cases (some e) r = with_socket_refused fd (socket_needs c) (socket_failure c) body s v e r
      cases none r = Keeps-with_socket fd (socket_needs c) (socket_failure c) body s v keeps

module _ {File Dir World : Type 0} where
  Keeps-then :
      {A R : Type 0} (s : UnixSystem File Dir World) (m : Run (A × UnixSystem File Dir World))
      (f : A × UnixSystem File Dir World → Run (R × UnixSystem File Dir World))
      → Keeps s m
      → ((r : A × UnixSystem File Dir World) → SameTables s r.1 → Keeps s (f r))
      → Keeps s (m >>= f)
  Keeps-then s (ok r) f k next = next r k.holds
  Keeps-then s panic f k next = record { holds = k.holds }
  Keeps-then s unfinished f k next = record { holds = tt }

  Keeps-sys_option :
      {R : Type 0} (s : UnixSystem File Dir World) (o : (ℕ × ℕ) ⊎ ℕ) (f : ℕ → R)
      (g : ℕ × ℕ → Run (R × UnixSystem File Dir World))
      → ((p : ℕ × ℕ) → Keeps s (g p))
      → Keeps s (elim o [ inr e ↦ ok (f e, s) | inl p ↦ g p ])
  Keeps-sys_option s (inl p) f g k = k p
  Keeps-sys_option s (inr e) f g k = Keeps-ok s _ _ (refl, refl)

int_option-panic :
    (option : ℕ) (value : ℤ)
    → int_option option value ≡ panic
    → (err : GoError) × (make_errno (some err) ≡ panic)
unfolding int_option
int_option-panic option value e = elim (Bool-cases (option == query_socket_type)) [
  | inl t ↦ cc (rw (t, int_option) at e)
  | inr nt ↦ elim (Bool-cases (option == query_socket_error)) [
    | inl q ↦ (
      sys_error (to_uint value),
      of_bind (make_errno (some (sys_error (to_uint value)))) (rw (nt, q, int_option) at e),
    )
    | inr nq ↦ elim (Bool-cases (is_buffer_size option)) [
      | inl b ↦ cc (rw (nt, nq, b, int_option) at e)
      | inr b ↦ cc (rw (nt, nq, b, int_option) at e)
    ]
  ]
]
  where
    of_bind : (m : Run ℕ) → (m >>= λ e. ok (int_reply (pos e) esuccess)) ≡ panic → m ≡ panic
    of_bind (ok e) h = cc
    of_bind panic h = refl
    of_bind unfinished h = cc

module _ {File Dir World : Type 0} (k : SocketKernel File World) (rounds : ℕ) where
  pub Keeps-local_address :
      (fd : ℤ) (s s' : UnixSystem File Dir World)
      → IsValid s.files
      → SameTables s s'
      → Keeps s (sock_local_address k rounds fd s')
  unfolding sock_local_address local_address_on
  Keeps-local_address fd s s' v same = Keeps-trans s s' _ same (
      Keeps-with_socket fd 0 no_address (local_address_on k rounds) s'
        (subst IsValid (sym same.0) v)
        (λ f. Keeps-attempt s' rounds _ _ _ s' (refl, refl) (λ a w. Keeps-ok s' _ _ (refl, refl))))

  Keeps-connected :
      (fd : ℤ) (err : Option GoError) (s s' : UnixSystem File Dir World)
      → IsValid s.files
      → SameTables s s'
      → Keeps s (connected k rounds fd err s')
  unfolding connected make_errno
  Keeps-connected fd err s s' v same =
      Keeps-then s _ _ (Keeps-local_address fd s s' v same)
        λ r kept. Keeps-if s (r.0.1 == esuccess) _ _ (finish err r kept) (Keeps-ok s _ _ kept)
    where
      finish :
          (err : Option GoError) (r : AddressReply × UnixSystem File Dir World)
          → SameTables s r.1
          → Keeps {R = AddressReply} s (make_errno err >>= λ errno. ok ((r.0.0, errno), r.1))
      finish none r kept = Keeps-ok s _ _ kept
      finish (some err) r kept = Keeps-make_errno s err _ (λ e. Keeps-ok s _ _ kept)

  Keeps-finish_connect :
      (fd : ℤ) (c : Called (Unit {0})) (s s' : UnixSystem File Dir World)
      → IsValid s.files
      → SameTables s s'
      → Keeps s (finish_connect k rounds fd c s')
  unfolding finish_connect
  Keeps-finish_connect fd (returned u) s s' v same = Keeps-connected fd none s s' v same
  Keeps-finish_connect fd (broken err) s s' v same =
      Keeps-if s (is_errno err.sys_errno Host.einprogress) _ _
        (Keeps-connected fd (some err) s s' v same)
        (Keeps-make_errno s (connect_error err) _ (λ e. Keeps-ok s _ _ same))
  Keeps-finish_connect fd eintr s s' v same = Keeps-unfinished s

  socket_on-Keeps :
      (fd : ℤ) (c : SocketCall) (f : FileEntry File) (s : UnixSystem File Dir World)
      → IsValid s.files
      → Keeps s (socket_on k rounds fd c f s)
  unfolding recv_on recv_from_on send_on send_to_on shutdown_on bind_on connect_on listen_on
      get_opt_on set_opt_on local_address_on remote_address_on
  socket_on-Keeps fd (recv iovecs flags) f s v =
      Keeps-bind s (recv_loop rounds (k.recvmsg f.file iovecs (sys_iflags flags)) s.world) _
        (λ e. absurd (recv_loop-ne-panic rounds _ s.world e))
        λ r _. Keeps-errno s r.0.1 _ λ e. Keeps-ok s _ _ (refl, refl)
  socket_on-Keeps fd (recv_from iovecs flags) f s v =
      Keeps-bind s (recv_loop rounds (k.recvmsg f.file iovecs (sys_iflags flags)) s.world) _
        (λ e. absurd (recv_loop-ne-panic rounds _ s.world e))
        λ r _. Keeps-errno s r.0.1 _ λ e. Keeps-ok s _ _ (refl, refl)
  socket_on-Keeps fd (send iovecs flags) f s v = Keeps-transfer s rounds _ s (refl, refl)
  socket_on-Keeps fd (send_to iovecs flags addr) f s v =
      Keeps-bind s (ignore_eintr2 rounds (k.getpeername f.file) s.world) _
        (λ e. absurd (ignore_eintr2-ne-panic rounds (k.getpeername f.file) s.world e))
        λ r _.
          Keeps-if s (is_not_connected r.0) _ _
            (Keeps-option s (to_unix_sock_address addr) _ _ (Keeps-ok s _ _ (refl, refl))
              λ sa. Keeps-transfer s rounds _ _ (refl, refl))
            (Keeps-ok s _ _ (refl, refl))
  socket_on-Keeps fd (shutdown flags) f s v =
      Keeps-option s (sys_how flags) _ _ (Keeps-ok s _ _ (refl, refl)) λ how.
        Keeps-attempt s rounds _ _ _ s (refl, refl)
          λ v w.
            Keeps-if s (is_zero v) _ _ (Keeps-conclude s rounds _ _ _ (refl, refl))
              (Keeps-ok s _ _ (refl, refl))
  socket_on-Keeps fd (bind addr) f s v =
      Keeps-option s (to_unix_sock_address addr) _ _ (Keeps-ok s _ _ (refl, refl)) λ sa.
        Keeps-attempt s rounds _ _ _ s (refl, refl) λ u w. Keeps-local_address fd s _ v (refl, refl)
  socket_on-Keeps fd (connect peer) f s v =
      Keeps-option s (to_unix_sock_address peer) _ _ (Keeps-ok s _ _ (refl, refl)) λ sa.
        Keeps-attempt s rounds _ _ _ s (refl, refl)
          λ domain w.
            Keeps-if s (domain_family domain == family peer) _ _
              (Keeps-bind s (ignore_eintr rounds (k.connect f.file sa) w) _
                (λ e. absurd (ignore_eintr2-ne-panic rounds (k.connect f.file sa) w e))
                λ r _. Keeps-finish_connect fd r.0 s _ v (refl, refl))
              (Keeps-ok s _ _ (refl, refl))
  socket_on-Keeps fd (listen backlog) f s v = Keeps-conclude s rounds _ _ s (refl, refl)
  socket_on-Keeps fd (get_opt option) f s v = Keeps-sys_option s (sys_option option) _ _ λ o.
      Keeps-if s (is_time option) _ _
        (Keeps-attempt s rounds _ _ _ s (refl, refl) λ t w. Keeps-ok s _ _ (refl, refl))
        (Keeps-attempt s rounds _ _ _ s (refl, refl)
          λ value w.
            Keeps-bind s (int_option option value) _ (int_option-panic option value)
              λ r _. Keeps-ok s _ _ (refl, refl))
  socket_on-Keeps fd (set_opt option value) f s v =
      Keeps-sys_option s (sys_option option) _ _ λ o. cases o (setting option value)
    where
      cases :
          (o : ℕ × ℕ) (x : Option (ℤ ⊎ ℕ))
          → Keeps s (elim x [
            | none ↦ ok (einval, s)
            | some (inl n) ↦ conclude rounds (k.setsockopt_int f.file o.0 o.1 n) (λ e. e) s
            | some (inr t) ↦ conclude rounds (k.setsockopt_time f.file o.0 o.1 t) (λ e. e) s
          ])
      cases o none = Keeps-ok s _ _ (refl, refl)
      cases o (some (inl n)) = Keeps-conclude s rounds _ _ s (refl, refl)
      cases o (some (inr t)) = Keeps-conclude s rounds _ _ s (refl, refl)
  socket_on-Keeps fd local_address f s v =
      Keeps-attempt s rounds _ _ _ s (refl, refl) λ a w. Keeps-ok s _ _ (refl, refl)
  socket_on-Keeps fd remote_address f s v =
      Keeps-attempt s rounds _ _ _ s (refl, refl) λ a w. Keeps-ok s _ _ (refl, refl)

  -- On a valid table each call on one socket that registers no file replies EBADF if the
  -- descriptor is not open, ENOTSOCK if it is no socket and only then ENOTCAPABLE if it lacks a
  -- right that the call needs, with no effect; otherwise it is still being interrupted after the
  -- given rounds, or MakeErrno panics on an error that it does not know, or it returns with the
  -- tables as they were.
  pub perform_socket-Answers :
      (fd : ℤ) (c : SocketCall) (s : UnixSystem File Dir World)
      → IsValid s.files
      → Answers c s (perform_socket k rounds fd c s) (refusal (entry s.files fd) (socket_needs c))
  perform_socket-Answers fd c s v =
      rw (perform_socket-with_socket k rounds fd c s)
        (answers_lem c fd s (socket_on k rounds fd c) v (λ f. socket_on-Keeps fd c f s v))
