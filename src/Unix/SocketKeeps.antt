-- ===== src/Unix/SocketKeeps.antt =====
-- systems/unix/system.go: runs of methods on sockets that leave the tables alone, and their lookup.
use wasi_go.Base.{
  ℕ, ◌≡◌, refl, ◌∙◌, Bool, true, false, if◌then◌else◌, Option, none, some, ℤ, Run, ok, panic,
  unfinished, ◌>>=◌, arith,
}
use wasi_go.Errno.{ebadf, enotcapable, enotsock}
use wasi_go.Errno.Syscall.{GoError, make_errno}
use wasi_go.FileTable.{FileEntry, check_rights, Lookup, found, refused}
use wasi_go.FileTable.Lookups.{IsValid, entry, is_socket, lookup_socket_fd-checked}
use wasi_go.Rights.{has}
use wasi_go.Unix.{UnixSystem}
use wasi_go.Unix.Calls.{
  Called, returned, broken, eintr, ignore_eintr2, ignore_eintr, handle_eintr, errno_of,
}
use wasi_go.Unix.Calls.Laws.{ignore_eintr2-ne-panic, handle_eintr-ne-panic, errno_of-panic}
use wasi_go.Unix.SocketKernel.{Method, with_socket, attempted, attempt, conclude, transfer}

module _ {File Dir World : Type 0} where
  -- Only the state of the host differs.
  abbrev pub SameTables : UnixSystem File Dir World → UnixSystem File Dir World → Type 0
  SameTables s s' = (s'.files ≡ s.files) × (s'.wake ≡ s.wake)

  -- A run that leaves the tables alone: it returns with the same tables, is cut off, or panics in
  -- MakeErrno on an error that is not known.
  abbrev pub Keeping :
      {R : Type 0} → UnixSystem File Dir World → Run (R × UnixSystem File Dir World) → Type 0
  Keeping s (ok r) = SameTables s r.1
  Keeping s panic = (err : GoError) × (make_errno (some err) ≡ panic)
  Keeping s unfinished = Unit

  pub record Keeps {R : Type 0} (s : UnixSystem File Dir World)
      (m : Run (R × UnixSystem File Dir World)) : Type 0 where
    pub holds : Keeping s m

  module _ {R : Type 0} (s : UnixSystem File Dir World) where
    pub Keeps-ok : (r : R) (s' : UnixSystem File Dir World) → SameTables s s' → Keeps s (ok (r, s'))
    Keeps-ok r s' same = record { holds = same }

    pub Keeps-unfinished : Keeps {R = R} s unfinished
    Keeps-unfinished = record { holds = tt }

    pub Keeps-bind :
        {A : Type 0} (m : Run A) (f : A → Run (R × UnixSystem File Dir World))
        → (m ≡ panic → (err : GoError) × (make_errno (some err) ≡ panic))
        → ((a : A) → m ≡ ok a → Keeps s (f a))
        → Keeps s (m >>= f)
    Keeps-bind (ok a) f panics next = next a refl
    Keeps-bind panic f panics next = record { holds = panics refl }
    Keeps-bind unfinished f panics next = record { holds = tt }

    pub Keeps-errno :
        {A : Type 0} (c : Called A) (f : ℕ → Run (R × UnixSystem File Dir World))
        → ((e : ℕ) → Keeps s (f e))
        → Keeps s (errno_of c >>= f)
    Keeps-errno c f next = Keeps-bind (errno_of c) f (errno_of-panic c) (λ e _. next e)

    pub Keeps-make_errno :
        (err : GoError) (f : ℕ → Run (R × UnixSystem File Dir World))
        → ((e : ℕ) → Keeps s (f e))
        → Keeps s (make_errno (some err) >>= f)
    Keeps-make_errno err f next =
        Keeps-bind (make_errno (some err)) f (λ e. (err, e)) (λ e _. next e)

    pub Keeps-if :
        (b : Bool) (m n : Run (R × UnixSystem File Dir World))
        → Keeps s m
        → Keeps s n
        → Keeps s (if b then m else n)
    Keeps-if true m n km kn = km
    Keeps-if false m n km kn = kn

    pub Keeps-option :
        {A : Type 0} (o : Option A) (m : Run (R × UnixSystem File Dir World))
        (f : A → Run (R × UnixSystem File Dir World))
        → Keeps s m
        → ((a : A) → Keeps s (f a))
        → Keeps s (elim o [ none ↦ m | some a ↦ f a ])
    Keeps-option none m f km kf = km
    Keeps-option (some a) m f km kf = kf a

    pub Keeps-attempt :
        {A : Type 0} (rounds : ℕ) (call : World → Called A × World) (failed : ℕ → R)
        (next : A → Method File Dir World R) (s' : UnixSystem File Dir World)
        → SameTables s s'
        → ((a : A) (w : World) → Keeps s (next a (record s' { world = w })))
        → Keeps s (attempt rounds call failed next s')
    unfolding attempt
    Keeps-attempt {A = A} rounds call failed next s' same step =
        Keeps-bind (ignore_eintr2 rounds call s'.world) _
          (λ e. absurd (ignore_eintr2-ne-panic rounds call s'.world e)) (λ r _. cases r.0 r.1)
      where
        cases :
            (c : Called A) (w : World) → Keeps s (attempted failed next c (record s' { world = w }))
        cases (returned a) w = step a w
        cases (broken err) w = Keeps-make_errno err _ (λ e. Keeps-ok _ _ same)
        cases eintr w = Keeps-unfinished

    pub Keeps-conclude :
        (rounds : ℕ) (call : World → Called (Unit {0}) × World) (reply : ℕ → R)
        (s' : UnixSystem File Dir World)
        → SameTables s s'
        → Keeps s (conclude rounds call reply s')
    unfolding conclude
    Keeps-conclude rounds call reply s' same =
        Keeps-bind (ignore_eintr rounds call s'.world) _
          (λ e. absurd (ignore_eintr2-ne-panic rounds call s'.world e))
          (λ r _. Keeps-errno r.0 _ (λ e. Keeps-ok _ _ same))

-- The error of the lookup of a socket, if any.
abbrev pub refusal : {File : Type 0} → Option (FileEntry File) → ℕ → Option ℕ
refusal none rights = some ebadf
refusal (some f) rights =
    if is_socket f
    then (if has f.stat.rights_base rights then none else some enotcapable)
    else some enotsock

-- The lookup of a socket under a descriptor.
abbrev checked_socket : {File : Type 0} → Option (FileEntry File) → ℕ → Lookup (FileEntry File)
checked_socket o rights = elim o [
  | none ↦ refused ebadf
  | some f ↦ if is_socket f then check_rights f rights else refused enotsock
]

module _ {File Dir World R : Type 0} (fd : ℤ) (rights : ℕ) (failed : ℕ → R)
    (body : FileEntry File → Method File Dir World R) (s : UnixSystem File Dir World)
    (v : IsValid s.files) where
  pub with_socket_refused :
      (e : ℕ)
      → refusal (entry s.files fd) rights ≡ some e
      → with_socket fd rights failed body s ≡ ok (failed e, s)
  unfolding with_socket
  with_socket_refused e r =
      rw (lookup_socket_fd-checked s.files fd rights v) (cases (entry s.files fd) r)
    where
      cases :
          (o : Option (FileEntry File))
          → refusal o rights ≡ some e
          → (elim (checked_socket o rights) [
            | refused errno ↦ ok (failed errno, s)
            | found f ↦ body f s
          ])
            ≡ ok (failed e, s)
      cases none h = ground arith
      cases (some f) h = ground arith

  pub with_socket_found :
      (f : FileEntry File)
      → entry s.files fd ≡ some f
      → is_socket f ≡ true
      → has f.stat.rights_base rights ≡ true
      → with_socket fd rights failed body s ≡ body f s
  unfolding with_socket
  with_socket_found f e socket may =
      rw (lookup_socket_fd-checked s.files fd rights v, e, socket, may) refl

  pub Keeps-with_socket :
      ((f : FileEntry File) → Keeps s (body f s)) → Keeps s (with_socket fd rights failed body s)
  unfolding with_socket
  Keeps-with_socket step =
      rw (lookup_socket_fd-checked s.files fd rights v)
        (cases (checked_socket (entry s.files fd) rights))
    where
      cases :
          (f : Lookup (FileEntry File))
          → Keeps s (elim f [ refused errno ↦ ok (failed errno, s) | found f ↦ body f s ])
      cases (refused errno) = Keeps-ok s _ _ (refl, refl)
      cases (found f) = step f

module _ {File Dir World : Type 0} where
  pub Keeps-transfer :
      (s : UnixSystem File Dir World) (rounds : ℕ) (call : World → (ℤ × Called (Unit {0})) × World)
      (s' : UnixSystem File Dir World)
      → SameTables s s'
      → Keeps s (transfer rounds call s')
  unfolding transfer
  Keeps-transfer s rounds call s' same =
      Keeps-bind s (handle_eintr rounds call s'.world) _
        (λ e. absurd (handle_eintr-ne-panic rounds call s'.world e))
        (λ r _. Keeps-errno s r.0.1 _ (λ e. Keeps-ok s _ _ same))

  pub Keeps-trans :
      {R : Type 0} (s s' : UnixSystem File Dir World) (m : Run (R × UnixSystem File Dir World))
      → SameTables s s'
      → Keeps s' m
      → Keeps s m
  Keeps-trans s s' (ok r) (f, w) k = record { holds = (k.holds.0 ∙ f, k.holds.1 ∙ w) }
  Keeps-trans s s' panic same k = record { holds = k.holds }
  Keeps-trans s s' unfinished same k = record { holds = tt }
