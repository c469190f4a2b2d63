-- ===== src/Errno/Syscall.antt =====
-- error_unix.go and error_linux.go: error codes of WASI from and to those of the host, and from Go's
-- errors.
use wasi_go.Base.{
  ℕ, Bool, ◌==◌, if◌then◌else◌, Option, none, some, List, [], ◌∷◌, Run, ok, panic, or_panic,
}
use wasi_go.Errno
use wasi_go.Errno.Host

-- A `switch` whose cases are constants: the result of the first case that matches.
unfoldable pub switch : List (ℕ × ℕ) → ℕ → Option ℕ
switch [] e = none
switch ((c, r) ∷ cases) e = if c == e then some r else switch cases e

abbrev pub to_syscall_cases : List (ℕ × ℕ)
to_syscall_cases =
    (Errno.esuccess, 0)
    ∷ (Errno.e2big, Host.e2big)
    ∷ (Errno.eacces, Host.eacces)
    ∷ (Errno.eaddrinuse, Host.eaddrinuse)
    ∷ (Errno.eaddrnotavail, Host.eaddrnotavail)
    ∷ (Errno.eafnosupport, Host.eafnosupport)
    ∷ (Errno.eagain, Host.eagain)
    ∷ (Errno.ealready, Host.ealready)
    ∷ (Errno.ebadf, Host.ebadf)
    ∷ (Errno.ebadmsg, Host.ebadmsg)
    ∷ (Errno.ebusy, Host.ebusy)
    ∷ (Errno.ecanceled, Host.ecanceled)
    ∷ (Errno.echild, Host.echild)
    ∷ (Errno.econnaborted, Host.econnaborted)
    ∷ (Errno.econnrefused, Host.econnrefused)
    ∷ (Errno.econnreset, Host.econnreset)
    ∷ (Errno.edeadlk, Host.edeadlk)
    ∷ (Errno.edestaddrreq, Host.edestaddrreq)
    ∷ (Errno.edom, Host.edom)
    ∷ (Errno.edquot, Host.edquot)
    ∷ (Errno.eexist, Host.eexist)
    ∷ (Errno.efault, Host.efault)
    ∷ (Errno.efbig, Host.efbig)
    ∷ (Errno.ehostunreach, Host.ehostunreach)
    ∷ (Errno.eidrm, Host.eidrm)
    ∷ (Errno.eilseq, Host.eilseq)
    ∷ (Errno.einprogress, Host.einprogress)
    ∷ (Errno.eintr, Host.eintr)
    ∷ (Errno.einval, Host.einval)
    ∷ (Errno.eio, Host.eio)
    ∷ (Errno.eisconn, Host.eisconn)
    ∷ (Errno.eisdir, Host.eisdir)
    ∷ (Errno.eloop, Host.eloop)
    ∷ (Errno.emfile, Host.emfile)
    ∷ (Errno.emlink, Host.emlink)
    ∷ (Errno.emsgsize, Host.emsgsize)
    ∷ (Errno.emultihop, Host.emultihop)
    ∷ (Errno.enametoolong, Host.enametoolong)
    ∷ (Errno.enetdown, Host.enetdown)
    ∷ (Errno.enetreset, Host.enetreset)
    ∷ (Errno.enetunreach, Host.enetunreach)
    ∷ (Errno.enfile, Host.enfile)
    ∷ (Errno.enobufs, Host.enobufs)
    ∷ (Errno.enodev, Host.enodev)
    ∷ (Errno.enoent, Host.enoent)
    ∷ (Errno.enoexec, Host.enoexec)
    ∷ (Errno.enolck, Host.enolck)
    ∷ (Errno.enolink, Host.enolink)
    ∷ (Errno.enomem, Host.enomem)
    ∷ (Errno.enomsg, Host.enomsg)
    ∷ (Errno.enoprotoopt, Host.enoprotoopt)
    ∷ (Errno.enospc, Host.enospc)
    ∷ (Errno.enosys, Host.enosys)
    ∷ (Errno.enotconn, Host.enotconn)
    ∷ (Errno.enotdir, Host.enotdir)
    ∷ (Errno.enotempty, Host.enotempty)
    ∷ (Errno.enotrecoverable, Host.enotrecoverable)
    ∷ (Errno.enotsock, Host.enotsock)
    ∷ (Errno.enotsup, Host.enotsup)
    ∷ (Errno.enotty, Host.enotty)
    ∷ (Errno.enxio, Host.enxio)
    ∷ (Errno.eoverflow, Host.eoverflow)
    ∷ (Errno.eownerdead, Host.eownerdead)
    ∷ (Errno.eperm, Host.eperm)
    ∷ (Errno.epipe, Host.epipe)
    ∷ (Errno.eproto, Host.eproto)
    ∷ (Errno.eprotonosupport, Host.eprotonosupport)
    ∷ (Errno.eprototype, Host.eprototype)
    ∷ (Errno.erange, Host.erange)
    ∷ (Errno.erofs, Host.erofs)
    ∷ (Errno.espipe, Host.espipe)
    ∷ (Errno.esrch, Host.esrch)
    ∷ (Errno.estale, Host.estale)
    ∷ (Errno.etimedout, Host.etimedout)
    ∷ (Errno.etxtbsy, Host.etxtbsy)
    ∷ (Errno.exdev, Host.exdev)
    ∷ (Errno.enotcapable, Host.eperm)
    ∷ []

-- The default of the switch panics.
unfoldable pub errno_to_syscall : ℕ → Run ℕ
unfolding switch
errno_to_syscall errno = or_panic (switch to_syscall_cases errno)

abbrev pub of_syscall_cases : List (ℕ × ℕ)
of_syscall_cases =
    (Host.e2big, Errno.e2big)
    ∷ (Host.eacces, Errno.eacces)
    ∷ (Host.eaddrinuse, Errno.eaddrinuse)
    ∷ (Host.eaddrnotavail, Errno.eaddrnotavail)
    ∷ (Host.eafnosupport, Errno.eafnosupport)
    ∷ (Host.eagain, Errno.eagain)
    ∷ (Host.ealready, Errno.ealready)
    ∷ (Host.ebadf, Errno.ebadf)
    ∷ (Host.ebadmsg, Errno.ebadmsg)
    ∷ (Host.ebusy, Errno.ebusy)
    ∷ (Host.ecanceled, Errno.ecanceled)
    ∷ (Host.echild, Errno.echild)
    ∷ (Host.econnaborted, Errno.econnaborted)
    ∷ (Host.econnrefused, Errno.econnrefused)
    ∷ (Host.econnreset, Errno.econnreset)
    ∷ (Host.edeadlk, Errno.edeadlk)
    ∷ (Host.edestaddrreq, Errno.edestaddrreq)
    ∷ (Host.edom, Errno.edom)
    ∷ (Host.edquot, Errno.edquot)
    ∷ (Host.eexist, Errno.eexist)
    ∷ (Host.efault, Errno.efault)
    ∷ (Host.efbig, Errno.efbig)
    ∷ (Host.ehostunreach, Errno.ehostunreach)
    ∷ (Host.eidrm, Errno.eidrm)
    ∷ (Host.eilseq, Errno.eilseq)
    ∷ (Host.einprogress, Errno.einprogress)
    ∷ (Host.eintr, Errno.eintr)
    ∷ (Host.einval, Errno.einval)
    ∷ (Host.eio, Errno.eio)
    ∷ (Host.eisconn, Errno.eisconn)
    ∷ (Host.eisdir, Errno.eisdir)
    ∷ (Host.eloop, Errno.eloop)
    ∷ (Host.emfile, Errno.emfile)
    ∷ (Host.emlink, Errno.emlink)
    ∷ (Host.emsgsize, Errno.emsgsize)
    ∷ (Host.emultihop, Errno.emultihop)
    ∷ (Host.enametoolong, Errno.enametoolong)
    ∷ (Host.enetdown, Errno.enetdown)
    ∷ (Host.enetreset, Errno.enetreset)
    ∷ (Host.enetunreach, Errno.enetunreach)
    ∷ (Host.enfile, Errno.enfile)
    ∷ (Host.enobufs, Errno.enobufs)
    ∷ (Host.enodev, Errno.enodev)
    ∷ (Host.enoent, Errno.enoent)
    ∷ (Host.enoexec, Errno.enoexec)
    ∷ (Host.enolck, Errno.enolck)
    ∷ (Host.enolink, Errno.enolink)
    ∷ (Host.enomem, Errno.enomem)
    ∷ (Host.enomsg, Errno.enomsg)
    ∷ (Host.enoprotoopt, Errno.enoprotoopt)
    ∷ (Host.enospc, Errno.enospc)
    ∷ (Host.enosys, Errno.enosys)
    ∷ (Host.enotconn, Errno.enotconn)
    ∷ (Host.enotdir, Errno.enotdir)
    ∷ (Host.enotempty, Errno.enotempty)
    ∷ (Host.enotrecoverable, Errno.enotrecoverable)
    ∷ (Host.enotsock, Errno.enotsock)
    ∷ (Host.enotsup, Errno.enotsup)
    ∷ (Host.enotty, Errno.enotty)
    ∷ (Host.enxio, Errno.enxio)
    ∷ (Host.eoverflow, Errno.eoverflow)
    ∷ (Host.eownerdead, Errno.eownerdead)
    ∷ (Host.eperm, Errno.eperm)
    ∷ (Host.epipe, Errno.epipe)
    ∷ (Host.eproto, Errno.eproto)
    ∷ (Host.eprotonosupport, Errno.eprotonosupport)
    ∷ (Host.eprototype, Errno.eprototype)
    ∷ (Host.erange, Errno.erange)
    ∷ (Host.erofs, Errno.erofs)
    ∷ (Host.espipe, Errno.espipe)
    ∷ (Host.esrch, Errno.esrch)
    ∷ (Host.estale, Errno.estale)
    ∷ (Host.etimedout, Errno.etimedout)
    ∷ (Host.etxtbsy, Errno.etxtbsy)
    ∷ (Host.exdev, Errno.exdev)
    ∷ []

unfoldable pub syscall_errno_to_wasi : ℕ → Run ℕ
unfolding switch
syscall_errno_to_wasi err = or_panic (switch of_syscall_cases err)

-- An error of Go, by what `errors.Is`, `errors.As` and its `Timeout` method say of it: whether it is
-- a cancelled context, a deadline that has passed, or an end or a closed file that was not expected;
-- the error number of the host or of WASI in it.
pub record GoError : Type 0 where
  pub is_canceled : Bool
  pub is_deadline_exceeded : Bool
  pub is_closed : Bool
  pub is_again : Bool
  pub sys_errno : Option ℕ
  pub wasi_errno : Option ℕ
  pub timeout : Option Bool

-- The end of `makeErrnoSlow`.
abbrev pub of_timeout : Option Bool → Run ℕ
of_timeout (some Bool.true) = ok Errno.etimedout
of_timeout (some Bool.false) = panic
of_timeout none = panic

unfoldable pub make_errno_slow : GoError → Run ℕ
unfolding syscall_errno_to_wasi
make_errno_slow err =
    let by_timeout = of_timeout err.timeout in
    if err.is_canceled
    then ok Errno.ecanceled
    else if err.is_deadline_exceeded
    then ok Errno.etimedout
    else if err.is_closed
    then ok Errno.eio
    else elim err.sys_errno [
      | some sys ↦ if sys == 0 then ok Errno.esuccess else syscall_errno_to_wasi sys
      | none ↦ elim err.wasi_errno [ some e ↦ ok e | none ↦ by_timeout ]
    ]

-- `makeErrno`; `none` is the error nil.
unfoldable pub make_errno : Option GoError → Run ℕ
unfolding make_errno_slow
make_errno none = ok Errno.esuccess
make_errno (some err) = if err.is_again then ok Errno.eagain else make_errno_slow err
