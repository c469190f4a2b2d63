-- ===== src/Errno/Names.antt =====
-- error.go: the texts and the names of the error codes.
use wasi_go.Base.{ℕ, String, List, [], ◌∷◌, get_elem?}
use wasi_go.Text.{or_format}

abbrev pub error_strings : List String
error_strings =
    "OK" ∷ "Argument list too long" ∷ "Permission denied" ∷ "Address already in use"
    ∷ "Address not available" ∷ "Address family not supported by protocol family" ∷ "Try again"
    ∷ "Socket already connected" ∷ "Bad file number" ∷ "Trying to read unreadable message"
    ∷ "Device or resource busy" ∷ "Operation canceled." ∷ "No child processes"
    ∷ "Connection aborted" ∷ "Connection refused" ∷ "Connection reset by peer"
    ∷ "Deadlock condition" ∷ "Destination address required" ∷ "Math arg out of domain of func"
    ∷ "Quota exceeded" ∷ "File exists" ∷ "Bad address" ∷ "File too large" ∷ "Host is unreachable"
    ∷ "Identifier removed" ∷ "Illegal byte sequence" ∷ "Connection already in progress"
    ∷ "Interrupted system call" ∷ "Invalid argument" ∷ "I/O error" ∷ "Socket is already connected"
    ∷ "Is a directory" ∷ "Too many symbolic links" ∷ "Too many open files" ∷ "Too many links"
    ∷ "Message too long" ∷ "Multihop attempted" ∷ "File name too long"
    ∷ "Network interface is not configured" ∷ "Network dropped connection on reset"
    ∷ "Network is unreachable" ∷ "File table overflow" ∷ "No buffer space available"
    ∷ "No such device" ∷ "No such file or directory" ∷ "Exec format error"
    ∷ "No record locks available" ∷ "The link has been severed" ∷ "Out of memory"
    ∷ "No message of desired type" ∷ "Protocol not available" ∷ "No space left on device"
    ∷ "Not implemented" ∷ "Socket is not connected" ∷ "Not a directory" ∷ "Directory not empty"
    ∷ "State not recoverable" ∷ "Socket operation on non-socket" ∷ "Not supported"
    ∷ "Not a typewriter" ∷ "No such device or address" ∷ "Value too large for defined data type"
    ∷ "Owner died" ∷ "Operation not permitted" ∷ "Broken pipe" ∷ "Protocol error"
    ∷ "Unknown protocol" ∷ "Protocol wrong type for socket" ∷ "Math result not representable"
    ∷ "Read-only file system" ∷ "Illegal seek" ∷ "No such process" ∷ "Stale file handle"
    ∷ "Connection timed out" ∷ "Text file busy" ∷ "Cross-device link" ∷ "Capabilities insufficient"
    ∷ []

abbrev pub error_names : List String
error_names =
    "ESUCCESS" ∷ "E2BIG" ∷ "EACCES" ∷ "EADDRINUSE" ∷ "EADDRNOTAVAIL" ∷ "EAFNOSUPPORT" ∷ "EAGAIN"
    ∷ "EALREADY" ∷ "EBADF" ∷ "EBADMSG" ∷ "EBUSY" ∷ "ECANCELED" ∷ "ECHILD" ∷ "ECONNABORTED"
    ∷ "ECONNREFUSED" ∷ "ECONNRESET" ∷ "EDEADLK" ∷ "EDESTADDRREQ" ∷ "EDOM" ∷ "EDQUOT" ∷ "EEXIST"
    ∷ "EFAULT" ∷ "EFBIG" ∷ "EHOSTUNREACH" ∷ "EIDRM" ∷ "EILSEQ" ∷ "EINPROGRESS" ∷ "EINTR" ∷ "EINVAL"
    ∷ "EIO" ∷ "EISCONN" ∷ "EISDIR" ∷ "ELOOP" ∷ "EMFILE" ∷ "EMLINK" ∷ "EMSGSIZE" ∷ "EMULTIHOP"
    ∷ "ENAMETOOLONG" ∷ "ENETDOWN" ∷ "ENETRESET" ∷ "ENETUNREACH" ∷ "ENFILE" ∷ "ENOBUFS" ∷ "ENODEV"
    ∷ "ENOENT" ∷ "ENOEXEC" ∷ "ENOLCK" ∷ "ENOLINK" ∷ "ENOMEM" ∷ "ENOMSG" ∷ "ENOPROTOOPT" ∷ "ENOSPC"
    ∷ "ENOSYS" ∷ "ENOTCONN" ∷ "ENOTDIR" ∷ "ENOTEMPTY" ∷ "ENOTRECOVERABLE" ∷ "ENOTSOCK" ∷ "ENOTSUP"
    ∷ "ENOTTY" ∷ "ENXIO" ∷ "EOVERFLOW" ∷ "EOWNERDEAD" ∷ "EPERM" ∷ "EPIPE" ∷ "EPROTO"
    ∷ "EPROTONOSUPPORT" ∷ "EPROTOTYPE" ∷ "ERANGE" ∷ "EROFS" ∷ "ESPIPE" ∷ "ESRCH" ∷ "ESTALE"
    ∷ "ETIMEDOUT" ∷ "ETXTBSY" ∷ "EXDEV" ∷ "ENOTCAPABLE" ∷ []

-- The method `Error`.
unfoldable pub error : ℕ → String
unfolding or_format get_elem?
error e = or_format (get_elem? error_strings e) "Unknown Error (" e

-- The method `Name`.
unfoldable pub name : ℕ → String
unfolding or_format get_elem?
name e = or_format (get_elem? error_names e) "errno(" e
