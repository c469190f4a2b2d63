-- ===== src/Errno/Host.antt =====
-- The error numbers of Linux on amd64, as Go's package syscall has them.
use wasi_go.Base.{ℕ}

abbrev pub e2big : ℕ
e2big = 7

abbrev pub eacces : ℕ
eacces = 13

abbrev pub eaddrinuse : ℕ
eaddrinuse = 98

abbrev pub eaddrnotavail : ℕ
eaddrnotavail = 99

abbrev pub eafnosupport : ℕ
eafnosupport = 97

abbrev pub eagain : ℕ
eagain = 11

abbrev pub ealready : ℕ
ealready = 114

abbrev pub ebadf : ℕ
ebadf = 9

abbrev pub ebadmsg : ℕ
ebadmsg = 74

abbrev pub ebusy : ℕ
ebusy = 16

abbrev pub ecanceled : ℕ
ecanceled = 125

abbrev pub echild : ℕ
echild = 10

abbrev pub econnaborted : ℕ
econnaborted = 103

abbrev pub econnrefused : ℕ
econnrefused = 111

abbrev pub econnreset : ℕ
econnreset = 104

abbrev pub edeadlk : ℕ
edeadlk = 35

abbrev pub edestaddrreq : ℕ
edestaddrreq = 89

abbrev pub edom : ℕ
edom = 33

abbrev pub edquot : ℕ
edquot = 122

abbrev pub eexist : ℕ
eexist = 17

abbrev pub efault : ℕ
efault = 14

abbrev pub efbig : ℕ
efbig = 27

abbrev pub ehostunreach : ℕ
ehostunreach = 113

abbrev pub eidrm : ℕ
eidrm = 43

abbrev pub eilseq : ℕ
eilseq = 84

abbrev pub einprogress : ℕ
einprogress = 115

abbrev pub eintr : ℕ
eintr = 4

abbrev pub einval : ℕ
einval = 22

abbrev pub eio : ℕ
eio = 5

abbrev pub eisconn : ℕ
eisconn = 106

abbrev pub eisdir : ℕ
eisdir = 21

abbrev pub eloop : ℕ
eloop = 40

abbrev pub emfile : ℕ
emfile = 24

abbrev pub emlink : ℕ
emlink = 31

abbrev pub emsgsize : ℕ
emsgsize = 90

abbrev pub emultihop : ℕ
emultihop = 72

abbrev pub enametoolong : ℕ
enametoolong = 36

abbrev pub enetdown : ℕ
enetdown = 100

abbrev pub enetreset : ℕ
enetreset = 102

abbrev pub enetunreach : ℕ
enetunreach = 101

abbrev pub enfile : ℕ
enfile = 23

abbrev pub enobufs : ℕ
enobufs = 105

abbrev pub enodev : ℕ
enodev = 19

abbrev pub enoent : ℕ
enoent = 2

abbrev pub enoexec : ℕ
enoexec = 8

abbrev pub enolck : ℕ
enolck = 37

abbrev pub enolink : ℕ
enolink = 67

abbrev pub enomem : ℕ
enomem = 12

abbrev pub enomsg : ℕ
enomsg = 42

abbrev pub enoprotoopt : ℕ
enoprotoopt = 92

abbrev pub enospc : ℕ
enospc = 28

abbrev pub enosys : ℕ
enosys = 38

abbrev pub enotconn : ℕ
enotconn = 107

abbrev pub enotdir : ℕ
enotdir = 20

abbrev pub enotempty : ℕ
enotempty = 39

abbrev pub enotrecoverable : ℕ
enotrecoverable = 131

abbrev pub enotsock : ℕ
enotsock = 88

abbrev pub enotsup : ℕ
enotsup = 95

abbrev pub enotty : ℕ
enotty = 25

abbrev pub enxio : ℕ
enxio = 6

abbrev pub eoverflow : ℕ
eoverflow = 75

abbrev pub eownerdead : ℕ
eownerdead = 130

abbrev pub eperm : ℕ
eperm = 1

abbrev pub epipe : ℕ
epipe = 32

abbrev pub eproto : ℕ
eproto = 71

abbrev pub eprotonosupport : ℕ
eprotonosupport = 93

abbrev pub eprototype : ℕ
eprototype = 91

abbrev pub erange : ℕ
erange = 34

abbrev pub erofs : ℕ
erofs = 30

abbrev pub espipe : ℕ
espipe = 29

abbrev pub esrch : ℕ
esrch = 3

abbrev pub estale : ℕ
estale = 116

abbrev pub etimedout : ℕ
etimedout = 110

abbrev pub etxtbsy : ℕ
etxtbsy = 26

abbrev pub exdev : ℕ
exdev = 18
