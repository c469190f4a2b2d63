-- ===== src/Errno.antt =====
-- error.go: the error codes of WASI, `Errno`, numbered by `iota`.
pub mod Host
pub mod Names
pub mod Syscall
pub mod Roundtrip
use wasi_go.Base.{ℕ}

abbrev pub esuccess : ℕ
esuccess = 0

abbrev pub e2big : ℕ
e2big = 1

abbrev pub eacces : ℕ
eacces = 2

abbrev pub eaddrinuse : ℕ
eaddrinuse = 3

abbrev pub eaddrnotavail : ℕ
eaddrnotavail = 4

abbrev pub eafnosupport : ℕ
eafnosupport = 5

abbrev pub eagain : ℕ
eagain = 6

abbrev pub ealready : ℕ
ealready = 7

abbrev pub ebadf : ℕ
ebadf = 8

abbrev pub ebadmsg : ℕ
ebadmsg = 9

abbrev pub ebusy : ℕ
ebusy = 10

abbrev pub ecanceled : ℕ
ecanceled = 11

abbrev pub echild : ℕ
echild = 12

abbrev pub econnaborted : ℕ
econnaborted = 13

abbrev pub econnrefused : ℕ
econnrefused = 14

abbrev pub econnreset : ℕ
econnreset = 15

abbrev pub edeadlk : ℕ
edeadlk = 16

abbrev pub edestaddrreq : ℕ
edestaddrreq = 17

abbrev pub edom : ℕ
edom = 18

abbrev pub edquot : ℕ
edquot = 19

abbrev pub eexist : ℕ
eexist = 20

abbrev pub efault : ℕ
efault = 21

abbrev pub efbig : ℕ
efbig = 22

abbrev pub ehostunreach : ℕ
ehostunreach = 23

abbrev pub eidrm : ℕ
eidrm = 24

abbrev pub eilseq : ℕ
eilseq = 25

abbrev pub einprogress : ℕ
einprogress = 26

abbrev pub eintr : ℕ
eintr = 27

abbrev pub einval : ℕ
einval = 28

abbrev pub eio : ℕ
eio = 29

abbrev pub eisconn : ℕ
eisconn = 30

abbrev pub eisdir : ℕ
eisdir = 31

abbrev pub eloop : ℕ
eloop = 32

abbrev pub emfile : ℕ
emfile = 33

abbrev pub emlink : ℕ
emlink = 34

abbrev pub emsgsize : ℕ
emsgsize = 35

abbrev pub emultihop : ℕ
emultihop = 36

abbrev pub enametoolong : ℕ
enametoolong = 37

abbrev pub enetdown : ℕ
enetdown = 38

abbrev pub enetreset : ℕ
enetreset = 39

abbrev pub enetunreach : ℕ
enetunreach = 40

abbrev pub enfile : ℕ
enfile = 41

abbrev pub enobufs : ℕ
enobufs = 42

abbrev pub enodev : ℕ
enodev = 43

abbrev pub enoent : ℕ
enoent = 44

abbrev pub enoexec : ℕ
enoexec = 45

abbrev pub enolck : ℕ
enolck = 46

abbrev pub enolink : ℕ
enolink = 47

abbrev pub enomem : ℕ
enomem = 48

abbrev pub enomsg : ℕ
enomsg = 49

abbrev pub enoprotoopt : ℕ
enoprotoopt = 50

abbrev pub enospc : ℕ
enospc = 51

abbrev pub enosys : ℕ
enosys = 52

abbrev pub enotconn : ℕ
enotconn = 53

abbrev pub enotdir : ℕ
enotdir = 54

abbrev pub enotempty : ℕ
enotempty = 55

abbrev pub enotrecoverable : ℕ
enotrecoverable = 56

abbrev pub enotsock : ℕ
enotsock = 57

abbrev pub enotsup : ℕ
enotsup = 58

abbrev pub enotty : ℕ
enotty = 59

abbrev pub enxio : ℕ
enxio = 60

abbrev pub eoverflow : ℕ
eoverflow = 61

abbrev pub eownerdead : ℕ
eownerdead = 62

abbrev pub eperm : ℕ
eperm = 63

abbrev pub epipe : ℕ
epipe = 64

abbrev pub eproto : ℕ
eproto = 65

abbrev pub eprotonosupport : ℕ
eprotonosupport = 66

abbrev pub eprototype : ℕ
eprototype = 67

abbrev pub erange : ℕ
erange = 68

abbrev pub erofs : ℕ
erofs = 69

abbrev pub espipe : ℕ
espipe = 70

abbrev pub esrch : ℕ
esrch = 71

abbrev pub estale : ℕ
estale = 72

abbrev pub etimedout : ℕ
etimedout = 73

abbrev pub etxtbsy : ℕ
etxtbsy = 74

abbrev pub exdev : ℕ
exdev = 75

abbrev pub enotcapable : ℕ
enotcapable = 76
