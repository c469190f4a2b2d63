-- ===== src/Signal.antt =====
-- exec.go: the signals, numbered by `iota`, with their texts and names.
use wasi_go.Base.{ℕ, String, List, [], ◌∷◌, get_elem?}
use wasi_go.Text.{or_format}

abbrev pub signone : ℕ
signone = 0

abbrev pub sighup : ℕ
sighup = 1

abbrev pub sigint : ℕ
sigint = 2

abbrev pub sigquit : ℕ
sigquit = 3

abbrev pub sigill : ℕ
sigill = 4

abbrev pub sigtrap : ℕ
sigtrap = 5

abbrev pub sigabrt : ℕ
sigabrt = 6

abbrev pub sigbus : ℕ
sigbus = 7

abbrev pub sigfpe : ℕ
sigfpe = 8

abbrev pub sigkill : ℕ
sigkill = 9

abbrev pub sigusr1 : ℕ
sigusr1 = 10

abbrev pub sigsegv : ℕ
sigsegv = 11

abbrev pub sigusr2 : ℕ
sigusr2 = 12

abbrev pub sigpipe : ℕ
sigpipe = 13

abbrev pub sigalrm : ℕ
sigalrm = 14

abbrev pub sigterm : ℕ
sigterm = 15

abbrev pub sigchld : ℕ
sigchld = 16

abbrev pub sigcont : ℕ
sigcont = 17

abbrev pub sigstop : ℕ
sigstop = 18

abbrev pub sigtstp : ℕ
sigtstp = 19

abbrev pub sigttin : ℕ
sigttin = 20

abbrev pub sigttou : ℕ
sigttou = 21

abbrev pub sigurg : ℕ
sigurg = 22

abbrev pub sigxcpu : ℕ
sigxcpu = 23

abbrev pub sigxfsz : ℕ
sigxfsz = 24

abbrev pub sigvtalrm : ℕ
sigvtalrm = 25

abbrev pub sigprof : ℕ
sigprof = 26

abbrev pub sigwinch : ℕ
sigwinch = 27

abbrev pub sigpoll : ℕ
sigpoll = 28

abbrev pub sigpwr : ℕ
sigpwr = 29

abbrev pub sigsys : ℕ
sigsys = 30

abbrev pub signal_strings : List String
signal_strings =
    "no signal" ∷ "hangup" ∷ "interrupt" ∷ "quit" ∷ "illegal instruction" ∷ "trace/breakpoint trap"
    ∷ "abort" ∷ "bus error" ∷ "floating point exception" ∷ "killed" ∷ "user-defined signal 1"
    ∷ "segmentation fault" ∷ "user-defined signal 2" ∷ "broken pipe" ∷ "alarm clock" ∷ "terminated"
    ∷ "child exited" ∷ "continued" ∷ "stopped (signal)" ∷ "stopped" ∷ "stopped (tty input)"
    ∷ "stopped (tty output)" ∷ "urgent I/O condition" ∷ "CPU time limit exceeded"
    ∷ "file size limit exceeded" ∷ "virtual timer expired" ∷ "profiling timer expired"
    ∷ "window changed" ∷ "I/O possible" ∷ "power failure" ∷ "bad system call" ∷ []

abbrev pub signal_names : List String
signal_names =
    "SIGNONE" ∷ "SIGHUP" ∷ "SIGINT" ∷ "SIGQUIT" ∷ "SIGILL" ∷ "SIGTRAP" ∷ "SIGABRT" ∷ "SIGBUS"
    ∷ "SIGFPE" ∷ "SIGKILL" ∷ "SIGUSR1" ∷ "SIGSEGV" ∷ "SIGUSR2" ∷ "SIGPIPE" ∷ "SIGALRM" ∷ "SIGTERM"
    ∷ "SIGCHLD" ∷ "SIGCONT" ∷ "SIGSTOP" ∷ "SIGTSTP" ∷ "SIGTTIN" ∷ "SIGTTOU" ∷ "SIGURG" ∷ "SIGXCPU"
    ∷ "SIGXFSZ" ∷ "SIGVTALRM" ∷ "SIGPROF" ∷ "SIGWINCH" ∷ "SIGPOLL" ∷ "SIGPWR" ∷ "SIGSYS" ∷ []

-- The method `String`.
unfoldable pub text : ℕ → String
unfolding or_format get_elem?
text s = or_format (get_elem? signal_strings s) "Signal(" s

-- The method `Name`.
unfoldable pub name : ℕ → String
unfolding or_format get_elem?
name s = or_format (get_elem? signal_names s) "Signal(" s
