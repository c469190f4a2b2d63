-- ===== src/Lib.antt =====
-- Verification of wasi-go: the file table that all its systems share, the table of descriptors below
-- it, the rights, the error codes, and the system for Unix over a kernel.
--
-- A guest calls the WASI system interface. The systems of the program (systems/unix) embed FileTable
-- of wasi.go, which looks descriptors up, checks rights and limits, and hands the call over to a File
-- or a Dir of the host. FileTable keeps its open files and its preopens in descriptor tables
-- (internal/descriptor/table.go), and its open directories in a map.
--
--   - Base, with Base/Tests, Base/Lists, Base/Outcome and Base/Int: shared names. A run of Go code is a
--     `Run`: a value, a run-time panic, or unfinished where fuel has run out. A descriptor is an integer
--     (ℤ); conversion to uint is `to_uint`, and that of a number to 32 bits `to_int32`.
--   - Bits: machine words, the operators ~ and &^ and the functions OnesCount64 and TrailingZeros64,
--     with their laws in Bits/Step, Bits/Laws and Bits/Words.
--   - Descriptor: internal/descriptor/table.go, one function for each method of Table. A table stands
--     for a partial map from descriptors to objects: Descriptor/View. Its operations against that map
--     are in Descriptor/Updates, Descriptor/Allocation, Descriptor/Pointer, Descriptor/Ranges and
--     Descriptor/Bounds; the lemmas on growing, on writing a slot and on what Len counts are in
--     Descriptor/Slots, Descriptor/Writes and Descriptor/Counts.
--   - Rights: rights.go, with the reading as sets in Rights/Laws.
--   - File: the structures and flags of file.go, and the interfaces File and Dir of wasi.go as one
--     record of functions over the state of the host. Nothing is assumed of these functions.
--   - FilePath: filepath.Clean and strings.HasPrefix of Go's library, as documented;
--     FilePath/Walk and FilePath/Joined say where a cleaned path leads.
--   - DirMap: a Go map with descriptors as keys, and its laws.
--   - FileTable: wasi.go. FileTable itself has the state, the lookups and Register and Preopen; the
--     methods on one descriptor are in FileTable/Descriptors, those on directories and Close in
--     FileTable/Directories, those with a path in FileTable/Paths. A method takes and returns the table
--     and the state of the host. The part of a method behind its lookup is a function of its own where
--     it is long (open_below, close_entry, renumber_entry, read_dir_of, set_rights_of, set_flags_of).
--     The other children are about these methods: Lookups, SocketLookups, Guards, PairGuards, Opening, Changes, Closing,
--     Renumbering, Reading, Seeking, Preopening, Ending, Sizes, Outside, and Confinement, which is about
--     all sequences of calls.
--   - Errno: error.go, with the conversions of error_unix.go and error_linux.go in Errno/Syscall, the
--     error numbers of Linux in Errno/Host, and the names in Errno/Names.
--   - Signal: the signals of exec.go. Text: what the names of codes use of package fmt.
--   - Subscription: the structures of poll.go, and the identifiers of clocks of time.go.
--   - Unix: systems/unix/system.go, its state and what it asks of the kernel. Unix/PollScan and Unix/Poll are
--     PollOneOff, split at its loops; Unix/Scanning, Unix/Packing, Unix/Polling and Unix/Expiry are
--     about it. Durations are
--     64-bit words, an instant is a number of nanoseconds.
--     Unix/Calls is what a system call returns, with ignoreEINTR, handleEINTR and closeTraceEBADF of
--     systems/unix/syscall_unix.go; Unix/Calls/Laws is about them.
--     Unix/Sockets is SockOpen with the constants of socket.go that it uses; Unix/SocketOpening is about
--     it. Unix/SocketKernel is what the other methods on sockets ask of the kernel, and the ways in which
--     they call it. Unix/Addresses is the addresses of socket.go and their conversions; Unix/Connections
--     is SockBind, SockConnect, SockListen, SockShutdown and the two methods that return an address;
--     Unix/Accept is SockAccept; Unix/Messages is SockRecv, SockSend and the two with an address; Unix/Options is
--     SockGetOpt and SockSetOpt. The part of a method behind its lookup is named after it, with `_on`.
--     Unix/SocketCalls is the calls as data; Unix/SocketKeeps and Unix/SocketAnswers are about all of
--     them, Unix/Accepting about SockAccept, Unix/BufferSizes about the options for buffers.
--     Unix/Resolving is SockAddressInfo over a resolver, and Unix/Resolutions is about it.
--     Unix/Processes is the methods on arguments, clocks, processes and random bytes; Unix/Lifecycle is
--     Close and Shutdown, and Unix/ShuttingDown is about them.
--     Unix/Directory is systems/unix/readdir_linux.go, on the bytes of its buffer. Unix/Dirents is the
--     records of getdents(2) and their bytes, Unix/Listing is a directory that the kernel lists,
--     Unix/Parsing is about one of them in the buffer;
--     Unix/DirRounds and Unix/Enumerating are about a round of the loop and about the whole of it.
--     Unix/FileKernel is what the methods of FD in systems/unix/file.go ask of the kernel; Unix/Files is
--     those on the file itself, Unix/FilePaths those with a path. Unix/OpenFlags and Unix/FileOpening are
--     about PathOpen, Unix/SettingFlags about FDStatSetFlags; Unix/OpeningBelow is about PathOpen of the
--     file table over these files. The flags of the kernel are those of Linux
--     on amd64.
--   - Tests: concrete runs.
--
-- The loop of PollOneOff waits for the kernel, which need not report anything, and a system call is made
-- again as long as it is interrupted: these take the rounds that they may run as an argument. So does
-- the loop of readDirEntries, for which as many rounds as the directory has records, and one more, are
-- shown to be enough.
--
-- Insert loops until a word has room; the model gives the loop two rounds, and that they are enough is
-- part of what is shown of it. The other loops go along a list, or along the 64 bits of a word.
-- Numbers in decimal have at most 20 digits, which is enough for 64 bits.
--
-- Where the code tests runtime.GOOS it is taken to be linux. The addresses that the system keeps to pass
-- them to the kernel are values, a time of the kernel is a number of nanoseconds, and what
-- closeTraceEBADF prints is left out.
--
-- Left out: contexts; the contents of buffers, which belong to the state of the host; that a slice is
-- shorter than 2^57 words is a hypothesis where it matters, and so it is, since a descriptor has 32
-- bits and Insert panics on one that wraps, that fewer than 2^31 files are open. Not modelled are
-- what is printed of the types of socket.go, fs.go, tracer.go,
-- the host module and the builder under imports, the HTTP extension, wasirun and the test suites.
pub mod Base
pub mod Bits
pub mod Descriptor
pub mod Text
pub mod Signal
pub mod Errno
pub mod Rights
pub mod File
pub mod FilePath
pub mod DirMap
pub mod FileTable
pub mod Subscription
pub mod Unix
pub mod Tests
