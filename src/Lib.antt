-- ===== src/Lib.antt =====
-- hsed finds files that are deleted but still open: a daemon scans /proc, serves a line protocol on
-- a Unix socket, empties such files or signals their owners, and streams what a process writes to
-- one of them. This library models the daemon: its scanner, its protocol, its connections and its
-- server, reclaim, the tracer and the command line.
--
-- Parts, and the files of the repository that they model:
--   Base             names, Boolean tests, lists, bits, integers and decimal text that all parts share
--   Libc             what the daemon uses of the C library: strtol, strtoul, strtok_r, strcasecmp,
--                    fgets, memmem. A C string is the list of its bytes in front of the NUL
--   Util             backend/src/util.c: hsed_strlcpy; Log: hsed_log_init, hsed_log, hsed_log_err
--   Outcome          a result, or -1 with a message
--   Base64           backend/src/base64.c: hsed_base64_encoded_len, hsed_base64_encode. Base64.Decode
--                    is a reader by RFC 4648 to compare it with; Plain: its letters in JSON
--   Entry            backend/src/proc_scan.h: limits, hsed_entry_t, hsed_stats_t
--   Protocol         backend/src/protocol.c: hsed_json_escape, hsed_format_entry, hsed_send_line,
--                    hsed_send_linef. Protocol.Reading is a reader of JSON strings, Protocol.Object
--                    one of JSON objects on a line, with the texts that stand for them
--   Scan             backend/src/proc_scan.c. Growth: hsed_list_t and list_push; Fields: read_cmdline,
--                    owner_name, fd_mode and the like; OnePid: scan_one_pid; Threads: gather_pids,
--                    pick_thread_count, scan_worker_fn, run_parallel_scan; Run: hsed_scan and
--                    hsed_scan_stats. OnePid.Fitting says which texts and numbers on the machine
--                    fit a line, with Fields.Texts, Lengths and Modes behind it
--   Server           backend/src/server.c. The handlers stand in Server; Recv: recv_line; Stream:
--                    stream_poll_cb and stream_write_cb; Loop: handle_connection; Replies:
--                    what handle_scan sends; ReadBack: the replies as a JSON reader takes them;
--                    Commands: the commands that tui/client/client.go prints;
--                    Accept: hsed_server_run, with the accept loop
--   Reclaim          backend/src/reclaim.c: hsed_truncate_fd and hsed_send_signal
--   Tracer           backend/src/tracer.c. Threads: the table of threads with find_or_add_tid and
--                    remove_tid; Capture: read_remote and capture_writev; Session: the main loop of
--                    hsed_trace_fd, a round at a time; Attach: discover_tids, attaching, the error
--                    paths, and hsed_trace_fd as a whole; Registers: the registers of x86-64 and of
--                    AArch64, and the function for other architectures
--   Streaming        the callbacks of handle_stream in backend/src/server.c put together with
--                    hsed_trace_fd: what stream_poll_cb reads of the client in each round, and the
--                    lines that stream_attached_cb and stream_write_cb send
--   Main             backend/src/hsed.c: the arguments, default_socket_path, run_scan_once and
--                    run_stats_once; Launch: daemonize, write_pidfile and the rest of main, with its
--                    messages. Main.Arguments writes options out as arguments
--   Daemon           the handlers of Server over Scan, Reclaim and Streaming, and whole commands: Commands
--                    for SCAN and TRUNCATE, Read for what a client reads, Stream for STREAM
--   Examples         in each part: tests, and the theorems at concrete data
--
-- How they interact: handle_connection reads a line by recv_line, splits it by strtok_r and calls a
-- handler; a handler calls the scanner, reclaim or the tracer and replies by hsed_send_line. The
-- scanner asks the kernel for each process, and its workers' results are joined.
--
-- What the code calls outside the repository:
--   * the kernel and the user database are the record Scan.System.System. It is a snapshot: one path
--     gives one answer during a scan. Files may have any contents, and any allocation may fail.
--     Only the allocations of the growing arrays and of the array of workers are modelled
--   * qsort is the record Scan.Run.Qsort, with its documented behaviour for comparison functions that
--     are total and transitive. Scan.Run.Insertion fills it
--   * send and recv are lists of events, in any order, with interruptions and failures
--   * the handlers reach the other parts by the record Server.Services; a trace may consume the
--     client's input, and each operation returns its result or the message of its error.
--     Daemon.services fills it with the scanner, reclaim and streams
--   * reclaim's calls are the record Reclaim.Kernel; Reclaim.Truncated.Documented is what they
--     document of files and descriptors, and Reclaim.Machine keeps to it
--   * the tracer and the accept loop get the system's answers as data, a round or a turn at a time,
--     and give what they ask of the system as a list of actions in order. The callbacks of a trace
--     are answers (poll_cb) and actions (attached_cb, write_cb); Streaming computes these answers from
--     the client's input, of which each round says how much has arrived, and sends lines for these
--     actions. The memory of the tracee is a function of an address and a length, and numbers in it
--     have their lowest byte first. The numbers of the system calls, which depend on the
--     architecture, are fields of Target
--
-- Integers: `long`, `long long` and `size_t` have 64 bits, `int`, `pid_t` and `uid_t` 32; casts wrap
-- and strtol saturates as written in Libc. Sums of file
-- sizes have the type `long long` and wrap around after each addition, which C leaves open and the
-- machine's addition does; Libc.Longs shows that this is the exact sum, wrapped around once.
--
-- Fuel: args_loop has a round for each byte that was read, and each round uses one up; mode_loop has a
-- round for each byte of the file, and each line has at least one; Server.Loop.connection takes its
-- fuel as an argument.
--
-- Loops that run on events stop as `waiting` or `still_reading` where the events end; the accept loop
-- stops as `serving` and a trace as `followed` where the turns or rounds end, and a connection as
-- `still_streaming` inside such a trace.
--
-- A thread that the kernel attaches by itself, since one that is followed has created it, is followed
-- from the round on in which the loop meets it; what the results say of attached threads is about
-- those that the session seized.
--
-- PTRACE_DETACH lets go of a thread only where it was stopped and waited for before. `unlink` may fail,
-- and its result is ignored. The end of a connection is one event of its input: recv_line ends there,
-- and a stream leaves it in the input, so that it is met whenever it is asked for.
--
-- Not modelled: the numbers of signals and priorities beside those that are named, waiting times, the
-- time of a signal (the accept loop gets the flag turn by turn), and the clients under tui. The threads
-- of connections run beside each other and share no state of the daemon, so no interleaving of them is
-- modelled.
pub mod Base
pub mod Base64
pub mod Entry
pub mod Outcome
pub mod Protocol
pub mod Reclaim
pub mod Libc
pub mod Main
pub mod Util
pub mod Scan
pub mod Tracer
pub mod Server
pub mod Streaming
pub mod Daemon
pub mod Examples
