-- ===== src/Daemon.antt =====
-- The daemon put together: the handlers of backend/src/server.c call the scanner of proc_scan.c,
-- the operations of reclaim.c and the tracer of tracer.c. A world is what the daemon runs in: the
-- scanner reads the system as it is in the world at that time.
pub mod Commands
pub mod Stream
pub mod Read
mod Sample
mod Examples
use hsed.Base.{ℕ, ℤ, pos, List, Bool, Option, none, some}
use hsed.Outcome.{Outcome, ok, err}
use hsed.Entry.{Entry, Stats}
use hsed.Scan.System.{System}
use hsed.Scan.Growth.{Grown}
use hsed.Scan.OnePid.{Query}
use hsed.Scan.Run.{Qsort, scan, scan_stats}
use hsed.Reclaim.{Kernel, truncate_fd, send_signal}
use hsed.Server.{Services}
use hsed.Tracer.Session.{Target, Action}
use hsed.Streaming.{StreamEnvironment, stream_fd}

-- The calls to the system and the client, and `strerror(errno)` after a scan that failed. A trace
-- of a process and a descriptor gets its answers from `traced`, and its calls act on the world by
-- `act`; the last three are the numbers of the system calls.
pub record Outside : Type 1 where
  pub kernel : Kernel
  pub system : kernel.World → System
  pub qsort : Qsort
  pub scan_error : kernel.World → List ℕ
  pub send : kernel.World → List ℕ → kernel.World × Bool
  pub traced : kernel.World → ℤ → ℤ → StreamEnvironment
  pub act : kernel.World → Action → kernel.World
  pub sys_write : ℤ
  pub sys_pwrite64 : ℤ
  pub sys_writev : ℤ

-- `char err[256]` of the handlers.
abbrev pub err_buffer : ℕ
err_buffer = 256

listed_or : List ℕ → Option (Grown Entry) → Outcome (List Entry)
listed_or reason none = err reason
listed_or reason (some list) = ok list.items

counted_or : List ℕ → Option Stats → Outcome Stats
counted_or reason none = err reason
counted_or reason (some stats) = ok stats

unfoldable pub run_scan : Outside → System → List ℕ → ℤ → ℤ → ℕ → ℤ → Outcome (List Entry)
unfolding listed_or
run_scan O sys reason min_size only_pid uid_filter threads =
    listed_or reason
      (scan sys O.qsort (record { min_size = min_size; uid_filter = uid_filter }) only_pid threads)

pub run_stats : System → List ℕ → ℤ → ℕ → ℤ → Outcome Stats
unfolding counted_or
run_stats sys reason min_size uid_filter threads =
    counted_or reason
      (scan_stats sys (record { min_size = min_size; uid_filter = uid_filter }) threads)

-- What a stream is about.
abbrev pub target_of : Outside → ℤ → ℕ → Target
target_of O fd max_capture = record {
  fd = fd;
  max_capture = max_capture;
  sys_write = O.sys_write;
  sys_pwrite64 = O.sys_pwrite64;
  sys_writev = O.sys_writev;
}

-- What the handlers call.
abbrev pub services : Outside → Services
services O = record {
  World = O.kernel.World;
  send = O.send;
  scan = λ w min_size only_pid uid_filter threads.
      (w, run_scan O (O.system w) (O.scan_error w) min_size only_pid uid_filter threads);
  scan_stats = λ w min_size uid_filter threads.
      (w, run_stats (O.system w) (O.scan_error w) min_size uid_filter threads);
  truncate_fd = λ w pid fd. truncate_fd O.kernel w pid fd err_buffer;
  send_signal = λ w pid sig. send_signal O.kernel w pid sig err_buffer;
  trace_fd = λ w events pid fd max_capture.
      stream_fd O.send O.act (O.traced w pid fd) (target_of O fd max_capture) pid err_buffer w
        events;
}
