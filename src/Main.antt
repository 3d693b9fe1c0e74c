-- ===== src/Main.antt =====
-- backend/src/hsed.c: the command line of the daemon, and its runs without a server.
pub mod Arguments
pub mod ScanOnce
pub mod Launch
mod Examples
use hsed.Base.{
  ℕ, ◌+◌, ℤ, pos, ◌+ℤ◌, Bool, true, false, ◌||◌, ◌==◌, Option, none, some, List, [], ◌∷◌, ◌++◌, map,
  length, codes, show_ℕ, if◌then◌else◌,
}
use hsed.Libc.{str_eq, strtol, strtoul, strtoul_uid, to_i32, add_long}
use hsed.Entry.{Entry, Stats, uid_any, scan_threads_auto}
use hsed.Protocol.{format_entry}
use hsed.Server.{entry_buffer, end_text, stats_text}

-- The local variables of `main` that the arguments set.
pub record Options : Type 0 where
  pub foreground : Bool
  pub scan_once : Bool
  pub stats_once : Bool
  pub socket_path : Option (List ℕ)
  pub pidfile : List ℕ
  pub max_capture : ℕ
  pub min_size : ℤ
  pub uid_filter : ℕ
  pub scan_threads : ℤ

abbrev pub default_max_capture : ℕ
default_max_capture = 200

abbrev pub defaults : Options
defaults = record {
  foreground = false;
  scan_once = false;
  stats_once = false;
  socket_path = none;
  pidfile = codes "/run/hsed.pid";
  max_capture = default_max_capture;
  min_size = pos 0;
  uid_filter = uid_any;
  scan_threads = pos scan_threads_auto;
}

-- The arguments that stand alone.
unfoldable pub set_flag : List ℕ → Options → Option Options
set_flag arg o =
    if str_eq arg (codes "--foreground")
    then some (record o { foreground = true })
    else if str_eq arg (codes "--scan-once")
    then some (record o { scan_once = true })
    else if str_eq arg (codes "--stats-once")
    then some (record o { stats_once = true })
    else none

-- The arguments that take the next one.
unfoldable pub set_value : List ℕ → List ℕ → Options → Option Options
set_value arg value o =
    if str_eq arg (codes "--socket")
    then some (record o { socket_path = some value })
    else if str_eq arg (codes "--pidfile")
    then some (record o { pidfile = value })
    else if str_eq arg (codes "--max-capture")
    then some (record o { max_capture = strtoul value })
    else if str_eq arg (codes "--min-size")
    then some (record o { min_size = strtol 10 value })
    else if str_eq arg (codes "--uid")
    then some (record o { uid_filter = strtoul_uid value })
    else if str_eq arg (codes "--scan-threads")
    then some (record o { scan_threads = to_i32 (strtol 10 value) })
    else none

-- `parsed` goes on; the others return 0 and 2.
pub data Parsed : Type 0 where
  parsed : Options → Parsed
  help : Parsed
  unknown : List ℕ → Parsed

refuse : List ℕ → Parsed
refuse arg = if str_eq arg (codes "--help") || str_eq arg (codes "-h") then help else unknown arg

-- The loop over `argv`, from `argv[1]` on.
unfoldable pub parse_args : List (List ℕ) → Options → Parsed
unfolding set_flag set_value refuse
parse_args [] o = parsed o
parse_args (arg ∷ []) o = elim (set_flag arg o) [ some o' ↦ parsed o' | none ↦ refuse arg ]
parse_args (arg ∷ value ∷ args) o = elim (set_flag arg o) [
  | some o' ↦ parse_args (value ∷ args) o'
  | none ↦ elim (set_value arg value o) [ some o' ↦ parse_args args o' | none ↦ refuse arg ]
]

-- `default_socket_path`.
unfoldable pub default_socket_path : ℕ → List ℕ
default_socket_path euid =
    if euid == 0
    then codes "/run/hsed.sock"
    else codes "/tmp/hsed-" ++ (show_ℕ euid ++ codes ".sock")

-- The sizes of some entries, added up in the order of the list.
unfoldable pub total_of : ℤ → List Entry → ℤ
unfolding add_long
total_of total [] = total
total_of total (e ∷ es) = total_of (add_long total e.size) es

-- What `run_scan_once` prints, line by line.
unfoldable pub scan_once_lines : List Entry → List (List ℕ)
unfolding total_of
scan_once_lines list =
    map (format_entry entry_buffer) list ++ end_text (length list) (total_of (pos 0) list) ∷ []

-- What `print_usage` writes.
unfoldable pub usage_text : List ℕ → List ℕ
usage_text prog =
    codes "Usage: "
    ++ (prog
        ++ (codes " [--foreground] [--scan-once] [--stats-once] [--socket PATH] "
            ++ (codes "[--pidfile PATH] [--max-capture N] [--min-size N] [--uid N] "
                ++ (codes "[--scan-threads N]" ++ 10 ∷ []))))

abbrev unknown_text : List ℕ → List ℕ
unknown_text arg = codes "unknown argument: " ++ (arg ++ 10 ∷ [])

-- What stands on stderr where a scan fails.
abbrev pub scan_failed : List ℕ → List ℕ
scan_failed reason = codes "scan failed: " ++ (reason ++ 10 ∷ [])

abbrev stats_failed : List ℕ → List ℕ
stats_failed reason = codes "stats scan failed: " ++ (reason ++ 10 ∷ [])

-- What `main` comes to: a run that prints lines, the server, or an exit code with text on stderr.
-- `none` is a scan that fails.
pub data Run : Type 0 where
  exits : ℕ → List ℕ → Run
  prints : ℕ → List (List ℕ) → Run
  serves : List ℕ → ℕ → ℤ → Run

print_list : List ℕ → Option (List Entry) → Run
unfolding scan_once_lines
print_list reason none = exits 1 (scan_failed reason)
print_list reason (some list) = prints 0 (scan_once_lines list)

print_stats : List ℕ → Option Stats → Run
print_stats reason none = exits 1 (stats_failed reason)
print_stats reason (some s) = prints 0 (stats_text s ∷ [])

unfoldable pub socket_or : Option (List ℕ) → ℕ → List ℕ
unfolding default_socket_path
socket_or none euid = default_socket_path euid
socket_or (some path) euid = path

-- `main` behind the options; the scans are `hsed_scan` and `hsed_scan_stats`, `prog` is `argv[0]`,
-- and `reason` is `strerror(errno)` after a scan that fails.
unfoldable pub start :
    (ℤ → ℤ → ℕ → ℤ → Option (List Entry))
    → (ℤ → ℕ → ℤ → Option Stats)
    → List ℕ
    → List ℕ
    → ℕ
    → Parsed
    → Run
unfolding print_list print_stats socket_or usage_text
start scan scan_stats prog reason euid help = exits 0 (usage_text prog)
start scan scan_stats prog reason euid (unknown arg) = exits 2 (unknown_text arg ++ usage_text prog)
start scan scan_stats prog reason euid (parsed o) =
    if o.scan_once
    then print_list reason (scan o.min_size (pos 0) o.uid_filter o.scan_threads)
    else if o.stats_once
    then print_stats reason (scan_stats o.min_size o.uid_filter o.scan_threads)
    else serves (socket_or o.socket_path euid) o.max_capture o.scan_threads
