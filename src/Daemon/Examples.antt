-- ===== src/Daemon/Examples.antt =====
-- Commands at a daemon that runs on a machine with one file and one process, which holds a deleted
-- file open.
use native.Mathlib.Omega.{arith}
use mathlib.Core.List.{Perm}
use hsed.Base.{ℕ, ◌≡◌, map, refl, ◌⊎◌, ℤ, pos, true, false, some, List, [], ◌∷◌, ◌++◌, codes}
use hsed.Entry.{Entry}
use hsed.Protocol.Object.{read_object}
use hsed.Scan.Sample.{one_process}
use hsed.Scan.OnePid.Reported.{LacksMemory}
use hsed.Scan.Threads.Counting.{scan_all}
use hsed.Scan.Run.Insertion.{insertion_qsort}
use hsed.Scan.Run.Results.{Descending}
use hsed.Reclaim.{fd_path}
use hsed.Reclaim.Truncated.{Emptied}
use hsed.Reclaim.Machine.{Machine, machine, one_file, machine-Documented}
use hsed.Server.{Settings, goes_on, error_text, escaped_error, freed_text, reply}
use hsed.Server.Replies.{send_all, scan_lines}
use hsed.Server.Loop.{handle_line}
use hsed.Server.Commands.{scan_command, pid_fd_command}
use hsed.Streaming.Lines.{Log}
use hsed.Streaming.Sample.{small_stream}
use hsed.Daemon.Read.{answers, handle_line-scan-read}
use hsed.Daemon.Sample.{one_process-Fits, scanned_number, scanned_total}
use hsed.Daemon.{Outside, services}
use hsed.Daemon.Commands.{asked, handle_line-scan-answered, handle_line-truncate-answered}

abbrev small_daemon : Outside
small_daemon = record {
  kernel = machine;
  system = λ m. one_process;
  qsort = insertion_qsort;
  scan_error = λ m. codes "Cannot allocate memory";
  send = λ m s. (record m { sent = m.sent ++ s ∷ [] }, true);
  traced = λ m pid fd. small_stream;
  act = λ m a. m;
  sys_write = pos 1;
  sys_pwrite64 = pos 18;
  sys_writev = pos 20;
}

abbrev defaults : Settings
defaults = record { max_capture = 200; scan_threads = pos 0 }

abbrev full : Machine
full = record { bytes = pos 4096; opened = false; sent = [] }

handle_line-scan-answered_example :
    ((es : List Entry) × (handle_line
          (services small_daemon)
          defaults
          full
          []
          (scan_command (pos 1) (pos 7))
        ≡ goes_on
            (send_all (services small_daemon) full (scan_lines (services small_daemon) es))
            [])
      × Perm es (scan_all one_process (asked (pos 1)) (pos 7 ∷ []))
      × Descending es)
    ⊎ ((handle_line (services small_daemon) defaults full [] (scan_command (pos 1) (pos 7))
          ≡ goes_on
              (reply
                (services small_daemon)
                full
                (error_text (codes "scan failed: " ++ codes "Cannot allocate memory")))
              [])
        × LacksMemory one_process)
handle_line-scan-answered_example =
    handle_line-scan-answered small_daemon defaults full [] (λ m s. refl) (pos 1) (pos 7)
      (pos 7 ∷ []) (omega arith) (omega arith) refl

handle_line-truncate-answered_example :
    (m : Machine) × ((((f : Unit {0}) × (freed : ℤ) × (one_file.file_at full
            (fd_path (pos 12) (pos 3))
          ≡ some f)
        × Emptied machine one_file full m f freed
        × (handle_line
              (services small_daemon)
              defaults
              full
              []
              (pid_fd_command (codes "TRUNCATE") (pos 12) (pos 3))
            ≡ goes_on (reply (services small_daemon) m (freed_text freed)) []))
      ⊎ ((message : List ℕ) × ((g : Unit {0}) → one_file.size m g ≡ one_file.size full g)
          × (handle_line
                (services small_daemon)
                defaults
                full
                []
                (pid_fd_command (codes "TRUNCATE") (pos 12) (pos 3))
              ≡ goes_on (reply (services small_daemon) m (escaped_error message)) []))))
handle_line-truncate-answered_example =
    handle_line-truncate-answered small_daemon defaults full [] one_file machine-Documented (pos 12)
      (pos 3) (omega arith) (omega arith)

-- What the machine has sent.
abbrev sent_lines : Log Machine small_daemon.send small_daemon.act
sent_lines = record { sent = λ m. m.sent; sends = λ m s. refl; acts = λ m a. refl }

handle_line-scan-read_example :
    ((es : List Entry) × (lines : List (List ℕ)) × (handle_line
          (services small_daemon)
          defaults
          full
          []
          (scan_command (pos 1) (pos 7))
        ≡ goes_on (send_all (services small_daemon) full lines) [])
      × (map read_object lines ≡ answers es)
      × Perm es (scan_all one_process (asked (pos 1)) (pos 7 ∷ []))
      × Descending es)
    ⊎ ((handle_line (services small_daemon) defaults full [] (scan_command (pos 1) (pos 7))
          ≡ goes_on
              (reply
                (services small_daemon)
                full
                (error_text (codes "scan failed: " ++ codes "Cannot allocate memory")))
              [])
        × LacksMemory one_process)
handle_line-scan-read_example =
    handle_line-scan-read small_daemon defaults full [] (λ m s. refl) (pos 1) (pos 7) (pos 7 ∷ [])
      (omega arith) (omega arith) refl one_process-Fits scanned_number scanned_total
