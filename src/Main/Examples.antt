-- ===== src/Main/Examples.antt =====
-- The command line at some options, and tests.
use native.Mathlib.Omega.{arith}
use mathlib.Core.List.{Perm}
use hsed.Base.{ℕ, List, ◌⊎◌, ◌≡◌, refl, pos, true, false, some, [], ◌∷◌, codes}
use hsed.Libc.{to_i32, strtol, str_eq}
use hsed.Entry.{Entry, uid_any}
use hsed.Scan.Fields.{is_all_digits}
use hsed.Scan.Growth.{list_init, push_from}
use hsed.Scan.Sample.{one_process}
use hsed.Scan.OnePid.Reported.{LacksMemory}
use hsed.Scan.Threads.{gather_pids}
use hsed.Scan.Threads.Counting.{scan_all}
use hsed.Scan.Run.Insertion.{insertion_qsort}
use hsed.Scan.Run.Results.{Descending}
use hsed.Main.Launch.{Answers, launch}
use hsed.Main.Launch.Messages.{heard, heard-launch}
use hsed.Main.Launch.PidFile.{Launched, launch-Launched}
use hsed.Main.ScanOnce.{query_of, run_main, printed, run_main_lem}
use hsed.Main.{
  exits, prints, scan_failed, Options, defaults, set_flag, set_value, parsed, help, unknown,
  parse_args,
}
use hsed.Main.Arguments.{render, parse_args-render}

abbrev served : Options
served = record {
  foreground = true;
  scan_once = false;
  stats_once = false;
  socket_path = some (codes "/tmp/hsed.sock");
  pidfile = codes "/tmp/hsed.pid";
  max_capture = 65536;
  min_size = pos 4096;
  uid_filter = uid_any;
  scan_threads = pos 8;
}

parse_args-render_example : parse_args (render served) defaults ≡ parsed served
parse_args-render_example = parse_args-render served (record {
  captures = omega arith;
  sizes = omega arith;
  users = omega arith;
  workers = omega arith;
})

-- A value that is missing, and a call for help after an option.
missing_value : parse_args (codes "--uid" ∷ []) defaults ≡ unknown (codes "--uid")
unfolding parse_args set_flag str_eq
missing_value = refl

asks_for_help : parse_args (codes "--foreground" ∷ codes "-h" ∷ []) defaults ≡ help
unfolding parse_args set_flag set_value str_eq
asks_for_help = refl

abbrev scans : Options
scans = record served { scan_once = true }

one_pid : gather_pids one_process ≡ some (pos 3 ∷ [])
unfolding gather_pids is_all_digits push_from list_init to_i32 strtol
one_pid = refl

abbrev no_memory : List ℕ
no_memory = codes "Cannot allocate memory"

run_main_lem_example :
    ((es : List Entry) × (run_main one_process insertion_qsort
          (codes "hsed")
          no_memory
          0
          (render scans)
        ≡ prints 0 (printed es))
      × Perm es (scan_all one_process (query_of scans) (pos 3 ∷ []))
      × Descending es)
    ⊎ ((run_main one_process insertion_qsort (codes "hsed") no_memory 0 (render scans)
          ≡ exits 1 (scan_failed no_memory))
        × LacksMemory one_process)
run_main_lem_example =
    run_main_lem one_process insertion_qsort (codes "hsed") no_memory 0 scans (pos 3 ∷ [])
      (record {
        captures = omega arith;
        sizes = omega arith;
        users = omega arith;
        workers = omega arith;
      })
      refl one_pid

abbrev root : Answers
root = record {
  euid = 0;
  first_fork = pos 0;
  second_fork = pos 0;
  setsid = pos 40;
  devnull = pos 3;
  pidfile_opens = true;
  pid = pos 41;
  strerror = codes "Resource temporarily unavailable";
  served = pos 0;
  removes = true;
}

launch-Launched_example :
    Launched
      (record served { foreground = false })
      root
      true
      (launch (record served { foreground = false }) root)
launch-Launched_example = launch-Launched (record served { foreground = false }) root true

heard-launch_example :
    heard false false (launch (record served { foreground = false }) root).0 ≡ true
heard-launch_example = heard-launch (record served { foreground = false }) root
