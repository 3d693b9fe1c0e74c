-- ===== src/Scan/Examples.antt =====
-- The scanner's theorems at a system with one process, which holds a deleted file, and tests.
use native.Mathlib.Omega.{arith}
use mathlib.Core.List.{flatten}
use hsed.Base.{
  ℕ, ◌≡◌, refl, pos, true, false, Option, none, some, List, [], ◌∷◌, length, All, codes,
  if◌then◌else◌, ◌/◌, ◌↔◌, ◌⊎◌, show_ℤ, show_ℕ, ◌+ℤ◌, c_string,
}
use hsed.Libc.{str_eq, str_starts, to_i32, strtol}
use hsed.Util.{strlcpy}
use hsed.Scan.Fields.{
  is_all_digits, is_virtual_target, comm_path, fd_mode, owner_name, read_cmdline, read_comm,
  read_first_line,
}
use hsed.Entry.{Entry, uid_any}
use hsed.Scan.System.{System}
use hsed.Scan.Growth.{
  Grown, list_init, list_init-IsValid, push_from, push_from_lem, next_capacity, IsValid, list_push,
}
use hsed.Scan.OnePid.{
  Found, Query, into_list, scan_one_pid, examine, is_filtered_out, fd_loop, check_link, check_stat,
  check_target, add_found, add_stats, entry_of, load,
}
use hsed.Scan.OnePid.Hidden.{IsHidden}
use hsed.Scan.OnePid.Complete.{examine_iff}
use hsed.Scan.OnePid.Reported.{reported, Delivers, LacksMemory, scan_one_pid-Delivers}
use hsed.Scan.OnePid.Hidden.{IsTold, reported-Tells}
use hsed.Scan.Threads.{
  gather_pids, chunks, pick_thread_count, run_parallel_scan, scan_worker_fn, deal,
}
use hsed.Scan.Threads.Gathered.{pids_named, gather_pids_lem}
use hsed.Scan.Threads.Partition.{IsShare, chunks_lem}
use hsed.Scan.Threads.Counting.{scan_all, run_parallel_scan-list}
use hsed.Scan.Run.{scan, scan_stats, cmp_by_size_desc}
use hsed.Scan.Run.Insertion.{insertion_sort, insertion_qsort}
use hsed.Scan.Run.Results.{ScanOutcome, scan_lem, Agrees, scan_stats-scan}

abbrev names_of : List ℕ → Option (List (List ℕ))
names_of path =
    if str_eq path (codes "/proc")
    then some (codes "self" ∷ codes "7" ∷ [])
    else some (codes "." ∷ codes "0" ∷ codes "3" ∷ [])

abbrev link_of : List ℕ → Option (List ℕ)
link_of path =
    if str_eq path (codes "/proc/7/fd/3")
    then some (codes "/var/log/app.log (deleted)")
    else some (codes "/dev/null")

abbrev small_system : System
small_system = record {
  opendir = names_of;
  stat = λ path.
      some (record {
        st_uid = 1000;
        st_size = pos 8192;
        st_ino = 42;
        st_dev = 2049;
        st_mtime = pos 5;
      });
  readlink = link_of;
  file = λ path. none;
  user_name = λ uid. some (codes "app");
  major = λ dev. dev / 256;
  minor = λ dev. 1;
  nprocessors = pos 2;
  has_memory = λ n. true;
}

abbrev all_files : Query
all_files = record { min_size = pos 4096; uid_filter = uid_any }

abbrev log_entry : Entry
log_entry = record {
  pid = pos 7;
  fd = pos 3;
  mode = codes "?";
  size = pos 8192;
  uid = 1000;
  user = codes "app";
  comm = codes "?";
  cmdline = codes "?";
  path = codes "/var/log/app.log";
  inode = 42;
  dev_major = 8;
  dev_minor = 1;
  mtime = pos 5;
}

abbrev listed : Grown Entry
listed = record { items = log_entry ∷ []; count = 1; capacity = 64 }

gathered : gather_pids small_system ≡ some (pos 7 ∷ [])
unfolding gather_pids str_eq is_all_digits push_from list_init to_i32 strtol
gathered = refl

scan_test : scan small_system insertion_qsort all_files (pos 0) (pos 0) ≡ some listed
unfolding scan insertion_sort gather_pids str_eq is_all_digits push_from list_init to_i32 strtol
    run_parallel_scan chunks pick_thread_count scan_worker_fn scan_one_pid is_filtered_out fd_loop
    examine check_link show_ℤ ◌+ℤ◌ c_string show_ℕ check_stat check_target str_starts
    is_virtual_target add_found add_stats deal cmp_by_size_desc entry_of load comm_path fd_mode
    owner_name read_cmdline read_comm read_first_line list_push strlcpy
scan_test = refl

scan_stats_test :
    scan_stats small_system all_files (pos 3) ≡ some (record { count = 1; total_bytes = pos 8192 })
unfolding scan_stats gather_pids str_eq is_all_digits push_from list_init to_i32 strtol
    run_parallel_scan chunks pick_thread_count scan_worker_fn scan_one_pid is_filtered_out fd_loop
    examine check_link show_ℤ ◌+ℤ◌ c_string show_ℕ check_stat check_target str_starts
    is_virtual_target add_found add_stats deal
scan_stats_test = refl

scan_lem_example :
    ScanOutcome small_system
      (scan_all small_system all_files (pos 7 ∷ []))
      (scan small_system insertion_qsort all_files (pos 0) (pos 4))
scan_lem_example =
    scan_lem small_system insertion_qsort all_files (pos 0) (pos 4) (pos 7 ∷ []) gathered

scan_stats-scan_example : Agrees (record { count = 1; total_bytes = pos 8192 }) listed
scan_stats-scan_example =
    scan_stats-scan small_system insertion_qsort all_files (pos 0) (pos 3) listed
      (record { count = 1; total_bytes = pos 8192 }) scan_test scan_stats_test

reported-Tells_example :
    All (IsTold small_system all_files (pos 7)) (reported small_system all_files (pos 7))
reported-Tells_example = reported-Tells small_system all_files (pos 7)

scan_one_pid-Delivers_example :
    Delivers small_system
      (into_list list_init)
      (reported small_system all_files (pos 7))
      (scan_one_pid small_system all_files (pos 7) (into_list list_init))
scan_one_pid-Delivers_example =
    scan_one_pid-Delivers small_system all_files (pos 7) (into_list list_init) list_init-IsValid

run_parallel_scan-list_example :
    ((g : Grown Entry) × (run_parallel_scan small_system all_files
          (pos 2)
          false
          (pos 7 ∷ pos 8 ∷ [])
        ≡ some (into_list g))
      × IsValid g
      × (g.items ≡ scan_all small_system all_files (pos 7 ∷ pos 8 ∷ [])))
    ⊎ ((run_parallel_scan small_system all_files (pos 2) false (pos 7 ∷ pos 8 ∷ []) ≡ none)
        × LacksMemory small_system)
run_parallel_scan-list_example =
    run_parallel_scan-list small_system all_files (pos 2) (pos 7 ∷ pos 8 ∷ [])

chunks_lem_example :
    (flatten (chunks 2 (pos 7 ∷ pos 8 ∷ pos 9 ∷ [])) ≡ pos 7 ∷ pos 8 ∷ pos 9 ∷ [])
    × (length (chunks 2 (pos 7 ∷ pos 8 ∷ pos 9 ∷ [])) ≡ 2)
    × All (IsShare 1) (chunks 2 (pos 7 ∷ pos 8 ∷ pos 9 ∷ []))
chunks_lem_example = chunks_lem 2 (pos 7 ∷ pos 8 ∷ pos 9 ∷ []) (omega arith)

push_from_lem_example :
    ((r : Grown Entry) × (push_from small_system 64 listed log_entry ≡ some r)
      × IsValid r
      × (r.items ≡ log_entry ∷ log_entry ∷ []))
    ⊎ ((push_from small_system 64 listed log_entry ≡ none)
        × (listed.count ≡ listed.capacity)
        × (small_system.has_memory (next_capacity 64 listed) ≡ false))
push_from_lem_example =
    push_from_lem small_system 64 listed log_entry (omega arith)
      (record { counted = refl; within = omega arith })

abbrev log_found : Found
log_found = record {
  fdnum = pos 3;
  target = codes "/var/log/app.log";
  st = record { st_uid = 1000; st_size = pos 8192; st_ino = 42; st_dev = 2049; st_mtime = pos 5 };
}

examine_iff_example :
    (examine small_system all_files (codes "/proc/7/fd") (codes "3") ≡ some log_found)
    ↔ IsHidden small_system all_files (codes "/proc/7/fd") (codes "3") log_found
examine_iff_example = examine_iff small_system all_files (codes "/proc/7/fd") (codes "3") log_found

gather_pids_lem_example :
    ((small_system.opendir (codes "/proc") ≡ none) × (gather_pids small_system ≡ none))
    ⊎ ((names : List (List ℕ)) × (small_system.opendir (codes "/proc") ≡ some names)
        × ((gather_pids small_system ≡ some (pids_named names))
            ⊎ ((gather_pids small_system ≡ none) × LacksMemory small_system)))
gather_pids_lem_example = gather_pids_lem small_system
