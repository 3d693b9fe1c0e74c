-- ===== src/Main/ScanOnce.antt =====
-- The daemon run with `--scan-once`: from the command line to the lines that it prints.
use mathlib.Core.List.{Perm}
use hsed.Base.{
  ℕ, ◌≡◌, refl, sym, ap, ◌∙◌, ◌⊎◌, inl, inr, ℤ, pos, ◌+ℤ◌, true, Option, none, some, List, [], ◌∷◌,
  ◌++◌, map, length, arith,
}
use hsed.Libc.{to_i64, add_long}
use hsed.Libc.Longs.{add_long-IsLong, to_i64-plus_zero, to_i64-zero_plus, to_i64-wraps_left}
use hsed.Libc.Numbers.{IsLong}
use hsed.Entry.{Entry}
use hsed.Protocol.{format_entry}
use hsed.Scan.System.{System}
use hsed.Scan.Growth.{Grown}
use hsed.Scan.OnePid.{Query}
use hsed.Scan.OnePid.Reported.{LacksMemory, total_size}
use hsed.Scan.Threads.{gather_pids}
use hsed.Scan.Threads.Counting.{scan_all}
use hsed.Scan.Run.{Qsort, scan, scan_stats}
use hsed.Scan.Run.Results.{Descending, scan_lem}
use hsed.Server.{entry_buffer, end_text}
use hsed.Main.{
  Options, defaults, parse_args, total_of, scan_once_lines, Run, exits, prints, scan_failed, start,
}
use hsed.Main.Arguments.{InRange, render, parse_args-render}

abbrev pub items_of : Option (Grown Entry) → Option (List Entry)
items_of none = none
items_of (some list) = some list.items

abbrev pub query_of : Options → Query
query_of o = record { min_size = o.min_size; uid_filter = o.uid_filter }

total_of_lem :
    (total : ℤ) (es : List Entry)
    → IsLong total
    → total_of total es ≡ to_i64 (total +ℤ total_size es)
unfolding total_of total_size
total_of_lem total [] h = sym (to_i64-plus_zero total h)
total_of_lem total (e ∷ es) h =
    total_of_lem (add_long total e.size) es (add_long-IsLong total e.size)
    ∙ to_i64-wraps_left total e.size (total_size es)

-- A line for each entry, and then their number and the sum of their sizes, as a `long long` that
-- wraps around.
abbrev pub printed : List Entry → List (List ℕ)
printed es =
    map (format_entry entry_buffer) es ++ end_text (length es) (to_i64 (total_size es)) ∷ []

module _ (sys : System) (qsort : Qsort) (prog reason : List ℕ) (euid : ℕ) where
  -- The program on a command line.
  abbrev pub run_main : List (List ℕ) → Run
  run_main args =
      start
        (λ min_size only_pid uid threads.
          items_of
            (scan sys qsort (record { min_size = min_size; uid_filter = uid }) only_pid threads))
        (λ min_size uid threads.
          scan_stats sys (record { min_size = min_size; uid_filter = uid }) threads)
        prog reason euid (parse_args args defaults)

  -- Where the names of the processes can be read, a command line that asks for options with
  -- `--scan-once`, their numbers in range, prints a line for each entry that the processes report
  -- for this size and owner, all of them and largest first, then their number and the sum of their
  -- sizes as a `long long` that wraps around, and the exit code is 0; only where some allocation
  -- fails, it prints no line, there is a message on stderr, and the code is 1.
  pub run_main_lem :
      (o : Options) (pids : List ℤ)
      → InRange o
      → o.scan_once ≡ true
      → gather_pids sys ≡ some pids
      → ((es : List Entry) × (run_main (render o) ≡ prints 0 (printed es))
          × Perm es (scan_all sys (query_of o) pids)
          × Descending es)
        ⊎ ((run_main (render o) ≡ exits 1 (scan_failed reason)) × LacksMemory sys)
  unfolding start scan_once_lines
  run_main_lem o pids h once gathered =
      elim (scan_lem sys qsort (query_of o) (pos 0) o.scan_threads pids gathered) [
        | inl (g, found, (_, perm, descending)) ↦ inl (
          g.items,
          rw (parse_args-render o h, start, once, found)
              (ap
                (λ t.
                  prints 0
                    (map (format_entry entry_buffer) g.items ++ end_text (length g.items) t ∷ []))
                (total_of_lem (pos 0) g.items (omega arith)
                  ∙ to_i64-zero_plus (total_size g.items))),
          perm,
          descending,
        )
        | inr (failed, lacks) ↦ inr (rw (parse_args-render o h, start, once, failed) refl, lacks)
      ]
