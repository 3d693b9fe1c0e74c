-- ===== src/Daemon/Commands.antt =====
-- Commands of the client from the line that comes in to what the daemon did and sent.
use mathlib.Core.List.{Perm}
use hsed.Base.{ℕ, ◌≡◌, refl, ap, ◌∙◌, ◌⊎◌, inl, inr, ℤ, some, true, List, ◌++◌, codes}
use hsed.Entry.{Entry, uid_any}
use hsed.Libc.Numbers.{IsLong, IsInt}
use hsed.Scan.OnePid.{Query}
use hsed.Scan.OnePid.Reported.{LacksMemory}
use hsed.Scan.Threads.Counting.{scan_all}
use hsed.Scan.Run.Results.{Descending, scope, scan_lem}
use hsed.Reclaim.{fd_path, truncate_fd}
use hsed.Reclaim.Truncated.{Files, Documented, Emptied, truncate_fd_lem}
use hsed.Server.{
  Settings, goes_on, error_text, escaped_error, freed_text, reply, handle_scan, handle_truncate,
}
use hsed.Server.Recv.{RecvEvent}
use hsed.Server.Replies.{send_all, scan_lines, handle_scan_lem}
use hsed.Server.Loop.{handle_line}
use hsed.Server.Commands.{scan_command, pid_fd_command, handle_line-scan, handle_line-pid_fd}
use hsed.Daemon.{Outside, err_buffer, services, run_scan}

-- The scan that `SCAN min_size only_pid` asks for.
abbrev pub asked : ℤ → Query
asked min_size = record { min_size = min_size; uid_filter = uid_any }

module _ (O : Outside) (cfg : Settings) (w : O.kernel.World) (events : List RecvEvent) where
  -- Where every line can be sent and the names of the processes can be read, the line
  -- `SCAN min_size only_pid` that the client prints, with numbers in range, is answered by a line for
  -- each entry that the processes in scope report, all of them and largest first, and then their
  -- number and the sum of their sizes, as a `long long` that wraps around; only where some allocation
  -- fails, the answer is an error line.
  pub handle_line-scan-answered :
      ((w : O.kernel.World) (s : List ℕ) → (O.send w s).1 ≡ true)
      → (min_size only_pid : ℤ) (pids : List ℤ) → IsLong min_size
      → IsInt only_pid
      → scope (O.system w) only_pid ≡ some pids
      → ((es : List Entry) × (handle_line (services O) cfg w events (scan_command min_size only_pid)
            ≡ goes_on (send_all (services O) w (scan_lines (services O) es)) events)
          × Perm es (scan_all (O.system w) (asked min_size) pids)
          × Descending es)
        ⊎ ((handle_line (services O) cfg w events (scan_command min_size only_pid)
              ≡ goes_on
                  (reply (services O) w (error_text (codes "scan failed: " ++ O.scan_error w)))
                  events)
            × LacksMemory (O.system w))
  unfolding run_scan handle_scan reply
  handle_line-scan-answered sends min_size only_pid pids h k inside =
      elim (scan_lem (O.system w) O.qsort (asked min_size) only_pid cfg.scan_threads pids inside) [
        | inl (g, found, (_, perm, descending)) ↦ inl (
          g.items,
          arrives
              ∙ ap (λ w'. goes_on w' events)
                  (handle_scan_lem (services O) sends w min_size only_pid uid_any cfg.scan_threads
                    g.items (rw found refl)),
          perm,
          descending,
        )
        | inr (failed, lacks) ↦ inr (arrives ∙ rw (handle_scan, failed) refl, lacks)
      ]
    where
      arrives :
          handle_line (services O) cfg w events (scan_command min_size only_pid)
          ≡ goes_on (handle_scan (services O) w min_size only_pid uid_any cfg.scan_threads) events
      arrives = handle_line-scan (services O) cfg w events min_size only_pid h k

  -- Where the system keeps to what its calls document, the line `TRUNCATE pid fd` that the client
  -- prints, with numbers in range, either empties the file that the descriptor refers to, no other
  -- one, and is answered by the size that it had, or changes no file and is answered by an error
  -- line.
  pub handle_line-truncate-answered :
      (F : Files O.kernel)
      → Documented O.kernel F
      → (pid fd : ℤ) → IsInt pid
      → IsInt fd
      → (w' : O.kernel.World) × ((((f : F.File) × (freed : ℤ) × (F.file_at w (fd_path pid fd)
              ≡ some f)
            × Emptied O.kernel F w w' f freed
            × (handle_line (services O) cfg w events (pid_fd_command (codes "TRUNCATE") pid fd)
                ≡ goes_on (reply (services O) w' (freed_text freed)) events))
          ⊎ ((message : List ℕ) × ((g : F.File) → F.size w' g ≡ F.size w g)
              × (handle_line (services O) cfg w events (pid_fd_command (codes "TRUNCATE") pid fd)
                  ≡ goes_on (reply (services O) w' (escaped_error message)) events))))
  unfolding handle_truncate
  handle_line-truncate-answered F D pid fd h k =
      let outcome = truncate_fd O.kernel w pid fd err_buffer in
      let arrives = (handle_line-pid_fd (services O) cfg w events pid fd h k).0 in
      (
        outcome.0,
        elim ((truncate_fd_lem O.kernel F D w pid fd err_buffer).0) [
          | inl (f, freed, found, e, done) ↦
              inl (f, freed, found, done, arrives ∙ rw (handle_truncate, e) refl)
          | inr (message, e, same) ↦ inr (message, same, arrives ∙ rw (handle_truncate, e) refl)
        ],
      )
