-- ===== src/Server/Commands.antt =====
-- The commands as the client prints them (tui/client/client.go) reach the handlers with the numbers
-- that were printed.
use hsed.Base.{
  ℕ, ◌<◌, ◌^◌, ◌≡◌, refl, ap, ◌∙◌, ℤ, none, some, List, [], ◌∷◌, ◌++◌, codes, show_ℕ, show_ℤ,
}
use hsed.Libc.{is_delim, strtok, same_word}
use hsed.Libc.Numbers.{IsLong, IsInt, strtol-show_ℤ, to_i32-strtol-show_ℤ, strtoul_uid-show_ℕ}
use hsed.Libc.Words.{IsWord, strtok-append, strtok_all, show_ℕ-IsWord, show_ℤ-IsWord}
use hsed.Entry.{uid_any}
use hsed.Server.{
  Services, Settings, goes_on, handle_scan, handle_stats, handle_truncate, handle_hup, handle_kill,
  handle_stream,
}
use hsed.Server.Recv.{RecvEvent}
use hsed.Server.Loop.{handle_command, handle_line, run_word}

-- `"SCAN %d %d"` and, with an owner, `" %d"` behind it.
abbrev pub scan_command : ℤ → ℤ → List ℕ
scan_command min_size only_pid = codes "SCAN " ++ (show_ℤ min_size ++ b' ' ∷ show_ℤ only_pid)

abbrev pub scan_uid_command : ℤ → ℤ → ℕ → List ℕ
scan_uid_command min_size only_pid uid =
    codes "SCAN " ++ (show_ℤ min_size ++ b' ' ∷ (show_ℤ only_pid ++ b' ' ∷ show_ℕ uid))

abbrev pub stats_command : ℤ → List ℕ
stats_command min_size = codes "STATS " ++ show_ℤ min_size

abbrev pub stats_uid_command : ℤ → ℕ → List ℕ
stats_uid_command min_size uid = codes "STATS " ++ (show_ℤ min_size ++ b' ' ∷ show_ℕ uid)

-- `"TRUNCATE %d %d"` and `"STREAM %d %d"`; `"HUP %d"` and `"KILL %d"`.
abbrev pub pid_fd_command : List ℕ → ℤ → ℤ → List ℕ
pid_fd_command name pid fd = name ++ b' ' ∷ (show_ℤ pid ++ b' ' ∷ show_ℤ fd)

abbrev pub pid_command : List ℕ → ℤ → List ℕ
pid_command name pid = name ++ b' ' ∷ show_ℤ pid

strtok_nil : strtok [] ≡ (none, [])
unfolding strtok
strtok_nil = refl

scan-IsWord : IsWord (codes "SCAN")
unfolding is_delim
scan-IsWord = record {
  first = _;
  others = _;
  begins = refl;
  solid = (refl, (refl, (refl, (refl, tt))));
}

stats-IsWord : IsWord (codes "STATS")
unfolding is_delim
stats-IsWord = record {
  first = _;
  others = _;
  begins = refl;
  solid = (refl, (refl, (refl, (refl, (refl, tt)))));
}

truncate-IsWord : IsWord (codes "TRUNCATE")
unfolding is_delim
truncate-IsWord = record {
  first = _;
  others = _;
  begins = refl;
  solid = (refl, (refl, (refl, (refl, (refl, (refl, (refl, (refl, tt))))))));
}

stream-IsWord : IsWord (codes "STREAM")
unfolding is_delim
stream-IsWord = record {
  first = _;
  others = _;
  begins = refl;
  solid = (refl, (refl, (refl, (refl, (refl, (refl, tt))))));
}

hup-IsWord : IsWord (codes "HUP")
unfolding is_delim
hup-IsWord = record { first = _; others = _; begins = refl; solid = (refl, (refl, (refl, tt))) }

kill-IsWord : IsWord (codes "KILL")
unfolding is_delim
kill-IsWord = record {
  first = _;
  others = _;
  begins = refl;
  solid = (refl, (refl, (refl, (refl, tt))));
}

module _ (S : Services) (cfg : Settings) (w : S.World) (events : List RecvEvent) where
  -- The first word is taken off.
  handle_line-word :
      (cmd save : List ℕ)
      → IsWord cmd
      → handle_line S cfg w events (cmd ++ b' ' ∷ save) ≡ handle_command S cfg w events cmd save
  unfolding handle_line
  handle_line-word cmd save h = ap (run_word S cfg w events) (strtok-append cmd save h)

  -- SCAN, as the client prints it with a size in the range of `long long` and a process in that of
  -- `int`, scans with the size and the process that were printed, for any owner.
  pub handle_line-scan :
      (min_size only_pid : ℤ)
      → IsLong min_size
      → IsInt only_pid
      → handle_line S cfg w events (scan_command min_size only_pid)
        ≡ goes_on (handle_scan S w min_size only_pid uid_any cfg.scan_threads) events
  unfolding handle_command same_word
  handle_line-scan min_size only_pid h k =
      handle_line-word (codes "SCAN") _ scan-IsWord
      ∙ rw (
        strtok-append (show_ℤ min_size) (show_ℤ only_pid) (show_ℤ-IsWord min_size),
        strtok_all (show_ℤ only_pid) (show_ℤ-IsWord only_pid),
        strtok_nil,
        strtol-show_ℤ min_size h,
        to_i32-strtol-show_ℤ only_pid k,
      )

  -- SCAN with an owner, as the client prints it with numbers in the ranges of `long long`, `int` and
  -- `uid_t`, scans with the size and the process that were printed and for that owner.
  pub handle_line-scan_uid :
      (min_size only_pid : ℤ) (uid : ℕ)
      → IsLong min_size
      → IsInt only_pid
      → uid < 2 ^ 32
      → handle_line S cfg w events (scan_uid_command min_size only_pid uid)
        ≡ goes_on (handle_scan S w min_size only_pid uid cfg.scan_threads) events
  unfolding handle_command same_word
  handle_line-scan_uid min_size only_pid uid h k l =
      handle_line-word (codes "SCAN") _ scan-IsWord
      ∙ rw (
        strtok-append (show_ℤ min_size) (show_ℤ only_pid ++ b' ' ∷ show_ℕ uid)
            (show_ℤ-IsWord min_size),
        strtok-append (show_ℤ only_pid) (show_ℕ uid) (show_ℤ-IsWord only_pid),
        strtok_all (show_ℕ uid) (show_ℕ-IsWord uid),
        strtol-show_ℤ min_size h,
        to_i32-strtol-show_ℤ only_pid k,
        strtoul_uid-show_ℕ uid l,
      )

  -- STATS with an owner, as the client prints it with numbers in the ranges of `long long` and
  -- `uid_t`, counts with the size that was printed and for that owner.
  pub handle_line-stats_uid :
      (min_size : ℤ) (uid : ℕ)
      → IsLong min_size
      → uid < 2 ^ 32
      → handle_line S cfg w events (stats_uid_command min_size uid)
        ≡ goes_on (handle_stats S w min_size uid cfg.scan_threads) events
  unfolding handle_command same_word
  handle_line-stats_uid min_size uid h l =
      handle_line-word (codes "STATS") _ stats-IsWord
      ∙ rw (
        strtok-append (show_ℤ min_size) (show_ℕ uid) (show_ℤ-IsWord min_size),
        strtok_all (show_ℕ uid) (show_ℕ-IsWord uid),
        strtol-show_ℤ min_size h,
        strtoul_uid-show_ℕ uid l,
      )

  -- TRUNCATE and STREAM, as the client prints them with numbers in the range of `int`, act on the
  -- process and the descriptor that were printed.
  pub handle_line-pid_fd :
      (pid fd : ℤ)
      → IsInt pid
      → IsInt fd
      → (handle_line S cfg w events (pid_fd_command (codes "TRUNCATE") pid fd)
          ≡ goes_on (handle_truncate S w pid fd) events)
        × (handle_line S cfg w events (pid_fd_command (codes "STREAM") pid fd)
            ≡ handle_stream S w events pid fd cfg.max_capture)
  unfolding handle_command same_word
  handle_line-pid_fd pid fd h k = (
    handle_line-word (codes "TRUNCATE") _ truncate-IsWord
        ∙ rw (
          words,
          strtok_all (show_ℤ fd) (show_ℤ-IsWord fd),
          to_i32-strtol-show_ℤ pid h,
          to_i32-strtol-show_ℤ fd k,
        ),
    handle_line-word (codes "STREAM") _ stream-IsWord
        ∙ rw (
          words,
          strtok_all (show_ℤ fd) (show_ℤ-IsWord fd),
          to_i32-strtol-show_ℤ pid h,
          to_i32-strtol-show_ℤ fd k,
        ),
  )
    where
      words : strtok (show_ℤ pid ++ b' ' ∷ show_ℤ fd) ≡ (some (show_ℤ pid), show_ℤ fd)
      words = strtok-append (show_ℤ pid) (show_ℤ fd) (show_ℤ-IsWord pid)

  -- HUP and KILL, as the client prints them with a number in the range of `int`, act on the process
  -- that was printed.
  pub handle_line-pid :
      (pid : ℤ)
      → IsInt pid
      → (handle_line S cfg w events (pid_command (codes "HUP") pid)
          ≡ goes_on (handle_hup S w pid) events)
        × (handle_line S cfg w events (pid_command (codes "KILL") pid)
            ≡ goes_on (handle_kill S w pid) events)
  unfolding handle_command same_word
  handle_line-pid pid h = (
    handle_line-word (codes "HUP") _ hup-IsWord
        ∙ rw (strtok_all (show_ℤ pid) (show_ℤ-IsWord pid), to_i32-strtol-show_ℤ pid h),
    handle_line-word (codes "KILL") _ kill-IsWord
        ∙ rw (strtok_all (show_ℤ pid) (show_ℤ-IsWord pid), to_i32-strtol-show_ℤ pid h),
  )
