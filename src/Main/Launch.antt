-- ===== src/Main/Launch.antt =====
-- backend/src/hsed.c: `main` from the choice of the server on, with `daemonize` and `write_pidfile`.
pub mod PidFile
pub mod Messages
use hsed.Base.{
  ℕ, ◌+◌, ◌≡◌, refl, sym, ap, subst, ◌∙◌, ◌⊎◌, inl, inr, ℤ, pos, ltb_ℤ, eqb_ℤ, Bool, true, false,
  ◌==◌, Option, none, some, List, [], ◌∷◌, ◌++◌, map, codes, show_ℕ, show_ℤ, Bool-cases,
  if◌then◌else◌,
}
use hsed.Libc.{str_eq}
use hsed.Libc.Strings.{str_eq_refl}
use hsed.Util.Log.{Logged, to_stderr, log_init, log, log_err}
use hsed.Main.{Options, socket_or}

pub data Signal : Type 0 where
  sigterm sigint sigpipe : Signal

-- `g_shutdown` after a signal: the handler `on_shutdown_signal` sets it, and SIGPIPE is ignored.
pub deliver : Bool → Signal → Bool
deliver shutdown sigterm = true
deliver shutdown sigint = true
deliver shutdown sigpipe = shutdown

-- The results of `geteuid`, the two calls of `fork`, `setsid`, `open`, `fopen`, `getpid` and
-- `hsed_server_run`; `strerror` is what a call that fails gives, and `removes`
-- tells whether the last `unlink` succeeds.
pub record Answers : Type 0 where
  pub euid : ℕ
  pub first_fork : ℤ
  pub second_fork : ℤ
  pub setsid : ℤ
  pub devnull : ℤ
  pub pidfile_opens : Bool
  pub pid : ℤ
  pub strerror : List ℕ
  pub served : ℤ
  pub removes : Bool

-- `report` is a message on stderr or in the log; `redirect` sends the three standard streams to
-- /dev/null; `store` writes a file anew; `unlink` comes with whether it succeeds.
pub data Effect : Type 0 where
  report : Logged → Effect
  set_signals fork setsid chdir redirect : Effect
  umask : ℕ → Effect
  close : ℤ → Effect
  store : List ℕ → List ℕ → Effect
  serve : List ℕ → ℕ → ℤ → Effect
  unlink : Bool → List ℕ → Effect

perror : Answers → List ℕ → Effect
perror a call = report (to_stderr (call ++ (codes ": " ++ (a.strerror ++ 10 ∷ []))))

detach_streams : ℤ → List Effect
detach_streams devnull =
    if ltb_ℤ devnull (pos 0)
    then []
    else if ltb_ℤ (pos 2) devnull
    then redirect ∷ close devnull ∷ []
    else redirect ∷ []

-- From the second `fork` on, with the exit code where the process ends here.
second_half : Answers → List Effect × Option ℕ
unfolding detach_streams perror
second_half a =
    if ltb_ℤ a.second_fork (pos 0)
    then (perror a (codes "fork") ∷ [], some 1)
    else if ltb_ℤ (pos 0) a.second_fork
    then (fork ∷ [], some 0)
    else (fork ∷ umask 0 ∷ chdir ∷ detach_streams a.devnull, none)

unfoldable pub daemonize : Answers → List Effect × Option ℕ
unfolding second_half perror
daemonize a =
    let (effects, ending) = second_half a in
    if ltb_ℤ a.first_fork (pos 0)
    then (perror a (codes "fork") ∷ [], some 1)
    else if ltb_ℤ (pos 0) a.first_fork
    then (fork ∷ [], some 0)
    else if ltb_ℤ a.setsid (pos 0)
    then (fork ∷ perror a (codes "setsid") ∷ [], some 1)
    else (fork ∷ setsid ∷ effects, ending)

unfoldable pub write_pidfile : Bool → Answers → List ℕ → List Effect
write_pidfile use_syslog a path =
    if a.pidfile_opens
    then store path (show_ℤ a.pid ++ 10 ∷ []) ∷ []
    else map report (
        log_err use_syslog
          (codes "could not write pidfile " ++ (path ++ (codes ": " ++ a.strerror))))

abbrev pub exit_code : ℤ → ℕ
exit_code rc = if eqb_ℤ rc (pos 0) then 0 else 1

warning : List ℕ
warning =
    codes "[!] Running without root: only your own processes are visible, "
    ++ (codes "and truncate/signal/stream actions will fail with EPERM on "
        ++ (codes "anything you don't own. Run with sudo for full coverage." ++ 10 ∷ []))

greeting : Answers → List Effect
unfolding warning
greeting a = if a.euid == 0 then set_signals ∷ [] else report (to_stderr warning) ∷ set_signals ∷ []

starting_text : Options → Answers → List ℕ
unfolding socket_or
starting_text o a =
    codes "hsed starting (pid "
    ++ (show_ℤ a.pid
        ++ (codes ", socket "
            ++ (socket_or o.socket_path a.euid
                ++ (codes ", max_capture "
                    ++ (show_ℕ o.max_capture
                        ++ (codes ", scan_threads " ++ (show_ℤ o.scan_threads ++ codes ")")))))))

-- `hsed_log_init` and the lines up to the server.
started : Bool → Options → Answers → List Effect → List Effect
unfolding starting_text
started use_syslog o a between =
    map report (log_init use_syslog) ++ (between ++ map report (log use_syslog (starting_text o a)))

run_server : Options → Answers → Effect
unfolding socket_or
run_server o a = serve (socket_or o.socket_path a.euid) o.max_capture o.scan_threads

background : Options → Answers → List Effect × Option ℕ → List Effect × ℕ
unfolding write_pidfile run_server started
background o a (effects, some code) = (effects, code)
background o a (effects, none) = (
  effects
      ++ (started true o a (write_pidfile true a o.pidfile)
          ++ run_server o a ∷ unlink a.removes o.pidfile ∷ []),
  exit_code a.served,
)

unfoldable pub launch : Options → Answers → List Effect × ℕ
unfolding daemonize greeting background run_server started
launch o a =
    let (effects, code) = background o a (daemonize a) in
    if o.foreground
    then (greeting a ++ (started false o a [] ++ run_server o a ∷ []), exit_code a.served)
    else (greeting a ++ effects, code)
