-- ===== src/Server/Loop.antt =====
-- `handle_connection` of backend/src/server.c: which handler a line of the client reaches, and the
-- loop over the lines.
pub mod Ends
use hsed.Base.{
  ℕ, zero, suc, ◌≤◌, ◌<◌, ◌≡◌, ◌≢◌, refl, ℤ, pos, Bool, true, false, Option, none, some, List,
  length, codes, c_string, if◌then◌else◌, arith,
}
use hsed.Libc.{strtok, same_word, strtol, to_i32, strtoul_uid}
use hsed.Entry.{uid_any}
use hsed.Server.{
  Services, Settings, Next, goes_on, stops, streams, error_text, reply, handle_scan, handle_stats,
  handle_truncate, handle_hup, handle_kill, handle_stream,
}
use hsed.Server.Recv.{RecvEvent, Received, line, ended, waiting, recv_line, recv_line-shrinks}

-- `a ? convert(a) : fallback`.
abbrev pub arg_or {ℓ} : {A : Type ℓ} → Option (List ℕ) → (List ℕ → A) → A → A
arg_or none convert fallback = fallback
arg_or (some s) convert fallback = convert s

-- `atoll`, and `(pid_t)atol` or `atoi`.
abbrev pub atoll : List ℕ → ℤ
atoll s = strtol 10 s

abbrev pub atoi : List ℕ → ℤ
atoi s = to_i32 (strtol 10 s)

abbrev pub usage_text : List ℕ → List ℕ
usage_text usage = error_text usage

-- The buffer of `recv_line`.
abbrev pub line_buffer : ℕ
line_buffer = 512

module _ (S : Services) (cfg : Settings) where
  open S use {World}

  -- A command that needs a process and a descriptor, and one that needs a process: `if (!a1 || !a2)`.
  two_args :
      World
      → List RecvEvent
      → List ℕ
      → (ℤ → ℤ → Next World)
      → Option (List ℕ)
      → Option (List ℕ)
      → Next World
  two_args w events usage run (some pid) (some fd) = run (atoi pid) (atoi fd)
  two_args w events usage run _ _ = goes_on (reply S w (usage_text usage)) events

  one_arg : World → List RecvEvent → List ℕ → (ℤ → Next World) → Option (List ℕ) → Next World
  one_arg w events usage run (some pid) = run (atoi pid)
  one_arg w events usage run none = goes_on (reply S w (usage_text usage)) events

  -- The chain of `strcasecmp` on the first word; `save` is what is behind it.
  unfoldable pub handle_command : World → List RecvEvent → List ℕ → List ℕ → Next World
  unfolding two_args one_arg
  handle_command w events cmd save =
      let (a1, save1) = strtok save in
      let (a2, save2) = strtok save1 in
      let (a3, save3) = strtok save2 in
      if same_word cmd (codes "PING")
      then goes_on (reply S w (codes "{\"type\":\"pong\"}")) events
      else if same_word cmd (codes "QUIT")
      then stops w
      else if same_word cmd (codes "SCAN")
      then goes_on
          (handle_scan S w (arg_or a1 atoll (pos 0)) (arg_or a2 atoi (pos 0))
            (arg_or a3 strtoul_uid uid_any) cfg.scan_threads)
          events
      else if same_word cmd (codes "STATS")
      then goes_on
          (handle_stats S w (arg_or a1 atoll (pos 0)) (arg_or a2 strtoul_uid uid_any)
            cfg.scan_threads)
          events
      else if same_word cmd (codes "TRUNCATE")
      then two_args w events (codes "usage: TRUNCATE <pid> <fd>")
          (λ pid fd. goes_on (handle_truncate S w pid fd) events) a1 a2
      else if same_word cmd (codes "HUP")
      then one_arg w events (codes "usage: HUP <pid>") (λ pid. goes_on (handle_hup S w pid) events)
          a1
      else if same_word cmd (codes "KILL")
      then one_arg w events (codes "usage: KILL <pid>")
          (λ pid. goes_on (handle_kill S w pid) events) a1
      else if same_word cmd (codes "STREAM")
      then two_args w events (codes "usage: STREAM <pid> <fd>")
          (λ pid fd. handle_stream S w events pid fd cfg.max_capture) a1 a2
      else goes_on (reply S w (error_text (codes "unknown command"))) events

  unfoldable pub run_word : World → List RecvEvent → Option (List ℕ) × List ℕ → Next World
  run_word w events (none, save) = goes_on w events
  run_word w events (some cmd, save) = handle_command w events cmd save

  -- One round of the loop after `recv_line`: a line without a word is passed over.
  unfoldable pub handle_line : World → List RecvEvent → List ℕ → Next World
  unfolding run_word
  handle_line w events s = run_word w events (strtok s)

  -- How the thread of a connection ends: the socket is closed in this world; or it still waits for
  -- input, or is inside a stream; or the fuel ran out.
  pub data Ending : Type 0 where
    socket_closed still_reading still_streaming : World → Ending
    out_of_fuel : Ending

  unfoldable pub connection : ℕ → World → List RecvEvent → Ending
  connection zero w events = out_of_fuel
  connection (suc fuel) w events = elim (recv_line line_buffer events) [
    | waiting ↦ still_reading w
    | ended ↦ socket_closed w
    | line buf rest ↦ elim (handle_line w rest (c_string buf)) [
      | stops w' ↦ socket_closed w'
      | goes_on w' rest' ↦ connection fuel w' rest'
      | streams w' ↦ still_streaming w'
    ]
  ]
