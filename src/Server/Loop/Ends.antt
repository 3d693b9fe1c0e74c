-- ===== src/Server/Loop/Ends.antt =====
-- The loop of a connection comes to an end.
use hsed.Base.{
  ℕ, zero, suc, ◌≤◌, ◌<◌, ◌≡◌, ◌≢◌, refl, ℤ, Bool, true, false, Option, none, some, List, length,
  codes, c_string, if◌then◌else◌, arith,
}
use hsed.Libc.{strtok, same_word}
use hsed.Outcome.{ok, err}
use hsed.Server.{
  Services, Settings, Next, Traced, returned, tracing, goes_on, stops, streams, handle_truncate,
  handle_hup, handle_kill, handle_stream, after_trace,
}
use hsed.Server.Recv.{RecvEvent, Received, line, ended, waiting, recv_line, recv_line-shrinks}
use hsed.Server.Loop.{
  atoi, line_buffer, two_args, one_arg, handle_command, run_word, handle_line, socket_closed,
  still_streaming, out_of_fuel, Ending, connection,
}

module _ (S : Services) (cfg : Settings) where
  open S use {World}

  -- Whether the step leaves no more input than there was.
  Within : List RecvEvent → Next World → Type 0
  Within events (goes_on w events') = length events' ≤ length events
  Within events (stops w) = Unit
  Within events (streams w) = Unit

  goes_on-Within :
      (w : World) (events events' : List RecvEvent)
      → length events' ≤ length events
      → Within events (goes_on w events')
  unfolding Within
  goes_on-Within w events events' h = h

  stops-Within : (w : World) (events : List RecvEvent) → Within events (stops w)
  unfolding Within
  stops-Within w events = tt

  -- A trace reads input of the client, and adds none.
  abbrev pub ReadsOnly : Type 0
  ReadsOnly =
      (w : World) (events : List RecvEvent) (pid fd : ℤ) (max_capture : ℕ)
      → length (S.trace_fd w events pid fd max_capture).0.1 ≤ length events

  if-Within :
      (events : List RecvEvent) (b : Bool) (x y : Next World)
      → Within events x
      → Within events y
      → Within events (if b then x else y)
  if-Within events true x y h k = h
  if-Within events false x y h k = k

  two_args-Within :
      (w : World) (events : List RecvEvent) (usage : List ℕ) (run : ℤ → ℤ → Next World)
      (a b : Option (List ℕ))
      → ((pid fd : ℤ) → Within events (run pid fd))
      → Within events (two_args S cfg w events usage run a b)
  unfolding two_args
  two_args-Within w events usage run (some pid) (some fd) h = h (atoi pid) (atoi fd)
  two_args-Within w events usage run none b h = goes_on-Within _ events events (omega arith)
  two_args-Within w events usage run (some pid) none h =
      goes_on-Within _ events events (omega arith)

  one_arg-Within :
      (w : World) (events : List RecvEvent) (usage : List ℕ) (run : ℤ → Next World)
      (a : Option (List ℕ))
      → ((pid : ℤ) → Within events (run pid))
      → Within events (one_arg S cfg w events usage run a)
  unfolding one_arg
  one_arg-Within w events usage run (some pid) h = h (atoi pid)
  one_arg-Within w events usage run none h = goes_on-Within _ events events (omega arith)

  after_trace-Within :
      (events : List RecvEvent) (w : World) (events' : List RecvEvent) (r : Traced)
      → length events' ≤ length events
      → Within events (after_trace S w events' r)
  unfolding after_trace Within
  after_trace-Within events w events' (returned (err message)) h = h
  after_trace-Within events w events' (returned (ok u)) h = h
  after_trace-Within events w events' tracing h = tt

  handle_stream-Within :
      ReadsOnly
      → (w : World) (events : List RecvEvent) (pid fd : ℤ) (max_capture : ℕ)
      → Within events (handle_stream S w events pid fd max_capture)
  unfolding handle_stream
  handle_stream-Within reads w events pid fd max_capture =
      after_trace-Within events _ _ (S.trace_fd w events pid fd max_capture).1
        (reads w events pid fd max_capture)

  handle_command-Within :
      ReadsOnly
      → (w : World) (events : List RecvEvent) (cmd save : List ℕ)
      → Within events (handle_command S cfg w events cmd save)
  unfolding handle_command
  handle_command-Within reads w events cmd save =
      if-Within events (same_word cmd (codes "PING")) _ _ (le _) (
        if-Within events (same_word cmd (codes "QUIT")) _ _ (stops-Within w events) (
          if-Within events (same_word cmd (codes "SCAN")) _ _ (le _) (
            if-Within events (same_word cmd (codes "STATS")) _ _ (le _) (
              if-Within events (same_word cmd (codes "TRUNCATE")) _ _
                (two_args-Within w events (codes "usage: TRUNCATE <pid> <fd>")
                  (λ pid fd. goes_on (handle_truncate S w pid fd) events) a1 a2 (λ pid fd. le _))
                (if-Within events (same_word cmd (codes "HUP")) _ _
                  (one_arg-Within w events (codes "usage: HUP <pid>")
                    (λ pid. goes_on (handle_hup S w pid) events) a1 (λ pid. le _))
                  (if-Within events (same_word cmd (codes "KILL")) _ _
                    (one_arg-Within w events (codes "usage: KILL <pid>")
                      (λ pid. goes_on (handle_kill S w pid) events) a1 (λ pid. le _))
                    (if-Within events (same_word cmd (codes "STREAM")) _ _
                      (two_args-Within w events (codes "usage: STREAM <pid> <fd>")
                        (λ pid fd. handle_stream S w events pid fd cfg.max_capture) a1 a2
                        (λ pid fd. handle_stream-Within reads w events pid fd cfg.max_capture))
                      (le _))))))))
    where
      a1 : Option (List ℕ)
      a1 = (strtok save).0

      a2 : Option (List ℕ)
      a2 = (strtok (strtok save).1).0

      le : (w' : World) → Within events (goes_on w' events)
      le w' = goes_on-Within w' events events (omega arith)

  run_word-Within :
      ReadsOnly
      → (w : World) (events : List RecvEvent) (r : Option (List ℕ) × List ℕ)
      → Within events (run_word S cfg w events r)
  unfolding run_word
  run_word-Within reads w events (none, save) = goes_on-Within w events events (omega arith)
  run_word-Within reads w events (some cmd, save) = handle_command-Within reads w events cmd save

  -- What the loop does with the result of a line ends, when all shorter inputs do.
  after : ℕ → Next World → Ending S cfg
  after fuel (stops w') = socket_closed w'
  after fuel (goes_on w' rest') = connection S cfg fuel w' rest'
  after fuel (streams w') = still_streaming w'

  after_ends :
      (fuel : ℕ) (rest : List RecvEvent) (n : Next World)
      → ((w' : World) (events' : List RecvEvent)
          → length events' ≤ length rest
          → connection S cfg fuel w' events' ≢ out_of_fuel)
      → Within rest n
      → after fuel n ≢ out_of_fuel
  unfolding after Within
  after_ends fuel rest (stops w') ih h = λ e. cc
  after_ends fuel rest (goes_on w' events') ih h = ih w' events' h
  after_ends fuel rest (streams w') ih h = λ e. cc

  -- One round of the loop, when the rounds on less input end.
  round_ends :
      ReadsOnly
      → (fuel : ℕ) (w : World) (events : List RecvEvent) (r : Received)
      → ((w' : World) (events' : List RecvEvent)
          → length events' < length events
          → connection S cfg fuel w' events' ≢ out_of_fuel)
      → recv_line line_buffer events ≡ r
      → connection S cfg (suc fuel) w events ≢ out_of_fuel
  unfolding connection handle_line after
  round_ends reads fuel w events waiting ih e = rw (e, connection) (λ e'. cc)
  round_ends reads fuel w events ended ih e = rw (e, connection) (λ e'. cc)
  round_ends reads fuel w events (line buf rest) ih e =
      rw (e, connection)
        (after_ends fuel rest (handle_line S cfg w rest (c_string buf))
          (λ w' events' k.
            ih w' events' (omega (arith, recv_line-shrinks line_buffer events rest buf e)))
          (run_word-Within reads w rest (strtok (c_string buf))))

  -- When a trace adds no input, more rounds than there are input events bring the loop of a
  -- connection to its end, or to the end of the input so far, or into a stream that is not over.
  pub connection_ends :
      ReadsOnly
      → (fuel : ℕ) (w : World) (events : List RecvEvent) → length events < fuel
      → connection S cfg fuel w events ≢ out_of_fuel
  connection_ends reads zero w events h = absurd (omega arith)
  connection_ends reads (suc fuel) w events h =
      round_ends reads fuel w events (recv_line line_buffer events)
        (λ w' events' k. connection_ends reads fuel w' events' (omega arith)) refl
