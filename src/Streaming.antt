-- ===== src/Streaming.antt =====
-- A stream of backend/src/server.c: the callbacks that `handle_stream` gives to `hsed_trace_fd` of
-- backend/src/tracer.c, put together with the trace. In each round the kernel answers the tracer;
-- where no thread has anything to tell, `stream_poll_cb` reads what has arrived of the client.
pub mod Lines
pub mod Told
pub mod Faithful
pub mod Input
pub mod Stop
pub mod Sample
mod Examples
use hsed.Base.{
  ℕ, zero, suc, min, ◌+◌, ℤ, Bool, true, false, Option, none, some, List, [], ◌∷◌, ◌++◌, codes,
  show_ℤ, if◌then◌else◌,
}
use hsed.Outcome.{Outcome, ok, err}
use hsed.Protocol.{linef}
use hsed.Tracer.Threads.{ThreadState, max_tracked_tids}
use hsed.Tracer.Capture.{Memory}
use hsed.Tracer.Session.{
  Target, Regs, Waited, idle, no_children, failing, status, Round, Write, Action, resume, seize,
  cont, interrupt, await, detach, report, attached, Verdict, following, finished, step,
}
use hsed.Tracer.Attach.{
  Answers, Environment, Session, over, followed, discover_tids, attach_all, clamp_capture, trace_fd,
}
use hsed.Server.{Traced, returned, tracing}
use hsed.Server.Recv.{RecvEvent, byte, interrupted, closed}
use hsed.Server.Stream.{Polled, received, stream_poll_cb, stream_write_cb}

-- The answers of a round, less that of `poll_cb`; `arrived` is how much of what the client does next
-- has happened by then.
pub record StreamRound : Type 0 where
  pub waited : Waited
  pub regs : Option Regs
  pub event_message : Option ℕ
  pub memory : Memory
  pub interrupts : ℤ → Bool
  pub arrived : ℕ

-- The answers to a whole stream; `room` tells whether `malloc` in `stream_write_cb` succeeds.
pub record StreamEnvironment : Type 0 where
  pub names : Option (List (List ℕ))
  pub strerror : List ℕ
  pub kernel : ℤ → Answers
  pub has_memory : Bool
  pub letting_go : Round
  pub rounds : List StreamRound
  pub room : Write → Bool

abbrev pub poll_buffer : ℕ
poll_buffer = 256

-- The bytes in front, at most so many, and the rest.
unfoldable pub take_bytes : ℕ → List RecvEvent → List ℕ × List RecvEvent
take_bytes zero events = ([], events)
take_bytes (suc n) [] = ([], [])
take_bytes (suc n) (interrupted ∷ events) = ([], interrupted ∷ events)
take_bytes (suc n) (closed ∷ events) = ([], closed ∷ events)
take_bytes (suc n) (RecvEvent.failing ∷ events) = ([], RecvEvent.failing ∷ events)
take_bytes (suc n) (byte c ∷ events) = let (s, rest) = take_bytes n events in (c ∷ s, rest)

-- The `recv` of `stream_poll_cb`, which does not wait: nothing has arrived, or the next thing that
-- has. A connection that is closed stays closed.
unfoldable pub poll_client : ℕ → List RecvEvent → Polled × List RecvEvent
unfolding take_bytes
poll_client zero events = (Polled.failing true, events)
poll_client (suc arrived) [] = (Polled.failing true, [])
poll_client (suc arrived) (closed ∷ events) = (received [], closed ∷ events)
poll_client (suc arrived) (interrupted ∷ events) = (Polled.failing false, events)
poll_client (suc arrived) (RecvEvent.failing ∷ events) = (Polled.failing false, events)
poll_client (suc arrived) (byte c ∷ events) =
    let (s, rest) = take_bytes (min (suc arrived) poll_buffer) (byte c ∷ events) in
    (received s, rest)

unfoldable pub round_with : StreamRound → Bool → Round
round_with r keep_going = record {
  waited = r.waited;
  keep_going = keep_going;
  regs = r.regs;
  event_message = r.event_message;
  memory = r.memory;
  interrupts = r.interrupts;
}

-- The callback is called where `waitpid` gives 0.
unfoldable pub poll_if : StreamRound → List RecvEvent → Waited → Round × List RecvEvent
unfolding round_with poll_client
poll_if r events idle =
    let (polled, events') = poll_client r.arrived events in
    (round_with r (stream_poll_cb polled), events')
poll_if r events no_children = (round_with r true, events)
poll_if r events failing = (round_with r true, events)
poll_if r events (status tid s) = (round_with r true, events)

-- The rounds up to the one that ends the session, with the answers of the client, and what is left of
-- its input.
unfoldable pub poll_all :
    Target → List ThreadState → List StreamRound → List RecvEvent → List Round × List RecvEvent
unfolding poll_if
poll_all target tids [] events = ([], events)
poll_all target tids (r ∷ rs) events =
    let (round, events') = poll_if r events r.waited in
    elim (step target tids round).1 [
      | finished ↦ (round ∷ [], events')
      | following tids' ↦
          let (rounds, left) = poll_all target tids' rs events' in (round ∷ rounds, left)
    ]

-- The threads that are attached when the main loop begins; none where it does not begin.
started : Bool → (ℤ → Answers) → Option (List ℤ) → List ThreadState
started true kernel (some discovered) = (attach_all kernel [] discovered).1
started true kernel none = []
started false kernel discovered = []

-- The rounds of the main loop, where it begins.
played : Target → List ThreadState → List StreamRound → List RecvEvent → List Round × List RecvEvent
unfolding poll_all
played target [] rounds events = ([], events)
played target (t ∷ tids) rounds events = poll_all target (t ∷ tids) rounds events

unfoldable pub seen_by : StreamEnvironment → Target → List RecvEvent → List Round × List RecvEvent
unfolding started played clamp_capture attach_all discover_tids
seen_by env target events =
    played (record target { max_capture = clamp_capture target.max_capture })
      (started env.has_memory env.kernel (discover_tids env.names max_tracked_tids)) env.rounds
      events

-- The answers that the trace gets.
unfoldable pub environment_of : StreamEnvironment → List Round → Environment
environment_of env rounds = record {
  names = env.names;
  strerror = env.strerror;
  kernel = env.kernel;
  has_memory = env.has_memory;
  letting_go = env.letting_go;
  rounds = rounds;
}

-- What `stream_attached_cb` formats.
unfoldable pub attached_text : ℤ → ℤ → List ℕ
attached_text pid fd =
    codes "{\"type\":\"attached\",\"pid\":"
    ++ (show_ℤ pid ++ (codes ",\"fd\":" ++ (show_ℤ fd ++ codes "}")))

unfoldable pub result_of : Outcome Session → Traced
result_of (err message) = returned (err message)
result_of (ok over) = returned (ok tt)
result_of (ok (followed tids)) = tracing

-- The callbacks send lines, whose results they ignore; the other actions go to the kernel.
module _ {W : Type 0} (send : W → List ℕ → W × Bool) (act : W → Action → W) where
  send_if : W → Option (List ℕ) → W
  send_if w none = w
  send_if w (some line) = (send w line).0

  unfoldable pub perform : (Write → Bool) → ℤ → ℤ → W → Action → W
  unfolding send_if
  perform room pid fd w attached = (send w (linef (attached_text pid fd))).0
  perform room pid fd w (report r) =
      send_if w (stream_write_cb (room r) r.tid r.ret r.bytes r.is_writev)
  perform room pid fd w (resume tid sig) = act w (resume tid sig)
  perform room pid fd w (seize tid) = act w (seize tid)
  perform room pid fd w (cont tid) = act w (cont tid)
  perform room pid fd w (interrupt tid) = act w (interrupt tid)
  perform room pid fd w (await tid) = act w (await tid)
  perform room pid fd w (detach tid) = act w (detach tid)

  unfoldable pub perform_all : (Write → Bool) → ℤ → ℤ → W → List Action → W
  unfolding perform
  perform_all room pid fd w [] = w
  perform_all room pid fd w (action ∷ actions) =
      perform_all room pid fd (perform room pid fd w action) actions

  -- `hsed_trace_fd` with the callbacks of `handle_stream`.
  unfoldable pub stream_fd :
      StreamEnvironment → Target → ℤ → ℕ → W → List RecvEvent → (W × List RecvEvent) × Traced
  unfolding perform_all seen_by environment_of result_of
  stream_fd env target pid errlen w events =
      let (rounds, left) = seen_by env target events in
      let (actions, end) = trace_fd (environment_of env rounds) target pid errlen in
      ((perform_all env.room pid target.fd w actions, left), result_of end)
