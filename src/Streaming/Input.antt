-- ===== src/Streaming/Input.antt =====
-- What a stream takes of the client's input.
use hsed.Base.{ℕ, zero, suc, ◌≤◌, min, List, [], ◌∷◌, length, arith}
use hsed.Tracer.Threads.{ThreadState, max_tracked_tids}
use hsed.Tracer.Session.{
  Target, Waited, idle, no_children, failing, status, Round, Verdict, following, finished, step,
}
use hsed.Tracer.Attach.{discover_tids, clamp_capture}
use hsed.Server.Recv.{RecvEvent, byte, interrupted, closed}
use hsed.Streaming.{
  StreamRound, StreamEnvironment, poll_buffer, take_bytes, poll_client, poll_if, poll_all, started,
  played, seen_by,
}

length-take_bytes :
    (n : ℕ) (events : List RecvEvent) → length (take_bytes n events).1 ≤ length events
unfolding take_bytes
length-take_bytes zero events = omega arith
length-take_bytes (suc n) [] = omega arith
length-take_bytes (suc n) (interrupted ∷ events) = omega arith
length-take_bytes (suc n) (closed ∷ events) = omega arith
length-take_bytes (suc n) (RecvEvent.failing ∷ events) = omega arith
length-take_bytes (suc n) (byte c ∷ events) = omega (arith, length-take_bytes n events)

length-poll_client :
    (arrived : ℕ) (events : List RecvEvent) → length (poll_client arrived events).1 ≤ length events
unfolding poll_client
length-poll_client zero events = omega arith
length-poll_client (suc arrived) [] = omega arith
length-poll_client (suc arrived) (interrupted ∷ events) = omega arith
length-poll_client (suc arrived) (closed ∷ events) = omega arith
length-poll_client (suc arrived) (RecvEvent.failing ∷ events) = omega arith
length-poll_client (suc arrived) (byte c ∷ events) =
    length-take_bytes (min (suc arrived) poll_buffer) (byte c ∷ events)

length-poll_if :
    (r : StreamRound) (events : List RecvEvent) (waited : Waited)
    → length (poll_if r events waited).1 ≤ length events
unfolding poll_if
length-poll_if r events idle = length-poll_client r.arrived events
length-poll_if r events no_children = omega arith
length-poll_if r events failing = omega arith
length-poll_if r events (status tid s) = omega arith

length-poll_all :
    (target : Target) (tids : List ThreadState) (rs : List StreamRound) (events : List RecvEvent)
    → length (poll_all target tids rs events).1 ≤ length events
unfolding poll_all
length-poll_all target tids [] events = omega arith
length-poll_all target tids (r ∷ rs) events =
    next (step target tids (poll_if r events r.waited).0).1
      (λ tids'. length-poll_all target tids' rs (poll_if r events r.waited).1)
  where
    next :
        (verdict : Verdict)
        → ((tids' : List ThreadState)
            → length (poll_all target tids' rs (poll_if r events r.waited).1).1
              ≤ length (poll_if r events r.waited).1)
        → let onward : List Round × List RecvEvent = elim verdict [
          | finished ↦ ((poll_if r events r.waited).0 ∷ [], (poll_if r events r.waited).1)
          | following tids' ↦ (
            (poll_if r events r.waited).0
                ∷ (poll_all target tids' rs (poll_if r events r.waited).1).0,
            (poll_all target tids' rs (poll_if r events r.waited).1).1,
          )
        ] in
          length onward.1 ≤ length events
    next finished ih = length-poll_if r events r.waited
    next (following tids') ih = omega (arith, length-poll_if r events r.waited, ih tids')

length-played :
    (target : Target) (tids : List ThreadState) (rs : List StreamRound) (events : List RecvEvent)
    → length (played target tids rs events).1 ≤ length events
unfolding played
length-played target [] rs events = omega arith
length-played target (t ∷ tids) rs events = length-poll_all target (t ∷ tids) rs events

-- A stream adds no input.
pub length-seen_by :
    (env : StreamEnvironment) (target : Target) (events : List RecvEvent)
    → length (seen_by env target events).1 ≤ length events
unfolding seen_by
length-seen_by env target events =
    length-played (record target { max_capture = clamp_capture target.max_capture })
      (started env.has_memory env.kernel (discover_tids env.names max_tracked_tids)) env.rounds
      events
