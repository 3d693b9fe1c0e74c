-- ===== src/Streaming/Stop.antt =====
-- How a client ends a stream.
use hsed.Base.{
  ℕ, zero, suc, min, ◌≤◌, ◌<◌, ◌≡◌, refl, ap, ◌∙◌, true, false, List, [], ◌∷◌, ◌++◌, map, length,
  codes, arith, ◌⊎◌, inl, inr,
}
use hsed.Libc.{contains}
use hsed.Tracer.Threads.{ThreadState}
use hsed.Tracer.Session.{Target, idle, Round, following, finished, release, step}
use hsed.Server.Recv.{RecvEvent, byte, closed}
use hsed.Server.Stream.{received, stream_poll_cb}
use hsed.Streaming.{
  StreamRound, poll_buffer, take_bytes, poll_client, poll_if, poll_all, round_with,
}

take_bytes-length :
    (s : List ℕ) (events : List RecvEvent)
    → take_bytes (length s) (map byte s ++ events) ≡ (s, events)
unfolding take_bytes
take_bytes-length [] events = refl
take_bytes-length (c ∷ s) events = rw (take_bytes-length s events) refl

-- Bytes that have arrived, and nothing behind them, are read at once.
poll_client-length :
    (c : ℕ) (s : List ℕ) (events : List RecvEvent)
    → length (c ∷ s) ≤ poll_buffer
    → poll_client (length (c ∷ s)) (map byte (c ∷ s) ++ events) ≡ (received (c ∷ s), events)
unfolding poll_client
poll_client-length c s events h =
    let all : min (suc (length s)) poll_buffer ≡ suc (length s) = ground arith in
    rw all
      (ap (λ (p : List ℕ × List RecvEvent). (received p.0, p.1)) (take_bytes-length (c ∷ s) events))

-- What has arrived of the client asks the stream to end: bytes with `STOP` in them, which one call of
-- `recv` reads, or the end of the connection.
abbrev pub AsksToStop : ℕ → List RecvEvent → List RecvEvent → Type 0
AsksToStop arrived events left =
    ((c : ℕ) × (s : List ℕ) × (contains (c ∷ s) (codes "STOP") ≡ true)
      × (length (c ∷ s) ≤ poll_buffer)
      × (arrived ≡ length (c ∷ s))
      × (events ≡ map byte (c ∷ s) ++ left))
    ⊎ ((more : List RecvEvent) × (0 < arrived) × (events ≡ closed ∷ more) × (left ≡ events))

stop_poll :
    (arrived : ℕ) (events left : List RecvEvent)
    → AsksToStop arrived events left
    → (stream_poll_cb (poll_client arrived events).0 ≡ false)
      × ((poll_client arrived events).1 ≡ left)
unfolding stream_poll_cb
stop_poll arrived events left (inl (c, s, asks, small, all, e)) =
    rw (all, e, poll_client-length c s left small) (rw asks refl, refl)
stop_poll zero events left (inr (more, some_arrived, e, same)) = absurd (omega arith)
stop_poll (suc n) events left (inr (more, some_arrived, e, same)) =
    rw (same, e) (unfold poll_client stream_poll_cb in (refl, refl))

-- A round in which no thread has anything to tell asks the client.
poll_if_idle :
    (r : StreamRound) (events : List RecvEvent)
    → r.waited ≡ idle
    → poll_if r events r.waited ≡ (
      round_with r (stream_poll_cb (poll_client r.arrived events).0),
      (poll_client r.arrived events).1,
    )
unfolding poll_if
poll_if_idle r events e = rw e refl

idle_step :
    (target : Target) (tids : List ThreadState) (r : StreamRound)
    → r.waited ≡ idle
    → (step target tids (round_with r false) ≡ (release (round_with r false) tids, finished))
      × (step target tids (round_with r true) ≡ ([], following tids))
unfolding step round_with
idle_step target tids r e = rw e (refl, refl)

poll_all-following :
    (target : Target) (tids tids' : List ThreadState) (r : StreamRound) (rs : List StreamRound)
    (events events' : List RecvEvent) (round : Round)
    → poll_if r events r.waited ≡ (round, events')
    → (step target tids round).1 ≡ following tids'
    → poll_all target tids (r ∷ rs) events
      ≡ (round ∷ (poll_all target tids' rs events').0, (poll_all target tids' rs events').1)
unfolding poll_all
poll_all-following target tids tids' r rs events events' round e f =
    rw (poll_all, e, f)
      (ap
        (λ (p : Round × List RecvEvent).
          (p.0 ∷ (poll_all target tids' rs p.1).0, (poll_all target tids' rs p.1).1))
        e)

poll_all-finished :
    (target : Target) (tids : List ThreadState) (r : StreamRound) (rs : List StreamRound)
    (events events' : List RecvEvent) (round : Round)
    → poll_if r events r.waited ≡ (round, events')
    → (step target tids round).1 ≡ finished
    → poll_all target tids (r ∷ rs) events ≡ (round ∷ [], events')
unfolding poll_all
poll_all-finished target tids r rs events events' round e f =
    rw (poll_all, e, f) (ap (λ (p : Round × List RecvEvent). (p.0 ∷ [], p.1)) e)

-- In a round in which no thread has anything to tell, a request to stop ends the stream: the rounds
-- end with this one, in which all threads are let go, and the input is left as it was behind the
-- request, or at the end of the connection.
pub poll_all-stop :
    (target : Target) (tids : List ThreadState) (r : StreamRound) (rs : List StreamRound)
    (events left : List RecvEvent)
    → r.waited ≡ idle
    → AsksToStop r.arrived events left
    → (poll_all target tids (r ∷ rs) events ≡ (round_with r false ∷ [], left))
      × (step target tids (round_with r false) ≡ (release (round_with r false) tids, finished))
poll_all-stop target tids r rs events left e asks =
    let (stops, rest) = stop_poll r.arrived events left asks in
    let ends = (idle_step target tids r e).0 in
    (
      poll_all-finished target tids r rs events left (round_with r false)
          (poll_if_idle r events e ∙ rw (stops, rest) refl) (rw ends refl),
      ends,
    )

goes_on_poll :
    (r : StreamRound) (c : ℕ) (s : List ℕ) (rest : List RecvEvent)
    → r.waited ≡ idle
    → contains (c ∷ s) (codes "STOP") ≡ false
    → length (c ∷ s) ≤ poll_buffer
    → r.arrived ≡ length (c ∷ s)
    → poll_if r (map byte (c ∷ s) ++ rest) r.waited ≡ (round_with r true, rest)
unfolding stream_poll_cb
goes_on_poll r c s rest e other small all =
    poll_if_idle r (map byte (c ∷ s) ++ rest) e
    ∙ rw (all, poll_client-length c s rest small, other) refl

-- A request to stop that arrives in two parts, neither of which has `STOP` in it, is taken from the
-- input in two such rounds, and the stream goes on as if nothing had come.
pub poll_all-missed :
    (target : Target) (tids : List ThreadState) (r r' : StreamRound) (rs : List StreamRound)
    (c c' : ℕ) (s s' : List ℕ) (rest : List RecvEvent)
    → r.waited ≡ idle
    → r'.waited ≡ idle
    → contains (c ∷ s) (codes "STOP") ≡ false
    → contains (c' ∷ s') (codes "STOP") ≡ false
    → length (c ∷ s) ≤ poll_buffer
    → length (c' ∷ s') ≤ poll_buffer
    → r.arrived ≡ length (c ∷ s)
    → r'.arrived ≡ length (c' ∷ s')
    → poll_all target tids (r ∷ r' ∷ rs) (map byte (c ∷ s) ++ (map byte (c' ∷ s') ++ rest)) ≡ (
      round_with r true ∷ round_with r' true ∷ (poll_all target tids rs rest).0,
      (poll_all target tids rs rest).1,
    )
poll_all-missed target tids r r' rs c c' s s' rest e e' other other' small small' all all' =
    poll_all-following target tids tids r (r' ∷ rs) _ (map byte (c' ∷ s') ++ rest)
      (round_with r true) (goes_on_poll r c s (map byte (c' ∷ s') ++ rest) e other small all)
      (ap (λ p. p.1) (idle_step target tids r e).1)
    ∙ ap (λ (p : List Round × List RecvEvent). (round_with r true ∷ p.0, p.1))
        (poll_all-following target tids tids r' rs _ rest (round_with r' true)
          (goes_on_poll r' c' s' rest e' other' small' all')
          (ap (λ p. p.1) (idle_step target tids r' e').1))
