-- ===== src/Daemon/Stream.antt =====
-- A stream from the line that comes in to the lines that the client gets.
use hsed.Base.{ℕ, ◌<◌, ◌≢◌, ◌≡◌, List, [], ◌∷◌, ◌++◌, length}
use hsed.Outcome.{Outcome, ok, err}
use hsed.Protocol.{linef}
use hsed.Tracer.Attach.{Session, over, followed}
use hsed.Server.{Settings, Next, goes_on, streams, stream_end_text, escaped_error}
use hsed.Server.Recv.{RecvEvent}
use hsed.Server.Loop.{connection, out_of_fuel}
use hsed.Server.Loop.Ends.{connection_ends}
use hsed.Streaming.{stream_fd}
use hsed.Streaming.Lines.{Log}
use hsed.Streaming.Input.{length-seen_by}
use hsed.Daemon.{Outside, services, target_of}

-- What the client gets for `STREAM`: the lines of the stream, and then, by the result of the trace,
-- one line more, an error or the end of the stream, after which the connection goes on with the
-- rest of the input; or no line more while the trace goes on.
abbrev pub IsStreamed :
    (O : Outside)
    → Log O.kernel.World O.send O.act
    → O.kernel.World
    → List (List ℕ)
    → List RecvEvent
    → Outcome Session
    → Next O.kernel.World
    → Type 0
IsStreamed O L w lines left (err message) next =
    (w' : O.kernel.World) × (next ≡ goes_on w' left)
    × (L.sent w' ≡ (L.sent w ++ lines) ++ linef (escaped_error message) ∷ [])
IsStreamed O L w lines left (ok over) next =
    (w' : O.kernel.World) × (next ≡ goes_on w' left)
    × (L.sent w' ≡ (L.sent w ++ lines) ++ linef stream_end_text ∷ [])
IsStreamed O L w lines left (ok (followed tids)) next =
    (w' : O.kernel.World) × (next ≡ streams w') × (L.sent w' ≡ L.sent w ++ lines)

module _ (O : Outside) (cfg : Settings) (w : O.kernel.World) (events : List RecvEvent) where
  -- More rounds than there are input events bring the loop of a connection of the daemon to its
  -- end, or to the end of the input so far, or into a stream that is not over.
  pub connection_over :
      (fuel : ℕ) → length events < fuel → connection (services O) cfg fuel w events ≢ out_of_fuel
  unfolding stream_fd
  connection_over fuel h =
      connection_ends (services O) cfg
        (λ w events pid fd max_capture.
          length-seen_by (O.traced w pid fd) (target_of O fd max_capture) events)
        fuel w events h
