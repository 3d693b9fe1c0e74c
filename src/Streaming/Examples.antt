-- ===== src/Streaming/Examples.antt =====
-- The theorems about requests to stop at concrete data, and tests.
use native.Mathlib.Omega.{arith}
use hsed.Base.{◌≡◌, refl, inl, true, false, List, [], ◌∷◌, ◌++◌, map, codes, pos}
use hsed.Libc.{contains}
use hsed.Tracer.Threads.{ThreadState, new_thread}
use hsed.Tracer.Session.{finished, release, step}
use hsed.Server.Recv.{RecvEvent, byte}
use hsed.Streaming.{poll_all, round_with, take_bytes}
use hsed.Streaming.Stop.{poll_all-stop, poll_all-missed}
use hsed.Streaming.Sample.{log_fd, quiet_round}

abbrev two_threads : List ThreadState
two_threads = new_thread (pos 7) ∷ new_thread (pos 8) ∷ []

-- The client asks to stop, and then sends a byte more.
abbrev stop_request : List RecvEvent
stop_request = map byte (codes "STOP") ++ byte b'P' ∷ []

take_bytes_test : take_bytes 4 stop_request ≡ (codes "STOP", byte b'P' ∷ [])
unfolding take_bytes
take_bytes_test = refl

poll_all-stop_example :
    (poll_all log_fd two_threads (quiet_round 4 ∷ quiet_round 1 ∷ []) stop_request
      ≡ (round_with (quiet_round 4) false ∷ [], byte b'P' ∷ []))
    × (step log_fd two_threads (round_with (quiet_round 4) false)
        ≡ (release (round_with (quiet_round 4) false) two_threads, finished))
poll_all-stop_example =
    poll_all-stop log_fd two_threads (quiet_round 4) (quiet_round 1 ∷ []) stop_request
      (byte b'P' ∷ []) refl
      (inl (b'S', codes "TOP", unfold contains in refl, omega arith, refl, refl))

poll_all-missed_example :
    poll_all log_fd two_threads
      (quiet_round 2 ∷ quiet_round 2 ∷ [])
      (map byte (codes "ST") ++ (map byte (codes "OP") ++ []))
    ≡ (round_with (quiet_round 2) true ∷ round_with (quiet_round 2) true ∷ [], [])
unfolding poll_all
poll_all-missed_example =
    poll_all-missed log_fd two_threads (quiet_round 2) (quiet_round 2) [] b'S' b'O' (codes "T")
      (codes "P") [] refl refl (unfold contains in refl) (unfold contains in refl) (omega arith)
      (omega arith) refl refl
