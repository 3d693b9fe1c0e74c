-- ===== src/Streaming/Faithful.antt =====
-- Each line that a stream sends while it runs is about a write that the tracer has seen.
use hsed.Base.{
  ℕ, ◌≤◌, ◌≡◌, refl, sym, subst, ◌⊎◌, inl, inr, ℤ, eqb_ℤ→eq, Bool, true, Option, none, some, List,
  [], ◌∷◌, All, All-append, arith,
}
use hsed.Libc.Numbers.{IsLong}
use hsed.Protocol.{linef}
use hsed.Tracer.Threads.{ThreadState, max_tracked_tids}
use hsed.Tracer.Capture.{Memory}
use hsed.Tracer.Session.{
  Target, Regs, Waited, idle, no_children, failing, status, Round, Write, Action, resume, seize,
  cont, interrupt, await, detach, report, attached, Verdict, following, finished, step,
}
use hsed.Tracer.Session.Reports.{both_true, call_stop_of, writes}
use hsed.Tracer.Session.Stored.{IsReal, captured_bytes-IsBytes, captured_bytes_bounds}
use hsed.Tracer.Attach.{discover_tids, clamp_capture, trace_fd}
use hsed.Tracer.Attach.Held.{DistinctTids}
use hsed.Tracer.Attach.Errors.{tids_of}
use hsed.Tracer.Attach.Justified.{JustifiedIn, onto, trace_fd-JustifiedIn}
use hsed.Server.Recv.{RecvEvent}
use hsed.Server.Stream.{stream_write_cb}
use hsed.Streaming.{
  StreamRound, StreamEnvironment, attached_text, environment_of, poll_if, poll_all, round_with,
  started, played, seen_by,
}
use hsed.Streaming.Lines.{lines_of, listed}
use hsed.Streaming.Told.{IsSmall, Tells, stream_write_cb-Tells}

-- What the system documents of its answers in a round: the numbers are in the ranges of their types,
-- and a read of memory gives bytes, no more than it was asked for.
pub record IsDocumented (waited : Waited) (regs : Option Regs) (memory : Memory) : Type 0 where
  pub tid : (t : ℤ) (s : ℕ) → waited ≡ status t s → IsLong t
  pub ret : (r : Regs) → regs ≡ some r → IsLong r.ret
  pub real : IsReal memory

abbrev RoundIsDocumented : Round → Type 0
RoundIsDocumented round = IsDocumented round.waited round.regs round.memory

abbrev pub AllDocumented : List StreamRound → Type 0
AllDocumented = All (λ r. IsDocumented r.waited r.regs r.memory)

poll_if-IsDocumented :
    (r : StreamRound) (events : List RecvEvent) (waited : Waited)
    → IsDocumented r.waited r.regs r.memory
    → RoundIsDocumented (poll_if r events waited).0
unfolding poll_if round_with
poll_if-IsDocumented r events idle h = h
poll_if-IsDocumented r events no_children h = h
poll_if-IsDocumented r events failing h = h
poll_if-IsDocumented r events (status tid s) h = h

poll_all-IsDocumented :
    (target : Target) (tids : List ThreadState) (rs : List StreamRound) (events : List RecvEvent)
    → AllDocumented rs
    → All RoundIsDocumented (poll_all target tids rs events).0
unfolding poll_all
poll_all-IsDocumented target tids [] events h = tt
poll_all-IsDocumented target tids (r ∷ rs) events h =
    next (step target tids (poll_if r events r.waited).0).1
      (λ tids'. poll_all-IsDocumented target tids' rs (poll_if r events r.waited).1 h.1)
  where
    next :
        (verdict : Verdict)
        → ((tids' : List ThreadState)
            → All RoundIsDocumented (poll_all target tids' rs (poll_if r events r.waited).1).0)
        → let onward : List Round × List RecvEvent = elim verdict [
          | finished ↦ ((poll_if r events r.waited).0 ∷ [], (poll_if r events r.waited).1)
          | following tids' ↦ (
            (poll_if r events r.waited).0
                ∷ (poll_all target tids' rs (poll_if r events r.waited).1).0,
            (poll_all target tids' rs (poll_if r events r.waited).1).1,
          )
        ] in
          All RoundIsDocumented onward.0
    next finished ih = (poll_if-IsDocumented r events r.waited h.0, tt)
    next (following tids') ih = (poll_if-IsDocumented r events r.waited h.0, ih tids')

played-IsDocumented :
    (target : Target) (tids : List ThreadState) (rs : List StreamRound) (events : List RecvEvent)
    → AllDocumented rs
    → All RoundIsDocumented (played target tids rs events).0
unfolding played
played-IsDocumented target [] rs events h = tt
played-IsDocumented target (t ∷ tids) rs events h =
    poll_all-IsDocumented target (t ∷ tids) rs events h

seen_by-IsDocumented :
    (env : StreamEnvironment) (target : Target) (events : List RecvEvent)
    → AllDocumented env.rounds
    → All RoundIsDocumented (seen_by env target events).0
unfolding seen_by
seen_by-IsDocumented env target events h =
    played-IsDocumented (record target { max_capture = clamp_capture target.max_capture })
      (started env.has_memory env.kernel (discover_tids env.names max_tracked_tids)) env.rounds
      events h

of_onto :
    (past later : List Round)
    → All RoundIsDocumented (onto past later)
    → All RoundIsDocumented later
of_onto [] later h = h
of_onto (r ∷ past) later h = (of_onto past (r ∷ later) h).1

stop_IsLong :
    (tid : ℤ) (waited : Waited) (regs : Option Regs) (memory : Memory)
    → IsDocumented waited regs memory
    → call_stop_of tid waited ≡ true
    → IsLong tid
stop_IsLong tid idle regs memory h e = cc
stop_IsLong tid no_children regs memory h e = cc
stop_IsLong tid failing regs memory h e = cc
stop_IsLong tid (status t s) regs memory h e =
    subst IsLong (eqb_ℤ→eq t tid (both_true _ _ e).0) (h.tid t s refl)

-- With a capture limit that fits a line, what is justified by documented answers is small.
JustifiedIn-IsSmall :
    (target : Target) (rounds : List Round) (w : Write)
    → target.max_capture ≤ 1400
    → All RoundIsDocumented rounds
    → JustifiedIn target rounds w
    → IsSmall w
JustifiedIn-IsSmall target rounds w small h j =
    let documented =
      (of_onto j.past (j.round ∷ j.later) (subst (All RoundIsDocumented) (sym j.together) h)).0 in
    let (entry, exit, stops, last, regs, ret, is_writev, bytes) = j.reasons in
    record {
      tid = stop_IsLong w.tid j.round.waited j.round.regs j.round.memory documented stops;
      ret = subst IsLong (sym ret) (documented.ret exit regs);
      size = rw bytes (
          omega
            (arith, captured_bytes_bounds j.round.memory documented.real target _ _ _ exit.ret));
      bytes =
          rw bytes (captured_bytes-IsBytes j.round.memory documented.real target _ _ _ exit.ret);
    }

-- The line that says that the tracer is attached, or a line that tells a write which one of the
-- rounds and those before it justify.
abbrev pub IsTold : Target → List Round → ℤ → ℤ → List ℕ → Type 0
IsTold target rounds pid fd line =
    (line ≡ linef (attached_text pid fd))
    ⊎ ((w : Write) × JustifiedIn target rounds w × Tells w line)

module _ (target : Target) (rounds : List Round) (pid fd : ℤ) (room : Write → Bool) where
  listed-IsTold :
      (w : Write) (line : Option (List ℕ))
      → stream_write_cb (room w) w.tid w.ret w.bytes w.is_writev ≡ line
      → JustifiedIn target rounds w
      → IsSmall w
      → All (IsTold target rounds pid fd) (listed line)
  listed-IsTold w none e j small = tt
  listed-IsTold w (some line) e j small =
      (inr (w, j, stream_write_cb-Tells w (room w) line small e), tt)

  lines_of-IsTold :
      (actions : List Action)
      → target.max_capture ≤ 1400
      → All RoundIsDocumented rounds
      → All (JustifiedIn target rounds) (writes actions)
      → All (IsTold target rounds pid fd) (lines_of room pid fd actions)
  lines_of-IsTold [] small h j = tt
  lines_of-IsTold (attached ∷ actions) small h j = (inl refl, lines_of-IsTold actions small h j)
  lines_of-IsTold (report w ∷ actions) small h j =
      All-append _ (listed (stream_write_cb (room w) w.tid w.ret w.bytes w.is_writev)) _
        (listed-IsTold w _ refl j.0 (JustifiedIn-IsSmall target rounds w small h j.0))
        (lines_of-IsTold actions small h j.1)
  lines_of-IsTold (resume tid sig ∷ actions) small h j = lines_of-IsTold actions small h j
  lines_of-IsTold (seize tid ∷ actions) small h j = lines_of-IsTold actions small h j
  lines_of-IsTold (cont tid ∷ actions) small h j = lines_of-IsTold actions small h j
  lines_of-IsTold (interrupt tid ∷ actions) small h j = lines_of-IsTold actions small h j
  lines_of-IsTold (await tid ∷ actions) small h j = lines_of-IsTold actions small h j
  lines_of-IsTold (detach tid ∷ actions) small h j = lines_of-IsTold actions small h j

clamp_capture_small : (n : ℕ) → n ≤ 1400 → clamp_capture n ≤ 1400
unfolding clamp_capture
clamp_capture_small n h = ground arith

-- The capture limit in force.
abbrev pub clamped : Target → Target
clamped target = record target { max_capture = clamp_capture target.max_capture }

pub stream_lines-IsTold :
    (env : StreamEnvironment) (target : Target) (pid : ℤ) (errlen : ℕ) (events : List RecvEvent)
    → target.max_capture ≤ 1400
    → DistinctTids (tids_of (discover_tids env.names max_tracked_tids))
    → AllDocumented env.rounds
    → let rounds = (seen_by env target events).0 in
      All
        (IsTold (clamped target) rounds pid target.fd)
        (lines_of env.room pid target.fd (trace_fd (environment_of env rounds) target pid errlen).0)
unfolding environment_of
stream_lines-IsTold env target pid errlen events small distinct h =
    let rounds = (seen_by env target events).0 in
    lines_of-IsTold (clamped target) rounds pid target.fd env.room
      (trace_fd (environment_of env rounds) target pid errlen).0
      (clamp_capture_small target.max_capture small) (seen_by-IsDocumented env target events h)
      (trace_fd-JustifiedIn (environment_of env rounds) target pid errlen distinct)
