-- ===== src/Tracer/Session.antt =====
-- The main loop of `hsed_trace_fd` in backend/src/tracer.c. A round of the loop gets what the kernel
-- and the client answer during it, and gives what it asks of them, in order, and the table after it.
pub mod Cases
pub mod Invariant
pub mod Answers
pub mod Reports
pub mod Statuses
pub mod Faithful
pub mod Captured
pub mod Stored
use hsed.Base.{
  ℕ, ◌+◌, ◌*◌, ◌/◌, ◌%◌, ℤ, pos, pos_part, ltb_ℤ, eqb_ℤ, Bool, true, false, not, ◌&&◌, ◌||◌, Option,
  none, some, List, [], ◌∷◌, ◌++◌, length, ltb, ◌==◌, if◌then◌else◌,
}
use hsed.Libc.{to_i32}
use hsed.Tracer.Threads.{
  ThreadState, find_or_add_tid, Place, found, added, over_capacity, new_thread, remove_tid,
  update_tid,
}
use hsed.Tracer.Capture.{Memory, read_remote, capture_writev}

-- What a session is about, and the system's numbers for the three calls.
pub record Target : Type 0 where
  pub fd : ℤ
  pub max_capture : ℕ
  pub sys_write : ℤ
  pub sys_pwrite64 : ℤ
  pub sys_writev : ℤ

-- The registers of a stopped thread, as `reg_syscall_nr` and the like read them.
pub record Regs : Type 0 where
  pub syscall_nr : ℤ
  pub arg1 : ℤ
  pub arg2 : ℕ
  pub arg3 : ℕ
  pub ret : ℤ

-- What `waitpid(-1, …)` gives: 0; -1 with ECHILD; -1 with another error; a thread and its status.
pub data Waited : Type 0 where
  idle no_children failing : Waited
  status : ℤ → ℕ → Waited

-- The answers of a round: of `waitpid`, `poll_cb`, PTRACE_GETREGS, PTRACE_GETEVENTMSG, reads of
-- memory, and whether PTRACE_INTERRUPT of a thread succeeds.
pub record Round : Type 0 where
  pub waited : Waited
  pub keep_going : Bool
  pub regs : Option Regs
  pub event_message : Option ℕ
  pub memory : Memory
  pub interrupts : ℤ → Bool

-- The arguments of `write_cb`.
pub record Write : Type 0 where
  pub tid : ℤ
  pub ret : ℤ
  pub bytes : List ℕ
  pub is_writev : Bool

-- `seize` is a PTRACE_SEIZE that succeeds, `resume` is PTRACE_SYSCALL with a signal, `await` is
-- `waitpid` for one thread, `attached` and `report` are the callbacks.
pub data Action : Type 0 where
  resume : ℤ → ℕ → Action
  seize cont interrupt await detach : ℤ → Action
  report : Write → Action
  attached : Action

pub data Verdict : Type 0 where
  following : List ThreadState → Verdict
  finished : Verdict

-- WIFEXITED, WIFSIGNALED, WIFSTOPPED and WSTOPSIG.
abbrev pub is_exited : ℕ → Bool
is_exited s = s % 128 == 0

abbrev pub is_signaled : ℕ → Bool
is_signaled s = not (s % 128 == 0) && not (s % 128 == 127)

abbrev pub is_stopped : ℕ → Bool
is_stopped s = s % 256 == 127

abbrev pub stop_signal : ℕ → ℕ
stop_signal s = s / 256 % 256

abbrev pub sigtrap : ℕ
sigtrap = 5

abbrev pub sigstop : ℕ
sigstop = 19

-- `SIGTRAP | 0x80`.
abbrev pub syscall_trap : ℕ
syscall_trap = 133

abbrev pub ptrace_event_clone : ℕ
ptrace_event_clone = 3

-- The call writes to the descriptor of the session.
unfoldable pub selects : Target → Regs → Bool
selects target regs =
    (eqb_ℤ regs.syscall_nr target.sys_write
      || eqb_ℤ regs.syscall_nr target.sys_pwrite64
      || eqb_ℤ regs.syscall_nr target.sys_writev)
    && eqb_ℤ regs.arg1 target.fd

-- A thread that enters a call.
unfoldable pub enter : Target → ThreadState → Option Regs → ThreadState
unfolding selects
enter target ts none = record ts { in_syscall = true; capturing = false }
enter target ts (some regs) =
    let is_writev = eqb_ℤ regs.syscall_nr target.sys_writev in
    if selects target regs
    then record ts {
      in_syscall = true;
      capturing = true;
      pending_is_writev = is_writev;
      pending_buf_addr = regs.arg2;
      pending_iovcnt = if is_writev then regs.arg3 else 0;
    }
    else record ts { in_syscall = true; capturing = false }

abbrev pub leave : ThreadState → ThreadState
leave ts = record ts { in_syscall = false; capturing = false }

-- What is read when a call that is captured has returned.
unfoldable pub captured_bytes : Target → Memory → Bool → ℕ → ℕ → ℤ → List ℕ
captured_bytes target memory is_writev addr iovcnt ret =
    let want = if ltb (pos_part ret) target.max_capture then pos_part ret else target.max_capture in
    if ltb_ℤ (pos 0) ret
    then (if is_writev
        then capture_writev memory addr iovcnt target.max_capture
        else read_remote memory addr want)
    else []

-- The call of `write_cb` for a thread that leaves a call, if there is one.
unfoldable pub reported : Target → Memory → ThreadState → Option Regs → List Action
reported target memory ts none = []
reported target memory ts (some regs) =
    if ts.capturing
    then report (record {
      tid = ts.tid;
      ret = regs.ret;
      bytes =
          captured_bytes target memory ts.pending_is_writev ts.pending_buf_addr ts.pending_iovcnt
            regs.ret;
      is_writev = ts.pending_is_writev;
    })
      ∷ []
    else []

-- The thread that was created, where it is new and there is room.
unfoldable pub adopt : List ThreadState → Option ℕ → List ThreadState
adopt tids none = tids
adopt tids (some message) = elim (find_or_add_tid tids (to_i32 (pos message))) [
  | found t ↦ tids
  | added tids' ↦ tids'
  | over_capacity ↦ tids
]

-- A stop of a thread that was known before; `ts` is its cell.
unfoldable pub handle_stop :
    Target → Round → List ThreadState → ThreadState → ℕ → List Action × Verdict
unfolding enter reported adopt
handle_stop target round tids ts s =
    if stop_signal s == syscall_trap
    then (if ts.in_syscall
        then (
          reported target round.memory ts round.regs ++ resume ts.tid 0 ∷ [],
          following (update_tid tids (leave ts)),
        )
        else (resume ts.tid 0 ∷ [], following (update_tid tids (enter target ts round.regs))))
    else if stop_signal s == sigtrap
    then (
      resume ts.tid 0 ∷ [],
      following (if s / 65536 == ptrace_event_clone then adopt tids round.event_message else tids),
    )
    else if stop_signal s == sigstop
    then (resume ts.tid 0 ∷ [], following tids)
    else (resume ts.tid (stop_signal s) ∷ [], following tids)

-- `if (ntids == 0) return 0`.
unfoldable pub unless_empty : List ThreadState → Verdict
unless_empty [] = finished
unless_empty (t ∷ tids) = following (t ∷ tids)

-- A status of thread `tid`, which now has a cell; `stopped` is what is done at a stop.
unfoldable pub handle_status :
    List ThreadState → ℤ → ℕ → List Action × Verdict → List Action × Verdict
unfolding unless_empty
handle_status tids tid s stopped =
    if is_exited s || is_signaled s
    then ([], unless_empty (remove_tid tids tid))
    else if not (is_stopped s)
    then ([], following tids)
    else stopped

-- The loops that let all threads go.
unfoldable pub release : Round → List ThreadState → List Action
release round [] = []
release round (t ∷ tids) =
    interrupt t.tid
    ∷ ((if round.interrupts t.tid then await t.tid ∷ [] else [])
        ++ detach t.tid ∷ release round tids)

-- A status of any thread of the tracees.
unfoldable pub handle_thread : Target → List ThreadState → Round → ℤ → ℕ → List Action × Verdict
unfolding handle_status
handle_thread target tids round tid s = elim (find_or_add_tid tids tid) [
  | over_capacity ↦ (cont tid ∷ [], following tids)
  | found ts ↦ handle_status tids tid s (handle_stop target round tids ts s)
  | added tids' ↦ handle_status tids' tid s (resume tid 0 ∷ [], following tids')
]

unfoldable pub handle_wait : Target → List ThreadState → Round → Waited → List Action × Verdict
unfolding handle_thread
handle_wait target tids round idle =
    if round.keep_going then ([], following tids) else (release round tids, finished)
handle_wait target tids round no_children = ([], finished)
handle_wait target tids round failing = ([], following tids)
handle_wait target tids round (status tid s) = handle_thread target tids round tid s

unfoldable pub step : Target → List ThreadState → Round → List Action × Verdict
unfolding handle_wait
step target tids round = handle_wait target tids round round.waited
