-- ===== src/Tracer/Attach.antt =====
-- How a session of backend/src/tracer.c begins: `discover_tids` and the first half of
-- `hsed_trace_fd`. As in the main loop, the kernel's answers are arguments, and what is asked of it
-- is a list of actions.
pub mod Held
pub mod Errors
pub mod Ending
pub mod Leaving
pub mod Quiet
pub mod Justified
use hsed.Base.{
  ℕ, zero, suc, ◌+◌, ℤ, Bool, true, false, not, ◌&&◌, ◌||◌, Option, none, some, List, [], ◌∷◌, ◌++◌,
  length, codes, show_ℕ, show_ℤ, ltb, ◌==◌, if◌then◌else◌,
}
use hsed.Libc.{is_digit, skip_spaces, strtol, to_i32}
use hsed.Outcome.{Outcome, ok, err}
use hsed.Protocol.{snprintf}
use hsed.Tracer.Threads.{
  ThreadState, max_tracked_tids, find_or_add_tid, Place, found, added, over_capacity, remove_tid,
}
use hsed.Tracer.Session.{
  Target, Round, Action, resume, seize, attached, interrupt, await, detach, Verdict, following,
  finished, release, step,
}

-- Digits to the end of the string.
digits_end : List ℕ → Bool
unfolding is_digit
digits_end [] = true
digits_end (c ∷ s) = is_digit c && digits_end s

some_digits : List ℕ → Bool
unfolding digits_end
some_digits [] = false
some_digits (c ∷ s) = digits_end (c ∷ s)

-- `strtol` leaves `end` at the end of the string, and not at its start.
number_ends : List ℕ → Bool
unfolding some_digits
number_ends [] = false
number_ends (c ∷ s) = if c == b'-' || c == b'+' then some_digits s else some_digits (c ∷ s)

is_dotted : List ℕ → Bool
is_dotted [] = false
is_dotted (c ∷ s) = c == b'.'

-- The loop over the names in /proc/PID/task; `out` is what is stored so far.
discover_loop : List (List ℕ) → ℕ → List ℤ → List ℤ
unfolding is_dotted number_ends skip_spaces
discover_loop [] max_out out = out
discover_loop (name ∷ names) max_out out =
    if is_dotted name
    then discover_loop names max_out out
    else if not (number_ends (skip_spaces name))
    then discover_loop names max_out out
    else discover_loop names max_out
        (if ltb (length out) max_out then out ++ to_i32 (strtol 10 name) ∷ [] else out)

-- `names` is `none` where `opendir` fails, and so is the result -1.
unfoldable pub discover_tids : Option (List (List ℕ)) → ℕ → Option (List ℤ)
unfolding discover_loop
discover_tids none max_out = none
discover_tids (some names) max_out = some (discover_loop names max_out [])

-- The result of one PTRACE_SEIZE: 0, or -1 with EPERM or another error.
pub data Seized : Type 0 where
  taken eperm refused : Seized

-- The kernel's answers about one thread; `seizes` is asked for each attempt, `stopped` tells whether
-- `waitpid` gives the thread and a stop.
pub record Answers : Type 0 where
  pub seizes : ℕ → Seized
  pub interrupts : Bool
  pub stopped : Bool
  pub resumes : Bool

-- The attempts that are left, and the number of the next one.
seize_loop : ℕ → ℕ → (ℕ → Seized) → Bool
seize_loop zero attempt seizes = false
seize_loop (suc left) attempt seizes = elim (seizes attempt) [
  | taken ↦ true
  | refused ↦ false
  | eperm ↦ seize_loop left (attempt + 1) seizes
]

-- PTRACE_SYSCALL for a thread that has a cell.
set_going : Answers → List ThreadState → ℤ → List Action × List ThreadState
set_going answers tids tid =
    if answers.resumes then (resume tid 0 ∷ [], tids) else (detach tid ∷ [], remove_tid tids tid)

-- A thread that has stopped.
place_thread : Answers → List ThreadState → ℤ → List Action × List ThreadState
unfolding set_going
place_thread answers tids tid = elim (find_or_add_tid tids tid) [
  | over_capacity ↦ (detach tid ∷ [], tids)
  | found t ↦ set_going answers tids tid
  | added tids' ↦ set_going answers tids' tid
]

-- The body of the loop over the threads that were discovered.
unfoldable pub attach_one : (ℤ → Answers) → List ThreadState → ℤ → List Action × List ThreadState
unfolding seize_loop place_thread
attach_one kernel tids tid =
    let (actions, tids') = place_thread (kernel tid) tids tid in
    if not (seize_loop 5 0 (kernel tid).seizes)
    then ([], tids)
    else if not (kernel tid).interrupts
    then (seize tid ∷ interrupt tid ∷ detach tid ∷ [], tids)
    else if not (kernel tid).stopped
    then (seize tid ∷ interrupt tid ∷ await tid ∷ detach tid ∷ [], tids)
    else (seize tid ∷ interrupt tid ∷ await tid ∷ actions, tids')

unfoldable pub attach_all :
    (ℤ → Answers) → List ThreadState → List ℤ → List Action × List ThreadState
unfolding attach_one
attach_all kernel tids [] = ([], tids)
attach_all kernel tids (tid ∷ discovered) =
    let (actions, tids') = attach_one kernel tids tid in
    let (more, tids'') = attach_all kernel tids' discovered in (actions ++ more, tids'')

-- How the loop leaves off: it returns 0, or the rounds end with threads that are still followed.
pub data Session : Type 0 where
  over : Session
  followed : List ThreadState → Session

-- The rounds of the main loop.
unfoldable pub run : Target → List ThreadState → List Round → List Action × Session
run target tids [] = ([], followed tids)
run target tids (round ∷ rounds) =
    let (actions, verdict) = step target tids round in
    elim verdict [
      | finished ↦ (actions, over)
      | following tids' ↦ let (more, end) = run target tids' rounds in (actions ++ more, end)
    ]

abbrev pub max_capture_hard_limit : ℕ
max_capture_hard_limit = 65536

-- The first two lines of `hsed_trace_fd`.
unfoldable pub clamp_capture : ℕ → ℕ
clamp_capture max_capture =
    let n = if max_capture == 0 then 200 else max_capture in
    if ltb max_capture_hard_limit n then max_capture_hard_limit else n

-- The answers to a whole call: the names of the threads, `strerror(errno)`, the kernel's answers
-- about each thread, whether there is memory, the answers while letting go, and the rounds.
pub record Environment : Type 0 where
  pub names : Option (List (List ℕ))
  pub strerror : List ℕ
  pub kernel : ℤ → Answers
  pub has_memory : Bool
  pub letting_go : Round
  pub rounds : List Round

abbrev pub list_error : ℤ → List ℕ → List ℕ
list_error pid reason =
    codes "could not list threads for " ++ (show_ℤ pid ++ (codes ": " ++ reason))

abbrev pub seize_error : ℤ → List ℕ → List ℕ
seize_error pid reason =
    codes "PTRACE_SEIZE failed for every thread of "
    ++ (show_ℤ pid
        ++ (codes ": "
            ++ (reason
                ++ codes
                    " (need root/CAP_SYS_PTRACE, and /proc/sys/kernel/yama/ptrace_scope must allow it)")))

abbrev pub memory_error : ℕ → List ℕ
memory_error max_capture =
    codes "out of memory allocating a " ++ (show_ℕ max_capture ++ codes "-byte capture buffer")

-- What follows once the threads are attached.
unfoldable pub follow :
    Environment → Target → ℕ → List Action × List ThreadState → List Action × Outcome Session
unfolding run
follow env target errlen (actions, tids) =
    let (more, end) = run target tids env.rounds in
    if env.has_memory then (actions ++ attached ∷ more, ok end) else (
      actions ++ attached ∷ release env.letting_go tids,
      err (snprintf errlen (memory_error target.max_capture)),
    )

with_threads :
    Environment → Target → ℤ → ℕ → List Action × List ThreadState → List Action × Outcome Session
unfolding follow
with_threads env target pid errlen (actions, []) =
    (actions, err (snprintf errlen (seize_error pid env.strerror)))
with_threads env target pid errlen (actions, t ∷ tids) =
    follow env target errlen (actions, t ∷ tids)

-- `ndiscovered <= 0`, or not.
with_tids : Environment → Target → ℤ → ℕ → Option (List ℤ) → List Action × Outcome Session
unfolding with_threads attach_all
with_tids env target pid errlen none = ([], err (snprintf errlen (list_error pid env.strerror)))
with_tids env target pid errlen (some []) =
    ([], err (snprintf errlen (list_error pid env.strerror)))
with_tids env target pid errlen (some (tid ∷ discovered)) =
    with_threads env target pid errlen (attach_all env.kernel [] (tid ∷ discovered))

-- `hsed_trace_fd`; `target` holds the descriptor and the capture limit that was asked for.
unfoldable pub trace_fd : Environment → Target → ℤ → ℕ → List Action × Outcome Session
unfolding with_tids discover_tids clamp_capture
trace_fd env target pid errlen =
    let target' = record target { max_capture = clamp_capture target.max_capture } in
    with_tids env target' pid errlen (discover_tids env.names max_tracked_tids)
