-- ===== src/Tracer/Session/Cases.antt =====
-- The ways in which a round of backend/src/tracer.c handles the status of a thread.
use hsed.Base.{
  ℕ, ◌/◌, ◌≡◌, refl, ap, ◌∙◌, inl, inr, ℤ, true, false, ◌||◌, Bool-cases, Option, none, some, List,
  [], ◌∷◌, ◌++◌, ◌==◌, arith,
}
use hsed.Tracer.Threads.{
  ThreadState, find_tid, find_or_add_tid, Place, found, added, over_capacity, remove_tid,
  update_tid,
}
use hsed.Tracer.Threads.Table.{IsTable, Placed, find_or_add_tid_lem}
use hsed.Tracer.Session.{
  Target, Regs, Round, Action, resume, cont, Verdict, following, is_exited, is_signaled, is_stopped,
  stop_signal, syscall_trap, sigtrap, sigstop, ptrace_event_clone, enter, leave, reported, adopt,
  handle_stop, unless_empty, handle_status, handle_thread,
}

-- The ways a status is handled: the thread is gone, it has not stopped, or it has.
pub handle_status_cases {ℓ} :
    (P : List Action × Verdict → Type ℓ) (tids : List ThreadState) (tid : ℤ) (s : ℕ)
    (stopped : List Action × Verdict)
    → ((is_exited s || is_signaled s) ≡ true → P ([], unless_empty (remove_tid tids tid)))
    → (is_stopped s ≡ false → P ([], following tids))
    → (is_stopped s ≡ true → P stopped)
    → P (handle_status tids tid s stopped)
unfolding handle_status
handle_status_cases P tids tid s stopped gone runs stops =
    elim (Bool-cases (is_exited s || is_signaled s)) [
      | inl ends ↦ rw ends (gone ends)
      | inr here ↦ elim (Bool-cases (is_stopped s)) [
        | inl stop ↦ rw (here, stop) (stops stop)
        | inr running ↦ rw (here, running) (runs running)
      ]
    ]

pub enter-tid :
    (target : Target) (ts : ThreadState) (regs : Option Regs) → (enter target ts regs).tid ≡ ts.tid
unfolding enter
enter-tid target ts none = refl
enter-tid target ts (some regs) = ground arith

-- The ways a stop is handled: the end of a call, the start of one, and any other stop, which is
-- passed on with some signal and may add a thread.
pub handle_stop_cases {ℓ} :
    (P : List Action × Verdict → Type ℓ) (target : Target) (round : Round) (tids : List ThreadState)
    (ts : ThreadState) (s : ℕ)
    → ((stop_signal s == syscall_trap) ≡ true
        → ts.in_syscall ≡ true
        → P (
          reported target round.memory ts round.regs ++ resume ts.tid 0 ∷ [],
          following (update_tid tids (leave ts)),
        ))
    → ((stop_signal s == syscall_trap) ≡ true
        → ts.in_syscall ≡ false
        → P (resume ts.tid 0 ∷ [], following (update_tid tids (enter target ts round.regs))))
    → ((stop_signal s == syscall_trap) ≡ false
        → (sig : ℕ)
        → P (resume ts.tid sig ∷ [], following tids)
          × P (resume ts.tid sig ∷ [], following (adopt tids round.event_message)))
    → P (handle_stop target round tids ts s)
unfolding handle_stop
handle_stop_cases P target round tids ts s leaves enters others =
    elim (Bool-cases (stop_signal s == syscall_trap)) [
      | inl call ↦ elim (Bool-cases ts.in_syscall) [
        | inl inside ↦ rw (call, inside) (leaves call inside)
        | inr outside ↦ rw (call, outside) (enters call outside)
      ]
      | inr other ↦ elim (Bool-cases (stop_signal s == sigtrap)) [
        | inl trap ↦ elim (Bool-cases (s / 65536 == ptrace_event_clone)) [
          | inl clone ↦ rw (other, trap, clone) ((others other 0).1)
          | inr event ↦ rw (other, trap, event) ((others other 0).0)
        ]
        | inr plain ↦ elim (Bool-cases (stop_signal s == sigstop)) [
          | inl group ↦ rw (other, plain, group) ((others other 0).0)
          | inr signal ↦ rw (other, plain, signal) ((others other (stop_signal s)).0)
        ]
      ]
    ]

-- The ways a status is handled: no cell is left for the thread, it has one, or it gets one.
pub handle_thread_cases {ℓ} :
    (P : List Action × Verdict → Type ℓ) (target : Target) (tids : List ThreadState) (round : Round)
    (tid : ℤ) (s : ℕ)
    → (find_or_add_tid tids tid ≡ over_capacity → P (cont tid ∷ [], following tids))
    → ((ts : ThreadState)
        → find_or_add_tid tids tid ≡ found ts
        → P (handle_status tids tid s (handle_stop target round tids ts s)))
    → ((tids' : List ThreadState)
        → find_or_add_tid tids tid ≡ added tids'
        → P (handle_status tids' tid s (resume tid 0 ∷ [], following tids')))
    → P (handle_thread target tids round tid s)
unfolding handle_thread
handle_thread_cases P target tids round tid s full known fresh =
    place (find_or_add_tid tids tid) refl
  where
    place : (p : Place) → find_or_add_tid tids tid ≡ p → P (handle_thread target tids round tid s)
    place over_capacity e = rw (e, handle_thread) (full e)
    place (found ts) e = rw (e, handle_thread) (known ts e)
    place (added tids') e = rw (e, handle_thread) (fresh tids' e)

-- What the lookup of a thread tells, for each of these.
pub found_lem :
    (tids : List ThreadState) (tid : ℤ) (ts : ThreadState)
    → IsTable tids
    → find_or_add_tid tids tid ≡ found ts
    → (find_tid tids ts.tid ≡ some ts) × (ts.tid ≡ tid)
found_lem tids tid ts h e =
    let k : Placed tids tid tid (found ts) = rw e at (find_or_add_tid_lem tids tid tid h) in
    (ap (find_tid tids) k.1 ∙ k.0, k.1)

pub added_lem :
    (tids : List ThreadState) (tid other : ℤ) (tids' : List ThreadState)
    → IsTable tids
    → find_or_add_tid tids tid ≡ added tids'
    → Placed tids tid other (added tids')
added_lem tids tid other tids' h e = rw e at (find_or_add_tid_lem tids tid other h)
