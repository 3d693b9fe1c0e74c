-- ===== src/Tracer/Session/Answers.antt =====
-- A thread that stops is set going again.
use hsed.Base.{
  ℕ, ◌≡◌, refl, ap, ◌∙◌, inl, inr, ℤ, true, Bool-cases, Option, none, some, List, [], ◌∷◌, ◌++◌,
  arith,
}
use hsed.Tracer.Threads.{ThreadState}
use hsed.Tracer.Threads.Table.{IsTable}
use hsed.Tracer.Session.{
  Target, Regs, status, Round, Action, resume, cont, seize, attached, interrupt, await, detach,
  report, Verdict, is_stopped, reported, handle_stop, handle_status, handle_wait, step,
}
use hsed.Tracer.Session.Cases.{handle_stop_cases, handle_thread_cases, found_lem}

-- The threads that are set going.
abbrev pub resumed : List Action → List ℤ
resumed [] = []
resumed (resume tid sig ∷ actions) = tid ∷ resumed actions
resumed (cont tid ∷ actions) = tid ∷ resumed actions
resumed (interrupt tid ∷ actions) = resumed actions
resumed (seize tid ∷ actions) = resumed actions
resumed (attached ∷ actions) = resumed actions
resumed (await tid ∷ actions) = resumed actions
resumed (detach tid ∷ actions) = resumed actions
resumed (report w ∷ actions) = resumed actions

resumed-reported :
    (target : Target) (round : Round) (ts : ThreadState) (regs : Option Regs)
    → resumed (reported target round.memory ts regs ++ resume ts.tid 0 ∷ []) ≡ ts.tid ∷ []
unfolding reported
resumed-reported target round ts none = refl
resumed-reported target round ts (some regs) = elim (Bool-cases ts.capturing) [
  | inl captures ↦ rw captures
  | inr passes ↦ rw passes
]

resumed-handle_stop :
    (target : Target) (round : Round) (tids : List ThreadState) (ts : ThreadState) (s : ℕ)
    → resumed (handle_stop target round tids ts s).0 ≡ ts.tid ∷ []
resumed-handle_stop target round tids ts s =
    handle_stop_cases (λ r. resumed r.0 ≡ ts.tid ∷ []) target round tids ts s
      (λ _ _. resumed-reported target round ts round.regs) (λ _ _. refl) (λ _ _. (refl, refl))

handle_status_stopped :
    (tids : List ThreadState) (tid : ℤ) (s : ℕ) (stopped : List Action × Verdict)
    → is_stopped s ≡ true
    → handle_status tids tid s stopped ≡ stopped
unfolding handle_status
handle_status_stopped tids tid s stopped h = ground arith

-- In a session with a well-formed table, whatever the signal or event, a thread that has stopped is
-- set going once in the same round, and no other thread is.
pub step_answers :
    (target : Target) (tids : List ThreadState) (round : Round) (tid : ℤ) (s : ℕ)
    → IsTable tids
    → round.waited ≡ status tid s
    → is_stopped s ≡ true
    → resumed (step target tids round).0 ≡ tid ∷ []
unfolding step handle_wait
step_answers target tids round tid s h e stops =
    ap (λ w. resumed (handle_wait target tids round w).0) e
    ∙ (handle_thread_cases (λ r. resumed r.0 ≡ tid ∷ []) target tids round tid s (λ _. refl)
        (λ ts here.
          ap (λ r. resumed r.0) (handle_status_stopped tids tid s _ stops)
          ∙ resumed-handle_stop target round tids ts s
          ∙ ap (λ t. t ∷ []) (found_lem tids tid ts h here).1)
        (λ tids' _. ap (λ r. resumed r.0) (handle_status_stopped tids' tid s _ stops)))
