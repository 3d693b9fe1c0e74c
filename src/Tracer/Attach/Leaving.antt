-- ===== src/Tracer/Attach/Leaving.antt =====
-- How the main loop of `hsed_trace_fd` leaves the threads that are attached.
use hsed.Base.{
  All, true, refl, ◌≡◌, sym, ap, subst, ◌∙◌, ◌⊎◌, inl, inr, ℤ, Bool, List, [], ◌∷◌, ◌++◌,
}
use hsed.Tracer.Threads.{ThreadState}
use hsed.Tracer.Threads.Table.{IsTable}
use hsed.Tracer.Session.{Target, Round, Action, Verdict, following, finished, step}
use hsed.Tracer.Session.Invariant.{IsSound, step-IsSound}
use hsed.Tracer.Attach.{Session, over, followed, run}
use hsed.Tracer.Attach.Held.{Hold, untraced, state, held, held-append}
use hsed.Tracer.Attach.Ending.{Ended, IsFollowed, Keeps, step-Keeps}

-- How a session leaves a thread: detached, or, while it goes on, running and followed, or not traced.
abbrev pub AtEnd : ℤ → Hold → Session → Type 0
AtEnd tid h over = h ≡ untraced
AtEnd tid h (followed tids) = (b : Bool) × (h ≡ state b) × IsFollowed tid b tids

-- The loop lets go of a thread, or goes on following it, or the thread has ended.
pub run-AtEnd :
    (target : Target) (tid : ℤ) (b : Bool) (tids : List ThreadState) (rounds : List Round)
    → IsTable tids
    → IsFollowed tid b tids
    → All (λ round. round.interrupts tid ≡ true) rounds
    → let (actions, end) = run target tids rounds in
      AtEnd tid (held tid (state b) actions) end ⊎ Ended tid rounds
unfolding run
run-AtEnd target tid b tids [] table h works = inl (b, refl, h)
run-AtEnd target tid b tids (round ∷ rounds) table h works =
    next (step target tids round).1 (step-Keeps tid b target tids round table h works.0)
      (step-IsSound target tids round table)
      (λ tids' table' h'. run-AtEnd target tid b tids' rounds table' h' works.1)
  where
    actions : List Action
    actions = (step target tids round).0

    next :
        (verdict : Verdict)
        → Keeps tid b round.waited (actions, verdict)
        → IsSound verdict
        → ((tids' : List ThreadState)
            → IsTable tids'
            → IsFollowed tid b tids'
            → AtEnd tid (held tid (state b) (run target tids' rounds).0) (run target tids' rounds).1
              ⊎ Ended tid rounds)
        → let onward : List Action × Session = elim verdict [
          | finished ↦ (actions, over)
          | following tids' ↦ (actions ++ (run target tids' rounds).0, (run target tids' rounds).1)
        ] in
          AtEnd tid (held tid (state b) onward.0) onward.1 ⊎ Ended tid (round ∷ rounds)
    next finished (inl free) sound rest = inl free
    next finished (inr ends) sound rest = inr (inl ends)
    next (following tids') (same, inr ends) sound rest = inr (inl ends)
    next (following tids') (same, inl h') sound rest = elim (rest tids' sound h') [
      | inr later ↦ inr (inr later)
      | inl end ↦ inl (
          subst (λ c. AtEnd tid c (run target tids' rounds).1)
            (sym (
              held-append tid actions (state b) (run target tids' rounds).0
              ∙ ap (λ c. held tid c (run target tids' rounds).0) same))
            end)
    ]
