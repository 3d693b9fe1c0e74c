-- ===== src/Tracer/Attach/Justified.antt =====
-- Each call of `write_cb` in a whole call of `hsed_trace_fd`.
use hsed.Base.{
  ℕ, ◌≡◌, refl, sym, subst, inl, inr, ℤ, Bool-cases, Option, none, some, List, [], ◌∷◌, ◌++◌, All,
  All-append, All-map,
}
use hsed.Tracer.Threads.{ThreadState, max_tracked_tids}
use hsed.Tracer.Session.{
  Target, Round, Write, Action, attached, Verdict, following, finished, release, step,
}
use hsed.Tracer.Session.Reports.{Reach, begins, continues, writes, IsJustified}
use hsed.Tracer.Session.Faithful.{writes-release, step-IsJustified}
use hsed.Tracer.Attach.{
  discover_tids, attach_all, Session, over, run, Environment, follow, with_threads, with_tids,
  clamp_capture, trace_fd,
}
use hsed.Tracer.Attach.Held.{IsStart, DistinctTids}
use hsed.Tracer.Attach.Errors.{tids_of, attach_all_lem}
use hsed.Tracer.Attach.Quiet.{writes-append, attach_all-Quiet}

-- Rounds that were seen, the last one first, in front of others.
abbrev pub onto : List Round → List Round → List Round
onto [] later = later
onto (round ∷ past) later = onto past (round ∷ later)

-- The write is justified by one of the rounds and those before it.
pub record JustifiedIn (target : Target) (rounds : List Round) (w : Write) : Type 0 where
  pub past : List Round
  pub round : Round
  pub later : List Round
  pub together : onto past (round ∷ later) ≡ rounds
  pub reasons : IsJustified target past round w

module _ (target : Target) (start : List ThreadState) (ready : IsStart start) where
  step-JustifiedIn :
      (past : List Round) (tids : List ThreadState) (round : Round) (later : List Round)
      → Reach target start past tids
      → All (JustifiedIn target (onto past (round ∷ later))) (writes (step target tids round).0)
  step-JustifiedIn past tids round later r =
      All-map (writes (step target tids round).0)
        (λ w reasons. record {
          past = past;
          round = round;
          later = later;
          together = refl;
          reasons = reasons;
        })
        (step-IsJustified target start past tids round ready.0 ready.1 r)

  run-JustifiedIn :
      (past : List Round) (tids : List ThreadState) (rounds : List Round)
      → Reach target start past tids
      → All (JustifiedIn target (onto past rounds)) (writes (run target tids rounds).0)
  unfolding run
  run-JustifiedIn past tids [] r = tt
  run-JustifiedIn past tids (round ∷ rounds) r =
      next (step target tids round).1 refl
        (λ tids' e. run-JustifiedIn (round ∷ past) tids' rounds (continues round r e))
    where
      actions : List Action
      actions = (step target tids round).0

      here : All (JustifiedIn target (onto past (round ∷ rounds))) (writes actions)
      here = step-JustifiedIn past tids round rounds r

      next :
          (verdict : Verdict)
          → (step target tids round).1 ≡ verdict
          → ((tids' : List ThreadState)
              → (step target tids round).1 ≡ following tids'
              → All
                  (JustifiedIn target (onto past (round ∷ rounds)))
                  (writes (run target tids' rounds).0))
          → let onward : List Action × Session = elim verdict [
            | finished ↦ (actions, over)
            | following tids' ↦
                (actions ++ (run target tids' rounds).0, (run target tids' rounds).1)
          ] in
            All (JustifiedIn target (onto past (round ∷ rounds))) (writes onward.0)
      next finished e rest = here
      next (following tids') e rest =
          subst (All (JustifiedIn target (onto past (round ∷ rounds))))
            (sym (writes-append actions (run target tids' rounds).0))
            (All-append _ _ _ here (rest tids' e))

follow-JustifiedIn :
    (env : Environment) (target : Target) (errlen : ℕ) (actions : List Action)
    (tids : List ThreadState)
    → IsStart tids
    → writes actions ≡ []
    → All (JustifiedIn target env.rounds) (writes (follow env target errlen (actions, tids)).0)
unfolding follow
follow-JustifiedIn env target errlen actions tids ready quiet = elim (Bool-cases env.has_memory) [
  | inl has ↦
      rw (has, follow, writes-append actions (attached ∷ (run target tids env.rounds).0), quiet)
        (run-JustifiedIn target tids ready [] tids env.rounds begins)
  | inr lacks ↦
      rw
        (
          lacks,
          follow,
          writes-append actions (attached ∷ release env.letting_go tids),
          quiet,
          writes-release env.letting_go tids,
        )
        tt
]

-- Whatever the kernel answers, each write that a call of `hsed_trace_fd` reports is justified by a
-- round and those before it: the thread has stopped at the end of a call that began, when it last
-- stopped at a call, as a write to the descriptor, and the report has the result of the call and the
-- bytes that are captured then, up to the limit; the threads in /proc/PID/task are different.
pub trace_fd-JustifiedIn :
    (env : Environment) (target : Target) (pid : ℤ) (errlen : ℕ)
    → DistinctTids (tids_of (discover_tids env.names max_tracked_tids))
    → All
        (JustifiedIn (record target { max_capture = clamp_capture target.max_capture }) env.rounds)
        (writes (trace_fd env target pid errlen).0)
unfolding trace_fd with_tids with_threads
trace_fd-JustifiedIn env target pid errlen distinct =
    listed (discover_tids env.names max_tracked_tids) distinct
  where
    target' : Target
    target' = record target { max_capture = clamp_capture target.max_capture }

    attached_to :
        (actions : List Action) (tids : List ThreadState)
        → IsStart tids
        → writes actions ≡ []
        → All
            (JustifiedIn target' env.rounds)
            (writes (with_threads env target' pid errlen (actions, tids)).0)
    attached_to actions [] ready quiet = rw quiet tt
    attached_to actions (t ∷ tids) ready quiet =
        follow-JustifiedIn env target' errlen actions (t ∷ tids) ready quiet

    listed :
        (found : Option (List ℤ))
        → DistinctTids (tids_of found)
        → All (JustifiedIn target' env.rounds) (writes (with_tids env target' pid errlen found).0)
    listed none d = tt
    listed (some []) d = tt
    listed (some (t ∷ tids)) d =
        let (actions, table) = attach_all env.kernel [] (t ∷ tids) in
        attached_to actions table (attach_all_lem env.kernel (t ∷ tids) t d).0
          (attach_all-Quiet env.kernel [] (t ∷ tids))
