-- ===== src/Tracer/Session/Faithful.antt =====
-- What a round of a session reports is justified by the rounds before it.
use hsed.Base.{
  ◌≡◌, refl, sym, ap, subst, inl, inr, ℤ, Bool, true, false, Bool-cases, List, [], ◌∷◌,
  if◌then◌else◌, All,
}
use hsed.Tracer.Threads.{ThreadState}
use hsed.Tracer.Threads.Table.{IsTable, find_tid-All}
use hsed.Tracer.Session.{
  Target, Waited, idle, no_children, failing, status, Round, Action, Verdict, following, finished,
  handle_wait, release, step,
}
use hsed.Tracer.Session.Reports.{
  Reach, begins, continues, call_stop_of, writes, IsJustified, Remembered, Remembers-cons,
  not_stopped,
}
use hsed.Tracer.Session.Cases.{handle_thread_cases}
use hsed.Tracer.Session.Invariant.{IsSound, step-IsSound}
use hsed.Tracer.Session.Statuses.{
  Keeps, IsFaithful, known-IsFaithful, fresh-IsFaithful, full-IsFaithful,
}

pub writes-release : (round : Round) (tids : List ThreadState) → writes (release round tids) ≡ []
unfolding release
writes-release round [] = refl
writes-release round (t ∷ tids) = elim (Bool-cases (round.interrupts t.tid)) [
  | inl yes_stopped ↦ rw (yes_stopped, release) (writes-release round tids)
  | inr not_stopped ↦ rw (not_stopped, release) (writes-release round tids)
]

module _ (target : Target) (past : List Round) (round : Round) (tids : List ThreadState)
    (table : IsTable tids) (remembered : Remembered target past tids) where
  quiet_round :
      ((other : ℤ) → call_stop_of other round.waited ≡ false)
      → Remembered target (round ∷ past) tids
  quiet_round quiet other t f =
      Remembers-cons target past round t (quiet t.tid) (remembered other t f)

  step-IsFaithful : IsFaithful target past round (step target tids round)
  unfolding step handle_wait
  step-IsFaithful = waits round.waited refl
    where
      asks :
          (b : Bool)
          → round.waited ≡ idle
          → let r : List Action × Verdict =
              if b then ([], following tids) else (release round tids, finished) in
            IsFaithful target past round r
      asks true e = (quiet_round (λ other. ap (call_stop_of other) e), tt)
      asks false e =
          (tt, subst (All (IsJustified target past round)) (sym (writes-release round tids)) tt)

      waits :
          (w : Waited)
          → round.waited ≡ w
          → IsFaithful target past round (handle_wait target tids round w)
      waits idle e = asks round.keep_going e
      waits no_children e = (tt, tt)
      waits failing e = (quiet_round (λ other. ap (call_stop_of other) e), tt)
      waits (status tid s) e =
          handle_thread_cases (IsFaithful target past round) target tids round tid s
            (full-IsFaithful target past round tids tid s e table remembered)
            (known-IsFaithful target past round tids tid s e table remembered)
            (fresh-IsFaithful target past round tids tid s e table remembered)

Reach-Remembered :
    {target : Target} {start : List ThreadState} {past : List Round} {tids : List ThreadState}
    → IsTable start
    → All (λ t. t.capturing ≡ false) start
    → Reach target start past tids
    → IsTable tids × Remembered target past tids
Reach-Remembered {target} {start} {past} {tids} table fresh begins =
    (table, (λ tid t f. inl (find_tid-All (λ u. u.capturing ≡ false) tids tid t fresh f)))
Reach-Remembered {target} {start} {past} {tids} table fresh
      (continues {past = past'} {tids = before} round r e) =
    let (table', remembered) = Reach-Remembered table fresh r in
    (
      subst IsSound e (step-IsSound target before round table'),
      subst (Keeps target past) e (step-IsFaithful target past' round before table' remembered).0,
    )

-- In every session that begins with threads of which none is inside a call, each write that a round
-- reports is a call that the session saw from its start to its end.
pub step-IsJustified :
    (target : Target) (start : List ThreadState) (past : List Round) (tids : List ThreadState)
    (round : Round)
    → IsTable start
    → All (λ t. t.capturing ≡ false) start
    → Reach target start past tids
    → All (IsJustified target past round) (writes (step target tids round).0)
step-IsJustified target start past tids round table fresh r =
    let (table', remembered) = Reach-Remembered table fresh r in
    (step-IsFaithful target past round tids table' remembered).1
