-- ===== src/Tracer/Attach/Errors.antt =====
-- How `hsed_trace_fd` leaves the threads of the target when it fails, and when it goes on.
use hsed.Base.{◌≡◌, refl, ◌⊎◌, ℤ, true, Option, none, some, List, [], ◌∷◌, All, arith}
use hsed.Outcome.{Outcome, ok, err}
use hsed.Tracer.Threads.{find_tid}
use hsed.Tracer.Session.{Round, Action}
use hsed.Tracer.Attach.{Answers, attach_all, Session, Environment}
use hsed.Tracer.Attach.Ending.{Ended}
use hsed.Tracer.Attach.Leaving.{AtEnd}
use hsed.Tracer.Attach.Held.{
  held, state, untraced, follows, IsStart, DistinctTids, attach_all-IsStart,
}

-- The threads that are found.
abbrev pub tids_of : Option (List ℤ) → List ℤ
tids_of none = []
tids_of (some tids) = tids

empty-IsStart : IsStart []
empty-IsStart = (record { fits = omega arith; distinct = tt }, tt)

All-unknown : (tids : List ℤ) → All (λ tid. find_tid [] tid ≡ none) tids
unfolding find_tid
All-unknown [] = tt
All-unknown (tid ∷ tids) = (refl, All-unknown tids)

-- Attaching different threads, whatever the kernel answers, leaves a well-formed table in which no
-- thread is inside a call, and then a thread for which PTRACE_INTERRUPT works is traced, and runs,
-- exactly if the table follows it.
pub attach_all_lem :
    (kernel : ℤ → Answers) (discovered : List ℤ) (tid : ℤ)
    → DistinctTids discovered
    → let (actions, tids) = attach_all kernel [] discovered in
      IsStart tids
      × ((kernel tid).interrupts ≡ true → held tid untraced actions ≡ state (follows tids tid))
unfolding find_tid
attach_all_lem kernel discovered tid distinct =
    attach_all-IsStart kernel discovered [] tid empty-IsStart (distinct, All-unknown discovered)

-- The result -1 leaves the thread alone. Otherwise it is left alone, or it still runs and is followed
-- where the rounds end, or it has ended in one of them.
abbrev pub LetsGo : ℤ → List Round → List Action × Outcome Session → Type 0
LetsGo tid rounds (actions, err message) = held tid untraced actions ≡ untraced
LetsGo tid rounds (actions, ok end) = AtEnd tid (held tid untraced actions) end ⊎ Ended tid rounds

-- PTRACE_INTERRUPT works for a thread, whenever it is asked for.
pub record Interrupts (env : Environment) (tid : ℤ) : Type 0 where
  pub attaching : (env.kernel tid).interrupts ≡ true
  pub letting_go : env.letting_go.interrupts tid ≡ true
  pub rounds : All (λ round. round.interrupts tid ≡ true) env.rounds
