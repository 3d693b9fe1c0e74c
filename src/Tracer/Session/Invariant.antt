-- ===== src/Tracer/Session/Invariant.antt =====
-- A round of a session keeps the table of threads well formed.
use hsed.Base.{ℕ, ◌≡◌, ℤ, pos, Bool, true, false, Option, none, some, List, [], ◌∷◌, if◌then◌else◌}
use hsed.Libc.{to_i32}
use hsed.Tracer.Threads.{
  ThreadState, find_tid, find_or_add_tid, Place, found, added, over_capacity, remove_tid,
}
use hsed.Tracer.Threads.Table.{IsTable, Placed, find_or_add_tid_lem}
use hsed.Tracer.Threads.Change.{remove_tid_lem, update_tid_lem}
use hsed.Tracer.Session.{
  Target, Waited, idle, no_children, failing, status, Round, Action, Verdict, following, finished,
  enter, leave, adopt, handle_stop, unless_empty, handle_status, handle_thread, handle_wait,
  release, step,
}
use hsed.Tracer.Session.Cases.{
  handle_status_cases, enter-tid, handle_stop_cases, handle_thread_cases, found_lem, added_lem,
}

-- A verdict with a well-formed table.
abbrev pub IsSound : Verdict → Type 0
IsSound (following tids) = IsTable tids
IsSound finished = Unit

adopt-IsTable :
    (tids : List ThreadState) (message : Option ℕ) → IsTable tids → IsTable (adopt tids message)
unfolding adopt
adopt-IsTable tids none h = h
adopt-IsTable tids (some message) h =
    placed (find_or_add_tid tids child) (find_or_add_tid_lem tids child child h)
  where
    child : ℤ
    child = to_i32 (pos message)

    placed :
        (p : Place)
        → Placed tids child child p
        → IsTable (elim p [ found t ↦ tids | added tids' ↦ tids' | over_capacity ↦ tids ])
    placed (found t) k = h
    placed (added tids') k = k.1
    placed over_capacity k = h

unless_empty-IsSound : (tids : List ThreadState) → IsTable tids → IsSound (unless_empty tids)
unfolding unless_empty
unless_empty-IsSound [] h = tt
unless_empty-IsSound (t ∷ tids) h = h

handle_status-IsSound :
    (tids : List ThreadState) (tid : ℤ) (s : ℕ) (stopped : List Action × Verdict)
    → IsTable tids
    → IsSound stopped.1
    → IsSound (handle_status tids tid s stopped).1
handle_status-IsSound tids tid s stopped h k =
    handle_status_cases (λ r. IsSound r.1) tids tid s stopped
      (λ _. unless_empty-IsSound (remove_tid tids tid) (remove_tid_lem tids tid tid h).0) (λ _. h)
      (λ _. k)

handle_stop-IsSound :
    (target : Target) (round : Round) (tids : List ThreadState) (ts : ThreadState) (s : ℕ)
    → IsTable tids
    → find_tid tids ts.tid ≡ some ts
    → IsSound (handle_stop target round tids ts s).1
handle_stop-IsSound target round tids ts s h e =
    let entered = enter target ts round.regs in
    let e' : find_tid tids entered.tid ≡ some ts = rw (enter-tid target ts round.regs) e in
    handle_stop_cases (λ r. IsSound r.1) target round tids ts s
      (λ _ _. (update_tid_lem tids (leave ts) ts ts.tid h e).0)
      (λ _ _. (update_tid_lem tids entered ts ts.tid h e').0)
      (λ _ sig. (h, adopt-IsTable tids round.event_message h))

handle_thread-IsSound :
    (target : Target) (tids : List ThreadState) (round : Round) (tid : ℤ) (s : ℕ)
    → IsTable tids
    → IsSound (handle_thread target tids round tid s).1
handle_thread-IsSound target tids round tid s h =
    handle_thread_cases (λ r. IsSound r.1) target tids round tid s (λ _. h)
      (λ ts e.
        handle_status-IsSound tids tid s _ h
          (handle_stop-IsSound target round tids ts s h (found_lem tids tid ts h e).0))
      (λ tids' e.
        let k = (added_lem tids tid tid tids' h e).1 in handle_status-IsSound tids' tid s _ k k)

-- A round of a session leaves a well-formed table well formed: no more than 512 threads, each once.
pub step-IsSound :
    (target : Target) (tids : List ThreadState) (round : Round)
    → IsTable tids
    → IsSound (step target tids round).1
unfolding step handle_wait
step-IsSound target tids round h = waits round.waited
  where
    asks :
        (b : Bool)
        → let r : List Action × Verdict =
            if b then ([], following tids) else (release round tids, finished) in
          IsSound r.1
    asks true = h
    asks false = tt

    waits : (w : Waited) → IsSound (handle_wait target tids round w).1
    waits idle = asks round.keep_going
    waits no_children = tt
    waits failing = h
    waits (status tid s) = handle_thread-IsSound target tids round tid s h
