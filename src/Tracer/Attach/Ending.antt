-- ===== src/Tracer/Attach/Ending.antt =====
-- What a round of `hsed_trace_fd` does with the threads that are attached: it follows them, or they
-- end, or it lets go of them.
use hsed.Base.{
  ℕ, ◌≡◌, refl, ap, ◌∙◌, ◌⊎◌, inl, inr, ℤ, pos, eqb_ℤ, Bool, true, false, ◌||◌, Bool-cases, Option,
  none, some, List, [], ◌∷◌, ◌++◌, if◌then◌else◌,
}
use hsed.Libc.{to_i32}
use hsed.Tracer.Threads.{
  ThreadState, find_tid, Place, found, added, over_capacity, find_or_add_tid, new_thread,
  remove_tid, update_tid,
}
use hsed.Tracer.Threads.Table.{IsTable}
use hsed.Tracer.Threads.Change.{remove_tid_lem, update_tid_lem}
use hsed.Tracer.Session.{
  Target, Regs, Waited, idle, no_children, failing, status, Round, Action, resume, Verdict,
  following, finished, is_exited, is_signaled, enter, leave, reported, adopt, handle_stop,
  unless_empty, handle_status, release, handle_thread, handle_wait, step,
}
use hsed.Tracer.Capture.{Memory}
use hsed.Tracer.Session.Cases.{
  enter-tid, handle_stop_cases, handle_thread_cases, handle_status_cases, found_lem, added_lem,
}
use hsed.Tracer.Attach.Held.{held, state, untraced, goes_on_running, held-release, follows, is_some}

-- The thread has exited or was killed, or the daemon has no tracee left.
abbrev pub Ends : ℤ → Waited → Type 0
Ends tid idle = ⊥
Ends tid failing = ⊥
Ends tid no_children = Unit
Ends tid (status t s) = (eqb_ℤ t tid ≡ true) × ((is_exited s || is_signaled s) ≡ true)

abbrev pub Ended : ℤ → List Round → Type 0
Ended tid [] = ⊥
Ended tid (round ∷ rounds) = Ends tid round.waited ⊎ Ended tid rounds

-- If the thread is attached, the table follows it.
abbrev pub IsFollowed : ℤ → Bool → List ThreadState → Type 0
IsFollowed tid b tids = b ≡ true → follows tids tid ≡ true

-- What a round does with a thread; `b` tells whether it is attached before.
abbrev pub Keeps : ℤ → Bool → Waited → List Action × Verdict → Type 0
Keeps tid b w (actions, finished) = (held tid (state b) actions ≡ untraced) ⊎ Ends tid w
Keeps tid b w (actions, following tids) =
    (held tid (state b) actions ≡ state b) × (IsFollowed tid b tids ⊎ Ends tid w)

module _ (tid : ℤ) (b : Bool) where
  -- A table in which one cell is new or changed.
  IsFollowed-if :
      (tids tids' : List ThreadState) (c : Bool) (t : ThreadState)
      → find_tid tids' tid ≡ (if c then some t else find_tid tids tid)
      → IsFollowed tid b tids
      → IsFollowed tid b tids'
  IsFollowed-if tids tids' true t e h attached = ap is_some e
  IsFollowed-if tids tids' false t e h attached = ap is_some e ∙ h attached

  IsFollowed-update :
      (tids : List ThreadState) (new old : ThreadState)
      → IsTable tids
      → find_tid tids new.tid ≡ some old
      → IsFollowed tid b tids
      → IsFollowed tid b (update_tid tids new)
  IsFollowed-update tids new old table e h =
      IsFollowed-if tids (update_tid tids new) (eqb_ℤ new.tid tid) new
        (update_tid_lem tids new old tid table e).1 h

  IsFollowed-added :
      (tids tids' : List ThreadState) (t : ℤ)
      → IsTable tids
      → find_or_add_tid tids t ≡ added tids'
      → IsFollowed tid b tids
      → IsFollowed tid b tids'
  IsFollowed-added tids tids' t table e h =
      IsFollowed-if tids tids' (eqb_ℤ t tid) (new_thread t) (added_lem tids t tid tids' table e).2 h

  IsFollowed-adopt :
      (tids : List ThreadState) (message : Option ℕ)
      → IsTable tids
      → IsFollowed tid b tids
      → IsFollowed tid b (adopt tids message)
  unfolding adopt
  IsFollowed-adopt tids none table h = h
  IsFollowed-adopt tids (some message) table h =
      placed (find_or_add_tid tids (to_i32 (pos message))) refl
    where
      placed :
          (p : Place)
          → find_or_add_tid tids (to_i32 (pos message)) ≡ p
          → IsFollowed tid b
              (elim p [ found t ↦ tids | added tids' ↦ tids' | over_capacity ↦ tids ])
      placed (found t) e = h
      placed over_capacity e = h
      placed (added tids') e = IsFollowed-added tids tids' (to_i32 (pos message)) table e h

  held-reported :
      (target : Target) (memory : Memory) (ts : ThreadState) (regs : Option Regs)
      → held tid (state b) (reported target memory ts regs ++ resume ts.tid 0 ∷ []) ≡ state b
  unfolding reported
  held-reported target memory ts none = goes_on_running (eqb_ℤ ts.tid tid) b
  held-reported target memory ts (some regs) = elim (Bool-cases ts.capturing) [
    | inl captures ↦ rw captures (goes_on_running (eqb_ℤ ts.tid tid) b)
    | inr quiet ↦ rw quiet (goes_on_running (eqb_ℤ ts.tid tid) b)
  ]

  ended-Keeps :
      (w : Waited) (tids : List ThreadState) → Ends tid w → Keeps tid b w ([], unless_empty tids)
  unfolding unless_empty
  ended-Keeps w [] ends = inr ends
  ended-Keeps w (t ∷ tids) ends = (refl, inr ends)

  unless_empty-Keeps :
      (w : Waited) (tids : List ThreadState)
      → IsFollowed tid b tids
      → Keeps tid b w ([], unless_empty tids)
  unfolding unless_empty find_tid
  unless_empty-Keeps w [] h = elim (Bool-cases b) [
    | inl attached ↦ cc (h attached)
    | inr free ↦ inl (ap state free)
  ]
  unless_empty-Keeps w (t ∷ tids) h = (refl, inl h)

  module _ (tids : List ThreadState) (table : IsTable tids) (t : ℤ) (s : ℕ) where
    -- A thread whose cell goes has ended, and no other one loses its cell.
    gone-Keeps :
        (is_exited s || is_signaled s) ≡ true
        → IsFollowed tid b tids
        → Keeps tid b (status t s) ([], unless_empty (remove_tid tids t))
    gone-Keeps ends h = elim (Bool-cases (eqb_ℤ t tid)) [
      | inl same ↦ ended-Keeps (status t s) (remove_tid tids t) (same, ends)
      | inr differs ↦ unless_empty-Keeps (status t s) (remove_tid tids t) (λ attached.
          ap is_some ((remove_tid_lem tids t tid table).1 ∙ rw differs refl) ∙ h attached)
    ]

    handle_status-Keeps :
        (stopped : List Action × Verdict)
        → IsFollowed tid b tids
        → Keeps tid b (status t s) stopped
        → Keeps tid b (status t s) (handle_status tids t s stopped)
    handle_status-Keeps stopped h k =
        handle_status_cases (Keeps tid b (status t s)) tids t s stopped (λ ends. gone-Keeps ends h)
          (λ _. (refl, inl h)) (λ _. k)

    handle_stop-Keeps :
        (target : Target) (round : Round) (ts : ThreadState)
        → find_tid tids ts.tid ≡ some ts
        → IsFollowed tid b tids
        → Keeps tid b (status t s) (handle_stop target round tids ts s)
    handle_stop-Keeps target round ts e h =
        let entered = enter target ts round.regs in
        let e' : find_tid tids entered.tid ≡ some ts = rw (enter-tid target ts round.regs) e in
        handle_stop_cases (Keeps tid b (status t s)) target round tids ts s
          (λ _ _. (
            held-reported target round.memory ts round.regs,
            inl (IsFollowed-update tids (leave ts) ts table e h),
          ))
          (λ _ _. (
            goes_on_running (eqb_ℤ ts.tid tid) b,
            inl (IsFollowed-update tids entered ts table e' h),
          ))
          (λ _ sig. (
            (goes_on_running (eqb_ℤ ts.tid tid) b, inl h),
            (
              goes_on_running (eqb_ℤ ts.tid tid) b,
              inl (IsFollowed-adopt tids round.event_message table h),
            ),
          ))

  handle_thread-Keeps :
      (target : Target) (tids : List ThreadState) (round : Round) (t : ℤ) (s : ℕ)
      → IsTable tids
      → IsFollowed tid b tids
      → Keeps tid b (status t s) (handle_thread target tids round t s)
  handle_thread-Keeps target tids round t s table h =
      handle_thread_cases (Keeps tid b (status t s)) target tids round t s
        (λ _. (goes_on_running (eqb_ℤ t tid) b, inl h))
        (λ ts e.
          handle_status-Keeps tids table t s _ h
            (handle_stop-Keeps tids table t s target round ts (found_lem tids t ts table e).0 h))
        (λ tids' e.
          let h' = IsFollowed-added tids tids' t table e h in
          handle_status-Keeps tids' (added_lem tids t t tids' table e).1 t s _ h'
            (goes_on_running (eqb_ℤ t tid) b, inl h'))

  pub step-Keeps :
      (target : Target) (tids : List ThreadState) (round : Round)
      → IsTable tids
      → IsFollowed tid b tids
      → round.interrupts tid ≡ true
      → Keeps tid b round.waited (step target tids round)
  unfolding step handle_wait
  step-Keeps target tids round table h works = waits round.waited
    where
      let_go : (c : Bool) → (b ≡ true → c ≡ true) → (if c then false else b) ≡ false
      let_go true k = refl
      let_go false k = elim (Bool-cases b) [ inl attached ↦ cc (k attached) | inr free ↦ free ]

      asks :
          (going : Bool)
          → let r : List Action × Verdict =
              if going then ([], following tids) else (release round tids, finished) in
            Keeps tid b idle r
      asks true = (refl, inl h)
      asks false =
          inl (held-release tid b round tids works ∙ ap state (let_go (follows tids tid) h))

      waits : (w : Waited) → Keeps tid b w (handle_wait target tids round w)
      waits idle = asks round.keep_going
      waits no_children = inr tt
      waits failing = (refl, inl h)
      waits (status t s) = handle_thread-Keeps target tids round t s table h
