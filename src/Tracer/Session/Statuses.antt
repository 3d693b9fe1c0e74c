-- ===== src/Tracer/Session/Statuses.antt =====
-- What is reported when a thread's status is handled, and what its cell remembers then.
use hsed.Base.{
  drop_some, ℕ, ◌≡◌, refl, sym, ap, subst, ◌∙◌, ◌⊎◌, inl, inr, ℤ, eqb_ℤ, eqb_ℤ_refl, true, false,
  Bool-cases, Option, none, some, List, [], ◌∷◌, ◌++◌, ◌==◌, ◌&&◌, if◌then◌else◌, All,
}
use hsed.Libc.{to_i32}
use hsed.Base.{pos}
use hsed.Tracer.Threads.{
  ThreadState, new_thread, find_tid, find_or_add_tid, Place, found, added, over_capacity,
  remove_tid, update_tid,
}
use hsed.Tracer.Threads.Table.{IsTable, Placed, find_or_add_tid_lem}
use hsed.Tracer.Threads.Change.{remove_tid_lem, update_tid_lem}
use hsed.Tracer.Session.{
  Target, Regs, status, Round, Action, resume, cont, Verdict, following, finished, is_stopped,
  stop_signal, syscall_trap, enter, leave, captured_bytes, reported, adopt, handle_stop,
  unless_empty, handle_status,
}
use hsed.Tracer.Session.Reports.{
  call_stop_of, writes, IsJustified, Remembers, Remembered, enter-Remembers, no_call_stop,
  not_stopped, Remembered-change, Remembered-keep,
}
use hsed.Tracer.Session.Cases.{
  enter-tid, handle_stop_cases, handle_status_cases, found_lem, added_lem,
}

abbrev pub Keeps : Target → List Round → Verdict → Type 0
Keeps target past (following tids) = Remembered target past tids
Keeps target past finished = Unit

-- What a round has to do: keep the cells true, and report only what is justified.
abbrev pub IsFaithful : Target → List Round → Round → List Action × Verdict → Type 0
IsFaithful target past round r =
    Keeps target (round ∷ past) r.1 × All (IsJustified target past round) (writes r.0)

Keeps-unless_empty :
    (target : Target) (past : List Round) (tids : List ThreadState)
    → Remembered target past tids
    → Keeps target past (unless_empty tids)
unfolding unless_empty
Keeps-unless_empty target past [] h = tt
Keeps-unless_empty target past (t ∷ tids) h = h

adopt_cells :
    (tids : List ThreadState) (message : Option ℕ) (other : ℤ) (t : ThreadState)
    → IsTable tids
    → find_tid (adopt tids message) other ≡ some t
    → (find_tid tids other ≡ some t) ⊎ (t.capturing ≡ false)
unfolding adopt
adopt_cells tids none other t h f = inl f
adopt_cells tids (some message) other t h f =
    place (find_or_add_tid tids child) (find_or_add_tid_lem tids child other h) f
  where
    child : ℤ
    child = to_i32 (pos message)

    place :
        (p : Place)
        → Placed tids child other p
        → find_tid (elim p [ found u ↦ tids | added tids' ↦ tids' | over_capacity ↦ tids ]) other
          ≡ some t
        → (find_tid tids other ≡ some t) ⊎ (t.capturing ≡ false)
    place (found u) k f' = inl f'
    place over_capacity k f' = inl f'
    place (added tids') k f' = elim (Bool-cases (eqb_ℤ child other)) [
      | inl same ↦ let e : some (new_thread child) ≡ some t = rw same at (sym k.2 ∙ f') in inr (cc)
      | inr differs ↦ inl (rw differs at (sym k.2 ∙ f'))
    ]

module _ (target : Target) (past : List Round) (round : Round) (tids : List ThreadState) (tid : ℤ)
    (s : ℕ) (waits : round.waited ≡ status tid s) (table : IsTable tids)
    (remembered : Remembered target past tids) where
  -- The end of a call.
  reported-IsJustified :
      (ts : ThreadState)
      → ts.tid ≡ tid
      → find_tid tids tid ≡ some ts
      → call_stop_of ts.tid round.waited ≡ true
      → (regs : Option Regs) → round.regs ≡ regs
      → All
          (IsJustified target past round)
          (writes (reported target round.memory ts regs ++ resume ts.tid 0 ∷ []))
  unfolding reported
  reported-IsJustified ts is f stops none e = tt
  reported-IsJustified ts is f stops (some exit) e = elim (Bool-cases ts.capturing) [
    | inr quiet ↦ rw quiet tt
    | inl captures ↦ elim (remembered tid ts f) [
      | inl quiet ↦ cc
      | inr (entry, last, w, a, c) ↦ rw captures (
        (
          entry,
          exit,
          stops,
          last,
          e,
          refl,
          w,
          λ i. captured_bytes target round.memory (w i) (a i) (c i) exit.ret,
        ),
        tt,
      )
    ]
  ]

  -- What an assignment through `ts` leaves.
  changed :
      (new ts : ThreadState) (other : ℤ)
      → find_tid tids ts.tid ≡ some ts
      → ts.tid ≡ tid
      → new.tid ≡ ts.tid
      → find_tid (update_tid tids new) other
        ≡ (if eqb_ℤ tid other then some new else find_tid tids other)
  changed new ts other f is same =
      (update_tid_lem tids new ts other table (ap (find_tid tids) same ∙ f)).1
      ∙ ap (λ x. if eqb_ℤ x other then some new else find_tid tids other) (same ∙ is)

  changed-Remembered :
      (new ts : ThreadState)
      → find_tid tids ts.tid ≡ some ts
      → ts.tid ≡ tid
      → new.tid ≡ ts.tid
      → Remembers target (round ∷ past) new
      → Remembered target (round ∷ past) (update_tid tids new)
  changed-Remembered new ts f is same h =
      let own : find_tid (update_tid tids new) tid ≡ some new =
        changed new ts tid f is same ∙ (rw (eqb_ℤ_refl tid)) in
      Remembered-change target past round tid s tids (update_tid tids new) waits remembered
        (λ t g. subst (Remembers target (round ∷ past)) (drop_some (sym own ∙ g)) h)
        (λ other differs. changed new ts other f is same ∙ rw differs)

  at_stop :
      (ts : ThreadState)
      → ts.tid ≡ tid
      → is_stopped s ≡ true
      → (stop_signal s == syscall_trap) ≡ true
      → call_stop_of ts.tid round.waited ≡ true
  at_stop ts is stopped trap =
      ap (call_stop_of ts.tid) waits
      ∙ ap (λ x. eqb_ℤ tid x && (is_stopped s && stop_signal s == syscall_trap)) is
      ∙ rw (eqb_ℤ_refl tid, stopped, trap)

  handle_stop-IsFaithful :
      (ts : ThreadState)
      → ts.tid ≡ tid
      → find_tid tids tid ≡ some ts
      → is_stopped s ≡ true
      → IsFaithful target past round (handle_stop target round tids ts s)
  handle_stop-IsFaithful ts is f stopped =
      let f' : find_tid tids ts.tid ≡ some ts = ap (find_tid tids) is ∙ f in
      handle_stop_cases (IsFaithful target past round) target round tids ts s
        (λ trap _. (
          changed-Remembered (leave ts) ts f' is refl (inl refl),
          reported-IsJustified ts is f (at_stop ts is stopped trap) round.regs refl,
        ))
        (λ trap _. (
          changed-Remembered (enter target ts round.regs) ts f' is (enter-tid target ts round.regs)
              (enter-Remembers target past round ts (at_stop ts is stopped trap) round.regs refl),
          tt,
        ))
        (λ trap sig.
          let quiet : (other : ℤ) → call_stop_of other round.waited ≡ false =
            λ other. ap (call_stop_of other) waits ∙ no_call_stop tid other s trap in
          (
            (
              Remembered-keep target past round tid s tids tids quiet remembered
                  (λ other t g. inl g),
              tt,
            ),
            (
              Remembered-keep target past round tid s tids (adopt tids round.event_message) quiet
                  remembered (λ other t g. adopt_cells tids round.event_message other t table g),
              tt,
            ),
          ))

  -- A table from which the thread is removed.
  removed-Remembered :
      (tids' : List ThreadState)
      → IsTable tids'
      → ((other : ℤ) → eqb_ℤ tid other ≡ false → find_tid tids' other ≡ find_tid tids other)
      → Remembered target (round ∷ past) (remove_tid tids' tid)
  removed-Remembered tids' table' others =
      let gone : find_tid (remove_tid tids' tid) tid ≡ none =
        (remove_tid_lem tids' tid tid table').1 ∙ (rw (eqb_ℤ_refl tid)) in
      Remembered-change target past round tid s tids (remove_tid tids' tid) waits remembered
        (λ t g. cc (sym gone ∙ g))
        (λ other differs.
          (remove_tid_lem tids' tid other table').1 ∙ rw differs (others other differs))

  pub known-IsFaithful :
      (ts : ThreadState)
      → find_or_add_tid tids tid ≡ found ts
      → IsFaithful target past round (handle_status tids tid s (handle_stop target round tids ts s))
  known-IsFaithful ts e =
      let (f, is) = found_lem tids tid ts table e in
      handle_status_cases (IsFaithful target past round) tids tid s _
        (λ _. (
          Keeps-unless_empty target (round ∷ past) (remove_tid tids tid)
              (removed-Remembered tids table (λ other _. refl)),
          tt,
        ))
        (λ runs. (
          Remembered-keep target past round tid s tids tids
              (λ other. ap (call_stop_of other) waits ∙ not_stopped tid other s runs) remembered
              (λ other t g. inl g),
          tt,
        ))
        (handle_stop-IsFaithful ts is (sym (ap (find_tid tids) is) ∙ f))

  pub fresh-IsFaithful :
      (tids' : List ThreadState)
      → find_or_add_tid tids tid ≡ added tids'
      → IsFaithful target past round
          (handle_status tids' tid s (resume tid 0 ∷ [], following tids'))
  fresh-IsFaithful tids' e =
      let table' = (added_lem tids tid tid tids' table e).1 in
      let own : find_tid tids' tid ≡ some (new_thread tid) =
        (added_lem tids tid tid tids' table e).2 ∙ (rw (eqb_ℤ_refl tid)) in
      let others : (other : ℤ)
          → eqb_ℤ tid other ≡ false
          → find_tid tids' other ≡ find_tid tids other =
        λ other differs. (added_lem tids tid other tids' table e).2 ∙ rw differs in
      let keeps : Remembered target (round ∷ past) tids' =
        Remembered-change target past round tid s tids tids' waits remembered
          (λ t g. inl (sym (ap (λ (u : ThreadState). u.capturing) (drop_some (sym own ∙ g)))))
          others in
      handle_status_cases (IsFaithful target past round) tids' tid s _
        (λ _. (
          Keeps-unless_empty target (round ∷ past) (remove_tid tids' tid)
              (removed-Remembered tids' table' others),
          tt,
        ))
        (λ _. (keeps, tt)) (λ _. (keeps, tt))

  pub full-IsFaithful :
      find_or_add_tid tids tid ≡ over_capacity
      → IsFaithful target past round (cont tid ∷ [], following tids)
  full-IsFaithful e =
      let k : Placed tids tid tid over_capacity =
        rw e at (find_or_add_tid_lem tids tid tid table) in
      (
        Remembered-change target past round tid s tids tids waits remembered
            (λ t g. cc (sym k.0 ∙ g)) (λ other _. refl),
        tt,
      )
