-- ===== src/Tracer/Attach/Held.antt =====
-- No thread is left attached and forgotten: what is seized is followed or let go.
use hsed.Base.{
  ◌+◌, ◌≡◌, refl, sym, ap, ◌∙◌, inl, inr, ℤ, eqb_ℤ, eqb_ℤ→eq, Bool, true, false, Bool-cases, Option,
  none, some, List, [], ◌∷◌, ◌++◌, length, All, All-both, if◌then◌else◌,
}
use hsed.Tracer.Threads.{
  ThreadState, new_thread, find_tid, find_or_add_tid, Place, found, added, over_capacity,
  remove_tid,
}
use hsed.Tracer.Threads.Table.{IsTable, Placed, added-All, find_or_add_tid_lem}
use hsed.Tracer.Threads.Change.{found_cells, remove_tid_lem, remove_tid-All}
use hsed.Tracer.Session.{
  Round, Action, resume, seize, cont, attached, interrupt, await, detach, report, release,
}
use hsed.Tracer.Session.Cases.{added_lem}
use hsed.Tracer.Attach.{Answers, seize_loop, set_going, place_thread, attach_one, attach_all}

-- What the tracer has of a thread: nothing; a tracee that runs; one that it has asked to stop; or one
-- that it has then waited for, which has stopped or is gone.
pub data Hold : Type 0 where
  untraced running called halted : Hold

abbrev calling : Hold → Hold
calling untraced = untraced
calling running = called
calling called = called
calling halted = halted

abbrev waiting : Hold → Hold
waiting untraced = untraced
waiting running = running
waiting called = halted
waiting halted = halted

abbrev going : Hold → Hold
going untraced = untraced
going running = running
going called = called
going halted = running

-- The kernel detaches only a tracee that has stopped.
abbrev leaving : Hold → Hold
leaving untraced = untraced
leaving running = running
leaving called = called
leaving halted = untraced

-- What the tracer has of a thread after these actions, when `h` is what it had before.
abbrev pub held : ℤ → Hold → List Action → Hold
held tid h [] = h
held tid h (seize t ∷ actions) = held tid (if eqb_ℤ t tid then running else h) actions
held tid h (interrupt t ∷ actions) = held tid (if eqb_ℤ t tid then calling h else h) actions
held tid h (await t ∷ actions) = held tid (if eqb_ℤ t tid then waiting h else h) actions
held tid h (detach t ∷ actions) = held tid (if eqb_ℤ t tid then leaving h else h) actions
held tid h (resume t sig ∷ actions) = held tid (if eqb_ℤ t tid then going h else h) actions
held tid h (cont t ∷ actions) = held tid (if eqb_ℤ t tid then going h else h) actions
held tid h (report w ∷ actions) = held tid h actions
held tid h (attached ∷ actions) = held tid h actions

pub held-append :
    (tid : ℤ) (xs : List Action) (h : Hold) (ys : List Action)
    → held tid h (xs ++ ys) ≡ held tid (held tid h xs) ys
held-append tid [] h ys = refl
held-append tid (seize t ∷ xs) h ys = held-append tid xs (if eqb_ℤ t tid then running else h) ys
held-append tid (interrupt t ∷ xs) h ys =
    held-append tid xs (if eqb_ℤ t tid then calling h else h) ys
held-append tid (await t ∷ xs) h ys = held-append tid xs (if eqb_ℤ t tid then waiting h else h) ys
held-append tid (detach t ∷ xs) h ys = held-append tid xs (if eqb_ℤ t tid then leaving h else h) ys
held-append tid (resume t sig ∷ xs) h ys =
    held-append tid xs (if eqb_ℤ t tid then going h else h) ys
held-append tid (cont t ∷ xs) h ys = held-append tid xs (if eqb_ℤ t tid then going h else h) ys
held-append tid (report w ∷ xs) h ys = held-append tid xs h ys
held-append tid (attached ∷ xs) h ys = held-append tid xs h ys

-- A tracee that runs, or nothing.
abbrev pub state : Bool → Hold
state true = running
state false = untraced

-- What runs is set going without a change.
pub goes_on_running : (c b : Bool) → (if c then going (state b) else state b) ≡ state b
goes_on_running true true = refl
goes_on_running true false = refl
goes_on_running false b = refl

abbrev pub is_some : Option ThreadState → Bool
is_some none = false
is_some (some t) = true

is_some_if :
    (c : Bool) (t : ThreadState) (o : Option ThreadState)
    → is_some (if c then some t else o) ≡ (if c then true else is_some o)
is_some_if true t o = refl
is_some_if false t o = refl

-- Whether a thread has a cell.
abbrev pub follows : List ThreadState → ℤ → Bool
follows tids tid = is_some (find_tid tids tid)

unequal : false ≡ true → ⊥
unequal e = cc

-- Where PTRACE_INTERRUPT works, letting go of the table detaches a thread that has a cell, and no
-- other.
pub held-release :
    (tid : ℤ) (b : Bool) (round : Round) (tids : List ThreadState)
    → round.interrupts tid ≡ true
    → held tid (state b) (release round tids) ≡ state (if follows tids tid then false else b)
unfolding release find_tid
held-release tid b round [] works = refl
held-release tid b round (t ∷ tids) works =
    one (eqb_ℤ t.tid tid) refl (round.interrupts t.tid) refl
    ∙ held-release tid (if eqb_ℤ t.tid tid then false else b) round tids works
    ∙ ap state (here (eqb_ℤ t.tid tid) (find_tid tids tid))
  where
    alone : (b : Bool) → leaving (waiting (calling (state b))) ≡ untraced
    alone true = refl
    alone false = refl

    one :
        (c : Bool)
        → eqb_ℤ t.tid tid ≡ c
        → (i : Bool) → round.interrupts t.tid ≡ i
        → held tid (state b) (
            interrupt t.tid
            ∷ ((if i then await t.tid ∷ [] else []) ++ detach t.tid ∷ release round tids))
          ≡ held tid (state (if c then false else b)) (release round tids)
    one true same true e = rw (held, same) (ap (λ h. held tid h (release round tids)) (alone b))
    one true same false e =
        absurd (unequal (sym e ∙ (ap round.interrupts (eqb_ℤ→eq t.tid tid same) ∙ works)))
    one false differs true e = rw (held, differs) refl
    one false differs false e = rw (held, differs) refl

    here :
        (c : Bool) (o : Option ThreadState)
        → (if is_some o then false else (if c then false else b))
          ≡ (if is_some (if c then some t else o) then false else b)
    here true none = refl
    here true (some u) = refl
    here false none = refl
    here false (some u) = refl

-- A well-formed table of threads none of which is inside a call, such as a session begins with.
abbrev pub IsStart : List ThreadState → Type 0
IsStart tids = IsTable tids × All (λ t. t.capturing ≡ false) tids

abbrev pub DistinctTids : List ℤ → Type 0
DistinctTids [] = Unit
DistinctTids (tid ∷ tids) = All (λ t. eqb_ℤ tid t ≡ false) tids × DistinctTids tids

-- What attaching the thread `tid` leads to, as seen by the thread `other`.
abbrev IsAttached : Bool → List ThreadState → ℤ → ℤ → Hold → List Action × List ThreadState → Type 0
IsAttached interrupts tids tid other before r =
    IsStart r.1
    × (interrupts ≡ true → held other before r.0 ≡ state (follows r.1 other))
    × (eqb_ℤ tid other ≡ false → find_tid r.1 other ≡ find_tid tids other)

module _ (kernel : ℤ → Answers) (tids : List ThreadState) (tid other : ℤ) (start : IsStart tids)
    (unknown : find_tid tids tid ≡ none) where
  unknown_same : eqb_ℤ tid other ≡ true → find_tid tids other ≡ none
  unknown_same same = ap (find_tid tids) (sym (eqb_ℤ→eq tid other same)) ∙ unknown

  -- What the tracer has of `other` when `tid` has stopped.
  abbrev then_halted : Hold
  then_halted = if eqb_ℤ tid other then halted else state (follows tids other)

  -- A thread that is let go again.
  let_go_halted :
      (if eqb_ℤ tid other then leaving then_halted else then_halted) ≡ state (follows tids other)
  let_go_halted = elim (Bool-cases (eqb_ℤ tid other)) [
    | inl same ↦ rw (same, unknown_same same)
    | inr differs ↦ rw differs
  ]

  set_going-IsAttached :
      (answers : Answers) (tids' : List ThreadState)
      → find_or_add_tid tids tid ≡ added tids'
      → IsAttached
          (kernel other).interrupts
          tids
          tid
          other
          then_halted
          (set_going answers tids' tid)
  unfolding set_going
  set_going-IsAttached answers tids' e = elim (Bool-cases answers.resumes) [
    | inl goes ↦ rw goes (
      (table', fresh'),
      λ _.
          set_running (eqb_ℤ tid other) (follows tids other)
          ∙ ap state (sym (ap is_some finds ∙ is_some_if (eqb_ℤ tid other) _ _)),
      λ differs. finds ∙ (rw differs),
    )
    | inr stays ↦ rw stays (
      (removed.0, remove_tid-All (λ t. t.capturing ≡ false) tids' tid fresh'),
      λ _.
          twice (eqb_ℤ tid other) (find_tid tids other)
          ∙ ap (λ o. state (is_some o))
              (sym (removed.1 ∙ ap (λ o. if eqb_ℤ tid other then none else o) finds)),
      λ differs. removed.1 ∙ rw differs (finds ∙ (rw differs)),
    )
  ]
    where
      table' : IsTable tids'
      table' = (added_lem tids tid tid tids' start.0 e).1

      finds :
          find_tid tids' other
          ≡ (if eqb_ℤ tid other then some (new_thread tid) else find_tid tids other)
      finds = (added_lem tids tid other tids' start.0 e).2

      fresh' : All (λ t. t.capturing ≡ false) tids'
      fresh' = added-All (λ t. t.capturing ≡ false) tids tids' tid e start.1 refl

      removed :
          IsTable (remove_tid tids' tid)
          × (find_tid (remove_tid tids' tid) other
              ≡ (if eqb_ℤ tid other then none else find_tid tids' other))
          × (length tids' ≡ length (remove_tid tids' tid) + found_cells (find_tid tids' tid))
      removed = remove_tid_lem tids' tid other table'

      set_running :
          (c b : Bool)
          → (if c then going (if c then halted else state b) else (if c then halted else state b))
            ≡ state (if c then true else b)
      set_running true b = refl
      set_running false b = refl

      twice :
          (c : Bool) (o : Option ThreadState)
          → (if c
              then leaving (if c then halted else state (is_some o))
              else (if c then halted else state (is_some o)))
            ≡ state (is_some (if c then none else (if c then some (new_thread tid) else o)))
      twice true o = refl
      twice false o = refl

  place_thread-IsAttached :
      (answers : Answers)
      → IsAttached
          (kernel other).interrupts
          tids
          tid
          other
          then_halted
          (place_thread answers tids tid)
  unfolding place_thread
  place_thread-IsAttached answers = place (find_or_add_tid tids tid) refl
    where
      place :
          (p : Place)
          → find_or_add_tid tids tid ≡ p
          → IsAttached
              (kernel other).interrupts
              tids
              tid
              other
              then_halted
              (place_thread answers tids tid)
      place (found t) e =
          let k : Placed tids tid tid (found t) =
            rw e at (find_or_add_tid_lem tids tid tid start.0) in
          cc (sym unknown ∙ k.0)
      place over_capacity e = rw (e, place_thread) (start, λ _. let_go_halted, λ _. refl)
      place (added tids') e = rw (e, place_thread) (set_going-IsAttached answers tids' e)

  -- A thread that is seized and asked to stop, and waited for.
  halts :
      (c : Bool) (h : Hold)
      → (if c
          then waiting
              (if c then calling (if c then running else h) else (if c then running else h))
          else (if c then calling (if c then running else h) else (if c then running else h)))
        ≡ (if c then halted else h)
  halts true h = refl
  halts false h = refl

  -- Where the thread cannot be interrupted, it is another one.
  not_interrupted :
      (kernel tid).interrupts ≡ false
      → (kernel other).interrupts ≡ true
      → held other (state (follows tids other)) (seize tid ∷ interrupt tid ∷ detach tid ∷ [])
        ≡ state (follows tids other)
  not_interrupted fails works = elim (Bool-cases (eqb_ℤ tid other)) [
    | inl same ↦
        absurd (
          unequal (sym fails ∙ (ap (λ t. (kernel t).interrupts) (eqb_ℤ→eq tid other same) ∙ works)))
    | inr differs ↦ rw differs refl
  ]

  attach_one-IsAttached :
      IsAttached
        (kernel other).interrupts
        tids
        tid
        other
        (state (follows tids other))
        (attach_one kernel tids tid)
  unfolding attach_one
  attach_one-IsAttached = elim (Bool-cases (seize_loop 5 0 (kernel tid).seizes)) [
    | inr fails ↦ rw fails (start, λ _. refl, λ _. refl)
    | inl seized ↦ elim (Bool-cases (kernel tid).interrupts) [
      | inr fails ↦ rw (seized, fails) (start, not_interrupted fails, λ _. refl)
      | inl interrupted ↦ elim (Bool-cases (kernel tid).stopped) [
        | inr fails ↦
            rw (seized, interrupted, fails)
              (
                start,
                λ _.
                    ap (λ h. if eqb_ℤ tid other then leaving h else h)
                      (halts (eqb_ℤ tid other) (state (follows tids other)))
                    ∙ let_go_halted,
                λ _. refl,
              )
        | inl stops ↦
            rw (seized, interrupted, stops)
              (
                (place_thread-IsAttached (kernel tid)).0,
                λ works.
                    ap (λ h. held other h (place_thread (kernel tid) tids tid).0)
                      (halts (eqb_ℤ tid other) (state (follows tids other)))
                    ∙ (place_thread-IsAttached (kernel tid)).1 works,
                (place_thread-IsAttached (kernel tid)).2,
              )
      ]
    ]
  ]

-- The threads that are still to be attached: all different, and none of them followed.
abbrev pub AreNew : List ThreadState → List ℤ → Type 0
AreNew tids discovered = DistinctTids discovered × All (λ tid. find_tid tids tid ≡ none) discovered

-- From a table that may begin a session, attaching different threads that it does not follow leads to
-- one that may, and then, where PTRACE_INTERRUPT works, a thread is traced, if it was not before,
-- exactly if it is followed.
pub attach_all-IsStart :
    (kernel : ℤ → Answers) (discovered : List ℤ) (tids : List ThreadState) (other : ℤ)
    → IsStart tids
    → AreNew tids discovered
    → let (actions, tids') = attach_all kernel tids discovered in
      IsStart tids'
      × ((kernel other).interrupts ≡ true
          → held other (state (follows tids other)) actions ≡ state (follows tids' other))
unfolding attach_all
attach_all-IsStart kernel [] tids other start new = (start, λ _. refl)
attach_all-IsStart kernel (tid ∷ discovered) tids other start (distinct, unknown) =
    let (actions, tids') = attach_one kernel tids tid in
    let one : IsAttached (kernel other).interrupts tids tid other (state (follows tids other))
        (actions, tids') =
      attach_one-IsAttached kernel tids tid other start unknown.0 in
    let new : All (λ t. find_tid tids' t ≡ none) discovered =
      All-both discovered
        (λ t d n. (attach_one-IsAttached kernel tids tid t start unknown.0).2 d ∙ n) distinct.0
        unknown.1 in
    let rest = attach_all-IsStart kernel discovered tids' other one.0 (distinct.1, new) in
    (
      rest.0,
      λ works.
          held-append other actions (state (follows tids other))
            (attach_all kernel tids' discovered).0
          ∙ ap (λ h. held other h (attach_all kernel tids' discovered).0) (one.1 works)
          ∙ rest.1 works,
    )
