-- ===== src/Tracer/Session/Reports.antt =====
-- Each call of `write_cb` is about a call of the tracee that was seen from its start to its end.
use hsed.Base.{
  ℕ, ◌≡◌, refl, sym, ap, subst, ◌∙◌, ◌⊎◌, inl, inr, ℤ, eqb_ℤ, eqb_ℤ→eq, Bool, true, false,
  Bool-cases, Option, none, some, List, [], ◌∷◌, ◌==◌, ◌&&◌, ◌||◌, if◌then◌else◌, arith,
}
use hsed.Tracer.Threads.{ThreadState, find_tid}
use hsed.Tracer.Threads.Table.{find_tid-tid}
use hsed.Tracer.Session.{
  Target, Regs, Waited, idle, no_children, failing, status, Round, Write, Action, resume, cont,
  seize, attached, interrupt, await, detach, report, following, is_stopped, stop_signal,
  syscall_trap, selects, enter, captured_bytes, step,
}

-- The sessions that the loop can be in: the rounds so far, the last one first, and the table.
pub data Reach (target : Target) (start : List ThreadState)
    : List Round → List ThreadState → Type 0 where
  begins : Reach target start [] start
  continues :
      {past : List Round} {tids tids' : List ThreadState} (round : Round)
      → Reach target start past tids
      → (step target tids round).1 ≡ following tids'
      → Reach target start (round ∷ past) tids'

-- The round is a stop of this thread at the start or the end of a call.
abbrev pub call_stop_of : ℤ → Waited → Bool
call_stop_of tid (status t s) = eqb_ℤ t tid && (is_stopped s && stop_signal s == syscall_trap)
call_stop_of tid idle = false
call_stop_of tid no_children = false
call_stop_of tid failing = false

-- The registers of a call to `write`, `pwrite64` or `writev` with the descriptor of the session.
pub record WritesTo (target : Target) (regs : Regs) : Type 0 where
  pub call :
      (regs.syscall_nr ≡ target.sys_write)
      ⊎ (regs.syscall_nr ≡ target.sys_pwrite64)
      ⊎ (regs.syscall_nr ≡ target.sys_writev)
  pub descriptor : regs.arg1 ≡ target.fd

pub both_true : (a b : Bool) → (a && b) ≡ true → (a ≡ true) × (b ≡ true)
both_true true b h = (refl, h)
both_true false b h = cc

one_true : (a b c : Bool) → (a || b || c) ≡ true → (a ≡ true) ⊎ (b ≡ true) ⊎ (c ≡ true)
one_true true b c h = inl refl
one_true false true c h = inr (inl refl)
one_true false false c h = inr (inr h)

selects-WritesTo :
    (target : Target) (regs : Regs) → selects target regs ≡ true → WritesTo target regs
unfolding selects
selects-WritesTo target regs h =
    let (calls, fd) = both_true _ _ h in
    record {
      call = elim (one_true _ _ _ calls) [
        | inl e ↦ inl (eqb_ℤ→eq regs.syscall_nr target.sys_write e)
        | inr (inl e) ↦ inr (inl (eqb_ℤ→eq regs.syscall_nr target.sys_pwrite64 e))
        | inr (inr e) ↦ inr (inr (eqb_ℤ→eq regs.syscall_nr target.sys_writev e))
      ];
      descriptor = eqb_ℤ→eq regs.arg1 target.fd fd;
    }

-- The thread's last such stop had these registers, and they are those of a call that writes to the
-- descriptor of the session.
abbrev pub LastEntry : Target → ℤ → Regs → List Round → Type 0
LastEntry target tid regs [] = ⊥
LastEntry target tid regs (round ∷ past) =
    ((call_stop_of tid round.waited ≡ true) × (round.regs ≡ some regs) × WritesTo target regs)
    ⊎ ((call_stop_of tid round.waited ≡ false) × LastEntry target tid regs past)

-- The writes that are reported.
abbrev pub writes : List Action → List Write
writes [] = []
writes (report w ∷ actions) = w ∷ writes actions
writes (resume tid sig ∷ actions) = writes actions
writes (cont tid ∷ actions) = writes actions
writes (interrupt tid ∷ actions) = writes actions
writes (seize tid ∷ actions) = writes actions
writes (attached ∷ actions) = writes actions
writes (await tid ∷ actions) = writes actions
writes (detach tid ∷ actions) = writes actions

abbrev pub is_writev_of : Target → Regs → Bool
is_writev_of target regs = eqb_ℤ regs.syscall_nr target.sys_writev

abbrev pub iovcnt_of : Target → Regs → ℕ
iovcnt_of target regs = if is_writev_of target regs then regs.arg3 else 0

-- What a report of this round says: the thread has stopped, and `entry` and `exit` are its registers
-- at its last stop before, which started a call that the session is about, and at this one.
abbrev pub IsJustified : Target → List Round → Round → Write → Type 0
IsJustified target past round w =
    (entry exit : Regs) × (call_stop_of w.tid round.waited ≡ true)
    × LastEntry target w.tid entry past
    × (round.regs ≡ some exit)
    × (w.ret ≡ exit.ret)
    × (w.is_writev ≡ is_writev_of target entry)
    × (w.bytes
        ≡ captured_bytes target round.memory (is_writev_of target entry) entry.arg2
            (iovcnt_of target entry) exit.ret)

-- A cell that is not capturing, or that holds what its thread's last stop gave.
abbrev pub Remembers : Target → List Round → ThreadState → Type 0
Remembers target past t =
    (t.capturing ≡ false)
    ⊎ ((entry : Regs) × LastEntry target t.tid entry past
        × (t.pending_is_writev ≡ is_writev_of target entry)
        × (t.pending_buf_addr ≡ entry.arg2)
        × (t.pending_iovcnt ≡ iovcnt_of target entry))

abbrev pub Remembered : Target → List Round → List ThreadState → Type 0
Remembered target past tids =
    (tid : ℤ) (t : ThreadState) → find_tid tids tid ≡ some t → Remembers target past t

-- A round that is no such stop of the thread changes nothing about it.
pub Remembers-cons :
    (target : Target) (past : List Round) (round : Round) (t : ThreadState)
    → call_stop_of t.tid round.waited ≡ false
    → Remembers target past t
    → Remembers target (round ∷ past) t
Remembers-cons target past round t h (inl quiet) = inl quiet
Remembers-cons target past round t h (inr (entry, last, w, a, i)) =
    inr (entry, inr (h, last), w, a, i)

pub enter-Remembers :
    (target : Target) (past : List Round) (round : Round) (ts : ThreadState)
    → call_stop_of ts.tid round.waited ≡ true
    → (regs : Option Regs) → round.regs ≡ regs
    → Remembers target (round ∷ past) (enter target ts regs)
unfolding enter
enter-Remembers target past round ts h none e = inl refl
enter-Remembers target past round ts h (some regs) e = elim (Bool-cases (selects target regs)) [
  | inl ours ↦ rw ours (inr (regs, inl (h, e, selects-WritesTo target regs ours), refl, refl, refl))
  | inr theirs ↦ rw theirs (inl refl)
]

-- The round's thread is another.
pub other_stop :
    (tid other : ℤ) (s : ℕ) → eqb_ℤ tid other ≡ false → call_stop_of other (status tid s) ≡ false
other_stop tid other s h = rw h

pub not_stopped :
    (tid other : ℤ) (s : ℕ) → is_stopped s ≡ false → call_stop_of other (status tid s) ≡ false
not_stopped tid other s h = ground (arith, h)

pub no_call_stop :
    (tid other : ℤ) (s : ℕ)
    → (stop_signal s == syscall_trap) ≡ false
    → call_stop_of other (status tid s) ≡ false
no_call_stop tid other s h = ground (arith, h)

module _ (target : Target) (past : List Round) (round : Round) (tid : ℤ) (s : ℕ) where
  -- A table in which only the round's thread has a new cell.
  pub Remembered-change :
      (tids tids' : List ThreadState)
      → round.waited ≡ status tid s
      → Remembered target past tids
      → ((t : ThreadState) → find_tid tids' tid ≡ some t → Remembers target (round ∷ past) t)
      → ((other : ℤ) → eqb_ℤ tid other ≡ false → find_tid tids' other ≡ find_tid tids other)
      → Remembered target (round ∷ past) tids'
  Remembered-change tids tids' e h own others other t f = elim (Bool-cases (eqb_ℤ tid other)) [
    | inl same ↦ own t (subst (λ x. find_tid tids' x ≡ some t) (sym (eqb_ℤ→eq tid other same)) f)
    | inr differs ↦
        let f' : find_tid tids other ≡ some t = sym (others other differs) ∙ f in
        Remembers-cons target past round t
          (ap (call_stop_of t.tid) e
            ∙ other_stop tid t.tid s (ap (eqb_ℤ tid) (find_tid-tid tids other t f') ∙ differs))
          (h other t f')
  ]

  -- A table with the cells of before, or fewer.
  pub Remembered-keep :
      (tids tids' : List ThreadState)
      → ((other : ℤ) → call_stop_of other round.waited ≡ false)
      → Remembered target past tids
      → ((other : ℤ) (t : ThreadState)
          → find_tid tids' other ≡ some t
          → (find_tid tids other ≡ some t) ⊎ (t.capturing ≡ false))
      → Remembered target (round ∷ past) tids'
  Remembered-keep tids tids' quiet h cells other t f = elim (cells other t f) [
    | inl old ↦ Remembers-cons target past round t (quiet t.tid) (h other t old)
    | inr fresh ↦ inl fresh
  ]
