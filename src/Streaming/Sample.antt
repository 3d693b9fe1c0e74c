-- ===== src/Streaming/Sample.antt =====
-- A stream of a process with two threads, of which one writes two bytes.
use hsed.Base.{
  ℕ, zero, suc, ◌≤◌, ◌≡◌, refl, sym, ap, subst, ℤ, pos, true, none, some, List, [], ◌∷◌, length,
  codes, arith,
}
use hsed.Libc.{strtol, to_i32}
use hsed.Libc.Numbers.{IsLong}
use hsed.Base64.RoundTrip.{IsBytes}
use hsed.Tracer.Threads.{max_tracked_tids}
use hsed.Tracer.Capture.{Memory}
use hsed.Tracer.Session.{Target, Regs, Waited, idle, status}
use hsed.Tracer.Session.Stored.{IsReal}
use hsed.Tracer.Attach.{Answers, taken, discover_tids}
use hsed.Tracer.Attach.Held.{DistinctTids}
use hsed.Tracer.Attach.Errors.{tids_of}
use hsed.Streaming.{StreamRound, StreamEnvironment}
use hsed.Streaming.Faithful.{IsDocumented, AllDocumented}

abbrev pub log_fd : Target
log_fd = record {
  fd = pos 3;
  max_capture = 200;
  sys_write = pos 1;
  sys_pwrite64 = pos 18;
  sys_writev = pos 20;
}

-- The same byte at each address.
abbrev letters : ℕ → List ℕ
letters zero = []
letters (suc n) = b'x' ∷ letters n

length-letters : (n : ℕ) → length (letters n) ≤ n
length-letters zero = omega arith
length-letters (suc n) = omega (arith, length-letters n)

letters-IsBytes : (n : ℕ) → IsBytes (letters n)
letters-IsBytes zero = tt
letters-IsBytes (suc n) = (omega arith, letters-IsBytes n)

abbrev readable : Memory
readable addr n = some (letters n)

same_letters : (n : ℕ) (s : List ℕ) → some (letters n) ≡ some s → letters n ≡ s
same_letters n s e = cc

readable-IsReal : IsReal readable
readable-IsReal = record {
  bounded = λ addr len s e. omega (arith, length-letters len, ap length (same_letters len s e));
  bytes = λ addr len s e. subst IsBytes (same_letters len s e) (letters-IsBytes len);
}

-- `write(3, 5000, 2)`, and its result.
abbrev entry_regs : Regs
entry_regs = record { syscall_nr = pos 1; arg1 = pos 3; arg2 = 5000; arg3 = 2; ret = pos 0 }

abbrev exit_regs : Regs
exit_regs = record entry_regs { ret = pos 2 }

-- The status of a stop with the signal `SIGTRAP | 0x80`.
abbrev call_stop : ℕ
call_stop = 34175

abbrev pub round_of : Waited → Regs → ℕ → StreamRound
round_of waited regs arrived = record {
  waited = waited;
  regs = some regs;
  event_message = none;
  memory = readable;
  interrupts = λ tid. true;
  arrived = arrived;
}

abbrev entering : StreamRound
entering = round_of (status (pos 7) call_stop) entry_regs 0

abbrev leaving : StreamRound
leaving = round_of (status (pos 7) call_stop) exit_regs 0

-- No thread has anything to tell, and so much has arrived of the client.
abbrev pub quiet_round : ℕ → StreamRound
quiet_round arrived = round_of idle entry_regs arrived

abbrev patient : Answers
patient = record { seizes = λ attempt. taken; interrupts = true; stopped = true; resumes = true }

abbrev pub small_stream : StreamEnvironment
small_stream = record {
  names = some (codes "7" ∷ codes "8" ∷ []);
  strerror = codes "Operation not permitted";
  kernel = λ tid. patient;
  has_memory = true;
  letting_go = record {
    waited = idle;
    keep_going = true;
    regs = none;
    event_message = none;
    memory = readable;
    interrupts = λ tid. true;
  };
  rounds = entering ∷ leaving ∷ quiet_round 0 ∷ quiet_round 1 ∷ [];
  room = λ w. true;
}

round_of-IsDocumented :
    (waited : Waited) (regs : Regs) (arrived : ℕ)
    → ((t : ℤ) (s : ℕ) → waited ≡ status t s → IsLong t)
    → IsLong regs.ret
    → IsDocumented waited (some regs) readable
round_of-IsDocumented waited regs arrived tids ret = record {
  tid = tids;
  ret = λ r e. subst (λ (q : Regs). IsLong q.ret) (same r e) ret;
  real = readable-IsReal;
}
  where
    same : (r : Regs) → some regs ≡ some r → regs ≡ r
    same r e = cc

seven : (t : ℤ) (s : ℕ) → status (pos 7) call_stop ≡ status t s → IsLong t
seven t s e = subst IsLong (number t s e) (omega arith)
  where
    number : (t : ℤ) (s : ℕ) → status (pos 7) call_stop ≡ status t s → pos 7 ≡ t
    number t s e = cc

nobody : (t : ℤ) (s : ℕ) → idle ≡ status t s → IsLong t
nobody t s e = cc

pub small_stream-AllDocumented : AllDocumented small_stream.rounds
small_stream-AllDocumented = (
  round_of-IsDocumented (status (pos 7) call_stop) entry_regs 0 seven (omega arith),
  (
    round_of-IsDocumented (status (pos 7) call_stop) exit_regs 0 seven (omega arith),
    (
      round_of-IsDocumented idle entry_regs 0 nobody (omega arith),
      (round_of-IsDocumented idle entry_regs 1 nobody (omega arith), tt),
    ),
  ),
)

discovered : tids_of (discover_tids small_stream.names max_tracked_tids) ≡ pos 7 ∷ pos 8 ∷ []
unfolding discover_tids to_i32 strtol
discovered = refl

pub small_stream-DistinctTids :
    DistinctTids (tids_of (discover_tids small_stream.names max_tracked_tids))
small_stream-DistinctTids = subst DistinctTids (sym discovered) ((refl, tt), (tt, tt))
