-- ===== src/Tracer/Examples.antt =====
-- The tracer's theorems at a process with two threads that writes two bytes, and tests.
use native.Mathlib.Omega.{arith}
use hsed.Base.{
  ℕ, ◌%◌, ◌^◌, ◌-◌, ◌==◌, ◌≡◌, refl, sym, subst, eqb_ℤ→ne, if◌then◌else◌, pos, true, false, none,
  some, List, [], ◌∷◌, take, min, codes, All,
}
use hsed.Libc.{strtol, to_i32}
use hsed.Tracer.Threads.{ThreadState, new_thread, max_tracked_tids, find_or_add_tid, update_tid}
use hsed.Tracer.Threads.Table.{IsTable}
use hsed.Tracer.Capture.{Memory, max_writev_iovecs}
use hsed.Tracer.Capture.Whole.{cells, iovecs_at, gathered}
use hsed.Tracer.Session.{
  idle, Target, Regs, Round, Waited, status, following, enter, captured_bytes, reported,
  handle_stop, step,
}
use hsed.Tracer.Session.Invariant.{IsSound, step-IsSound}
use hsed.Tracer.Session.Answers.{resumed, step_answers}
use hsed.Tracer.Session.Reports.{writes}
use hsed.Tracer.Attach.Justified.{JustifiedIn, trace_fd-JustifiedIn}
use hsed.Tracer.Session.Captured.{captured_bytes_whole}
use hsed.Tracer.Attach.{clamp_capture, discover_tids, Answers, taken, eperm, Environment, trace_fd}
use hsed.Tracer.Registers.{
  Call, X8664Regs, Aarch64Regs, x86_64_regs, aarch64_regs, get_regs, Kind, as_signed, report_of,
  calls_reported,
}
use hsed.Tracer.Attach.Held.{DistinctTids}
use hsed.Tracer.Attach.Errors.{tids_of}

-- The numbers of the calls on x86-64.
abbrev log_fd : Target
log_fd = record {
  fd = pos 3;
  max_capture = 200;
  sys_write = pos 1;
  sys_pwrite64 = pos 18;
  sys_writev = pos 20;
}

-- A byte at each address.
abbrev cell : ℕ → ℕ
cell addr = addr % 7

abbrev readable : Memory
readable addr n = some (cells cell addr n)

-- `write(3, 5000, 2)`, and its result.
abbrev entry_regs : Regs
entry_regs = record { syscall_nr = pos 1; arg1 = pos 3; arg2 = 5000; arg3 = 2; ret = pos 0 }

abbrev exit_regs : Regs
exit_regs = record entry_regs { ret = pos 2 }

-- The status of a stop with the signal `SIGTRAP | 0x80`.
abbrev call_stop : ℕ
call_stop = 34175

abbrev round_of : Waited → Regs → Round
round_of waited regs = record {
  waited = waited;
  keep_going = true;
  regs = some regs;
  event_message = none;
  memory = readable;
  interrupts = λ tid. true;
}

abbrev two_threads : List ThreadState
two_threads = new_thread (pos 7) ∷ new_thread (pos 8) ∷ []

two_threads-IsTable : IsTable two_threads
two_threads-IsTable = record {
  fits = omega arith;
  distinct = ((eqb_ℤ→ne (pos 8) (pos 7) refl, tt), (tt, tt));
}

abbrev entered : List ThreadState
entered = enter log_fd (new_thread (pos 7)) (some entry_regs) ∷ new_thread (pos 8) ∷ []

abbrev entering : Round
entering = round_of (status (pos 7) call_stop) entry_regs

abbrev leaving : Round
leaving = round_of (status (pos 7) call_stop) exit_regs

entered_after : (step log_fd two_threads entering).1 ≡ following entered
unfolding step find_or_add_tid handle_stop update_tid
entered_after = refl

step-IsSound_example : IsSound (step log_fd two_threads entering).1
step-IsSound_example = step-IsSound log_fd two_threads entering two_threads-IsTable

step_answers_example : resumed (step log_fd two_threads entering).0 ≡ pos 7 ∷ []
step_answers_example =
    step_answers log_fd two_threads entering (pos 7) call_stop two_threads-IsTable refl refl

captured_bytes_whole_example :
    captured_bytes log_fd readable true 6000 20 (pos 2)
    ≡ take 200 (gathered cell (iovecs_at cell 6000 (min 20 max_writev_iovecs)))
captured_bytes_whole_example =
    captured_bytes_whole log_fd cell readable true 6000 20 2 (λ addr n. refl) (omega arith)

-- The first attempt at a thread meets another tracer, the second one succeeds.
abbrev patient : Answers
patient = record {
  seizes = λ attempt. if attempt == 0 then eperm else taken;
  interrupts = true;
  stopped = true;
  resumes = true;
}

abbrev busy : Environment
busy = record {
  names = some (codes "." ∷ codes "7" ∷ codes "8" ∷ []);
  strerror = codes "Cannot allocate memory";
  kernel = λ tid. patient;
  has_memory = true;
  letting_go = entering;
  rounds = entering ∷ leaving ∷ record entering { waited = idle; keep_going = false } ∷ [];
}

discovered : tids_of (discover_tids busy.names max_tracked_tids) ≡ pos 7 ∷ pos 8 ∷ []
unfolding discover_tids to_i32 strtol
discovered = refl

trace_fd-JustifiedIn_example :
    All
      (JustifiedIn (record log_fd { max_capture = clamp_capture 200 }) busy.rounds)
      (writes (trace_fd busy log_fd (pos 7) 256).0)
trace_fd-JustifiedIn_example =
    trace_fd-JustifiedIn busy log_fd (pos 7) 256
      (subst DistinctTids (sym discovered) ((refl, tt), (tt, tt)))

-- `write(3, 5000, 2)` on both architectures.
abbrev write_call : Call
write_call = record { kind = Kind.write; first = 3; second = 5000; third = 2; result = 2 }

abbrev x86_64_start : X8664Regs
x86_64_start = record { orig_rax = 1; rax = 2 ^ 64 - 38; rdi = 3; rsi = 5000; rdx = 2 }

abbrev x86_64_end : X8664Regs
x86_64_end = record x86_64_start { rax = 2 }

-- The numbers of the calls on AArch64.
abbrev arm_fd : Target
arm_fd = record log_fd { sys_write = pos 64; sys_pwrite64 = pos 68; sys_writev = pos 66 }

abbrev aarch64_start : Aarch64Regs
aarch64_start = record {
  regs = λ n. if n == 8 then 64 else if n == 0 then 3 else if n == 1 then 5000 else 2;
}

abbrev aarch64_end : Aarch64Regs
aarch64_end = record { regs = λ n. if n == 8 then 64 else if n == 1 then 5000 else 2 }

calls_reported_example :
    (reported log_fd readable
        (enter log_fd (new_thread (pos 7)) (get_regs x86_64_regs (some x86_64_start)))
        (get_regs x86_64_regs (some x86_64_end))
      ≡ report_of log_fd readable (pos 7) write_call)
    × (reported arm_fd readable
          (enter arm_fd (new_thread (pos 7)) (get_regs aarch64_regs (some aarch64_start)))
          (get_regs aarch64_regs (some aarch64_end))
        ≡ report_of arm_fd readable (pos 7) write_call)
unfolding as_signed
calls_reported_example =
    calls_reported log_fd arm_fd readable (new_thread (pos 7)) write_call x86_64_start x86_64_end
      aarch64_start aarch64_end (refl, refl) (refl, refl) refl refl
      (record { orig_rax = refl; rdi = refl; rsi = refl; rdx = refl })
      (record { x8 = refl; x0 = refl; x1 = refl; x2 = refl }) refl refl
