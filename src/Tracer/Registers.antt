-- ===== src/Tracer/Registers.antt =====
-- The registers of a stopped thread in backend/src/tracer.c: `reg_syscall_nr` and the functions
-- beside it, for x86-64 and for AArch64, and `hsed_trace_fd` for any other architecture. A register
-- is a number of 64 bits.
use hsed.Base.{
  eqb_ℤ, eqb_ℤ_refl, Bool, true, false, ◌||◌, ◌∷◌, arith, ℕ, ◌-◌, ◌^◌, ◌≡◌, refl, ap, ◌∙◌, ℤ, pos,
  negsuc, Option, none, some, List, [], codes, ltb, if◌then◌else◌,
}
use hsed.Outcome.{Outcome, err}
use hsed.Protocol.{snprintf}
use hsed.Tracer.Threads.{ThreadState}
use hsed.Tracer.Capture.{Memory}
use hsed.Tracer.Session.{Target, Regs, Action, report, selects, captured_bytes, enter, reported}
use hsed.Tracer.Attach.{Session}

-- The cast of a register to `long long`.
unfoldable pub as_signed : ℕ → ℤ
as_signed n = if ltb n (2 ^ 63) then pos n else negsuc (2 ^ 64 - 1 - n)

-- The registers of x86-64 that are read.
pub record X8664Regs : Type 0 where
  pub orig_rax : ℕ
  pub rax : ℕ
  pub rdi : ℕ
  pub rsi : ℕ
  pub rdx : ℕ

pub x86_64_regs : X8664Regs → Regs
unfolding as_signed
x86_64_regs r = record {
  syscall_nr = as_signed r.orig_rax;
  arg1 = as_signed r.rdi;
  arg2 = r.rsi;
  arg3 = r.rdx;
  ret = as_signed r.rax;
}

-- The registers x0 to x30 of AArch64.
pub record Aarch64Regs : Type 0 where
  pub regs : ℕ → ℕ

pub aarch64_regs : Aarch64Regs → Regs
unfolding as_signed
aarch64_regs r = record {
  syscall_nr = as_signed (r.regs 8);
  arg1 = as_signed (r.regs 0);
  arg2 = r.regs 1;
  arg3 = r.regs 2;
  ret = as_signed (r.regs 0);
}

-- `get_regs`, which `ptrace` may refuse, and what the tracer reads of the registers.
abbrev pub get_regs : {A : Type 0} → (A → Regs) → Option A → Option Regs
get_regs view none = none
get_regs view (some r) = some (view r)

unsupported : List ℕ
unsupported = codes "live streaming is only implemented for x86_64 and aarch64 in this version"

pub trace_fd_unsupported : ℕ → List Action × Outcome Session
unfolding unsupported
trace_fd_unsupported errlen = ([], err (snprintf errlen unsupported))

-- The calls that are captured. Their numbers depend on the architecture.
pub data Kind : Type 0 where
  write pwrite64 writev : Kind

abbrev pub number_of : Target → Kind → ℤ
number_of target write = target.sys_write
number_of target pwrite64 = target.sys_pwrite64
number_of target writev = target.sys_writev

abbrev is_vector : Kind → Bool
is_vector write = false
is_vector pwrite64 = false
is_vector writev = true

-- A system call: its kind, its first three arguments and its result.
pub record Call : Type 0 where
  pub kind : Kind
  pub first : ℕ
  pub second : ℕ
  pub third : ℕ
  pub result : ℕ

-- What the kernel documents of the registers at the stops at the start and at the end of a call. On
-- AArch64 the register of the result is the one of the first argument.
pub record StartX8664 (target : Target) (c : Call) (r : X8664Regs) : Type 0 where
  pub orig_rax : as_signed r.orig_rax ≡ number_of target c.kind
  pub rdi : r.rdi ≡ c.first
  pub rsi : r.rsi ≡ c.second
  pub rdx : r.rdx ≡ c.third

pub record StartAarch64 (target : Target) (c : Call) (r : Aarch64Regs) : Type 0 where
  pub x8 : as_signed (r.regs 8) ≡ number_of target c.kind
  pub x0 : r.regs 0 ≡ c.first
  pub x1 : r.regs 1 ≡ c.second
  pub x2 : r.regs 2 ≡ c.third

-- The vector call has a number of its own.
abbrev pub IsApart : Target → Type 0
IsApart target =
    (eqb_ℤ target.sys_write target.sys_writev ≡ false)
    × (eqb_ℤ target.sys_pwrite64 target.sys_writev ≡ false)

-- What is reported of a call by the thread `tid`: its result, and the bytes that its second argument
-- points to, or, for `writev`, the segments that its second and third arguments describe.
abbrev pub report_of : Target → Memory → ℤ → Call → List Action
report_of target memory tid c =
    let ret = as_signed c.result in
    let iovcnt = if is_vector c.kind then c.third else 0 in
    report (record {
      tid = tid;
      ret = ret;
      bytes = captured_bytes target memory (is_vector c.kind) c.second iovcnt ret;
      is_writev = is_vector c.kind;
    })
    ∷ []

module _ (target : Target) (memory : Memory) (ts : ThreadState) (c : Call) (apart : IsApart target)
    (ours : as_signed c.first ≡ target.fd) where
  either : (b c : Bool) → c ≡ true → (b || c) ≡ true
  either true c h = refl
  either false c h = h

  -- A call that is captured is recognised, and so is the vector call.
  recognised :
      (k : Kind)
      → ((eqb_ℤ (number_of target k) target.sys_write
            || eqb_ℤ (number_of target k) target.sys_pwrite64
            || eqb_ℤ (number_of target k) target.sys_writev)
          ≡ true)
        × (eqb_ℤ (number_of target k) target.sys_writev ≡ is_vector k)
  recognised write = (rw (eqb_ℤ_refl target.sys_write) refl, apart.0)
  recognised pwrite64 = (rw (eqb_ℤ_refl target.sys_pwrite64) (ground arith), apart.1)
  recognised writev =
      (rw (eqb_ℤ_refl target.sys_writev) (ground arith), eqb_ℤ_refl target.sys_writev)

  abbrev entered : ThreadState
  entered = record ts {
    in_syscall = true;
    capturing = true;
    pending_is_writev = is_vector c.kind;
    pending_buf_addr = c.second;
    pending_iovcnt = if is_vector c.kind then c.third else 0;
  }

  -- The registers of a call, whatever the architecture.
  call_reported :
      (r s : Regs)
      → r.syscall_nr ≡ number_of target c.kind
      → r.arg1 ≡ as_signed c.first
      → r.arg2 ≡ c.second
      → r.arg3 ≡ c.third
      → s.ret ≡ as_signed c.result
      → reported target memory (enter target ts (some r)) (some s)
        ≡ report_of target memory ts.tid c
  unfolding reported enter selects
  call_reported r s nr first second third ret =
      ap (λ t. reported target memory t (some s)) enters ∙ rw ret refl
    where
      enters : enter target ts (some r) ≡ entered
      enters =
          rw
            (
              nr,
              first,
              second,
              third,
              ours,
              (recognised c.kind).0,
              (recognised c.kind).1,
              eqb_ℤ_refl target.fd,
            )
            refl

-- On x86-64 and on AArch64, each with its own numbers of the calls, what is reported of a captured
-- call on the descriptor of the session, from the registers at its start and at its end, is its
-- result and the bytes that its arguments describe, where `writev` has a number of its own.
pub calls_reported :
    (target target' : Target) (memory : Memory) (ts : ThreadState) (c : Call) (x x' : X8664Regs)
    (y y' : Aarch64Regs)
    → IsApart target
    → IsApart target'
    → as_signed c.first ≡ target.fd
    → as_signed c.first ≡ target'.fd
    → StartX8664 target c x
    → StartAarch64 target' c y
    → x'.rax ≡ c.result
    → y'.regs 0 ≡ c.result
    → (reported target memory
          (enter target ts (get_regs x86_64_regs (some x)))
          (get_regs x86_64_regs (some x'))
        ≡ report_of target memory ts.tid c)
      × (reported target' memory
            (enter target' ts (get_regs aarch64_regs (some y)))
            (get_regs aarch64_regs (some y'))
          ≡ report_of target' memory ts.tid c)
unfolding x86_64_regs aarch64_regs
calls_reported target target' memory ts c x x' y y' apart apart' ours ours' s t e e' = (
  call_reported target memory ts c apart ours (x86_64_regs x) (x86_64_regs x') s.orig_rax
      (ap as_signed s.rdi) s.rsi s.rdx (ap as_signed e),
  call_reported target' memory ts c apart' ours' (aarch64_regs y) (aarch64_regs y') t.x8
      (ap as_signed t.x0) t.x1 t.x2 (ap as_signed e'),
)
