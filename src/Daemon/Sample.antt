-- ===== src/Daemon/Sample.antt =====
-- What a scan of the process of Scan.Sample gives, and that its texts and numbers fit.
use native.Mathlib.Omega.{arith}
use hsed.Base.{
  ℕ, ◌≡◌, refl, sym, subst, ◌+ℤ◌, inl, inr, pos, Bool-cases, some, List, [], ◌∷◌, ◌++◌, codes, none,
  All, length, ◌<◌, ◌≤◌, ◌^◌, c_string, show_ℤ, show_ℕ,
}
use hsed.Entry.{Entry}
use hsed.Libc.{str_eq, str_starts, to_i32, strtol, fgets}
use hsed.Libc.Numbers.{IsLong}
use hsed.Util.{strlcpy}
use hsed.Protocol.Escape.{IsShort}
use hsed.Scan.System.{FileStat}
use hsed.Scan.Sample.{one_process, file_at}
use hsed.Scan.Fields.{
  is_all_digits, is_virtual_target, fd_mode, owner_name, read_comm, read_cmdline, read_first_line,
  comm_path,
}
use hsed.Scan.Fields.Texts.{IsStored}
use hsed.Scan.OnePid.{
  is_filtered_out, examine, check_link, check_target, check_stat, entry_of, load,
}
use hsed.Scan.OnePid.Fitting.{Fits}
use hsed.Scan.OnePid.Reported.{reported, total_size}
use hsed.Scan.Threads.Counting.{scan_all}
use hsed.Daemon.Commands.{asked}

abbrev held_entry : Entry
held_entry = record {
  pid = pos 7;
  fd = pos 3;
  mode = codes "w";
  size = pos 8192;
  uid = 1000;
  user = codes "app";
  comm = codes "app";
  cmdline = codes "app -v";
  path = codes "/var/log/app.log";
  inode = 42;
  dev_major = 8;
  dev_minor = 1;
  mtime = pos 5;
}

scanned : scan_all one_process (asked (pos 1)) (pos 7 ∷ []) ≡ held_entry ∷ []
unfolding scan_all reported is_filtered_out examine is_all_digits check_link check_target str_eq
    is_virtual_target str_starts check_stat entry_of to_i32 fd_mode strlcpy strtol load owner_name
    read_comm read_cmdline read_first_line comm_path file_at fgets show_ℤ show_ℕ c_string
scanned = refl

same_text : {s t : List ℕ} → some s ≡ some t → s ≡ t
same_text e = cc

same_stat : {st st' : FileStat} → some st ≡ some st' → st ≡ st'
same_stat e = cc

-- What is read fits, whichever file it is.
file_at_fits : (path s : List ℕ) → file_at path ≡ some s → All IsStored s × (length s ≤ 63)
unfolding file_at
file_at_fits path s e = elim (Bool-cases (str_eq path (codes "/proc/7/comm"))) [
  | inl comm ↦ fits (codes "app" ++ 10 ∷ []) (search (arith)) (omega arith) (rw comm at e)
  | inr c ↦ elim (Bool-cases (str_eq path (codes "/proc/7/cmdline"))) [
    | inl cmdline ↦
        fits (codes "app" ++ 0 ∷ codes "-v" ++ 0 ∷ []) (search (arith)) (omega arith)
          (rw (c, cmdline) at e)
    | inr d ↦ elim (Bool-cases (str_eq path (codes "/proc/7/fdinfo/3"))) [
      | inl fdinfo ↦
          fits (codes "flags: 0100001" ++ 10 ∷ []) (search (arith)) (omega arith)
            (rw (c, d, fdinfo) at e)
      | inr f ↦ absurd (no_file (rw (c, d, f) at e))
    ]
  ]
]
  where
    fits :
        (t : List ℕ)
        → All IsStored t
        → length t ≤ 63
        → some t ≡ some s
        → All IsStored s × (length s ≤ 63)
    fits t h k e = subst (λ r. All IsStored r × (length r ≤ 63)) (same_text e) (h, k)

    no_file : none ≡ some s → ⊥
    no_file e = cc

pub one_process-Fits : Fits one_process
one_process-Fits = record {
  texts = record {
    files = λ path s e. (file_at_fits path s e).0;
    names = λ uid s e. subst (All IsShort) (same_text e) (search (arith));
  };
  links = λ path s e. subst (All IsShort) (same_text e) (search (arith));
  comms = λ pid s e. (file_at_fits (comm_path pid) s e).1;
  sizes = λ path st e. subst (λ st. IsLong st.st_size) (same_stat e) (omega arith);
  times = λ path st e. subst (λ st. IsLong st.st_mtime) (same_stat e) (omega arith);
  inodes = λ path st e. subst (λ st. st.st_ino < 2 ^ 64) (same_stat e) (omega arith);
  owners = λ path st e. subst (λ st. st.st_uid < 2 ^ 64) (same_stat e) (omega arith);
  majors = λ dev. omega arith;
  minors = λ dev. omega arith;
}

pub scanned_number : length (scan_all one_process (asked (pos 1)) (pos 7 ∷ [])) < 2 ^ 64
scanned_number = subst (λ es. length es < 2 ^ 64) (sym scanned) (omega arith)

pub scanned_total : IsLong (total_size (scan_all one_process (asked (pos 1)) (pos 7 ∷ [])))
unfolding total_size ◌+ℤ◌
scanned_total = subst (λ es. IsLong (total_size es)) (sym scanned) (omega arith)
