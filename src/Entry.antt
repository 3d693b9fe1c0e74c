-- ===== src/Entry.antt =====
-- backend/src/proc_scan.h: the limits and records that the scanner, the protocol and the server
-- share. A fixed `char[n]` field is the C string that it holds; the functions that fill such a
-- field say how much of it they keep.
use hsed.Base.{ℕ, ℤ, List}

abbrev pub path_max : ℕ
path_max = 4096

abbrev pub name_max : ℕ
name_max = 256

abbrev pub cmdline_max : ℕ
cmdline_max = 1024

abbrev pub scan_threads_auto : ℕ
scan_threads_auto = 0

-- `(uid_t)-1`.
abbrev pub uid_any : ℕ
uid_any = 0xffff_ffff

pub record Entry : Type 0 where
  pub pid : ℤ
  pub fd : ℤ
  pub mode : List ℕ
  pub size : ℤ
  pub uid : ℕ
  pub user : List ℕ
  pub comm : List ℕ
  pub cmdline : List ℕ
  pub path : List ℕ
  pub inode : ℕ
  pub dev_major : ℕ
  pub dev_minor : ℕ
  pub mtime : ℤ

pub record Stats : Type 0 where
  pub count : ℕ
  pub total_bytes : ℤ
