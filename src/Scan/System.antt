-- ===== src/Scan/System.antt =====
-- What the scanner asks of the kernel and of the C library's user database. It is a snapshot: one
-- path gives one answer during a scan.
use hsed.Base.{ℕ, ℤ, Bool, Option, List}

pub record FileStat : Type 0 where
  pub st_uid : ℕ
  pub st_size : ℤ
  pub st_ino : ℕ
  pub st_dev : ℕ
  pub st_mtime : ℤ

pub record System : Type 0 where
  -- The names in a directory; `none` where `opendir` fails.
  pub opendir : List ℕ → Option (List (List ℕ))
  pub stat : List ℕ → Option FileStat
  -- The whole target of a link, before `readlink` cuts it to the buffer.
  pub readlink : List ℕ → Option (List ℕ)
  -- The bytes of a file that can be opened.
  pub file : List ℕ → Option (List ℕ)
  -- `getpwuid_r`.
  pub user_name : ℕ → Option (List ℕ)
  -- `major` and `minor` of `<sys/sysmacros.h>`.
  pub major : ℕ → ℕ
  pub minor : ℕ → ℕ
  -- `sysconf(_SC_NPROCESSORS_ONLN)`.
  pub nprocessors : ℤ
  -- Whether there is memory for an array of so many elements.
  pub has_memory : ℕ → Bool
