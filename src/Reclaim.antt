-- ===== src/Reclaim.antt =====
-- backend/src/reclaim.c: a file emptied through /proc/<pid>/fd/<fd>, and a signal that is sent. The
-- system enters as the record `Kernel`, whose calls act on a world; `err` is -1 with
-- `strerror(errno)`.
pub mod Truncated
pub mod Machine
mod Examples
use hsed.Base.{ℕ, ℤ, List, ◌++◌, codes, show_ℕ, show_ℤ}
use hsed.Outcome.{Outcome, ok, err}
use hsed.Protocol.{snprintf}

-- `stat` gives `st_size`; `open_writable` is `open` with `O_WRONLY`, and its result is the file
-- descriptor of the daemon; `ftruncate` is the call with the length 0.
pub record Kernel : Type 1 where
  pub World : Type 0
  pub stat : World → List ℕ → Outcome ℤ
  pub open_writable : World → List ℕ → World × Outcome ℤ
  pub ftruncate : World → ℤ → World × Outcome (Unit {0})
  pub close : World → ℤ → World
  pub kill : World → ℤ → ℕ → World × Outcome (Unit {0})

-- `fd_path`, a buffer of 64 bytes.
unfoldable pub fd_path : ℤ → ℤ → List ℕ
fd_path pid fd = snprintf 64 (codes "/proc/" ++ (show_ℤ pid ++ (codes "/fd/" ++ show_ℤ fd)))

stat_error : List ℕ → List ℕ → List ℕ
stat_error path reason = codes "could not stat " ++ (path ++ (codes ": " ++ reason))

open_error : List ℕ → List ℕ → List ℕ
open_error path reason =
    codes "could not open "
    ++ (path
        ++ (codes " for writing: "
            ++ (reason ++ codes " (need root or the file owner's permission)")))

ftruncate_error : List ℕ → List ℕ → List ℕ
ftruncate_error path reason = codes "ftruncate failed on " ++ (path ++ (codes ": " ++ reason))

kill_error : ℤ → ℕ → List ℕ → List ℕ
kill_error pid sig reason =
    codes "kill(" ++ (show_ℤ pid ++ (codes ", " ++ (show_ℕ sig ++ (codes ") failed: " ++ reason))))

module _ (K : Kernel) where
  open K use {World, stat, open_writable, ftruncate, close, kill}

  -- From the open descriptor on: it is closed whether or not the file could be emptied.
  unfoldable pub empty_opened : World → ℤ → List ℕ → ℤ → ℕ → World × Outcome ℤ
  unfolding ftruncate_error
  empty_opened w raw_fd path size errlen =
      let (w', r) = ftruncate w raw_fd in
      elim r [
        | err reason ↦ (close w' raw_fd, err (snprintf errlen (ftruncate_error path reason)))
        | ok _ ↦ (close w' raw_fd, ok size)
      ]

  unfoldable pub empty_path : World → List ℕ → ℤ → ℕ → World × Outcome ℤ
  unfolding open_error empty_opened
  empty_path w path size errlen =
      let (w', r) = open_writable w path in
      elim r [
        | err reason ↦ (w', err (snprintf errlen (open_error path reason)))
        | ok raw_fd ↦ empty_opened w' raw_fd path size errlen
      ]

  -- `hsed_truncate_fd`; `ok` is what it stores in `freed_out`.
  unfoldable pub truncate_fd : World → ℤ → ℤ → ℕ → World × Outcome ℤ
  unfolding fd_path stat_error empty_path
  truncate_fd w pid fd errlen = elim (stat w (fd_path pid fd)) [
    | err reason ↦ (w, err (snprintf errlen (stat_error (fd_path pid fd) reason)))
    | ok size ↦ empty_path w (fd_path pid fd) size errlen
  ]

  -- `hsed_send_signal`.
  unfoldable pub send_signal : World → ℤ → ℕ → ℕ → World × Outcome (Unit {0})
  unfolding kill_error
  send_signal w pid sig errlen =
      let (w', r) = kill w pid sig in
      elim r [
        | err reason ↦ (w', err (snprintf errlen (kill_error pid sig reason)))
        | ok _ ↦ (w', ok tt)
      ]
