-- ===== src/Tracer/Threads.antt =====
-- backend/src/tracer.c: the threads that a session follows, `tids` with its count `ntids`. The array
-- is the list of its first `ntids` cells. A pointer `ts` into it is the thread's id, since each
-- thread has one cell.
pub mod Table
pub mod Change
use hsed.Base.{
  ℕ, suc, ◌+◌, ℤ, eqb_ℤ, Bool, true, false, Option, none, some, List, [], ◌∷◌, ◌++◌, length, leb,
  if◌then◌else◌,
}

-- `tid_state_t`.
pub record ThreadState : Type 0 where
  pub tid : ℤ
  pub in_syscall : Bool
  pub capturing : Bool
  pub pending_is_writev : Bool
  pub pending_buf_addr : ℕ
  pub pending_iovcnt : ℕ

abbrev pub max_tracked_tids : ℕ
max_tracked_tids = 512

-- What `memset` and the assignment of `tid` leave.
abbrev pub new_thread : ℤ → ThreadState
new_thread tid = record {
  tid = tid;
  in_syscall = false;
  capturing = false;
  pending_is_writev = false;
  pending_buf_addr = 0;
  pending_iovcnt = 0;
}

-- The loop that looks for a thread.
unfoldable pub find_tid : List ThreadState → ℤ → Option ThreadState
find_tid [] tid = none
find_tid (t ∷ tids) tid = if eqb_ℤ t.tid tid then some t else find_tid tids tid

-- `over_capacity` is the result NULL; `added` tells `was_new`.
pub data Place : Type 0 where
  found : ThreadState → Place
  added : List ThreadState → Place
  over_capacity : Place

unfoldable pub find_or_add_tid : List ThreadState → ℤ → Place
unfolding find_tid
find_or_add_tid tids tid = elim (find_tid tids tid) [
  | some t ↦ found t
  | none ↦
      if leb max_tracked_tids (length tids)
      then over_capacity
      else added (tids ++ new_thread tid ∷ [])
]

-- The last cell of an array that begins with this one, and the cells in front of it.
unfoldable pub last_of : ThreadState → List ThreadState → ThreadState
last_of t [] = t
last_of t (u ∷ tids) = last_of u tids

unfoldable pub but_last : ThreadState → List ThreadState → List ThreadState
but_last t [] = []
but_last t (u ∷ tids) = t ∷ but_last u tids

-- The cell of the thread that is removed takes the last one; behind it stand these.
unfoldable pub move_last : List ThreadState → List ThreadState
unfolding last_of but_last
move_last [] = []
move_last (t ∷ tids) = last_of t tids ∷ but_last t tids

unfoldable pub remove_tid : List ThreadState → ℤ → List ThreadState
unfolding move_last
remove_tid [] tid = []
remove_tid (t ∷ tids) tid = if eqb_ℤ t.tid tid then move_last tids else t ∷ remove_tid tids tid

-- Assignments through `ts`.
unfoldable pub update_tid : List ThreadState → ThreadState → List ThreadState
update_tid [] new = []
update_tid (t ∷ tids) new =
    let rest = update_tid tids new in if eqb_ℤ t.tid new.tid then new ∷ tids else t ∷ rest
