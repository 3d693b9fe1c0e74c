-- ===== src/Scan/Run.antt =====
-- `hsed_scan` and `hsed_scan_stats`. `qsort` is the C library's: its documented behaviour is in the
-- record `Qsort`, for comparison functions that order the elements.
pub mod Results
pub mod Insertion
use mathlib.Core.List.{Perm}
use hsed.Base.{
  ℕ, ◌≤◌, ℤ, pos, negsuc, ltb_ℤ, ◌≤ℤ◌, ◌⊎◌, Bool, true, false, Option, none, some, List, [], ◌∷◌,
  All, ltb, if◌then◌else◌, arith,
}
use hsed.Entry.{Entry, Stats}
use hsed.Scan.System.{System}
use hsed.Scan.Growth.{Grown, list_init}
use hsed.Scan.OnePid.{Query, Sink, into_stats, into_list, scan_one_pid}
use hsed.Scan.Threads.{gather_pids, run_parallel_scan}

unfoldable pub cmp_by_size_desc : Entry → Entry → ℤ
cmp_by_size_desc a b =
    if ltb_ℤ a.size b.size then pos 1 else if ltb_ℤ b.size a.size then negsuc 0 else pos 0

-- The comparison says that `a` may stand before `b`.
abbrev pub Before : (Entry → Entry → ℤ) → Entry → Entry → Type 0
Before cmp a b = cmp a b ≤ℤ pos 0

pub record IsOrder (cmp : Entry → Entry → ℤ) : Type 0 where
  pub total : (a b : Entry) → Before cmp a b ⊎ Before cmp b a
  pub transitive : (a b c : Entry) → Before cmp a b → Before cmp b c → Before cmp a c

abbrev pub Ordered : (Entry → Entry → ℤ) → List Entry → Type 0
Ordered cmp [] = Unit
Ordered cmp (e ∷ es) = All (Before cmp e) es × Ordered cmp es

pub record Qsort : Type 0 where
  pub sort : (Entry → Entry → ℤ) → List Entry → List Entry
  pub sort_perm : (cmp : Entry → Entry → ℤ) (es : List Entry) → Perm (sort cmp es) es
  pub sort_ordered :
      (cmp : Entry → Entry → ℤ) (es : List Entry) → IsOrder cmp → Ordered cmp (sort cmp es)

sort_list : Qsort → Grown Entry → Grown Entry
sort_list qsort g =
    if ltb 1 g.count then record g { items = qsort.sort cmp_by_size_desc g.items } else g

sorted_list : Qsort → Option Sink → Option (Grown Entry)
unfolding sort_list
sorted_list qsort none = none
sorted_list qsort (some (into_stats s)) = none
sorted_list qsort (some (into_list g)) = some (sort_list qsort g)

-- `none` is the result -1.
unfoldable pub scan : System → Qsort → Query → ℤ → ℤ → Option (Grown Entry)
unfolding sorted_list
scan sys qsort q only_pid num_threads =
    if ltb_ℤ (pos 0) only_pid
    then sorted_list qsort (scan_one_pid sys q only_pid (into_list list_init))
    else elim (gather_pids sys) [
      | none ↦ none
      | some pids ↦ sorted_list qsort (run_parallel_scan sys q num_threads false pids)
    ]

counters : Option Sink → Option Stats
counters none = none
counters (some (into_stats s)) = some s
counters (some (into_list g)) = none

unfoldable pub scan_stats : System → Query → ℤ → Option Stats
unfolding counters
scan_stats sys q num_threads = elim (gather_pids sys) [
  | none ↦ none
  | some pids ↦ counters (run_parallel_scan sys q num_threads true pids)
]

cmp_by_size_desc-IsOrder : IsOrder cmp_by_size_desc
unfolding cmp_by_size_desc
cmp_by_size_desc-IsOrder = record {
  total = λ a b. ground arith;
  transitive = λ a b c h k. ground arith;
}
