-- ===== src/Scan/Run/Results.antt =====
-- What a scan returns, and that the two kinds of scan agree.
use mathlib.Core.List.{Perm, Permᴰ, append-nil}
use mathlib.Core.List.Perm
use mathlib.Core.Logic.{∥∥₁_elim}
use mathlib.Core.HLevel.{hedberg}
use mathlib.Core.Path.{subst₂}
use native.Mathlib.Nat.{ℕ_set}
use native.Mathlib.Decide.{ℕ_discrete}
use hsed.Base.{
  drop_some, suc, ◌≤◌, ◌≡◌, refl, sym, ap, ap₂, subst, ◌∙◌, ◌⊎◌, inl, inr, ℤ, pos, ltb_ℤ, ◌≤ℤ◌,
  ◌+ℤ◌, +ℤ_assoc, +ℤ_comm, true, false, Option, none, some, Option-cases, Bool-cases, List, [], ◌∷◌,
  length, All, ltb, if◌then◌else◌, arith,
}
use hsed.Entry.{Entry, Stats}
use hsed.Libc.{to_i64}
use hsed.Libc.Longs.{to_i64-zero_plus}
use hsed.Scan.System.{System}
use hsed.Scan.Growth.{Grown, IsValid, list_init, list_init-IsValid}
use hsed.Scan.OnePid.{Query, Sink, into_list, scan_one_pid}
use hsed.Scan.OnePid.Reported.{
  reported, LacksMemory, scan_one_pid-Delivers, total_size, count_entries,
}
use hsed.Scan.Threads.{gather_pids, run_parallel_scan, no_stats}
use hsed.Scan.Threads.Counting.{scan_all, run_parallel_scan-list, run_parallel_scan-stats}
use hsed.Scan.Run.{
  cmp_by_size_desc, cmp_by_size_desc-IsOrder, Before, Ordered, Qsort, sort_list, sorted_list, scan,
  counters, scan_stats,
}

-- Each entry is at least as large as those behind it.
abbrev pub Descending : List Entry → Type 0
Descending [] = Unit
Descending (e ∷ es) = All (λ f. f.size ≤ℤ e.size) es × Descending es

All-Before :
    (e : Entry) (es : List Entry)
    → All (Before cmp_by_size_desc e) es
    → All (λ f. f.size ≤ℤ e.size) es
unfolding cmp_by_size_desc
All-Before e [] h = tt
All-Before e (f ∷ es) h = (ground arith, All-Before e es h.1)

Ordered-Descending : (es : List Entry) → Ordered cmp_by_size_desc es → Descending es
Ordered-Descending [] h = tt
Ordered-Descending (e ∷ es) h = (All-Before e es h.0, Ordered-Descending es h.1)

short-Descending : (es : List Entry) → length es ≤ 1 → Descending es
short-Descending [] h = tt
short-Descending (e ∷ []) h = (tt, tt)
short-Descending (e ∷ f ∷ es) h = absurd (omega arith)

-- What a scan over those entries gives.
abbrev pub IsResult : List Entry → Grown Entry → Type 0
IsResult es g = IsValid g × Perm g.items es × Descending g.items

ℤ-discrete : Discrete ℤ
ℤ-discrete = hlevel ℕ_discrete

length-Permᴰ : {es fs : List Entry} → Permᴰ es fs → length es ≡ length fs
length-Permᴰ Permᴰ.nil = refl
length-Permᴰ (Permᴰ.cons e p) = ap suc (length-Permᴰ p)
length-Permᴰ (Permᴰ.swap e f) = refl
length-Permᴰ (Permᴰ.trans p q) = length-Permᴰ p ∙ length-Permᴰ q

total_size-Permᴰ : {es fs : List Entry} → Permᴰ es fs → total_size es ≡ total_size fs
unfolding total_size
total_size-Permᴰ Permᴰ.nil = refl
total_size-Permᴰ (Permᴰ.cons e p) = ap₂ (λ (x : Entry) (n : ℤ). x.size +ℤ n) e (total_size-Permᴰ p)
total_size-Permᴰ (Permᴰ.swap {a} {b} {a'} {b'} {l} e f) =
    sym (+ℤ_assoc a.size b.size (total_size l))
    ∙ ap (λ t. t +ℤ total_size l) (+ℤ_comm a.size b.size)
    ∙ +ℤ_assoc b.size a.size (total_size l)
    ∙ ap₂ (λ (x y : Entry). x.size +ℤ (y.size +ℤ total_size l)) f e
total_size-Permᴰ (Permᴰ.trans p q) = total_size-Permᴰ p ∙ total_size-Permᴰ q

pub length-Perm : (es fs : List Entry) → Perm es fs → length es ≡ length fs
length-Perm es fs p = ∥∥₁_elim p (ℕ_set _ _) length-Permᴰ

pub total_size-Perm : (es fs : List Entry) → Perm es fs → total_size es ≡ total_size fs
total_size-Perm es fs p = ∥∥₁_elim p (hedberg ℤ-discrete _ _) total_size-Permᴰ

sort_list-IsResult :
    (qsort : Qsort) (g : Grown Entry) (es : List Entry)
    → IsValid g
    → g.items ≡ es
    → IsResult es (sort_list qsort g)
unfolding sort_list
sort_list-IsResult qsort g es v e = elim (Bool-cases (ltb 1 g.count)) [
  | inl many ↦ rw many (
    record {
      counted = v.counted ∙ sym (length-Perm _ _ (qsort.sort_perm cmp_by_size_desc g.items));
      within = v.within;
    },
    subst (Perm _) e (qsort.sort_perm cmp_by_size_desc g.items),
    Ordered-Descending _ (qsort.sort_ordered cmp_by_size_desc g.items cmp_by_size_desc-IsOrder),
  )
  | inr few ↦ rw few (
    v,
    subst (Perm g.items) e (Perm.refl g.items),
    short-Descending g.items (ground (arith, v.counted)),
  )
]

-- The processes that a scan looks at: the one that is asked for, or all.
abbrev pub scope : System → ℤ → Option (List ℤ)
scope sys only_pid = if ltb_ℤ (pos 0) only_pid then some (only_pid ∷ []) else gather_pids sys

-- The outcome of a scan over these entries: all of them, largest first; or -1 where an allocation
-- failed.
abbrev pub ScanOutcome : System → List Entry → Option (Grown Entry) → Type 0
ScanOutcome sys es r =
    ((g : Grown Entry) × (r ≡ some g) × IsResult es g) ⊎ ((r ≡ none) × LacksMemory sys)

outcome_of :
    (sys : System) (qsort : Qsort) (es : List Entry) (r : Option Sink)
    → ((g : Grown Entry) × (r ≡ some (into_list g)) × IsValid g × (g.items ≡ es))
      ⊎ ((r ≡ none) × LacksMemory sys)
    → ScanOutcome sys es (sorted_list qsort r)
unfolding sorted_list
outcome_of sys qsort es r (inr (e, lacks)) = inr (rw e, lacks)
outcome_of sys qsort es r (inl (g, e, v, items)) =
    inl (sort_list qsort g, rw e, sort_list-IsResult qsort g es v items)

one_scanned :
    (sys : System) (q : Query) (pid : ℤ)
    → ((g : Grown Entry) × (scan_one_pid sys q pid (into_list list_init) ≡ some (into_list g))
        × IsValid g
        × (g.items ≡ scan_all sys q (pid ∷ [])))
      ⊎ ((scan_one_pid sys q pid (into_list list_init) ≡ none) × LacksMemory sys)
unfolding scan_all list_init
one_scanned sys q pid =
    elim (scan_one_pid-Delivers sys q pid (into_list list_init) list_init-IsValid) [
      | inl (g, e, v, items) ↦ inl (g, e, v, items ∙ sym (append-nil (reported sys q pid)))
      | inr failed ↦ inr failed
    ]

module _ (sys : System) (qsort : Qsort) (q : Query) (only_pid num_threads : ℤ) where
  -- `hsed_scan` returns exactly the entries that the processes in its scope report one by one, as
  -- often as they report them, largest first and with a count that fits; it fails only where some
  -- allocation does. The number of threads makes no difference.
  pub scan_lem :
      (pids : List ℤ)
      → scope sys only_pid ≡ some pids
      → ScanOutcome sys (scan_all sys q pids) (scan sys qsort q only_pid num_threads)
  unfolding scan
  scan_lem pids e = elim (Bool-cases (ltb_ℤ (pos 0) only_pid)) [
    | inl one ↦ rw one (
        subst
          (λ ps.
            ScanOutcome sys (scan_all sys q ps)
              (sorted_list qsort (scan_one_pid sys q only_pid (into_list list_init))))
          (single one e) (outcome_of sys qsort _ _ (one_scanned sys q only_pid)))
    | inr all ↦
        rw (all, gathered all e)
          (outcome_of sys qsort _ _ (run_parallel_scan-list sys q num_threads pids))
  ]
    where
      single : ltb_ℤ (pos 0) only_pid ≡ true → scope sys only_pid ≡ some pids → only_pid ∷ [] ≡ pids
      single one e = ground (arith)

      gathered :
          ltb_ℤ (pos 0) only_pid ≡ false
          → scope sys only_pid ≡ some pids
          → gather_pids sys ≡ some pids
      gathered all e = rw all at e

abbrev pub Agrees : Stats → Grown Entry → Type 0
Agrees s g = (s.count ≡ g.count) × (s.total_bytes ≡ to_i64 (total_size g.items))

count_entries-Agrees :
    (es : List Entry) (g : Grown Entry) → IsResult es g → Agrees (count_entries no_stats es) g
unfolding count_entries
count_entries-Agrees es g (v, perm, _) = (
  omega (arith, v.counted, length-Perm g.items es perm),
  to_i64-zero_plus (total_size es) ∙ ap to_i64 (sym (total_size-Perm g.items es perm)),
)

counted_outcome :
    (sys : System) (q : Query) (threads : ℤ) (pids : List ℤ) (s : Stats)
    → counters (run_parallel_scan sys q threads true pids) ≡ some s
    → count_entries no_stats (scan_all sys q pids) ≡ s
unfolding counters
counted_outcome sys q threads pids s e = elim (run_parallel_scan-stats sys q threads pids) [
  | inl found ↦ drop_some (rw found at e)
  | inr (failed, _) ↦ cc
]

-- Where both kinds of scan succeed, STATS counts the entries that SCAN lists, and its sum is that of
-- their sizes, as a `long long` that wraps around, whatever the numbers of threads.
pub scan_stats-scan :
    (sys : System) (qsort : Qsort) (q : Query) (threads threads' : ℤ) (g : Grown Entry) (s : Stats)
    → scan sys qsort q (pos 0) threads ≡ some g
    → scan_stats sys q threads' ≡ some s
    → Agrees s g
unfolding scan_stats
scan_stats-scan sys qsort q threads threads' g s listed counted =
    elim (Option-cases (gather_pids sys)) [
      | inl closed ↦ cc
      | inr (pids, gathered) ↦ elim (scan_lem sys qsort q (pos 0) threads pids gathered) [
        | inr (failed, _) ↦ cc
        | inl (g', found, result) ↦
            subst₂ Agrees
              (counted_outcome sys q threads' pids s (rw (gathered, scan_stats) at counted))
              (drop_some (sym found ∙ listed))
              (count_entries-Agrees (scan_all sys q pids) g' result)
      ]
    ]
