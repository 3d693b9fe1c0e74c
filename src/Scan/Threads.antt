-- ===== src/Scan/Threads.antt =====
-- `gather_pids`, `pick_thread_count`, the workers and `run_parallel_scan`. Each worker writes only
-- its own list or counters, and the kernel's answers are a snapshot, so a worker's result does not
-- depend on when it runs, nor on whether `pthread_create` failed and it ran inline.
pub mod Gathered
pub mod Partition
pub mod Counting
use hsed.Base.{
  ℕ, zero, suc, ◌+◌, ◌-◌, ◌*◌, ◌/◌, ◌%◌, ℤ, pos, negsuc, pos_part, ◌+ℤ◌, ltb_ℤ, Bool, true, false,
  Option, none, some, List, [], ◌∷◌, ◌++◌, map, length, take, drop, codes, ltb, ◌==◌, if◌then◌else◌,
}
use hsed.Libc.{strtol, to_i32, add_long}
use hsed.Entry.{Entry, Stats}
use hsed.Scan.System.{System}
use hsed.Scan.Growth.{Grown, list_init, list_push, push_from}
use hsed.Scan.Fields.{is_all_digits}
use hsed.Scan.OnePid.{Query, Sink, into_stats, into_list, scan_one_pid}

-- The loop of `gather_pids`; `none` is out of memory.
gather_loop : System → List (List ℕ) → Grown ℤ → Option (Grown ℤ)
gather_loop sys [] out = some out
gather_loop sys (name ∷ names) out =
    if is_all_digits name
    then elim (push_from sys 256 out (to_i32 (strtol 10 name))) [
      | none ↦ none
      | some out' ↦ gather_loop sys names out'
    ]
    else gather_loop sys names out

pids_of : Option (Grown ℤ) → Option (List ℤ)
pids_of none = none
pids_of (some g) = some g.items

unfoldable pub gather_pids : System → Option (List ℤ)
unfolding gather_loop pids_of
gather_pids sys = elim (sys.opendir (codes "/proc")) [
  | none ↦ none
  | some names ↦ pids_of (gather_loop sys names list_init)
]

abbrev pub max_auto_scan_threads : ℕ
max_auto_scan_threads = 32

-- `sysconf`, clamped to 1 ... 32.
auto_threads : ℤ → ℕ
auto_threads n =
    if ltb_ℤ n (pos 1)
    then 1
    else if ltb_ℤ (pos max_auto_scan_threads) n
    then max_auto_scan_threads
    else pos_part n

unfoldable pub pick_thread_count : System → ℤ → ℕ → ℕ
unfolding auto_threads
pick_thread_count sys requested npids =
    let n = if ltb_ℤ (pos 0) requested then pos_part requested else auto_threads sys.nprocessors in
    let n' = if ltb npids n then npids else n in
    if npids == 0 then 1 else if ltb n' 1 then 1 else n'

-- The loop that deals out the array: `threads` workers are left, the next one is number `i`.
unfoldable pub deal : ℕ → ℕ → ℕ → ℕ → List ℤ → List (List ℤ)
deal base rem zero i pids = []
deal base rem (suc threads) i pids =
    let chunk = base + (if ltb i rem then 1 else 0) in
    take chunk pids ∷ deal base rem threads (i + 1) (drop chunk pids)

unfoldable pub chunks : ℕ → List ℤ → List (List ℤ)
unfolding deal
chunks nthreads pids = deal (length pids / nthreads) (length pids % nthreads) nthreads 0 pids

-- The loop of a worker; `none` is `failed = 1`.
worker_loop : System → Query → List ℤ → Sink → Option Sink
worker_loop sys q [] sink = some sink
worker_loop sys q (pid ∷ pids) sink = elim (scan_one_pid sys q pid sink) [
  | none ↦ none
  | some sink' ↦ worker_loop sys q pids sink'
]

abbrev pub no_stats : Stats
no_stats = record { count = 0; total_bytes = pos 0 }

abbrev pub empty_sink : Bool → Sink
empty_sink true = into_stats no_stats
empty_sink false = into_list list_init

unfoldable pub scan_worker_fn : System → Query → Bool → List ℤ → Option Sink
unfolding worker_loop
scan_worker_fn sys q use_stats pids = worker_loop sys q pids (empty_sink use_stats)

plus_stats : Stats → Stats → Stats
unfolding add_long
plus_stats s t = record {
  count = s.count + t.count;
  total_bytes = add_long s.total_bytes t.total_bytes;
}

-- All workers have succeeded, and this is what they have.
all_succeeded : List (Option Sink) → Option (List Sink)
all_succeeded [] = some []
all_succeeded (none ∷ rs) = none
all_succeeded (some s ∷ rs) = elim (all_succeeded rs) [ none ↦ none | some ss ↦ some (s ∷ ss) ]

-- The counters added up.
join_stats : List Sink → Stats → Stats
unfolding plus_stats
join_stats [] total = total
join_stats (into_stats s ∷ ss) total = join_stats ss (plus_stats total s)
join_stats (into_list l ∷ ss) total = join_stats ss total

-- One worker's entries pushed onto the joined list.
push_all : System → List Entry → Grown Entry → Option (Grown Entry)
push_all sys [] out = some out
push_all sys (e ∷ es) out = elim (list_push sys out e) [
  | none ↦ none
  | some out' ↦ push_all sys es out'
]

join_lists : System → List Sink → Grown Entry → Option (Grown Entry)
join_lists sys [] out = some out
join_lists sys (into_stats s ∷ ss) out = join_lists sys ss out
join_lists sys (into_list l ∷ ss) out = elim (push_all sys l.items out) [
  | none ↦ none
  | some out' ↦ join_lists sys ss out'
]

joined_list : Option (Grown Entry) → Option Sink
joined_list none = none
joined_list (some out) = some (into_list out)

join : System → Bool → Option (List Sink) → Option Sink
join sys use_stats none = none
join sys true (some ss) = some (into_stats (join_stats ss no_stats))
join sys false (some ss) = joined_list (join_lists sys ss list_init)

-- `none` is the result -1.
unfoldable pub run_parallel_scan : System → Query → ℤ → Bool → List ℤ → Option Sink
unfolding join all_succeeded join_stats join_lists joined_list push_all
run_parallel_scan sys q num_threads use_stats pids =
    let nthreads = pick_thread_count sys num_threads (length pids) in
    if sys.has_memory nthreads
    then join sys use_stats
        (all_succeeded (map (scan_worker_fn sys q use_stats) (chunks nthreads pids)))
    else none
