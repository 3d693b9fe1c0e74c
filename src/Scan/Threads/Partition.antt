-- ===== src/Scan/Threads/Partition.antt =====
-- How the processes are dealt out: nobody is left out, nobody is scanned twice, and the shares
-- differ by at most one.
use mathlib.Core.List.{flatten}
use hsed.Base.{
  ℕ, zero, suc, ◌+◌, ◌-◌, ◌*◌, ◌/◌, ◌%◌, ◌≤◌, ◌≡◌, refl, ap, ◌∙◌, ℤ, pos, ltb_ℤ, pos_part, List, [],
  ◌∷◌, ◌++◌, length, take, drop, take-append-drop, length-take, length-drop, All, ltb,
  if◌then◌else◌, arith,
}
use hsed.Scan.System.{System}
use hsed.Scan.Threads.{pick_thread_count, max_auto_scan_threads, deal, chunks}

-- There is at least one worker, no more than processes (or one), and no more than were asked for, or
-- than 32 where no number was.
pub pick_thread_count_bounds :
    (sys : System) (requested : ℤ) (npids : ℕ)
    → (1 ≤ pick_thread_count sys requested npids)
      × (pick_thread_count sys requested npids ≤ 1 + (npids - 1))
      × (pick_thread_count sys requested npids
          ≤ (if ltb_ℤ (pos 0) requested then pos_part requested else max_auto_scan_threads))
unfolding pick_thread_count
pick_thread_count_bounds sys requested npids = (ground arith, ground arith, ground arith)

flatten-deal :
    (base rem threads i : ℕ) (pids : List ℤ)
    → length pids ≤ threads * base + (rem - i)
    → rem - i ≤ threads
    → flatten (deal base rem threads i pids) ≡ pids
unfolding deal flatten
flatten-deal base rem zero i [] h k = refl
flatten-deal base rem zero i (p ∷ pids) h k = absurd (omega arith)
flatten-deal base rem (suc threads) i pids h k =
    let chunk = base + (if ltb i rem then 1 else 0) in
    ap (◌++◌ (take chunk pids)) (
      flatten-deal base rem threads (i + 1) (drop chunk pids)
        (ground (arith, length-drop chunk pids)) (omega arith))
    ∙ take-append-drop chunk pids

abbrev pub IsShare : ℕ → List ℤ → Type 0
IsShare base c = (base ≤ length c) × (length c ≤ base + 1)

deal-IsShare :
    (base rem threads i : ℕ) (pids : List ℤ)
    → length pids ≡ threads * base + (rem - i)
    → rem - i ≤ threads
    → All (IsShare base) (deal base rem threads i pids)
unfolding deal
deal-IsShare base rem zero i pids h k = tt
deal-IsShare base rem (suc threads) i pids h k =
    let chunk = base + (if ltb i rem then 1 else 0) in
    (
      ground (arith, length-take chunk pids),
      deal-IsShare base rem threads (i + 1) (drop chunk pids)
          (ground (arith, length-drop chunk pids)) (omega arith),
    )

length-deal :
    (base rem threads i : ℕ) (pids : List ℤ) → length (deal base rem threads i pids) ≡ threads
unfolding deal
length-deal base rem zero i pids = refl
length-deal base rem (suc threads) i pids = ap suc (length-deal base rem threads (i + 1) _)

-- With at least one worker, the workers' shares are the processes in order, each worker has a share,
-- and no two shares differ by more than one process.
pub chunks_lem :
    (nthreads : ℕ) (pids : List ℤ)
    → 1 ≤ nthreads
    → (flatten (chunks nthreads pids) ≡ pids)
      × (length (chunks nthreads pids) ≡ nthreads)
      × All (IsShare (length pids / nthreads)) (chunks nthreads pids)
unfolding chunks
chunks_lem nthreads pids h = (
  flatten-deal base rem nthreads 0 pids (omega arith) (omega arith),
  length-deal base rem nthreads 0 pids,
  deal-IsShare base rem nthreads 0 pids (omega arith) (omega arith),
)
  where
    base : ℕ
    base = length pids / nthreads

    rem : ℕ
    rem = length pids % nthreads
