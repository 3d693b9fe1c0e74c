-- ===== src/Scan/Threads/Counting.antt =====
-- What the workers find together: the entries of all processes, in the order of the processes,
-- whatever the number of workers.
use mathlib.Core.List.{flatten, append_assoc, append-nil}
use hsed.Base.{
  ◌+◌, ◌≡◌, refl, sym, ap, subst, ◌∙◌, ◌⊎◌, inl, inr, ℤ, pos, ◌+ℤ◌, true, false, Option, none, some,
  Bool-cases, List, [], ◌∷◌, ◌++◌, map, length, arith,
}
use hsed.Entry.{Entry, Stats}
use hsed.Libc.{to_i64, add_long}
use hsed.Libc.Numbers.{IsLong}
use hsed.Libc.Longs.{to_i64-zero_plus, add_long-wraps_right}
use hsed.Scan.System.{System}
use hsed.Scan.Growth.{Grown, IsValid, list_init, list_init-IsValid, list_push, push_from_lem}
use hsed.Scan.OnePid.{Query, Sink, into_stats, into_list, scan_one_pid}
use hsed.Scan.OnePid.Reported.{
  reported, LacksMemory, Delivers, IsReady, Delivers-nil, Delivers-bind, scan_one_pid-Delivers,
  total_size, count_entries, count_entries_nil, count_entries-append, count_entries-IsLong,
}
use hsed.Scan.Threads.{
  worker_loop, scan_worker_fn, no_stats, plus_stats, all_succeeded, join_stats, push_all,
  join_lists, join, run_parallel_scan, pick_thread_count, chunks,
}
use hsed.Scan.Threads.Partition.{chunks_lem, pick_thread_count_bounds}

-- The entries of some processes, one process after the other.
unfoldable pub scan_all : System → Query → List ℤ → List Entry
scan_all sys q [] = []
scan_all sys q (pid ∷ pids) = reported sys q pid ++ scan_all sys q pids

plus_counted :
    (s : Stats) (es : List Entry) → plus_stats s (count_entries no_stats es) ≡ count_entries s es
unfolding plus_stats count_entries
plus_counted s es = λ i. record { count = p i; total_bytes = r i }
  where
    p : s.count + (0 + length es) ≡ s.count + length es
    p = omega arith

    r :
        add_long s.total_bytes (to_i64 (pos 0 +ℤ total_size es))
        ≡ to_i64 (s.total_bytes +ℤ total_size es)
    r =
        ap (add_long s.total_bytes) (to_i64-zero_plus (total_size es))
        ∙ add_long-wraps_right s.total_bytes (total_size es)

module _ (sys : System) (q : Query) where
  scan_all-append :
      (ps rs : List ℤ) → scan_all sys q (ps ++ rs) ≡ scan_all sys q ps ++ scan_all sys q rs
  unfolding scan_all
  scan_all-append [] rs = refl
  scan_all-append (p ∷ ps) rs =
      ap (◌++◌ (reported sys q p)) (scan_all-append ps rs)
      ∙ sym (append_assoc (reported sys q p) (scan_all sys q ps) (scan_all sys q rs))

  worker_loop-Delivers :
      (pids : List ℤ) (sink : Sink)
      → IsReady sink
      → Delivers sys sink (scan_all sys q pids) (worker_loop sys q pids sink)
  unfolding scan_all worker_loop
  worker_loop-Delivers [] sink h = Delivers-nil sys sink h
  worker_loop-Delivers (pid ∷ pids) sink h =
      Delivers-bind sys sink (reported sys q pid) (scan_all sys q pids)
        (scan_one_pid sys q pid sink) (worker_loop sys q pids)
        (scan_one_pid-Delivers sys q pid sink h) (λ sink' h'. worker_loop-Delivers pids sink' h')

  abbrev counted : List ℤ → Sink
  counted pids = into_stats (count_entries no_stats (scan_all sys q pids))

  all_counted :
      (shares : List (List ℤ))
      → all_succeeded (map (scan_worker_fn sys q true) shares) ≡ some (map counted shares)
  unfolding all_succeeded scan_worker_fn
  all_counted [] = refl
  all_counted (c ∷ shares) =
      rw (worker_loop-Delivers c (into_stats no_stats) (omega arith))
        (rw (all_counted shares, all_succeeded))

  join_counted :
      (shares : List (List ℤ)) (total : Stats)
      → IsLong total.total_bytes
      → join_stats (map counted shares) total
        ≡ count_entries total (scan_all sys q (flatten shares))
  unfolding join_stats flatten
  join_counted [] total h = unfold scan_all in sym (count_entries_nil total h)
  join_counted (c ∷ shares) total h =
      join_counted shares (plus_stats total (count_entries no_stats (scan_all sys q c))) (
        subst (λ s. IsLong s.total_bytes) (sym (plus_counted total (scan_all sys q c)))
          (count_entries-IsLong total (scan_all sys q c)))
      ∙ ap (λ t. count_entries t (scan_all sys q (flatten shares)))
          (plus_counted total (scan_all sys q c))
      ∙ count_entries-append total (scan_all sys q c) (scan_all sys q (flatten shares))
      ∙ ap (count_entries total) (sym (scan_all-append c (flatten shares)))

-- A list that takes the entries behind its own, or runs out of memory.
abbrev Fills : System → Grown Entry → List Entry → Option (Grown Entry) → Type 0
Fills sys g es r =
    ((g' : Grown Entry) × (r ≡ some g') × IsValid g' × (g'.items ≡ g.items ++ es))
    ⊎ ((r ≡ none) × LacksMemory sys)

push_Fills :
    (sys : System) (g : Grown Entry) (e : Entry)
    → IsValid g
    → Fills sys g (e ∷ []) (list_push sys g e)
unfolding list_push
push_Fills sys g e v = elim (push_from_lem sys 64 g e (omega arith) v) [
  | inl filled ↦ inl filled
  | inr (r, _, lacks) ↦ inr (r, (_, lacks))
]

Fills-bind :
    (sys : System) (g : Grown Entry) (es fs : List Entry) (r : Option (Grown Entry))
    (k : Grown Entry → Option (Grown Entry))
    → Fills sys g es r
    → ((g' : Grown Entry) → IsValid g' → Fills sys g' fs (k g'))
    → Fills sys g (es ++ fs) (elim r [ none ↦ none | some g' ↦ k g' ])
Fills-bind sys g es fs r k (inr (e, lacks)) rest = inr (rw e, lacks)
Fills-bind sys g es fs r k (inl (g', e, v, items)) rest = chain (rest g' v)
  where
    chain :
        Fills sys g' fs (k g') → Fills sys g (es ++ fs) (elim r [ none ↦ none | some g' ↦ k g' ])
    chain (inr (e', lacks)) = inr (rw e e', lacks)
    chain (inl (g'', e', v', items')) =
        inl (g'', rw e e', v', items' ∙ ap (λ t. t ++ fs) items ∙ append_assoc g.items es fs)

push_all-Fills :
    (sys : System) (es : List Entry) (g : Grown Entry)
    → IsValid g
    → Fills sys g es (push_all sys es g)
unfolding push_all
push_all-Fills sys [] g v = inl (g, refl, v, sym (append-nil g.items))
push_all-Fills sys (e ∷ es) g v =
    Fills-bind sys g (e ∷ []) es (list_push sys g e) (push_all sys es) (push_Fills sys g e v)
      (push_all-Fills sys es)

module _ (sys : System) (q : Query) where
  -- The workers' lists hold what their shares report.
  abbrev Lists : List (List ℤ) → List Sink → Type 0
  Lists [] [] = Unit {0}
  Lists (c ∷ shares) (into_list g ∷ ss) = (g.items ≡ scan_all sys q c) × Lists shares ss
  Lists _ _ = ⊥

  all_listed :
      (shares : List (List ℤ))
      → ((ss : List Sink) × (all_succeeded (map (scan_worker_fn sys q false) shares) ≡ some ss)
          × Lists shares ss)
        ⊎ ((all_succeeded (map (scan_worker_fn sys q false) shares) ≡ none) × LacksMemory sys)
  unfolding all_succeeded scan_worker_fn
  all_listed [] = inl ([], refl, tt)
  all_listed (c ∷ shares) =
      both (worker_loop-Delivers sys q c (into_list list_init) list_init-IsValid)
        (all_listed shares)
    where
      both :
          Delivers sys
            (into_list list_init)
            (scan_all sys q c)
            (worker_loop sys q c (into_list list_init))
          → ((ss : List Sink) × (all_succeeded (map (scan_worker_fn sys q false) shares) ≡ some ss)
              × Lists shares ss)
            ⊎ ((all_succeeded (map (scan_worker_fn sys q false) shares) ≡ none) × LacksMemory sys)
          → ((ss : List Sink) × (all_succeeded (map (scan_worker_fn sys q false) (c ∷ shares))
                ≡ some ss)
              × Lists (c ∷ shares) ss)
            ⊎ ((all_succeeded (map (scan_worker_fn sys q false) (c ∷ shares)) ≡ none)
                × LacksMemory sys)
      both (inr (e, lacks)) r = inr (rw e, lacks)
      both (inl (g, e, v, items)) (inr (e', lacks)) = inr (rw (e, all_succeeded, e'), lacks)
      both (inl (g, e, v, items)) (inl (ss, e', h)) =
          inl (into_list g ∷ ss, rw (e, all_succeeded, e'), (unfold list_init in items, h))

  join_lists-Fills :
      (shares : List (List ℤ)) (ss : List Sink) (g : Grown Entry)
      → Lists shares ss
      → IsValid g
      → Fills sys g (scan_all sys q (flatten shares)) (join_lists sys ss g)
  unfolding join_lists flatten
  join_lists-Fills [] [] g h v = unfold scan_all in inl (g, refl, v, sym (append-nil g.items))
  join_lists-Fills [] (s ∷ ss) g h v = absurd h
  join_lists-Fills (c ∷ shares) [] g h v = absurd h
  join_lists-Fills (c ∷ shares) (into_stats s ∷ ss) g h v = absurd h
  join_lists-Fills (c ∷ shares) (into_list l ∷ ss) g h v =
      rw (scan_all-append sys q c (flatten shares)) (
        Fills-bind sys g (scan_all sys q c) (scan_all sys q (flatten shares))
          (push_all sys l.items g) (join_lists sys ss)
          (subst (λ es. Fills sys g es (push_all sys l.items g)) h.0
            (push_all-Fills sys l.items g v))
          (λ g' v'. join_lists-Fills shares ss g' h.1 v'))

module _ (sys : System) (q : Query) (num_threads : ℤ) (pids : List ℤ) where
  shares_of : List (List ℤ)
  shares_of = chunks (pick_thread_count sys num_threads (length pids)) pids

  flatten-shares_of : flatten shares_of ≡ pids
  unfolding shares_of
  flatten-shares_of =
      (chunks_lem (pick_thread_count sys num_threads (length pids)) pids
        (pick_thread_count_bounds sys num_threads (length pids)).0).0

  -- With counters, the parallel scan gives the number of the entries that its processes report one by
  -- one, and the sum of their sizes as a `long long` that wraps around, whatever the number of workers;
  -- it fails only where some allocation does.
  pub run_parallel_scan-stats :
      (run_parallel_scan sys q num_threads true pids
        ≡ some (into_stats (count_entries no_stats (scan_all sys q pids))))
      ⊎ ((run_parallel_scan sys q num_threads true pids ≡ none) × LacksMemory sys)
  unfolding run_parallel_scan shares_of
  run_parallel_scan-stats =
      elim (Bool-cases (sys.has_memory (pick_thread_count sys num_threads (length pids)))) [
        | inr lacks ↦ inr (rw lacks, (_, lacks))
        | inl has ↦ inl (
            rw (has, all_counted sys q shares_of)
              (ap (λ t. some (into_stats t))
                (join_counted sys q shares_of no_stats (omega arith)
                  ∙ ap (λ t. count_entries no_stats (scan_all sys q t)) flatten-shares_of)))
      ]

  -- With a list, the parallel scan gives the entries that its processes report one by one, in the
  -- order of the processes, whatever the number of workers; it fails only where some allocation does.
  pub run_parallel_scan-list :
      ((g : Grown Entry) × (run_parallel_scan sys q num_threads false pids ≡ some (into_list g))
        × IsValid g
        × (g.items ≡ scan_all sys q pids))
      ⊎ ((run_parallel_scan sys q num_threads false pids ≡ none) × LacksMemory sys)
  unfolding run_parallel_scan shares_of list_init
  run_parallel_scan-list =
      elim (Bool-cases (sys.has_memory (pick_thread_count sys num_threads (length pids)))) [
        | inr lacks ↦ inr (rw lacks, (_, lacks))
        | inl has ↦ elim (all_listed sys q shares_of) [
          | inr (e, lacks) ↦ inr (rw (has, e), lacks)
          | inl (ss, e, h) ↦
              elim (join_lists-Fills sys q shares_of ss list_init h list_init-IsValid) [
                | inr (e', lacks) ↦ inr (rw (has, e, join, e'), lacks)
                | inl (g, e', v, items) ↦
                    inl (g, rw (has, e, join, e'), v, items ∙ ap (scan_all sys q) flatten-shares_of)
              ]
        ]
      ]
