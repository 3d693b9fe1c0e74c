-- ===== src/Scan/OnePid/Reported.antt =====
-- What `scan_one_pid` adds to its list or its counters, as a list of entries.
use mathlib.Core.List.{append_assoc, append-nil}
use hsed.Base.{
  ℕ, ◌+◌, ◌≡◌, refl, sym, ap, ◌∙◌, ◌⊎◌, inl, inr, ℤ, pos, ◌+ℤ◌, +ℤ_assoc, +ℤ_comm, zero-+ℤ, false,
  Option, none, some, Option-cases, Bool-cases, List, [], ◌∷◌, ◌++◌, length, length-append,
  if◌then◌else◌, arith,
}
use hsed.Entry.{Entry, Stats}
use hsed.Libc.{to_i64, add_long}
use hsed.Libc.Numbers.{IsLong}
use hsed.Libc.Longs.{to_i64-wraps, to_i64-IsLong, to_i64-plus_zero}
use hsed.Scan.System.{System}
use hsed.Scan.Growth.{Grown, IsValid, list_push, push_from_lem}
use hsed.Scan.OnePid.{
  Query, Found, Loaded, not_loaded, load, entry_of, Sink, into_stats, into_list, add_found,
  add_stats, after_found, examine, pushed, fd_loop, scan_one_pid, is_filtered_out, proc_path,
  fd_dir_path,
}

-- The entries of a directory of descriptors, each with the attributes read anew.
unfoldable pub reported_in : System → Query → ℤ → ℕ → List ℕ → List (List ℕ) → List Entry
reported_in sys q pid owner_uid fd_dir [] = []
reported_in sys q pid owner_uid fd_dir (name ∷ names) =
    let rest = reported_in sys q pid owner_uid fd_dir names in
    elim (examine sys q fd_dir name) [
      | none ↦ rest
      | some f ↦ entry_of sys pid owner_uid (load sys pid owner_uid not_loaded) f ∷ rest
    ]

-- The entries of a process: none where it is gone, its owner is filtered out, or it cannot be read.
unfoldable pub reported : System → Query → ℤ → List Entry
unfolding reported_in
reported sys q pid = elim (sys.stat (proc_path pid)) [
  | none ↦ []
  | some pst ↦
      if is_filtered_out q.uid_filter pst.st_uid then [] else elim (sys.opendir (fd_dir_path pid)) [
        | none ↦ []
        | some names ↦ reported_in sys q pid pst.st_uid (fd_dir_path pid) names
      ]
]

unfoldable pub total_size : List Entry → ℤ
total_size [] = pos 0
total_size (e ∷ es) = e.size +ℤ total_size es

-- Counters to which the entries are added; the sum of the sizes is that of a `long long`.
unfoldable pub count_entries : Stats → List Entry → Stats
unfolding total_size to_i64 ◌+ℤ◌
count_entries s es = record {
  count = s.count + length es;
  total_bytes = to_i64 (s.total_bytes +ℤ total_size es);
}

-- Some allocation fails.
abbrev pub LacksMemory : System → Type 0
LacksMemory sys = (n : ℕ) × (sys.has_memory n ≡ false)

-- A result that adds the entries to the sink, in order; a list may also run out of memory.
abbrev pub Delivers : System → Sink → List Entry → Option Sink → Type 0
Delivers sys (into_stats s) es r = r ≡ some (into_stats (count_entries s es))
Delivers sys (into_list g) es r =
    ((g' : Grown Entry) × (r ≡ some (into_list g')) × IsValid g' × (g'.items ≡ g.items ++ es))
    ⊎ ((r ≡ none) × LacksMemory sys)

abbrev pub IsReady : Sink → Type 0
IsReady (into_stats s) = IsLong s.total_bytes
IsReady (into_list g) = IsValid g

pub count_entries_nil : (s : Stats) → IsLong s.total_bytes → count_entries s [] ≡ s
unfolding count_entries
count_entries_nil s h = λ i. record { count = p i; total_bytes = q i }
  where
    p : s.count + 0 ≡ s.count
    p = omega arith

    q : to_i64 (s.total_bytes +ℤ pos 0) ≡ s.total_bytes
    q = to_i64-plus_zero s.total_bytes h

pub count_entries-IsLong : (s : Stats) (es : List Entry) → IsLong (count_entries s es).total_bytes
unfolding count_entries
count_entries-IsLong s es = to_i64-IsLong (s.total_bytes +ℤ total_size es)

pub total_size-append :
    (es fs : List Entry) → total_size (es ++ fs) ≡ total_size es +ℤ total_size fs
unfolding total_size
total_size-append [] fs = sym (zero-+ℤ (total_size fs))
total_size-append (e ∷ es) fs =
    ap (◌+ℤ◌ e.size) (total_size-append es fs)
    ∙ sym (+ℤ_assoc e.size (total_size es) (total_size fs))

pub count_entries-append :
    (s : Stats) (es fs : List Entry)
    → count_entries (count_entries s es) fs ≡ count_entries s (es ++ fs)
unfolding count_entries
count_entries-append s es fs = λ i. record { count = p i; total_bytes = q i }
  where
    p : s.count + length es + length fs ≡ s.count + length (es ++ fs)
    p = omega (arith, length-append es fs)

    q :
        to_i64 (to_i64 (s.total_bytes +ℤ total_size es) +ℤ total_size fs)
        ≡ to_i64 (s.total_bytes +ℤ total_size (es ++ fs))
    q =
        to_i64-wraps (s.total_bytes +ℤ total_size es) (total_size fs)
        ∙ ap to_i64 (
            +ℤ_assoc s.total_bytes (total_size es) (total_size fs)
            ∙ ap (◌+ℤ◌ s.total_bytes) (sym (total_size-append es fs)))

pub Delivers-nil : (sys : System) (sink : Sink) → IsReady sink → Delivers sys sink [] (some sink)
Delivers-nil sys (into_stats s) h = ap (λ t. some (into_stats t)) (sym (count_entries_nil s h))
Delivers-nil sys (into_list g) h = inl (g, refl, h, sym (append-nil g.items))

abbrev pub bind_sink : Option Sink → (Sink → Option Sink) → Option Sink
bind_sink r k = elim r [ none ↦ none | some sink ↦ k sink ]

-- Two deliveries, one after the other.
pub Delivers-bind :
    (sys : System) (sink : Sink) (es fs : List Entry) (r : Option Sink) (k : Sink → Option Sink)
    → Delivers sys sink es r
    → ((sink' : Sink) → IsReady sink' → Delivers sys sink' fs (k sink'))
    → Delivers sys sink (es ++ fs) (bind_sink r k)
Delivers-bind sys (into_stats s) es fs r k d rest = rw d (
    rest (into_stats (count_entries s es)) (count_entries-IsLong s es)
    ∙ ap (λ t. some (into_stats t)) (count_entries-append s es fs))
Delivers-bind sys (into_list g) es fs r k (inr (e, lacks)) rest = inr (rw e, lacks)
Delivers-bind sys (into_list g) es fs r k (inl (g', e, v, items)) rest =
    chain (rest (into_list g') v)
  where
    chain :
        Delivers sys (into_list g') fs (k (into_list g'))
        → Delivers sys (into_list g) (es ++ fs) (bind_sink r k)
    chain (inr (e', lacks)) = inr (rw e e', lacks)
    chain (inl (g'', e', v', items')) =
        inl (g'', rw e e', v', items' ∙ ap (λ t. t ++ fs) items ∙ append_assoc g.items es fs)

-- Nothing is loaded, or what is loaded is what a new load gives.
abbrev IsCurrent : System → ℤ → ℕ → Loaded → Type 0
IsCurrent sys pid uid l = load sys pid uid l ≡ load sys pid uid not_loaded

after_found-IsCurrent :
    (sys : System) (pid : ℤ) (uid : ℕ) (l : Loaded) (sink : Sink)
    → IsCurrent sys pid uid l
    → IsCurrent sys pid uid (after_found sys pid uid l sink)
unfolding after_found load
after_found-IsCurrent sys pid uid l (into_stats s) c = c
after_found-IsCurrent sys pid uid l (into_list g) c = c

list_push-Delivers :
    (sys : System) (g : Grown Entry) (e : Entry)
    → IsValid g
    → Delivers sys (into_list g) (e ∷ []) (pushed (list_push sys g e))
unfolding list_push pushed
list_push-Delivers sys g e v = elim (push_from_lem sys 64 g e (omega arith) v) [
  | inl (g', r, v', items) ↦ inl (g', rw r, v', items)
  | inr (r, _, lacks) ↦ inr (rw r, (_, lacks))
]

-- One descriptor that is reported.
add_found-Delivers :
    (sys : System) (pid : ℤ) (uid : ℕ) (l : Loaded) (f : Found) (sink : Sink)
    → IsCurrent sys pid uid l
    → IsReady sink
    → Delivers sys sink
        (entry_of sys pid uid (load sys pid uid not_loaded) f ∷ [])
        (add_found sys pid uid (after_found sys pid uid l sink) f sink)
unfolding add_found after_found
add_found-Delivers sys pid uid l f (into_stats s) c h =
    unfold add_stats count_entries entry_of add_long in
    ap (λ t. some (into_stats t))
      (λ i. record { count = s.count + 1; total_bytes = to_i64 (s.total_bytes +ℤ q i) })
  where
    q : f.st.st_size ≡ f.st.st_size +ℤ pos 0
    q = sym (+ℤ_comm f.st.st_size (pos 0) ∙ zero-+ℤ f.st.st_size)
add_found-Delivers sys pid uid l f (into_list g) c h =
    rw c (list_push-Delivers sys g (entry_of sys pid uid (load sys pid uid not_loaded) f) h)

fd_loop-Delivers :
    (sys : System) (q : Query) (pid : ℤ) (uid : ℕ) (fd_dir : List ℕ) (names : List (List ℕ))
    (l : Loaded) (sink : Sink)
    → IsCurrent sys pid uid l
    → IsReady sink
    → Delivers sys sink
        (reported_in sys q pid uid fd_dir names)
        (fd_loop sys q pid uid fd_dir names l sink)
unfolding fd_loop reported_in
fd_loop-Delivers sys q pid uid fd_dir [] l sink c h = Delivers-nil sys sink h
fd_loop-Delivers sys q pid uid fd_dir (name ∷ names) l sink c h =
    elim (Option-cases (examine sys q fd_dir name)) [
      | inl skipped ↦
          rw (skipped, fd_loop, reported_in)
            (fd_loop-Delivers sys q pid uid fd_dir names l sink c h)
      | inr (f, found) ↦
          rw (found, fd_loop, reported_in)
            (Delivers-bind sys sink (entry_of sys pid uid (load sys pid uid not_loaded) f ∷ [])
              (reported_in sys q pid uid fd_dir names)
              (add_found sys pid uid (after_found sys pid uid l sink) f sink)
              (fd_loop sys q pid uid fd_dir names (after_found sys pid uid l sink))
              (add_found-Delivers sys pid uid l f sink c h)
              (λ sink' h'.
                fd_loop-Delivers sys q pid uid fd_dir names (after_found sys pid uid l sink) sink'
                  (after_found-IsCurrent sys pid uid l sink c) h'))
    ]

-- Where its list is well formed, or its sum has the range of a `long long`, `scan_one_pid` adds to
-- its counters or its list what `reported` lists for the process, in order; with a list, it may
-- fail instead, where an allocation fails.
pub scan_one_pid-Delivers :
    (sys : System) (q : Query) (pid : ℤ) (sink : Sink)
    → IsReady sink
    → Delivers sys sink (reported sys q pid) (scan_one_pid sys q pid sink)
unfolding scan_one_pid reported
scan_one_pid-Delivers sys q pid sink h = elim (Option-cases (sys.stat (proc_path pid))) [
  | inl gone ↦ rw (gone, scan_one_pid, reported) (Delivers-nil sys sink h)
  | inr (pst, here) ↦ elim (Bool-cases (is_filtered_out q.uid_filter pst.st_uid)) [
    | inl out ↦ rw (here, scan_one_pid, reported, out) (Delivers-nil sys sink h)
    | inr kept ↦ elim (Option-cases (sys.opendir (fd_dir_path pid))) [
      | inl shut ↦ rw (here, scan_one_pid, reported, kept, shut) (Delivers-nil sys sink h)
      | inr (names, opened) ↦
          rw (here, scan_one_pid, reported, kept, opened)
            (fd_loop-Delivers sys q pid pst.st_uid (fd_dir_path pid) names not_loaded sink refl h)
    ]
  ]
]
