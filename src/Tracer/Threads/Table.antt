-- ===== src/Tracer/Threads/Table.antt =====
-- The table of threads is a finite map: each thread has one cell, and the operations find, add,
-- change and remove the cell of one thread and no other.
use hsed.Base.{
  ◌≤◌, ◌≡◌, ◌≢◌, refl, sym, ap, subst, ◌∙◌, inl, inr, ℤ, eqb_ℤ, eqb_ℤ→eq, eqb_ℤ→ne, ne→eqb_ℤ,
  Bool-cases, none, some, Option-cases, List, [], ◌∷◌, ◌++◌, length, length-append, leb, All,
  All-append, All-split, if◌then◌else◌, arith,
}
use hsed.Tracer.Threads.{
  ThreadState, max_tracked_tids, new_thread, find_tid, Place, found, added, over_capacity,
  find_or_add_tid, last_of, but_last, move_last,
}

-- No other cell has this thread.
abbrev pub Lacks : ℤ → List ThreadState → Type 0
Lacks tid tids = All (λ t. t.tid ≢ tid) tids

abbrev pub Distinct : List ThreadState → Type 0
Distinct [] = Unit
Distinct (t ∷ tids) = Lacks t.tid tids × Distinct tids

pub record IsTable (tids : List ThreadState) : Type 0 where
  pub fits : length tids ≤ max_tracked_tids
  pub distinct : Distinct tids

pub find_tid-tid :
    (tids : List ThreadState) (tid : ℤ) (t : ThreadState) → find_tid tids tid ≡ some t → t.tid ≡ tid
unfolding find_tid
find_tid-tid [] tid t e = cc
find_tid-tid (u ∷ tids) tid t e = elim (Bool-cases (eqb_ℤ u.tid tid)) [
  | inl same ↦ let e' : some u ≡ some t = rw same at e in cc (eqb_ℤ→eq u.tid tid same)
  | inr other ↦ find_tid-tid tids tid t (rw (other, find_tid) at e)
]

pub find_tid-All :
    (P : ThreadState → Type 0) (tids : List ThreadState) (tid : ℤ) (t : ThreadState)
    → All P tids
    → find_tid tids tid ≡ some t
    → P t
unfolding find_tid
find_tid-All P [] tid t h e = cc
find_tid-All P (u ∷ tids) tid t h e = elim (Bool-cases (eqb_ℤ u.tid tid)) [
  | inl same ↦ let e' : some u ≡ some t = rw same at e in subst P (cc e') h.0
  | inr other ↦ find_tid-All P tids tid t h.1 (rw (other, find_tid) at e)
]

pub find_tid-Lacks : (tids : List ThreadState) (tid : ℤ) → find_tid tids tid ≡ none → Lacks tid tids
unfolding find_tid
find_tid-Lacks [] tid e = tt
find_tid-Lacks (u ∷ tids) tid e = elim (Bool-cases (eqb_ℤ u.tid tid)) [
  | inl same ↦ let e' : some u ≡ none = rw same at e in cc
  | inr other ↦ (eqb_ℤ→ne u.tid tid other, find_tid-Lacks tids tid (rw (other, find_tid) at e))
]

pub Lacks-find_tid : (tids : List ThreadState) (tid : ℤ) → Lacks tid tids → find_tid tids tid ≡ none
unfolding find_tid
Lacks-find_tid [] tid h = refl
Lacks-find_tid (u ∷ tids) tid h = rw (ne→eqb_ℤ u.tid tid h.0) (Lacks-find_tid tids tid h.1)

find_tid-append :
    (tids : List ThreadState) (new : ThreadState) (tid : ℤ)
    → find_tid (tids ++ new ∷ []) tid ≡ (
        if eqb_ℤ new.tid tid
        then (elim (find_tid tids tid) [ some t ↦ some t | none ↦ some new ])
        else find_tid tids tid)
unfolding find_tid
find_tid-append [] new tid = refl
find_tid-append (u ∷ tids) new tid = ground (arith, find_tid-append tids new tid)

Distinct-append :
    (tids : List ThreadState) (new : ThreadState)
    → Distinct tids
    → Lacks new.tid tids
    → Distinct (tids ++ new ∷ [])
Distinct-append [] new d l = (tt, tt)
Distinct-append (t ∷ tids) new d l = (
  All-append (λ u. u.tid ≢ t.tid) tids (new ∷ []) d.0 ((λ e. l.0 (sym e)), tt),
  Distinct-append tids new d.1 l.1,
)

-- What a lookup of a thread may lead to; `other` is any thread.
abbrev pub Placed : List ThreadState → ℤ → ℤ → Place → Type 0
Placed tids tid other (found t) = (find_tid tids tid ≡ some t) × (t.tid ≡ tid)
Placed tids tid other (added tids') =
    (find_tid tids tid ≡ none)
    × IsTable tids'
    × (find_tid tids' other
        ≡ (if eqb_ℤ tid other then some (new_thread tid) else find_tid tids other))
Placed tids tid other over_capacity = (find_tid tids tid ≡ none) × (length tids ≡ max_tracked_tids)

-- In a well-formed table, `find_or_add_tid` finds the one cell of the thread; or it adds a fresh one
-- and leaves every other thread's as it was, and the table stays well formed; or all cells are taken.
pub find_or_add_tid_lem :
    (tids : List ThreadState) (tid other : ℤ)
    → IsTable tids
    → Placed tids tid other (find_or_add_tid tids tid)
unfolding find_or_add_tid
find_or_add_tid_lem tids tid other h = elim (Option-cases (find_tid tids tid)) [
  | inr (t, here) ↦ rw (here, find_or_add_tid) (here, find_tid-tid tids tid t here)
  | inl missing ↦ elim (Bool-cases (leb max_tracked_tids (length tids))) [
    | inl full ↦ rw (missing, find_or_add_tid, full) (missing, ground (arith, h.fits))
    | inr room ↦
        rw (missing, find_or_add_tid, room)
          (
            missing,
            record {
              fits = ground (arith, length-append tids (new_thread tid ∷ []));
              distinct =
                  Distinct-append tids (new_thread tid) h.distinct
                    (find_tid-Lacks tids tid missing);
            },
            find_tid-append tids (new_thread tid) other ∙ (elim (Bool-cases (eqb_ℤ tid other)) [
              | inl same ↦ rw (same, sym (eqb_ℤ→eq tid other same), missing)
              | inr differs ↦ rw differs
            ]),
          )
  ]
]

-- What holds for all threads and for the new one holds once it is added.
pub added-All :
    (P : ThreadState → Type 0) (tids tids' : List ThreadState) (tid : ℤ)
    → find_or_add_tid tids tid ≡ added tids'
    → All P tids
    → P (new_thread tid)
    → All P tids'
unfolding find_or_add_tid
added-All P tids tids' tid e h new = elim (Option-cases (find_tid tids tid)) [
  | inr (t, here) ↦ let e' : found t ≡ added tids' = rw (here, find_or_add_tid) at e in cc
  | inl missing ↦ elim (Bool-cases (leb max_tracked_tids (length tids))) [
    | inl full ↦
        let e' : over_capacity ≡ added tids' = rw (missing, full, find_or_add_tid) at e in cc
    | inr room ↦
        let e' : added (tids ++ new_thread tid ∷ []) ≡ added tids' =
          rw (missing, room, find_or_add_tid) at e in
        subst (All P) (cc e') (All-append P tids (new_thread tid ∷ []) h (new, tt))
  ]
]

-- A table, read backwards.
Distinct-back :
    (tids : List ThreadState) (t : ThreadState)
    → Distinct (tids ++ t ∷ [])
    → Lacks t.tid tids × Distinct tids
Distinct-back [] t d = (tt, tt)
Distinct-back (u ∷ tids) t d =
    let (lacks, distinct) = Distinct-back tids t d.1 in
    let (front, back) = All-split (λ v. v.tid ≢ u.tid) tids (t ∷ []) d.0 in
    (((λ e. back.0 (sym e)), lacks), (front, distinct))

pub but_last-last_of :
    (t : ThreadState) (tids : List ThreadState) → but_last t tids ++ last_of t tids ∷ [] ≡ t ∷ tids
unfolding but_last last_of
but_last-last_of t [] = refl
but_last-last_of t (u ∷ tids) = ap (◌∷◌ t) (but_last-last_of u tids)

-- Where a cell stands in the table makes no difference to what is found.
find_tid_rotate :
    (tids : List ThreadState) (t : ThreadState) (other : ℤ)
    → Lacks t.tid tids
    → find_tid (t ∷ tids) other ≡ find_tid (tids ++ t ∷ []) other
unfolding find_tid
find_tid_rotate tids t other h = sym (
    find_tid-append tids t other ∙ (elim (Bool-cases (eqb_ℤ t.tid other)) [
      | inl same ↦ rw (same, find_tid, sym (eqb_ℤ→eq t.tid other same), Lacks-find_tid tids t.tid h)
      | inr differs ↦ rw (differs, find_tid)
    ]))

pub move_last_lem :
    (tids : List ThreadState) (other : ℤ)
    → Distinct tids
    → Distinct (move_last tids)
      × (find_tid (move_last tids) other ≡ find_tid tids other)
      × (length (move_last tids) ≡ length tids)
unfolding move_last
move_last_lem [] other d = (tt, refl, refl)
move_last_lem (t ∷ tids) other d =
    let e = but_last-last_of t tids in
    let (lacks, distinct) =
      Distinct-back (but_last t tids) (last_of t tids) (subst Distinct (sym e) d) in
    (
      (lacks, distinct),
      find_tid_rotate (but_last t tids) (last_of t tids) other lacks
          ∙ ap (λ ts. find_tid ts other) e,
      omega (arith, ap length e, length-append (but_last t tids) (last_of t tids ∷ [])),
    )
