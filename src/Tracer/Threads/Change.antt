-- ===== src/Tracer/Threads/Change.antt =====
-- Removing a thread and changing its cell.
use hsed.Base.{
  ℕ, ◌+◌, ◌≡◌, refl, sym, ◌∙◌, inl, inr, ℤ, eqb_ℤ, eqb_ℤ→eq, eqb_ℤ_apart, Bool-cases, Option, none,
  some, All-split, subst, List, [], ◌∷◌, length, All, if◌then◌else◌, arith,
}
use hsed.Tracer.Threads.{
  ThreadState, find_tid, move_last, last_of, but_last, remove_tid, update_tid,
}
use hsed.Tracer.Threads.Table.{
  Lacks, Distinct, IsTable, find_tid-Lacks, Lacks-find_tid, move_last_lem, but_last-last_of,
}

-- How many cells a lookup has found.
abbrev pub found_cells : Option ThreadState → ℕ
found_cells none = 0
found_cells (some t) = 1

remove_tid-parts :
    (tids : List ThreadState) (tid other : ℤ)
    → Distinct tids
    → Distinct (remove_tid tids tid)
      × (find_tid (remove_tid tids tid) other
          ≡ (if eqb_ℤ tid other then none else find_tid tids other))
      × (length tids ≡ length (remove_tid tids tid) + found_cells (find_tid tids tid))
unfolding remove_tid find_tid
remove_tid-parts [] tid other d = (tt, ground arith, refl)
remove_tid-parts (t ∷ tids) tid other d = elim (Bool-cases (eqb_ℤ t.tid tid)) [
  | inl here ↦
      let (distinct, finds, counts) = move_last_lem tids other d.1 in
      rw (here, remove_tid, find_tid)
        (
          distinct,
          finds ∙ (elim (Bool-cases (eqb_ℤ tid other)) [
            | inl same ↦ rw same (
                Lacks-find_tid tids other
                  (rw (sym (eqb_ℤ→eq t.tid tid here ∙ eqb_ℤ→eq tid other same)) d.0))
            | inr differs ↦ rw (eqb_ℤ→eq t.tid tid here, differs)
          ]),
          omega arith,
        )
  | inr past ↦
      let (distinct, finds, counts) = remove_tid-parts tids tid other d.1 in
      let (_, finds_front, _) = remove_tid-parts tids tid t.tid d.1 in
      rw (past, remove_tid, find_tid)
        (
          (
            find_tid-Lacks (remove_tid tids tid) t.tid
                (finds_front ∙ ground (arith, Lacks-find_tid tids t.tid d.0)),
            distinct,
          ),
          elim (Bool-cases (eqb_ℤ t.tid other)) [
            | inl same ↦ rw (same, eqb_ℤ_apart t.tid tid other past same)
            | inr differs ↦ rw differs finds
          ],
          omega arith,
        )
]

-- In a well-formed table, `remove_tid` takes out the cell of the thread, if it has one, and leaves
-- every other thread's as it was; the table stays well formed.
pub remove_tid_lem :
    (tids : List ThreadState) (tid other : ℤ)
    → IsTable tids
    → IsTable (remove_tid tids tid)
      × (find_tid (remove_tid tids tid) other
          ≡ (if eqb_ℤ tid other then none else find_tid tids other))
      × (length tids ≡ length (remove_tid tids tid) + found_cells (find_tid tids tid))
remove_tid_lem tids tid other h =
    let (distinct, finds, counts) = remove_tid-parts tids tid other h.distinct in
    (record { fits = omega (arith, h.fits); distinct = distinct }, finds, counts)

update_tid-Lacks :
    (tids : List ThreadState) (new : ThreadState) (tid : ℤ)
    → Lacks tid tids
    → Lacks tid (update_tid tids new)
unfolding update_tid
update_tid-Lacks [] new tid h = tt
update_tid-Lacks (t ∷ tids) new tid h = elim (Bool-cases (eqb_ℤ t.tid new.tid)) [
  | inl here ↦ rw (here, update_tid) ((λ e. h.0 (eqb_ℤ→eq t.tid new.tid here ∙ e)), h.1)
  | inr past ↦ rw (past, update_tid) (h.0, update_tid-Lacks tids new tid h.1)
]

update_tid-Distinct :
    (tids : List ThreadState) (new : ThreadState) → Distinct tids → Distinct (update_tid tids new)
unfolding update_tid
update_tid-Distinct [] new d = tt
update_tid-Distinct (t ∷ tids) new d = elim (Bool-cases (eqb_ℤ t.tid new.tid)) [
  | inl here ↦ rw (here, update_tid) (rw (sym (eqb_ℤ→eq t.tid new.tid here)) d.0, d.1)
  | inr past ↦
      rw (past, update_tid) (update_tid-Lacks tids new t.tid d.0, update_tid-Distinct tids new d.1)
]

length-update_tid :
    (tids : List ThreadState) (new : ThreadState) → length (update_tid tids new) ≡ length tids
unfolding update_tid
length-update_tid [] new = refl
length-update_tid (t ∷ tids) new = ground (arith, length-update_tid tids new)

find_tid-update_tid :
    (tids : List ThreadState) (new old : ThreadState) (other : ℤ)
    → find_tid tids new.tid ≡ some old
    → find_tid (update_tid tids new) other
      ≡ (if eqb_ℤ new.tid other then some new else find_tid tids other)
unfolding update_tid find_tid
find_tid-update_tid [] new old other e = cc
find_tid-update_tid (t ∷ tids) new old other e = elim (Bool-cases (eqb_ℤ t.tid new.tid)) [
  | inl here ↦ rw (here, find_tid, eqb_ℤ→eq t.tid new.tid here) (ground arith)
  | inr past ↦
      let found_later = find_tid-update_tid tids new old other (rw (past, find_tid) at e) in
      rw (past, find_tid)
        (elim (Bool-cases (eqb_ℤ t.tid other)) [
          | inl same ↦ rw (same, eqb_ℤ_apart t.tid new.tid other past same)
          | inr differs ↦ rw differs found_later
        ])
]

-- An assignment through the pointer of a thread that has a cell changes that cell and no other, and
-- the table stays well formed.
pub update_tid_lem :
    (tids : List ThreadState) (new old : ThreadState) (other : ℤ)
    → IsTable tids
    → find_tid tids new.tid ≡ some old
    → IsTable (update_tid tids new)
      × (find_tid (update_tid tids new) other
          ≡ (if eqb_ℤ new.tid other then some new else find_tid tids other))
update_tid_lem tids new old other h e = (
  record {
    fits = omega (arith, h.fits, length-update_tid tids new);
    distinct = update_tid-Distinct tids new h.distinct;
  },
  find_tid-update_tid tids new old other e,
)

move_last-All :
    (P : ThreadState → Type 0) (tids : List ThreadState) → All P tids → All P (move_last tids)
unfolding move_last
move_last-All P [] h = tt
move_last-All P (t ∷ tids) h =
    let (front, back) =
      All-split P (but_last t tids) (last_of t tids ∷ [])
        (subst (All P) (sym (but_last-last_of t tids)) h) in
    (back.0, front)

pub remove_tid-All :
    (P : ThreadState → Type 0) (tids : List ThreadState) (tid : ℤ)
    → All P tids
    → All P (remove_tid tids tid)
unfolding remove_tid
remove_tid-All P [] tid h = tt
remove_tid-All P (t ∷ tids) tid h = elim (Bool-cases (eqb_ℤ t.tid tid)) [
  | inl here ↦ rw (here, remove_tid) (move_last-All P tids h.1)
  | inr past ↦ rw (past, remove_tid) (h.0, remove_tid-All P tids tid h.1)
]
