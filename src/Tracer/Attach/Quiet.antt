-- ===== src/Tracer/Attach/Quiet.antt =====
-- Attaching reports no write.
use hsed.Base.{◌≡◌, refl, ap, ◌∙◌, ℤ, Bool, true, false, not, List, [], ◌∷◌, ◌++◌, if◌then◌else◌}
use hsed.Tracer.Threads.{ThreadState, Place, found, added, over_capacity, find_or_add_tid}
use hsed.Tracer.Session.{Action, resume, seize, cont, attached, interrupt, await, detach, report}
use hsed.Tracer.Session.Reports.{writes}
use hsed.Tracer.Attach.{Answers, seize_loop, set_going, place_thread, attach_one, attach_all}

pub writes-append : (xs ys : List Action) → writes (xs ++ ys) ≡ writes xs ++ writes ys
writes-append [] ys = refl
writes-append (report w ∷ xs) ys = ap (◌∷◌ w) (writes-append xs ys)
writes-append (resume tid sig ∷ xs) ys = writes-append xs ys
writes-append (cont tid ∷ xs) ys = writes-append xs ys
writes-append (interrupt tid ∷ xs) ys = writes-append xs ys
writes-append (seize tid ∷ xs) ys = writes-append xs ys
writes-append (attached ∷ xs) ys = writes-append xs ys
writes-append (await tid ∷ xs) ys = writes-append xs ys
writes-append (detach tid ∷ xs) ys = writes-append xs ys

-- These actions report no write.
abbrev pub Quiet : List Action × List ThreadState → Type 0
Quiet r = writes r.0 ≡ []

either-Quiet :
    (b : Bool) (r s : List Action × List ThreadState)
    → Quiet r
    → Quiet s
    → Quiet (if b then r else s)
either-Quiet true r s h k = h
either-Quiet false r s h k = k

place_thread-Quiet :
    (answers : Answers) (tids : List ThreadState) (tid : ℤ) → Quiet (place_thread answers tids tid)
unfolding place_thread set_going
place_thread-Quiet answers tids tid = placed (find_or_add_tid tids tid)
  where
    placed :
        (place : Place)
        → let r : List Action × List ThreadState = elim place [
          | over_capacity ↦ (detach tid ∷ [], tids)
          | found t ↦ set_going answers tids tid
          | added tids' ↦ set_going answers tids' tid
        ] in
          Quiet r
    placed over_capacity = refl
    placed (found t) = either-Quiet answers.resumes _ _ refl refl
    placed (added tids') = either-Quiet answers.resumes _ _ refl refl

attach_one-Quiet :
    (kernel : ℤ → Answers) (tids : List ThreadState) (tid : ℤ) → Quiet (attach_one kernel tids tid)
unfolding attach_one
attach_one-Quiet kernel tids tid =
    either-Quiet (not (seize_loop 5 0 (kernel tid).seizes)) _ _ refl (
      either-Quiet (not (kernel tid).interrupts) _ _ refl (
        either-Quiet (not (kernel tid).stopped) _ _ refl
          (place_thread-Quiet (kernel tid) tids tid)))

pub attach_all-Quiet :
    (kernel : ℤ → Answers) (tids : List ThreadState) (discovered : List ℤ)
    → Quiet (attach_all kernel tids discovered)
unfolding attach_all
attach_all-Quiet kernel tids [] = refl
attach_all-Quiet kernel tids (tid ∷ discovered) =
    let (actions, tids') = attach_one kernel tids tid in
    writes-append actions (attach_all kernel tids' discovered).0
    ∙ rw (attach_one-Quiet kernel tids tid) (attach_all-Quiet kernel tids' discovered)
