-- ===== src/Scan/Threads/Gathered.antt =====
-- Which processes `gather_pids` of backend/src/proc_scan.c finds.
use mathlib.Core.List.{append-nil, append_assoc}
use hsed.Base.{
  ℕ, ◌≡◌, refl, sym, ap, subst, ◌∙◌, ◌⊎◌, inl, inr, ℤ, Bool-cases, Option, none, some, Option-cases,
  List, [], ◌∷◌, ◌++◌, All, codes, if◌then◌else◌, arith,
}
use hsed.Libc.{strtol, to_i32}
use hsed.Libc.Numbers.{IsLong}
use hsed.Scan.System.{System}
use hsed.Scan.Growth.{Grown, IsValid, list_init, list_init-IsValid, push_from_lem}
use hsed.Scan.Fields.{is_all_digits}
use hsed.Scan.OnePid.Reported.{LacksMemory}
use hsed.Scan.OnePid.Fitting.{to_i32-IsLong}
use hsed.Scan.Threads.{gather_loop, gather_pids, pids_of}

-- The numbers of the names that are all digits.
unfoldable pub pids_named : List (List ℕ) → List ℤ
pids_named [] = []
pids_named (name ∷ names) =
    let rest = pids_named names in
    if is_all_digits name then to_i32 (strtol 10 name) ∷ rest else rest

-- What the loop gives: all of them, behind those that it had, or nothing where an allocation failed.
abbrev Gathers : System → Grown ℤ → List ℤ → Option (Grown ℤ) → Type 0
Gathers sys out pids r =
    ((g : Grown ℤ) × (r ≡ some g) × IsValid g × (g.items ≡ out.items ++ pids))
    ⊎ ((r ≡ none) × LacksMemory sys)

gather_loop-Gathers :
    (sys : System) (names : List (List ℕ)) (out : Grown ℤ)
    → IsValid out
    → Gathers sys out (pids_named names) (gather_loop sys names out)
unfolding gather_loop pids_named
gather_loop-Gathers sys [] out v = inl (out, refl, v, sym (append-nil out.items))
gather_loop-Gathers sys (name ∷ names) out v = elim (Bool-cases (is_all_digits name)) [
  | inr other ↦ rw other (gather_loop-Gathers sys names out v)
  | inl digits ↦ elim (push_from_lem sys 256 out (to_i32 (strtol 10 name)) (omega arith) v) [
    | inr (failed, _, lacks) ↦ rw (digits, failed) (inr (refl, (_, lacks)))
    | inl (out', stored, v', e) ↦
        rw (digits, stored)
          (elim (gather_loop-Gathers sys names out' v') [
            | inr failed ↦ inr failed
            | inl (g, done, valid, items) ↦ inl (
              g,
              done,
              valid,
              items ∙ ap (λ t. t ++ pids_named names) e ∙ append_assoc out.items _ _,
            )
          ])
  ]
]

-- Where /proc cannot be read, there is no result; where it can, the result has the numbers of exactly
-- the names that are all digits, in the order of the directory; only where some allocation fails,
-- there is none.
pub gather_pids_lem :
    (sys : System)
    → ((sys.opendir (codes "/proc") ≡ none) × (gather_pids sys ≡ none))
      ⊎ ((names : List (List ℕ)) × (sys.opendir (codes "/proc") ≡ some names)
          × ((gather_pids sys ≡ some (pids_named names))
              ⊎ ((gather_pids sys ≡ none) × LacksMemory sys)))
unfolding gather_pids pids_of list_init
gather_pids_lem sys = elim (Option-cases (sys.opendir (codes "/proc"))) [
  | inl closed ↦ inl (closed, rw (closed, gather_pids) refl)
  | inr (names, opened) ↦ inr (
    names,
    opened,
    elim (gather_loop-Gathers sys names list_init list_init-IsValid) [
      | inl (g, done, valid, items) ↦ inl (rw (opened, gather_pids, done) (ap some items))
      | inr (failed, lacks) ↦ inr (rw (opened, gather_pids, failed) refl, lacks)
    ],
  )
]

pids_named-All : (names : List (List ℕ)) → All IsLong (pids_named names)
unfolding pids_named
pids_named-All [] = tt
pids_named-All (name ∷ names) = elim (Bool-cases (is_all_digits name)) [
  | inl digits ↦ rw digits (to_i32-IsLong (strtol 10 name), pids_named-All names)
  | inr other ↦ rw other (pids_named-All names)
]

same_pids : {pids rest : List ℤ} → some pids ≡ some rest → pids ≡ rest
same_pids e = cc

pub gather_pids-All : (sys : System) (pids : List ℤ) → gather_pids sys ≡ some pids → All IsLong pids
gather_pids-All sys pids e = elim (gather_pids_lem sys) [
  | inl (closed, nothing) ↦ absurd (unequal (sym nothing ∙ e))
  | inr (names, opened, inl found) ↦
      subst (All IsLong) (same_pids (sym found ∙ e)) (pids_named-All names)
  | inr (names, opened, inr (failed, lacks)) ↦ absurd (unequal (sym failed ∙ e))
]
  where
    unequal : none ≡ some pids → ⊥
    unequal h = cc
