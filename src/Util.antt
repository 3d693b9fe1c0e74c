-- ===== src/Util.antt =====
-- backend/src/util.c: the bounded copy (proc_scan.c has the same function once more, as
-- `hsed_strlcpy_local`). Log: the log functions.
pub mod Log
use hsed.Base.{
  ℕ, ◌-◌, ◌<◌, ◌≡◌, List, [], length, length-take, take, take_all, Option, none, some, ltb,
  if◌then◌else◌, arith, Bool-cases, inl, inr, ap, sym, ◌∙◌, lt→ltb, ltb→lt,
}

-- What `dst` holds afterwards (`none`: nothing was stored), and the result.
unfoldable pub strlcpy : List ℕ → ℕ → Option (List ℕ) × ℕ
strlcpy src dstsize =
    let srclen = length src in
    let copy = if ltb srclen (dstsize - 1) then srclen else dstsize - 1 in
    ((if ltb 0 dstsize then some (take copy src) else none), srclen)

-- The C string in a `dst` that has a size above 0.
abbrev pub copied : List ℕ → ℕ → List ℕ
copied src dstsize = elim ((strlcpy src dstsize).0) [ none ↦ [] | some s ↦ s ]

-- In a buffer of a size above 0, the copy is as much of the source as fits in front of the NUL, so it
-- ends inside the buffer; the result is the length of the source.
pub strlcpy_lem :
    (src : List ℕ) (dstsize : ℕ)
    → 0 < dstsize
    → (strlcpy src dstsize ≡ (some (take (dstsize - 1) src), length src))
      × (length (take (dstsize - 1) src) < dstsize)
unfolding strlcpy
strlcpy_lem src dstsize h = elim (Bool-cases (ltb (length src) (dstsize - 1))) [
  | inl fits ↦ (
    rw (lt→ltb 0 dstsize h, fits)
        (ap (λ s. (some s, length src))
          (take_all (length src) src (omega arith)
            ∙ sym (
                take_all (dstsize - 1) src
                  (omega (arith, ltb→lt (length src) (dstsize - 1) fits))))),
    omega (arith, length-take (dstsize - 1) src),
  )
  | inr cut ↦ (rw (lt→ltb 0 dstsize h, cut), omega (arith, length-take (dstsize - 1) src))
]

pub length-copied :
    (src : List ℕ) (dstsize : ℕ) → 0 < dstsize → length (copied src dstsize) < dstsize
length-copied src dstsize h = let r = strlcpy_lem src dstsize h in rw (r.0, copied) r.1

-- A source that fits is copied whole.
pub copied_whole : (src : List ℕ) (dstsize : ℕ) → length src < dstsize → copied src dstsize ≡ src
copied_whole src dstsize h =
    rw ((strlcpy_lem src dstsize (omega arith)).0, copied)
      (take_all (dstsize - 1) src (omega arith))

pub copied-take :
    (src : List ℕ) (dstsize : ℕ) → 0 < dstsize → copied src dstsize ≡ take (dstsize - 1) src
copied-take src dstsize h = rw ((strlcpy_lem src dstsize h).0, copied)

pub copied_lem :
    (src : List ℕ) (dstsize : ℕ) → 0 < dstsize → copied src dstsize ≡ take (dstsize - 1) src
copied_lem src dstsize h =
    ap
      (λ (r : Option (List ℕ) × ℕ). let kept : List ℕ = elim r.0 [ none ↦ [] | some s ↦ s ] in kept)
      (strlcpy_lem src dstsize h).0
