-- ===== src/Scan/Fields/Texts.antt =====
-- The attributes of a process as texts: they hold no control bytes but tab, newline and return,
-- where what is read holds no others.
use mathlib.Core.List.{reverse, reverse_aux}
use hsed.Base.{
  ℕ, zero, suc, ◌+◌, ◌-◌, ◌≤◌, ◌<◌, ◌≡◌, ◌⊎◌, inl, inr, ℤ, Bool, true, false, ◌&&◌, Bool-cases,
  some, Option-cases, List, [], ◌∷◌, ◌++◌, All, All-append, All-map, length, length-take, take,
  drop, codes, c_string, show_ℕ, show_ℤ, ltb, leb, ◌==◌, if◌then◌else◌, arith,
}
use hsed.Libc.{fgets}
use hsed.Libc.Numbers.{IsDigit, show_ℕ-All}
use hsed.Util.{copied, copied_lem}
use hsed.Entry.{cmdline_max}
use hsed.Protocol.Escape.{IsShort}
use hsed.Scan.System.{System}
use hsed.Scan.Fields.{
  drop_newlines, is_newline, read_first_line, args_loop, comm_path, read_comm, joined, read_cmdline,
  owner_name,
}

-- A byte of a file with texts that a NUL ends.
abbrev pub IsStored : ℕ → Type 0
IsStored c = (c ≡ 0) ⊎ IsShort c

module _ (P : ℕ → Type 0) where
  pub All-take : (n : ℕ) (s : List ℕ) → All P s → All P (take n s)
  All-take zero s h = tt
  All-take (suc n) [] h = tt
  All-take (suc n) (c ∷ s) h = (h.0, All-take n s h.1)

  All-drop : (n : ℕ) (s : List ℕ) → All P s → All P (drop n s)
  All-drop zero s h = h
  All-drop (suc n) [] h = tt
  All-drop (suc n) (c ∷ s) h = All-drop n s h.1

  All-if : (b : Bool) (s t : List ℕ) → All P s → All P t → All P (if b then s else t)
  All-if true s t h k = h
  All-if false s t h k = k

  fgets-All : (n : ℕ) (s : List ℕ) → All P s → All P (fgets n s).0
  unfolding fgets
  fgets-All zero s h = tt
  fgets-All (suc n) [] h = tt
  fgets-All (suc n) (c ∷ s) h = elim (Bool-cases (c == 10)) [
    | inl e ↦ rw e (h.0, tt)
    | inr e ↦ rw e (h.0, fgets-All n s h.1)
  ]

  drop_newlines-All : (s : List ℕ) → All P s → All P (drop_newlines s)
  unfolding drop_newlines
  drop_newlines-All [] h = tt
  drop_newlines-All (c ∷ s) h =
      All-if (is_newline c) (drop_newlines s) (c ∷ s) (drop_newlines-All s h.1) h

  reverse_aux-All : (s acc : List ℕ) → All P s → All P acc → All P (reverse_aux s acc)
  reverse_aux-All [] acc h k = k
  reverse_aux-All (c ∷ s) acc h k = reverse_aux-All s (c ∷ acc) h.1 (h.0, k)

  reverse-All : (s : List ℕ) → All P s → All P (reverse s)
  reverse-All s h = reverse_aux-All s [] h tt

c_string-All : (s : List ℕ) → All IsStored s → All IsShort (c_string s)
unfolding c_string
c_string-All [] h = tt
c_string-All (c ∷ s) h = elim (Bool-cases (c == 0)) [
  | inl nul ↦ rw nul tt
  | inr other ↦ rw other (short h.0 other, c_string-All s h.1)
]
  where
    short : IsStored c → (c == 0) ≡ false → IsShort c
    short (inl e) k = absurd (ground arith)
    short (inr p) k = p

args_loop-All :
    (fuel buflen : ℕ) (rest buf : List ℕ) (wrote_any : Bool)
    → All IsStored rest
    → All IsShort buf
    → All IsShort (args_loop fuel buflen rest buf wrote_any).0
unfolding args_loop
args_loop-All zero buflen rest buf wrote_any h k = k
args_loop-All (suc fuel) buflen [] buf wrote_any h k = k
args_loop-All (suc fuel) buflen (c ∷ rest) buf wrote_any h k =
    let arg = c_string (c ∷ rest) in
    let arglen = length arg in
    let spaced = if wrote_any && ltb (length buf + 1) buflen then buf ++ b' ' ∷ [] else buf in
    let copy = if leb buflen (length spaced + arglen) then buflen - length spaced - 1 else arglen in
    let stored = if ltb (length spaced) (buflen - 1) then spaced ++ take copy arg else spaced in
    let short = c_string-All (c ∷ rest) h in
    let spaced_short : All IsShort spaced =
      All-if IsShort (wrote_any && ltb (length buf + 1) buflen) (buf ++ b' ' ∷ []) buf
        (All-append _ buf (b' ' ∷ []) k (inl (omega arith), tt)) k in
    let stored_short : All IsShort stored =
      All-if IsShort (ltb (length spaced) (buflen - 1)) (spaced ++ take copy arg) spaced
        (All-append _ spaced (take copy arg) spaced_short (All-take IsShort copy arg short))
        spaced_short in
    elim (Bool-cases (ltb 0 arglen)) [
      | inl some_arg ↦ rw some_arg (
          args_loop-All fuel buflen (drop (arglen + 1) (c ∷ rest)) stored true
            (All-drop IsStored (arglen + 1) (c ∷ rest) h) stored_short)
      | inr ends ↦ rw ends k
    ]

pub copied-All : (s : List ℕ) (n : ℕ) → 0 < n → All IsShort s → All IsShort (copied s n)
copied-All s n room h = rw (copied_lem s n room) (All-take IsShort (n - 1) s h)

pub length-copied : (s : List ℕ) (n : ℕ) → 0 < n → length (copied s n) < n
length-copied s n room = rw (copied_lem s n room) (omega (arith, length-take (n - 1) s))

pub length-copied-le : (s : List ℕ) (n : ℕ) → 0 < n → length (copied s n) ≤ length s
length-copied-le s n room = rw (copied_lem s n room) (omega (arith, length-take (n - 1) s))

show_ℕ-IsShort : (n : ℕ) → All IsShort (show_ℕ n)
show_ℕ-IsShort n = All-map (show_ℕ n) digit (show_ℕ-All n)
  where
    digit : (c : ℕ) → IsDigit c → IsShort c
    digit c h = inl (omega arith)

-- A machine whose texts have short escapes: names of users hold no control bytes but tab,
-- newline and return, and neither do the files of a process, but for the NULs that separate
-- arguments.
pub record HasTexts (sys : System) : Type 0 where
  pub files : (path s : List ℕ) → sys.file path ≡ some s → All IsStored s
  pub names : (uid : ℕ) (s : List ℕ) → sys.user_name uid ≡ some s → All IsShort s

module _ (sys : System) (texts : HasTexts sys) where
  read_first_line-All : (path : List ℕ) (n : ℕ) → All IsShort (read_first_line sys path n)
  unfolding read_first_line
  read_first_line-All path n = elim (Option-cases (sys.file path)) [
    | inl gone ↦ rw (gone, read_first_line) tt
    | inr (s, found) ↦
        let line =
          c_string-All (fgets (n - 1) s).0
            (fgets-All IsStored (n - 1) s (texts.files path s found)) in
        rw (found, read_first_line)
          (reverse-All IsShort (drop_newlines (reverse (c_string (fgets (n - 1) s).0))) (
            drop_newlines-All IsShort (reverse (c_string (fgets (n - 1) s).0))
              (reverse-All IsShort (c_string (fgets (n - 1) s).0) line)))
  ]

  or_mark :
      (s : List ℕ) (n : ℕ)
      → 0 < n
      → All IsShort s
      → All IsShort (elim s [ [] ↦ copied (codes "?") n | c ∷ t ↦ c ∷ t ])
  or_mark [] n room h = copied-All (codes "?") n room (inl (omega arith), tt)
  or_mark (c ∷ t) n room h = h

  pub read_comm-All : (pid : ℤ) (n : ℕ) → 0 < n → All IsShort (read_comm sys pid n)
  unfolding read_comm
  read_comm-All pid n room =
      or_mark (read_first_line sys (comm_path pid) n) n room (read_first_line-All (comm_path pid) n)

  joined-All :
      (fallback : List ℕ) (r : List ℕ × Bool)
      → All IsShort fallback
      → All IsShort r.0
      → All IsShort (joined fallback r)
  unfolding joined
  joined-All fallback (buf, true) h k = k
  joined-All fallback (buf, false) h k = h

  pub read_cmdline-All : (pid : ℤ) (n : ℕ) → 0 < n → All IsShort (read_cmdline sys pid n)
  unfolding read_cmdline
  read_cmdline-All pid n room =
      elim (Option-cases (sys.file (codes "/proc/" ++ (show_ℤ pid ++ codes "/cmdline")))) [
        | inl gone ↦ rw (gone, read_cmdline) (read_comm-All pid n room)
        | inr (s, found) ↦
            let raw = take (cmdline_max - 1) s in
            rw (found, read_cmdline)
              (joined-All (read_comm sys pid n) (args_loop (length raw) n raw [] false)
                (read_comm-All pid n room)
                (args_loop-All (length raw) n raw [] false
                  (All-take IsStored (cmdline_max - 1) s (texts.files _ s found)) tt))
      ]

  pub owner_name-All : (uid n : ℕ) → 0 < n → All IsShort (owner_name sys uid n)
  unfolding owner_name
  owner_name-All uid n room = elim (Option-cases (sys.user_name uid)) [
    | inl unknown ↦
        rw (unknown, owner_name) (All-take IsShort (n - 1) (show_ℕ uid) (show_ℕ-IsShort uid))
    | inr (s, known) ↦ rw (known, owner_name) (copied-All s n room (texts.names uid s known))
  ]
