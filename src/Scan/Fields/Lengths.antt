-- ===== src/Scan/Fields/Lengths.antt =====
-- How long the name of a process is that `read_comm` of backend/src/proc_scan.c reads.
use mathlib.Core.List.{reverse, reverse_aux}
use hsed.Base.{
  ℕ, zero, suc, ◌+◌, ◌-◌, ◌≤◌, ◌<◌, ◌≡◌, inl, inr, ℤ, some, Option-cases, List, [], ◌∷◌, length,
  length-take, codes, c_string, arith,
}
use hsed.Libc.{fgets}
use hsed.Util.{copied, copied_lem}
use hsed.Scan.System.{System}
use hsed.Scan.Fields.{drop_newlines, read_first_line, comm_path, read_comm}

length-fgets : (n : ℕ) (s : List ℕ) → length (fgets n s).0 ≤ length s
unfolding fgets
length-fgets zero s = omega arith
length-fgets (suc n) [] = omega arith
length-fgets (suc n) (c ∷ s) = ground (arith, length-fgets n s)

length-c_string : (s : List ℕ) → length (c_string s) ≤ length s
unfolding c_string
length-c_string [] = omega arith
length-c_string (c ∷ s) = ground (arith, length-c_string s)

length-drop_newlines : (s : List ℕ) → length (drop_newlines s) ≤ length s
unfolding drop_newlines
length-drop_newlines [] = omega arith
length-drop_newlines (c ∷ s) = ground (arith, length-drop_newlines s)

length-reverse_aux : (s acc : List ℕ) → length (reverse_aux s acc) ≡ length s + length acc
length-reverse_aux [] acc = omega arith
length-reverse_aux (c ∷ s) acc = omega (arith, length-reverse_aux s (c ∷ acc))

length-read_first_line :
    (sys : System) (path : List ℕ) (n bound : ℕ)
    → ((s : List ℕ) → sys.file path ≡ some s → length s ≤ bound)
    → length (read_first_line sys path n) ≤ bound
unfolding read_first_line
length-read_first_line sys path n bound h = elim (Option-cases (sys.file path)) [
  | inl gone ↦ rw (gone, read_first_line) (omega arith)
  | inr (s, found) ↦
      let line = (fgets (n - 1) s).0 in
      let text = reverse (c_string line) in
      rw (found, read_first_line)
        (omega (
          arith,
          h s found,
          length-fgets (n - 1) s,
          length-c_string line,
          length-reverse_aux (c_string line) [],
          length-drop_newlines text,
          length-reverse_aux (drop_newlines text) [],
        ))
]

length-or_mark :
    (s : List ℕ) (n bound : ℕ)
    → 0 < bound
    → length s ≤ bound
    → 1 < n
    → length (elim s [ [] ↦ copied (codes "?") n | c ∷ t ↦ c ∷ t ]) ≤ bound
length-or_mark [] n bound h k room =
    rw (copied_lem (codes "?") n (omega arith)) (omega (arith, length-take (n - 1) (codes "?")))
length-or_mark (c ∷ t) n bound h k room = k

pub length-read_comm :
    (sys : System) (pid : ℤ) (n bound : ℕ)
    → ((s : List ℕ) → sys.file (comm_path pid) ≡ some s → length s ≤ bound)
    → 0 < bound
    → 1 < n
    → length (read_comm sys pid n) ≤ bound
unfolding read_comm
length-read_comm sys pid n bound h some_room room =
    length-or_mark (read_first_line sys (comm_path pid) n) n bound some_room
      (length-read_first_line sys (comm_path pid) n bound h) room
