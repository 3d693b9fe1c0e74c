-- ===== src/Scan/Fields.antt =====
-- The attributes of a process and of a descriptor, as they are read from /proc.
pub mod Texts
pub mod Lengths
pub mod Modes
use hsed.Base.{
  ℕ, zero, suc, ◌+◌, ◌-◌, ◌%◌, ℤ, pos, negsuc, Bool, true, false, ◌&&◌, ◌||◌, none, some, List, [],
  ◌∷◌, ◌++◌, length, take, drop, codes, c_string, show_ℕ, show_ℤ, ltb, leb, ◌==◌, if◌then◌else◌,
}
use mathlib.Core.List.{reverse}
use hsed.Libc.{is_digit, str_eq, str_starts, strtol, fgets}
use hsed.Util.{copied}
use hsed.Entry.{cmdline_max}
use hsed.Scan.System.{System}

all_digits : List ℕ → Bool
unfolding is_digit
all_digits [] = true
all_digits (c ∷ s) = is_digit c && all_digits s

unfoldable pub is_all_digits : List ℕ → Bool
unfolding all_digits
is_all_digits [] = false
is_all_digits (c ∷ s) = all_digits (c ∷ s)

is_newline : ℕ → Bool
is_newline c = c == 10 || c == 13

-- The `while` loop that cuts newlines off the end, on the reversed string.
drop_newlines : List ℕ → List ℕ
unfolding is_newline
drop_newlines [] = []
drop_newlines (c ∷ s) = let rest = drop_newlines s in if is_newline c then rest else c ∷ s

unfoldable pub read_first_line : System → List ℕ → ℕ → List ℕ
unfolding drop_newlines fgets c_string
read_first_line sys path buflen = elim (sys.file path) [
  | none ↦ []
  | some content ↦ reverse (drop_newlines (reverse (c_string (fgets (buflen - 1) content).0)))
]

-- The loop over the NUL-separated arguments in `raw`; `rest` is `raw + i` up to `n`, and `buf` what
-- is stored so far, so its length is `out_pos`. An empty argument ends the loop. `fuel` bounds the
-- rounds, each of which moves `i`.
args_loop : ℕ → ℕ → List ℕ → List ℕ → Bool → List ℕ × Bool
unfolding c_string
args_loop zero buflen rest buf wrote_any = (buf, wrote_any)
args_loop (suc fuel) buflen [] buf wrote_any = (buf, wrote_any)
args_loop (suc fuel) buflen (c ∷ rest) buf wrote_any =
    let arg = c_string (c ∷ rest) in
    let arglen = length arg in
    let spaced = if wrote_any && ltb (length buf + 1) buflen then buf ++ b' ' ∷ [] else buf in
    let copy = if leb buflen (length spaced + arglen) then buflen - length spaced - 1 else arglen in
    let stored = if ltb (length spaced) (buflen - 1) then spaced ++ take copy arg else spaced in
    let next = args_loop fuel buflen (drop (arglen + 1) (c ∷ rest)) stored true in
    if ltb 0 arglen then next else (buf, wrote_any)

unfoldable pub comm_path : ℤ → List ℕ
comm_path pid = codes "/proc/" ++ (show_ℤ pid ++ codes "/comm")

-- The name from /proc/PID/comm, or `?`.
unfoldable pub read_comm : System → ℤ → ℕ → List ℕ
unfolding comm_path read_first_line
read_comm sys pid buflen = elim (read_first_line sys (comm_path pid) buflen) [
  | [] ↦ copied (codes "?") buflen
  | c ∷ s ↦ c ∷ s
]

joined : List ℕ → List ℕ × Bool → List ℕ
joined fallback (buf, true) = buf
joined fallback (buf, false) = fallback

-- `read` of at most `sizeof(raw) - 1` bytes; where nothing is read or joined, the comm is used.
unfoldable pub read_cmdline : System → ℤ → ℕ → List ℕ
unfolding args_loop joined read_comm
read_cmdline sys pid buflen = elim (sys.file (codes "/proc/" ++ (show_ℤ pid ++ codes "/cmdline"))) [
  | none ↦ read_comm sys pid buflen
  | some content ↦
      let raw = take (cmdline_max - 1) content in
      joined (read_comm sys pid buflen) (args_loop (length raw) buflen raw [] false)
]

unfoldable pub owner_name : System → ℕ → ℕ → List ℕ
owner_name sys uid buflen = elim (sys.user_name uid) [
  | some name ↦ copied name buflen
  | none ↦ take (buflen - 1) (show_ℕ uid)
]

-- `flags & 3`.
low_two_bits : ℤ → ℕ
low_two_bits (pos n) = n % 4
low_two_bits (negsuc n) = 3 - n % 4

mode_of : ℕ → List ℕ
mode_of acc =
    if acc == 0
    then codes "r"
    else if acc == 1
    then codes "w"
    else if acc == 2
    then codes "rw"
    else codes "?"

-- The loop over the lines of fdinfo, which come in pieces of at most 127 bytes.
mode_loop : ℕ → List ℕ → List ℕ
unfolding low_two_bits mode_of fgets
mode_loop zero content = codes "?"
mode_loop (suc fuel) [] = codes "?"
mode_loop (suc fuel) (c ∷ content) =
    let line = fgets 127 (c ∷ content) in
    let later = mode_loop fuel line.1 in
    if str_starts line.0 (codes "flags:")
    then mode_of (low_two_bits (strtol 8 (drop 6 line.0)))
    else later

unfoldable pub fd_mode : System → ℤ → ℤ → List ℕ
unfolding mode_loop
fd_mode sys pid fdnum =
    elim (sys.file (codes "/proc/" ++ (show_ℤ pid ++ (codes "/fdinfo/" ++ show_ℤ fdnum)))) [
      | none ↦ codes "?"
      | some content ↦ mode_loop (length content) content
    ]

unfoldable pub is_virtual_target : List ℕ → Bool
is_virtual_target path =
    str_starts path (codes "pipe:")
    || str_starts path (codes "socket:")
    || str_starts path (codes "anon_inode:")
    || str_starts path (codes "/memfd:")
    || str_eq path (codes "/dev/zero")
