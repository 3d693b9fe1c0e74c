-- ===== src/Scan/Fields/Modes.antt =====
-- The modes that `fd_mode` gives.
use hsed.Base.{
  ℕ, zero, suc, refl, inl, inr, ℤ, Bool, true, false, Option-cases, List, [], ◌∷◌, ◌++◌, drop,
  length, codes, show_ℤ, ◌==◌, if◌then◌else◌,
}
use hsed.Libc.{fgets, str_starts, strtol}
use hsed.Protocol.Object.EntryLine.{IsMode}
use hsed.Scan.System.{System}
use hsed.Scan.Fields.{low_two_bits, mode_of, mode_loop, fd_mode}

if-IsMode : (b : Bool) (s t : List ℕ) → IsMode s → IsMode t → IsMode (if b then s else t)
if-IsMode true s t h k = h
if-IsMode false s t h k = k

mode_of-IsMode : (acc : ℕ) → IsMode (mode_of acc)
unfolding mode_of
mode_of-IsMode acc = if-IsMode (acc == 0) _ _ (inl refl) (
    if-IsMode (acc == 1) (codes "w") _ (inr (inl refl))
      (if-IsMode (acc == 2) (codes "rw") (codes "?") (inr (inr (inl refl))) (inr (inr (inr refl)))))

mode_loop-IsMode : (fuel : ℕ) (content : List ℕ) → IsMode (mode_loop fuel content)
unfolding mode_loop
mode_loop-IsMode zero content = inr (inr (inr refl))
mode_loop-IsMode (suc fuel) [] = inr (inr (inr refl))
mode_loop-IsMode (suc fuel) (c ∷ content) =
    let line = fgets 127 (c ∷ content) in
    if-IsMode (str_starts line.0 (codes "flags:"))
      (mode_of (low_two_bits (strtol 8 (drop 6 line.0)))) (mode_loop fuel line.1)
      (mode_of-IsMode (low_two_bits (strtol 8 (drop 6 line.0)))) (mode_loop-IsMode fuel line.1)

pub fd_mode-IsMode : (sys : System) (pid fd : ℤ) → IsMode (fd_mode sys pid fd)
unfolding fd_mode
fd_mode-IsMode sys pid fd =
    elim (Option-cases
      (sys.file (codes "/proc/" ++ (show_ℤ pid ++ (codes "/fdinfo/" ++ show_ℤ fd))))) [
        | inl gone ↦ rw (gone, fd_mode) (inr (inr (inr refl)))
        | inr (s, found) ↦ rw (found, fd_mode) (mode_loop-IsMode (length s) s)
      ]
