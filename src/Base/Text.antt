-- ===== src/Base/Text.antt =====
-- Texts as lists of bytes. A C string is the list of its bytes before the NUL.
use Prim.Native.Nat.{ℕ, zero, suc, ◌+◌, ◌/◌, ◌%◌}
use Prim.Native.Char.{code}
use Prim.Native.String.{String}
use mathlib.Core.List.{List, [], ◌∷◌}
use hsed.Base.Tests.{ltb, ◌==◌, if◌then◌else◌}
use hsed.Base.Int.{ℤ, pos, negsuc}

-- The bytes of a literal.
abbrev pub codes : String → List ℕ
codes String.[] = []
codes (String.◌∷◌ c s) = code c ∷ codes s

-- What a `char *` at the start of some memory points to: the bytes up to the first NUL.
unfoldable pub c_string : List ℕ → List ℕ
c_string [] = []
c_string (c ∷ s) = if c == 0 then [] else c ∷ c_string s

-- The decimal digits of `n` in front of `rest`; a number below `10 ^ fuel` is printed in full.
unfoldable pub digits_before : ℕ → ℕ → List ℕ → List ℕ
digits_before zero n rest = rest
digits_before (suc fuel) n rest =
    let more = digits_before fuel (n / 10) ((48 + n % 10) ∷ rest) in
    if ltb n 10 then (48 + n) ∷ rest else more

-- `%u`, `%zu` and `%llu`.
unfoldable pub show_ℕ : ℕ → List ℕ
unfolding digits_before
show_ℕ n = digits_before (suc n) n []

-- `%d`, `%ld` and `%lld`.
unfoldable pub show_ℤ : ℤ → List ℕ
unfolding show_ℕ
show_ℤ (pos n) = show_ℕ n
show_ℤ (negsuc n) = b'-' ∷ show_ℕ (suc n)
