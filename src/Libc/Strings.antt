-- ===== src/Libc/Strings.antt =====
-- The Boolean tests on strings and what they mean.
use native.Mathlib.Omega.{arith}
use hsed.Base.{◌≡◌, refl, true, List, [], ◌∷◌, ℕ}
use hsed.Libc.{str_eq}

pub str_eq→eq : (s t : List ℕ) → str_eq s t ≡ true → s ≡ t
unfolding str_eq
str_eq→eq [] [] h = refl
str_eq→eq [] (d ∷ t) h = cc
str_eq→eq (c ∷ s) [] h = cc
str_eq→eq (c ∷ s) (d ∷ t) h = ground (arith, str_eq→eq s t)

pub str_eq_refl : (s : List ℕ) → str_eq s s ≡ true
unfolding str_eq
str_eq_refl [] = refl
str_eq_refl (c ∷ s) = ground (arith, str_eq_refl s)
