-- ===== src/Libc/Words.antt =====
-- Words that `strtok_r` takes apart.
use native.Mathlib.Omega.{arith}
use hsed.Base.{
  ℕ, suc, ◌≡◌, refl, false, some, List, [], ◌∷◌, ◌++◌, All, All-map, ℤ, pos, negsuc, show_ℕ, show_ℤ,
}
use hsed.Libc.{is_delim, skip_delims, split_word, strtok}
use hsed.Libc.Numbers.{IsDigit, show_ℕ-All, show_ℕ_head}

-- A text that is one word.
pub record IsWord (s : List ℕ) : Type 0 where
  pub first : ℕ
  pub others : List ℕ
  pub begins : s ≡ first ∷ others
  pub solid : All (λ c. is_delim c ≡ false) s

split_word-append :
    (s rest : List ℕ) → All (λ c. is_delim c ≡ false) s → split_word (s ++ b' ' ∷ rest) ≡ (s, rest)
unfolding split_word
split_word-append [] rest h = refl
split_word-append (c ∷ s) rest h = rw (h.0, split_word-append s rest h.1)

split_word-All : (s : List ℕ) → All (λ c. is_delim c ≡ false) s → split_word s ≡ (s, [])
unfolding split_word
split_word-All [] h = refl
split_word-All (c ∷ s) h = rw (h.0, split_word-All s h.1)

skip_word : (c : ℕ) (s : List ℕ) → is_delim c ≡ false → skip_delims (c ∷ s) ≡ c ∷ s
unfolding skip_delims
skip_word c s h = rw h

-- A word in front of a blank, and a word at the end.
pub strtok-append : (s rest : List ℕ) → IsWord s → strtok (s ++ b' ' ∷ rest) ≡ (some s, rest)
unfolding strtok
strtok-append [] rest w = cc (w.begins)
strtok-append (c ∷ s) rest w =
    rw (skip_word c (s ++ b' ' ∷ rest) w.solid.0, split_word-append (c ∷ s) rest w.solid)

pub strtok_all : (s : List ℕ) → IsWord s → strtok s ≡ (some s, [])
unfolding strtok
strtok_all [] w = cc (w.begins)
strtok_all (c ∷ s) w = rw (skip_word c s w.solid.0, split_word-All (c ∷ s) w.solid)

digit_solid : (c : ℕ) → IsDigit c → is_delim c ≡ false
unfolding is_delim
digit_solid c h = ground arith

pub show_ℕ-IsWord : (n : ℕ) → IsWord (show_ℕ n)
show_ℕ-IsWord n =
    let (d, s, e, _) = show_ℕ_head n in
    record {
      first = d;
      others = s;
      begins = e;
      solid = All-map (show_ℕ n) digit_solid (show_ℕ-All n);
    }

pub show_ℤ-IsWord : (z : ℤ) → IsWord (show_ℤ z)
unfolding show_ℤ
show_ℤ-IsWord (pos n) = show_ℕ-IsWord n
show_ℤ-IsWord (negsuc n) = record {
  first = b'-';
  others = show_ℕ (suc n);
  begins = refl;
  solid = (unfold is_delim in refl, All-map (show_ℕ (suc n)) digit_solid (show_ℕ-All (suc n)));
}
