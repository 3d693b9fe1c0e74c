-- ===== src/Libc/Numbers.antt =====
-- Numbers that are printed and read back.
use mathlib.Core.List.{append-nil}
use hsed.Base.{
  ℕ, zero, suc, ◌+◌, ◌-◌, ◌*◌, ◌/◌, ◌%◌, ◌^◌, ◌≤◌, ◌<◌, ◌≡◌, refl, ap, inl, inr, ◌∙◌, ◌≢◌, ℤ, pos,
  negsuc, true, false, ◌&&◌, List, [], ◌∷◌, ◌++◌, All, ltb, Bool-cases, digits_before, show_ℕ,
  show_ℤ, arith,
}
use hsed.Libc.{
  is_digit, skip_spaces, digits_value, signed_digits, strtol, to_i32, strtoul, strtoul_uid,
}

-- A text that no decimal number goes on into.
abbrev pub EndsNumber : List ℕ → Type 0
EndsNumber [] = Unit
EndsNumber (c ∷ s) = is_digit c ≡ false

digit_read :
    (d acc : ℕ) (rest : List ℕ)
    → d < 10
    → digits_value 10 acc ((48 + d) ∷ rest) ≡ digits_value 10 (acc * 10 + d) rest
unfolding digits_value
digit_read d acc rest h = rw test (ap (λ t. digits_value 10 (acc * 10 + t) rest) value)
  where
    value : 48 + d - 48 ≡ d
    value = omega arith

    test : (is_digit (48 + d) && ltb (48 + d - 48) 10) ≡ true
    test = ground arith

-- Printing `n` in front of `rest` and reading from `acc` on gives the digits of `n` behind `acc`.
digits_value-digits_before :
    (fuel n : ℕ) (rest : List ℕ)
    → n < fuel
    → (scale : ℕ) × ((acc : ℕ)
        → digits_value 10 acc (digits_before fuel n rest) ≡ digits_value 10 (acc * scale + n) rest)
unfolding digits_before digits_value
digits_value-digits_before zero n rest h = absurd (omega arith)
digits_value-digits_before (suc fuel) n rest h = elim (Bool-cases (ltb n 10)) [
  | inl small ↦ (10, λ acc. ground arith)
  | inr large ↦
      let (scale, ih) =
        digits_value-digits_before fuel (n / 10) ((48 + n % 10) ∷ rest) (ground arith) in
      (
        scale * 10,
        λ acc. rw large (
            ih acc
            ∙ rw (digit_read (n % 10) (acc * scale + n / 10) rest (omega arith))
                (ap (λ t. digits_value 10 t rest) (omega arith))),
      )
]

digits_before-append :
    (fuel n : ℕ) (s t : List ℕ) → digits_before fuel n (s ++ t) ≡ digits_before fuel n s ++ t
unfolding digits_before
digits_before-append zero n s t = refl
digits_before-append (suc fuel) n s t =
    ground (arith, digits_before-append fuel (n / 10) ((48 + n % 10) ∷ s) t)

digits_value_end : (n : ℕ) (rest : List ℕ) → EndsNumber rest → digits_value 10 n rest ≡ n
unfolding digits_value
digits_value_end n [] h = refl
digits_value_end n (c ∷ rest) h = rw (h, ◌&&◌)

-- A printed number is read back, whatever comes after it that is no digit.
pub digits_value-show_ℕ :
    (n : ℕ) (rest : List ℕ) → EndsNumber rest → digits_value 10 0 (show_ℕ n ++ rest) ≡ n
unfolding show_ℕ
digits_value-show_ℕ n rest h =
    let (scale, e) = digits_value-digits_before (suc n) n rest (omega arith) in
    let value : 0 * scale + n ≡ n = omega arith in
    rw (← digits_before-append (suc n) n [] rest)
      (e 0 ∙ ap (λ t. digits_value 10 t rest) value ∙ digits_value_end n rest h)

abbrev pub IsDigit : ℕ → Type 0
IsDigit c = (48 ≤ c) × (c ≤ 57)

digits_before-All : (fuel n : ℕ) (s : List ℕ) → All IsDigit s → All IsDigit (digits_before fuel n s)
unfolding digits_before
digits_before-All zero n s h = h
digits_before-All (suc fuel) n s h =
    ground (arith, digits_before-All fuel (n / 10) ((48 + n % 10) ∷ s) (omega arith, h))

digits_before_nonempty : (fuel n d : ℕ) (s : List ℕ) → digits_before fuel n (d ∷ s) ≢ []
unfolding digits_before
digits_before_nonempty zero n d s e = cc
digits_before_nonempty (suc fuel) n d s e =
    ground (arith, digits_before_nonempty fuel (n / 10) (48 + n % 10) (d ∷ s), e)

pub show_ℕ-All : (n : ℕ) → All IsDigit (show_ℕ n)
unfolding show_ℕ
show_ℕ-All n = digits_before-All (suc n) n [] tt

show_ℕ_nonempty : (n : ℕ) → show_ℕ n ≢ []
unfolding show_ℕ digits_before
show_ℕ_nonempty n = ground (arith, digits_before_nonempty n (n / 10) (48 + n % 10) [])

-- A printed number begins with a digit.
pub show_ℕ_head : (n : ℕ) → (d : ℕ) × (s : List ℕ) × (show_ℕ n ≡ d ∷ s) × IsDigit d
show_ℕ_head n = split (show_ℕ n) refl (show_ℕ-All n)
  where
    split :
        (t : List ℕ)
        → show_ℕ n ≡ t
        → All IsDigit t
        → (d : ℕ) × (s : List ℕ) × (show_ℕ n ≡ d ∷ s) × IsDigit d
    split [] e h = absurd (show_ℕ_nonempty n e)
    split (d ∷ s) e h = (d, s, e, h.0)

-- Neither white space nor a sign stands before a digit.
digits_in_front :
    (d : ℕ) (s : List ℕ)
    → IsDigit d
    → (signed_digits 10 (skip_spaces (d ∷ s)) ≡ (false, digits_value 10 0 (d ∷ s)))
unfolding signed_digits skip_spaces
digits_in_front d s h = ground arith

signed_digits-show_ℕ : (n : ℕ) → signed_digits 10 (skip_spaces (show_ℕ n)) ≡ (false, n)
signed_digits-show_ℕ n =
    let (d, s, e, digit) = show_ℕ_head n in
    let value = rw append-nil at (digits_value-show_ℕ n [] tt) in
    rw e (digits_in_front d s digit ∙ ap (λ t. (false, t)) (rw e at value))

signed_digits-minus : (n : ℕ) → signed_digits 10 (skip_spaces (b'-' ∷ show_ℕ n)) ≡ (true, n)
unfolding signed_digits skip_spaces
signed_digits-minus n = ap (λ t. (true, t)) (rw append-nil at (digits_value-show_ℕ n [] tt))

-- The values of a `long`.
abbrev pub IsLong : ℤ → Type 0
IsLong (pos n) = n < 2 ^ 63
IsLong (negsuc n) = n < 2 ^ 63

-- `atoll` reads back what `%lld` prints.
pub strtol-show_ℤ : (z : ℤ) → IsLong z → strtol 10 (show_ℤ z) ≡ z
unfolding strtol show_ℤ
strtol-show_ℤ (pos n) h = rw (signed_digits-show_ℕ n) (ground arith)
strtol-show_ℤ (negsuc n) h = rw (signed_digits-minus (suc n)) (ground arith)

-- The values of an `int` or a `pid_t`.
abbrev pub IsInt : ℤ → Type 0
IsInt (pos n) = n < 2 ^ 31
IsInt (negsuc n) = n < 2 ^ 31

to_i32_lem : (z : ℤ) → IsInt z → to_i32 z ≡ z
unfolding to_i32
to_i32_lem (pos n) h = ground arith
to_i32_lem (negsuc n) h = ground arith

-- `atoi`, and `atol` cast to `pid_t`, read back what `%d` prints.
pub to_i32-strtol-show_ℤ : (z : ℤ) → IsInt z → to_i32 (strtol 10 (show_ℤ z)) ≡ z
to_i32-strtol-show_ℤ (pos n) h =
    ap to_i32 (strtol-show_ℤ (pos n) (omega arith)) ∙ to_i32_lem (pos n) h
to_i32-strtol-show_ℤ (negsuc n) h =
    ap to_i32 (strtol-show_ℤ (negsuc n) (omega arith)) ∙ to_i32_lem (negsuc n) h

-- So are a size and a user id.
pub strtoul-show_ℕ : (n : ℕ) → n < 2 ^ 64 → strtoul (show_ℕ n) ≡ n
unfolding strtoul
strtoul-show_ℕ n h = rw (signed_digits-show_ℕ n) (ground arith)

pub strtoul_uid-show_ℕ : (n : ℕ) → n < 2 ^ 32 → strtoul_uid (show_ℕ n) ≡ n
unfolding strtoul_uid
strtoul_uid-show_ℕ n h = rw (strtoul-show_ℕ n (omega arith)) (ground arith)
