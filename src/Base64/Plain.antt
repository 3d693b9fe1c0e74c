-- ===== src/Base64/Plain.antt =====
-- The letters that `encode` writes need no escape in JSON.
use hsed.Base.{
  ℕ, ◌%◌, ◌<◌, ◌≤◌, ◌≡◌, refl, ◌⊎◌, inl, inr, ◌≢◌, Bool, true, not, ◌&&◌, false, List, [], ◌∷◌, All,
  c_string, leb, ◌==◌, bit_and, bit_and-mask, passes_below, passes_below-at, arith, Bool-cases,
}
use hsed.Base64.{b64_char, encode}
use hsed.Protocol.Reading.{escape_of, escape_all}

-- Bytes that a string literal of JSON has as they are.
abbrev pub IsPlain : ℕ → Type 0
IsPlain c = (32 ≤ c) × (c ≢ 34) × (c ≢ 92)

is_plain_at : ℕ → Bool
is_plain_at i = leb 32 (b64_char i) && not (b64_char i == 34) && not (b64_char i == 92)

alphabet_plain : passes_below 64 is_plain_at ≡ true
unfolding passes_below is_plain_at b64_char
alphabet_plain = refl

letter-IsPlain : (i : ℕ) → i < 64 → IsPlain (b64_char i)
letter-IsPlain i h = of_test (passes_below-at 64 is_plain_at i alphabet_plain h)
  where
    of_test : is_plain_at i ≡ true → IsPlain (b64_char i)
    of_test e = unfold is_plain_at in (ground arith, ground arith, ground arith)

-- A letter of the text, or its NUL.
abbrev IsStored : ℕ → Type 0
IsStored c = (c ≡ 0) ⊎ IsPlain c

masked-IsStored : (v : ℕ) → IsStored (b64_char (bit_and v 0x3f))
masked-IsStored v = inr (rw (bit_and-mask 6 v) (letter-IsPlain (v % 64) (omega arith)))

padding-IsStored : IsStored b'='
padding-IsStored = inr (omega arith)

encode-All : (bytes : List ℕ) → All IsStored (encode bytes)
unfolding encode
encode-All [] = (inl refl, tt)
encode-All (a ∷ []) =
    (masked-IsStored _, (masked-IsStored _, (padding-IsStored, (padding-IsStored, (inl refl, tt)))))
encode-All (a ∷ b ∷ []) = (
  masked-IsStored _,
  (masked-IsStored _, (masked-IsStored _, (padding-IsStored, (inl refl, tt)))),
)
encode-All (a ∷ b ∷ c ∷ rest) = (
  masked-IsStored _,
  (masked-IsStored _, (masked-IsStored _, (masked-IsStored _, encode-All rest))),
)

c_string-All : (s : List ℕ) → All IsStored s → All IsPlain (c_string s)
unfolding c_string
c_string-All [] h = tt
c_string-All (c ∷ s) h = elim (Bool-cases (c == 0)) [
  | inl nul ↦ rw nul tt
  | inr other ↦ rw other (plain h.0 other, c_string-All s h.1)
]
  where
    plain : IsStored c → (c == 0) ≡ false → IsPlain c
    plain (inl e) k = absurd (ground arith)
    plain (inr p) k = p

escape_all-plain : (s : List ℕ) → All IsPlain s → escape_all s ≡ s
unfolding escape_all
escape_all-plain [] h = refl
escape_all-plain (c ∷ s) h = rw (escape_all-plain s h.1) (unfold escape_of in ground (arith, h.0))

pub escape_all-encode :
    (bytes : List ℕ) → escape_all (c_string (encode bytes)) ≡ c_string (encode bytes)
escape_all-encode bytes =
    escape_all-plain (c_string (encode bytes)) (c_string-All (encode bytes) (encode-All bytes))
