-- ===== src/Base64/RoundTrip.antt =====
-- What `encode` writes: how much, and what a reader of base64 gets from it.
use native.Mathlib.Omega.{arith}
use hsed.Base.{
  ℕ, ◌+◌, ◌*◌, ◌/◌, ◌%◌, ◌^◌, ◌<◌, ◌≤◌, ◌≡◌, refl, ap, ◌∙◌, ◌≢◌, Bool, true, false, not, ◌&&◌, none,
  some, List, [], ◌∷◌, length, All, c_string, ◌==◌, bit_and, bit_or, ◌<<<◌, ◌>>>◌, bit_or-shift,
  bit_and-mask, passes_below, passes_below-at,
}
use hsed.Base64.{b64_char, encoded_len, encode}
use hsed.Base64.Decode.{sextet, decode, decode-full, decode-two, decode-one}

is_letter_at : ℕ → Bool
is_letter_at i =
    elim (sextet (b64_char i)) [ none ↦ false | some j ↦ j == i ]
    && not (b64_char i == b'=')
    && not (b64_char i == 0)

alphabet : passes_below 64 is_letter_at ≡ true
unfolding passes_below is_letter_at sextet b64_char
alphabet = refl

-- Each six-bit value has a letter of its own, which is neither the padding nor the NUL.
b64_char_lem :
    (i : ℕ) → i < 64 → (sextet (b64_char i) ≡ some i) × (b64_char i ≢ b'=') × (b64_char i ≢ 0)
b64_char_lem i h = split (passes_below-at 64 is_letter_at i alphabet h)
  where
    split :
        is_letter_at i ≡ true
        → (sextet (b64_char i) ≡ some i) × (b64_char i ≢ b'=') × (b64_char i ≢ 0)
    split e = unfold is_letter_at in ground arith

-- The number that three bytes make, and its four sextets.
join_bytes :
    (a b c : ℕ)
    → b < 256
    → c < 256
    → bit_or (bit_or (a <<< 16) (b <<< 8)) c ≡ a * 65536 + b * 256 + c
join_bytes a b c hb hc =
    rw (bit_or-shift 16 a (b * 256) (omega arith))
      (ap (λ t. bit_or t c) regroup ∙ bit_or-shift 8 (a * 256 + b) c (omega arith) ∙ omega arith)
  where
    regroup : a * 65536 + b * 256 ≡ (a * 256 + b) * 256
    regroup = omega arith

-- A letter that is cut out of a number, and what it is worth.
abbrev IsLetter : ℕ → ℕ → Type 0
IsLetter c i = (sextet c ≡ some i) × (c ≢ b'=') × (c ≢ 0)

IsLetter-at : (v k : ℕ) → IsLetter (b64_char (bit_and (v >>> k) 0x3f)) (v / 2 ^ k % 64)
IsLetter-at v k = rw (bit_and-mask 6 (v / 2 ^ k)) (b64_char_lem (v / 2 ^ k % 64) (omega arith))

last-IsLetter : (v : ℕ) → IsLetter (b64_char (bit_and v 0x3f)) (v % 64)
last-IsLetter v = rw (bit_and-mask 6 v) (b64_char_lem (v % 64) (omega arith))

c_string-cons : (c : ℕ) (s : List ℕ) → c ≢ 0 → c_string (c ∷ s) ≡ c ∷ c_string s
unfolding c_string
c_string-cons c s h = ground arith

some_bytes :
    {a b c a' b' c' : ℕ} {r : List ℕ}
    → a ≡ a'
    → b ≡ b'
    → c ≡ c'
    → some (a ∷ b ∷ c ∷ r) ≡ some (a' ∷ b' ∷ c' ∷ r)
some_bytes p q r = cc

some_two : {a b a' b' : ℕ} → a ≡ a' → b ≡ b' → some (a ∷ b ∷ []) ≡ some (a' ∷ b' ∷ [])
some_two p q = cc

-- Four letters cut out of a number of 24 bits are read back as its three bytes.
read_full :
    (v : ℕ) (t : List ℕ) {rest : List ℕ}
    → v < 2 ^ 24
    → decode (c_string t) ≡ some rest
    → decode (
        c_string (
          b64_char (bit_and (v >>> 18) 0x3f)
          ∷ b64_char (bit_and (v >>> 12) 0x3f)
          ∷ b64_char (bit_and (v >>> 6) 0x3f)
          ∷ b64_char (bit_and v 0x3f)
          ∷ t))
      ≡ some (v / 65536 ∷ v / 256 % 256 ∷ v % 256 ∷ rest)
read_full v t h e =
    let w = IsLetter-at v 18 in
    let x = IsLetter-at v 12 in
    let y = IsLetter-at v 6 in
    let z = last-IsLetter v in
    rw (c_string-cons _ _ w.2, c_string-cons _ _ x.2, c_string-cons _ _ y.2, c_string-cons _ _ z.2)
      (decode-full _ _ _ _ (c_string t) w.0 x.0 y.0 z.0 z.1 e
        ∙ some_bytes (omega arith) (omega arith) (omega arith))

abbrev pub IsBytes : List ℕ → Type 0
IsBytes = All (λ c. c < 256)

-- For data that are bytes, reading back the text that `encode` leaves in `out` gives the data.
pub decode-encode : (bytes : List ℕ) → IsBytes bytes → decode (c_string (encode bytes)) ≡ some bytes
unfolding encode c_string
decode-encode [] h = unfold decode in refl
decode-encode (a ∷ []) h =
    let w = IsLetter-at (a <<< 16) 18 in
    let x = IsLetter-at (a <<< 16) 12 in
    rw (c_string-cons _ _ w.2, c_string-cons _ _ x.2)
      (decode-one _ _ w.0 x.0 ∙ ap (λ t. some (t ∷ [])) (omega arith))
decode-encode (a ∷ b ∷ []) h =
    let v = bit_or (a <<< 16) (b <<< 8) in
    let e = bit_or-shift 16 a (b * 256) (omega arith) in
    let w = IsLetter-at v 18 in
    let x = IsLetter-at v 12 in
    let y = IsLetter-at v 6 in
    rw (c_string-cons _ _ w.2, c_string-cons _ _ x.2, c_string-cons _ _ y.2)
      (decode-two _ _ _ w.0 x.0 y.0 y.1 ∙ some_two (omega arith) (omega arith))
decode-encode (a ∷ b ∷ c ∷ rest) h =
    let v = bit_or (bit_or (a <<< 16) (b <<< 8)) c in
    let e = join_bytes a b c h.1.0 h.1.1.0 in
    read_full v (encode rest) (omega arith) (decode-encode rest h.1.1.1)
    ∙ some_bytes (omega arith) (omega arith) (omega arith)

-- `encode` stores exactly as many bytes through `out` as `encoded_len` says, whatever the data.
pub length-encode : (bytes : List ℕ) → length (encode bytes) ≡ encoded_len (length bytes)
unfolding encode encoded_len
length-encode [] = omega arith
length-encode (a ∷ []) = omega arith
length-encode (a ∷ b ∷ []) = omega arith
length-encode (a ∷ b ∷ c ∷ rest) = omega (arith, length-encode rest)

c_string-letters :
    (a b c d : ℕ) (t : List ℕ)
    → a ≢ 0
    → b ≢ 0
    → c ≢ 0
    → d ≢ 0
    → length (c_string (a ∷ b ∷ c ∷ d ∷ t)) ≡ length (c_string t) + 4
unfolding c_string
c_string-letters a b c d t ha hb hc hd = ground arith

c_string_nul : length (c_string (0 ∷ [])) ≡ 0
unfolding c_string
c_string_nul = refl

-- The text that `encode` leaves has the length that `encoded_len` promises, less the NUL.
pub length-c_string-encode :
    (bytes : List ℕ) → length (c_string (encode bytes)) + 1 ≡ encoded_len (length bytes)
unfolding encode encoded_len
length-c_string-encode [] = unfold c_string in omega arith
length-c_string-encode (a ∷ []) =
    let v = a <<< 16 in
    omega (
      arith,
      c_string-letters _ _ b'=' b'=' (0 ∷ []) (IsLetter-at v 18).2 (IsLetter-at v 12).2
          (omega arith) (omega arith),
      c_string_nul,
    )
length-c_string-encode (a ∷ b ∷ []) =
    let v = bit_or (a <<< 16) (b <<< 8) in
    omega (
      arith,
      c_string-letters _ _ _ b'=' (0 ∷ []) (IsLetter-at v 18).2 (IsLetter-at v 12).2
          (IsLetter-at v 6).2 (omega arith),
      c_string_nul,
    )
length-c_string-encode (a ∷ b ∷ c ∷ rest) =
    let v = bit_or (bit_or (a <<< 16) (b <<< 8)) c in
    omega (
      arith,
      c_string-letters _ _ _ _ (encode rest) (IsLetter-at v 18).2 (IsLetter-at v 12).2
          (IsLetter-at v 6).2 (last-IsLetter v).2,
      length-c_string-encode rest,
    )

-- From 1536 bytes on the text has at least 2048 letters.
pub encoded_len-le : (n : ℕ) → 1536 ≤ n → 2049 ≤ encoded_len n
unfolding encoded_len
encoded_len-le n h = omega arith

-- Up to 1400 bytes take at most 1868 letters and the NUL.
pub encoded_len_small : (n : ℕ) → n ≤ 1400 → encoded_len n ≤ 1869
unfolding encoded_len
encoded_len_small n h = omega arith
