-- ===== src/Base64/Examples.antt =====
-- Tests of the encoder, and its theorems at concrete data.
use native.Mathlib.Omega.{arith}
use hsed.Base.{ℕ, ◌≡◌, refl, some, List, [], ◌∷◌, length, c_string, codes}
use hsed.Base64.{b64_char, encoded_len, encode}
use hsed.Base64.Decode.{decode}
use hsed.Base64.RoundTrip.{decode-encode, length-encode}

abbrev payload : List ℕ
payload = 0 ∷ 255 ∷ 16 ∷ 131 ∷ 9 ∷ []

encode_man : c_string (encode (codes "Man")) ≡ codes "TWFu"
unfolding encode b64_char c_string
encode_man = refl

encode_padded : c_string (encode (codes "M")) ≡ codes "TQ=="
unfolding encode b64_char c_string
encode_padded = refl

decode-encode_example : decode (c_string (encode payload)) ≡ some payload
decode-encode_example = decode-encode payload (omega arith)

length-encode_example : length (encode payload) ≡ encoded_len 5
length-encode_example = length-encode payload
