-- ===== src/Base64.antt =====
-- backend/src/base64.c and base64.h: the encoder whose output carries captured write payloads.
-- A `const unsigned char *` with its length is the list of its bytes; `data + i` is the list that
-- is left, so `i + 3 <= len` asks for three more bytes. The result of `encode` is the list of all
-- bytes stored through `out`, in order, the final NUL included.
pub mod Decode
pub mod RoundTrip
pub mod Plain
mod Examples
use hsed.Base.{ℕ, ◌+◌, ◌*◌, ◌/◌, bit_and, bit_or, ◌<<<◌, ◌>>>◌, List, [], ◌∷◌, get_or, codes}

abbrev pub b64_table : List ℕ
b64_table = codes "ABCDEFGHIJKLMNOPQRSTUVWXYZabcdefghijklmnopqrstuvwxyz0123456789+/"

-- `B64_TABLE[i]`.
unfoldable pub b64_char : ℕ → ℕ
b64_char i = get_or b64_table i 0

pub encoded_len : ℕ → ℕ
encoded_len len = (len + 2) / 3 * 4 + 1

unfoldable pub encode : List ℕ → List ℕ
encode (a ∷ b ∷ c ∷ rest) =
    let v = bit_or (bit_or (a <<< 16) (b <<< 8)) c in
    b64_char (bit_and (v >>> 18) 0x3f)
    ∷ b64_char (bit_and (v >>> 12) 0x3f)
    ∷ b64_char (bit_and (v >>> 6) 0x3f)
    ∷ b64_char (bit_and v 0x3f)
    ∷ encode rest
encode (a ∷ b ∷ []) =
    let v = bit_or (a <<< 16) (b <<< 8) in
    b64_char (bit_and (v >>> 18) 0x3f)
    ∷ b64_char (bit_and (v >>> 12) 0x3f)
    ∷ b64_char (bit_and (v >>> 6) 0x3f)
    ∷ b'='
    ∷ 0
    ∷ []
encode (a ∷ []) =
    let v = a <<< 16 in
    b64_char (bit_and (v >>> 18) 0x3f) ∷ b64_char (bit_and (v >>> 12) 0x3f) ∷ b'=' ∷ b'=' ∷ 0 ∷ []
encode [] = 0 ∷ []
