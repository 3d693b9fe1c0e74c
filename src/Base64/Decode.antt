-- ===== src/Base64/Decode.antt =====
-- What base64 text means (RFC 4648, section 4), written independently of the encoder: groups of
-- four letters, each worth six bits, with `=` allowed at the end of the last group only.
use native.Mathlib.Omega.{arith}
use hsed.Base.{
  ◌≡◌, ◌≢◌, ℕ, suc, ◌+◌, ◌*◌, ◌/◌, ◌%◌, Option, none, some, List, [], ◌∷◌, ◌==◌, if◌then◌else◌,
}
use hsed.Base64.{b64_table}

infixl 5 ◌>>=◌
abbrev ◌>>=◌ {ℓ κ} : {A : Type ℓ} {B : Type κ} → Option A → (A → Option B) → Option B
none >>= f = none
some a >>= f = f a

-- The place of a letter in the alphabet.
index_from : ℕ → List ℕ → ℕ → Option ℕ
index_from i [] c = none
index_from i (x ∷ xs) c = if x == c then some i else index_from (suc i) xs c

unfoldable pub sextet : ℕ → Option ℕ
unfolding index_from
sextet c = index_from 0 b64_table c

-- A full group is three bytes.
full_group : ℕ → ℕ → ℕ → ℕ → Option (List ℕ)
full_group w x y z = do
  p ← sextet w
  q ← sextet x
  r ← sextet y
  s ← sextet z
  some ((p * 4 + q / 16) ∷ (q % 16 * 16 + r / 4) ∷ (r % 4 * 64 + s) ∷ [])

two_bytes : ℕ → ℕ → ℕ → Option (List ℕ)
two_bytes w x y = do
  p ← sextet w
  q ← sextet x
  r ← sextet y
  some ((p * 4 + q / 16) ∷ (q % 16 * 16 + r / 4) ∷ [])

one_byte : ℕ → ℕ → Option (List ℕ)
one_byte w x = do p ← sextet w; q ← sextet x; some ((p * 4 + q / 16) ∷ [])

-- The last group may be padded.
last_group : ℕ → ℕ → ℕ → ℕ → Option (List ℕ)
unfolding full_group two_bytes one_byte
last_group w x y z =
    if z == b'=' then (if y == b'=' then one_byte w x else two_bytes w x y) else full_group w x y z

prepend : Option (List ℕ) → Option (List ℕ) → Option (List ℕ)
prepend (some (a ∷ b ∷ c ∷ [])) (some rest) = some (a ∷ b ∷ c ∷ rest)
prepend _ _ = none

-- The bytes that a text stands for; `none` for what is not base64.
unfoldable pub decode : List ℕ → Option (List ℕ)
unfolding last_group prepend
decode [] = some []
decode (w ∷ x ∷ y ∷ z ∷ []) = last_group w x y z
decode (w ∷ x ∷ y ∷ z ∷ rest) = prepend (full_group w x y z) (decode rest)
decode _ = none

-- A full group in front of a text that can be read.
pub decode-full :
    (w x y z : ℕ) {p q r s : ℕ} (t : List ℕ) {rest : List ℕ}
    → sextet w ≡ some p
    → sextet x ≡ some q
    → sextet y ≡ some r
    → sextet z ≡ some s
    → z ≢ b'='
    → decode t ≡ some rest
    → decode (w ∷ x ∷ y ∷ z ∷ t)
      ≡ some ((p * 4 + q / 16) ∷ (q % 16 * 16 + r / 4) ∷ (r % 4 * 64 + s) ∷ rest)
unfolding decode
decode-full w x y z [] hw hx hy hz pad h = ground arith
decode-full w x y z (c ∷ t) hw hx hy hz pad h = ground arith

pub decode-two :
    (w x y : ℕ) {p q r : ℕ}
    → sextet w ≡ some p
    → sextet x ≡ some q
    → sextet y ≡ some r
    → y ≢ b'='
    → decode (w ∷ x ∷ y ∷ b'=' ∷ []) ≡ some ((p * 4 + q / 16) ∷ (q % 16 * 16 + r / 4) ∷ [])
unfolding decode
decode-two w x y hw hx hy pad = ground arith

pub decode-one :
    (w x : ℕ) {p q : ℕ}
    → sextet w ≡ some p
    → sextet x ≡ some q
    → decode (w ∷ x ∷ b'=' ∷ b'=' ∷ []) ≡ some ((p * 4 + q / 16) ∷ [])
unfolding decode
decode-one w x hw hx = ground arith
