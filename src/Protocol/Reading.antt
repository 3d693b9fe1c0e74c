-- ===== src/Protocol/Reading.antt =====
-- How a JSON reader takes the inside of a string literal apart (RFC 8259, section 7), independent
-- of the escaper: a machine over bytes that refuses bare quotes, bare control bytes and escapes
-- that are unknown or unfinished.
use native.Mathlib.Omega.{arith}
use hsed.Base.{
  ℕ, zero, suc, ◌+◌, ◌-◌, ◌*◌, ◌≡◌, refl, ap, ◌∙◌, ◌≤◌, ◌&&◌, Option, none, some, List, [], ◌∷◌,
  ◌++◌, ltb, leb, ◌==◌, if◌then◌else◌, length,
}
use hsed.Protocol.{unicode_escape}

-- Between characters, after a backslash, or inside `\u` with so many digits to come after the next.
pub data Mode : Type 0 where
  plain after_backslash : Mode
  digit : ℕ → ℕ → Mode

hex_value : ℕ → Option ℕ
hex_value c =
    if leb b'0' c && leb c b'9'
    then some (c - 48)
    else if leb b'a' c && leb c b'f'
    then some (c - 87)
    else if leb b'A' c && leb c b'F'
    then some (c - 55)
    else none

abbrev letter : ℕ → Option (Mode × List ℕ)
letter c = some (plain, c ∷ [])

named_escape : ℕ → Option (Mode × List ℕ)
named_escape c =
    if c == b'"'
    then letter b'"'
    else if c == 92
    then letter 92
    else if c == b'/'
    then letter b'/'
    else if c == b'b'
    then letter 8
    else if c == b'f'
    then letter 12
    else if c == b'n'
    then letter 10
    else if c == b'r'
    then letter 13
    else if c == b't'
    then letter 9
    else if c == b'u'
    then some (digit 3 0, [])
    else none

take_digit : ℕ → ℕ → Option ℕ → Option (Mode × List ℕ)
take_digit more value none = none
take_digit zero value (some d) = letter (value * 16 + d)
take_digit (suc more) value (some d) = some (digit more (value * 16 + d), [])

-- One byte: the next mode, and the characters that are complete.
pub advance : Mode → ℕ → Option (Mode × List ℕ)
unfolding hex_value named_escape take_digit
advance plain c =
    if c == b'"'
    then none
    else if ltb c 0x20
    then none
    else if c == 92
    then some (after_backslash, [])
    else letter c
advance after_backslash c = named_escape c
advance (digit more value) c = take_digit more value (hex_value c)

pub prepend : List ℕ → Option (List ℕ) → Option (List ℕ)
prepend s none = none
prepend s (some t) = some (s ++ t)

-- The characters of a whole literal; `none` for what is no literal.
unfoldable pub read_from : Mode → List ℕ → Option (List ℕ)
unfolding advance prepend
read_from plain [] = some []
read_from after_backslash [] = none
read_from (digit more value) [] = none
read_from m (c ∷ s) = elim (advance m c) [
  | none ↦ none
  | some (m', done) ↦ prepend done (read_from m' s)
]

unfoldable pub read_string : List ℕ → Option (List ℕ)
unfolding read_from
read_string = read_from plain

-- The escape of a byte as the protocol writes it.
unfoldable pub escape_of : ℕ → List ℕ
unfolding unicode_escape
escape_of c =
    if c == b'"'
    then 92 ∷ b'"' ∷ []
    else if c == 92
    then 92 ∷ 92 ∷ []
    else if c == 10
    then 92 ∷ b'n' ∷ []
    else if c == 13
    then 92 ∷ b'r' ∷ []
    else if c == 9
    then 92 ∷ b't' ∷ []
    else if ltb c 0x20
    then unicode_escape c
    else c ∷ []

unfoldable pub escape_all : List ℕ → List ℕ
unfolding escape_of
escape_all [] = []
escape_all (c ∷ s) = escape_of c ++ escape_all s

-- The escape of a byte, in front of any text, is read as that byte.
read_from-escape_of :
    (c : ℕ) (s : List ℕ) → read_from plain (escape_of c ++ s) ≡ prepend (c ∷ []) (read_from plain s)
unfolding escape_of read_from
read_from-escape_of c s = ground arith

pub read_string-escape_all : (s : List ℕ) → read_string (escape_all s) ≡ some s
unfolding read_string escape_all
read_string-escape_all [] = refl
read_string-escape_all (c ∷ s) =
    read_from-escape_of c (escape_all s)
    ∙ unfold prepend in ap (prepend (c ∷ [])) (read_string-escape_all s)

pub length-escape_of : (c : ℕ) → (1 ≤ length (escape_of c)) × (length (escape_of c) ≤ 6)
unfolding escape_of
length-escape_of c = ground arith
