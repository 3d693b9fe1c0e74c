-- ===== src/Protocol/Object.antt =====
-- Objects of JSON (RFC 8259) on one line, with strings, whole numbers, `true` and `false` as values,
-- and without white space: a reader, and the text that stands for such an object.
pub mod RoundTrip
pub mod EntryLine
use hsed.Base.{
  ℕ, zero, suc, ◌+◌, ◌*◌, ◌-◌, ℤ, pos, negsuc, Bool, true, false, ◌&&◌, ◌||◌, Option, none, some,
  List, [], ◌∷◌, ◌++◌, length, drop, codes, show_ℤ, leb, ◌==◌, if◌then◌else◌,
}
use hsed.Libc.{is_digit, digits_value, str_starts}
use hsed.Protocol.Reading.{read_string, escape_all}

pub data Json : Type 0 where
  number : ℤ → Json
  text : List ℕ → Json
  truth : Bool → Json

infixl 5 ◌>>=◌
abbrev pub ◌>>=◌ {ℓ κ} : {A : Type ℓ} {B : Type κ} → Option A → (A → Option B) → Option B
none >>= f = none
some a >>= f = f a

in_front : ℕ → Option (List ℕ × List ℕ) → Option (List ℕ × List ℕ)
in_front c none = none
in_front c (some (s, rest)) = some (c ∷ s, rest)

-- The inside of a string literal, up to the first quote that no backslash escapes, and what comes
-- behind that quote; the flag says that the byte in front was such a backslash.
unfoldable pub inside : Bool → List ℕ → Option (List ℕ × List ℕ)
unfolding in_front
inside escaped [] = none
inside true (c ∷ s) = in_front c (inside false s)
inside false (c ∷ s) =
    let more = in_front c (inside (c == 92) s) in if c == b'"' then some ([], s) else more

unfoldable pub read_literal : List ℕ → Option (List ℕ × List ℕ)
unfolding inside
read_literal [] = none
read_literal (c ∷ s) =
    if c == b'"' then (do (t, rest) ← inside false s; u ← read_string t; some (u, rest)) else none

unfoldable pub is_numeral : ℕ → Bool
is_numeral c = is_digit c || c == b'-'

-- The bytes of a number at the front, and the rest.
unfoldable pub numeral : List ℕ → List ℕ × List ℕ
unfolding is_numeral
numeral [] = ([], [])
numeral (c ∷ s) = let more = numeral s in if is_numeral c then (c ∷ more.0, more.1) else ([], c ∷ s)

minus : ℕ → ℤ
minus zero = pos 0
minus (suc n) = negsuc n

unfoldable pub integer_of : List ℕ → Option ℤ
unfolding minus
integer_of [] = none
integer_of (c ∷ s) =
    if c == b'-' then some (minus (digits_value 10 0 s)) else some (pos (digits_value 10 0 (c ∷ s)))

unfoldable pub read_value : List ℕ → Option (Json × List ℕ)
unfolding read_literal numeral integer_of
read_value [] = none
read_value (c ∷ s) =
    if c == b'"'
    then (do (t, rest) ← read_literal (c ∷ s); some (text t, rest))
    else if str_starts (c ∷ s) (codes "true")
    then some (truth true, drop 4 (c ∷ s))
    else if str_starts (c ∷ s) (codes "false")
    then some (truth false, drop 5 (c ∷ s))
    else do z ← integer_of (numeral (c ∷ s)).0; some (number z, (numeral (c ∷ s)).1)

unfoldable pub expect : ℕ → List ℕ → Option (List ℕ)
expect c [] = none
expect c (d ∷ s) = if d == c then some s else none

abbrev pub Members : Type 0
Members = List (List ℕ × Json)

unfoldable pub read_member : List ℕ → Option ((List ℕ × Json) × List ℕ)
unfolding read_literal expect read_value
read_member s = do
  (key, s₁) ← read_literal s
  s₂ ← expect b':' s₁
  (value, s₃) ← read_value s₂
  some ((key, value), s₃)

-- Behind a member: a comma and more members, or the brace that ends the line.
unfoldable pub behind : List ℕ → (List ℕ → Option Members) → Option Members
behind [] later = none
behind (c ∷ s) later =
    if c == b',' then later s else if c == b'}' && length s == 0 then some [] else none

-- Each member takes a unit of fuel.
unfoldable pub read_members : ℕ → List ℕ → Option Members
unfolding read_member behind
read_members zero s = none
read_members (suc fuel) s = do
  (member, rest) ← read_member s
  more ← behind rest (read_members fuel)
  some (member ∷ more)

-- An object that has members.
unfoldable pub read_object : List ℕ → Option Members
unfolding expect read_members
read_object s = do members ← expect b'{' s; read_members (length members) members

-- The text of a value, of a member and of an object, in front of what follows.
unfoldable pub value_text : Json → List ℕ → List ℕ
value_text (number z) rest = show_ℤ z ++ rest
value_text (text s) rest = b'"' ∷ (escape_all s ++ b'"' ∷ rest)
value_text (truth true) rest = codes "true" ++ rest
value_text (truth false) rest = codes "false" ++ rest

unfoldable pub member_text : List ℕ × Json → List ℕ → List ℕ
unfolding value_text
member_text (key, value) rest = b'"' ∷ (escape_all key ++ b'"' ∷ b':' ∷ value_text value rest)

unfoldable pub members_text : List ℕ × Json → Members → List ℕ
unfolding member_text
members_text member [] = member_text member (b'}' ∷ [])
members_text member (next ∷ members) = member_text member (b',' ∷ members_text next members)

unfoldable pub object_text : List ℕ × Json → Members → List ℕ
unfolding members_text
object_text member members = b'{' ∷ members_text member members
