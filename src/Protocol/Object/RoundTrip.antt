-- ===== src/Protocol/Object/RoundTrip.antt =====
-- The reader of objects reads back the text of an object.
use mathlib.Core.List.{append-nil, append_assoc}
use native.Mathlib.Omega.{arith}
use hsed.Base.{
  ℕ, zero, suc, ◌+◌, ◌<◌, ◌≡◌, refl, sym, ap, subst, ◌∙◌, ℤ, pos, negsuc, true, false, Option, none,
  some, List, [], ◌∷◌, ◌++◌, All, All-map, length, length-append, codes, show_ℕ, show_ℤ, ◌==◌,
}
use hsed.Libc.{is_digit, digits_value, str_starts}
use hsed.Libc.Numbers.{IsDigit, show_ℕ-All, show_ℕ_head, digits_value-show_ℕ}
use hsed.Protocol.{unicode_escape}
use hsed.Protocol.Reading.{escape_of, escape_all, read_string-escape_all}
use hsed.Protocol.Object.{
  Json, number, text, truth, inside, read_literal, is_numeral, numeral, integer_of, read_value,
  expect, Members, read_member, behind, read_members, read_object, ◌>>=◌, value_text, member_text,
  members_text, object_text,
}

onto : List ℕ → Option (List ℕ × List ℕ) → Option (List ℕ × List ℕ)
onto s none = none
onto s (some (t, rest)) = some (s ++ t, rest)

inside-escape_of :
    (c : ℕ) (s : List ℕ) → inside false (escape_of c ++ s) ≡ onto (escape_of c) (inside false s)
unfolding inside escape_of unicode_escape onto
inside-escape_of c s = ground arith

inside-escape_all :
    (s rest : List ℕ) → inside false (escape_all s ++ b'"' ∷ rest) ≡ some (escape_all s, rest)
unfolding escape_all onto
inside-escape_all [] rest = unfold inside in refl
inside-escape_all (c ∷ s) rest =
    ap (inside false) (append_assoc (escape_of c) (escape_all s) (b'"' ∷ rest))
    ∙ inside-escape_of c (escape_all s ++ b'"' ∷ rest)
    ∙ ap (onto (escape_of c)) (inside-escape_all s rest)

read_literal-escape_all :
    (s rest : List ℕ) → read_literal (b'"' ∷ (escape_all s ++ b'"' ∷ rest)) ≡ some (s, rest)
unfolding read_literal
read_literal-escape_all s rest = rw (inside-escape_all s rest, read_string-escape_all s) refl

-- A text that no number goes on into.
abbrev pub EndsNumeral : List ℕ → Type 0
EndsNumeral [] = Unit
EndsNumeral (c ∷ s) = is_numeral c ≡ false

numeral-append :
    (s rest : List ℕ)
    → All (λ c. is_numeral c ≡ true) s
    → EndsNumeral rest
    → numeral (s ++ rest) ≡ (s, rest)
unfolding numeral
numeral-append [] [] h e = refl
numeral-append [] (c ∷ rest) h e = rw e refl
numeral-append (c ∷ s) rest h e = rw (h.0, numeral-append s rest h.1 e) refl

digit-numeral : (c : ℕ) → IsDigit c → is_numeral c ≡ true
unfolding is_numeral is_digit
digit-numeral c h = ground arith

-- A printed number begins with a digit or a minus sign, and has nothing else.
show_ℤ_shape :
    (z : ℤ)
    → (c : ℕ) × (s : List ℕ) × (show_ℤ z ≡ c ∷ s)
      × (is_numeral c ≡ true)
      × All (λ d. is_numeral d ≡ true) (show_ℤ z)
unfolding show_ℤ
show_ℤ_shape (pos n) =
    let (c, s, e, digit) = show_ℕ_head n in
    (c, s, e, digit-numeral c digit, All-map (show_ℕ n) digit-numeral (show_ℕ-All n))
show_ℤ_shape (negsuc n) = (
  b'-',
  show_ℕ (suc n),
  refl,
  unfold is_numeral is_digit in refl,
  (unfold is_numeral is_digit in refl, All-map (show_ℕ (suc n)) digit-numeral (show_ℕ-All (suc n))),
)

digits_of : (n : ℕ) → digits_value 10 0 (show_ℕ n) ≡ n
digits_of n = ap (digits_value 10 0) (sym (append-nil (show_ℕ n))) ∙ digits_value-show_ℕ n [] tt

unsigned_first : (c : ℕ) → IsDigit c → (c == b'-') ≡ false
unsigned_first c h = ground arith

integer_of-show_ℤ : (z : ℤ) → integer_of (show_ℤ z) ≡ some z
unfolding show_ℤ integer_of
integer_of-show_ℤ (pos n) =
    let (c, s, e, digit) = show_ℕ_head n in
    rw (e, unsigned_first c digit)
      (ap (λ t. some (pos t)) (ap (digits_value 10 0) (sym e) ∙ digits_of n))
integer_of-show_ℤ (negsuc n) = rw (digits_of (suc n)) refl

no_other :
    (c : ℕ) (s : List ℕ)
    → is_numeral c ≡ true
    → ((c == b'"') ≡ false)
      × (str_starts (c ∷ s) (codes "true") ≡ false)
      × (str_starts (c ∷ s) (codes "false") ≡ false)
unfolding is_numeral is_digit str_starts
no_other c s h = (ground arith, ground arith, ground arith)

read_value-text :
    (s rest : List ℕ) → read_value (b'"' ∷ (escape_all s ++ b'"' ∷ rest)) ≡ some (text s, rest)
unfolding read_value
read_value-text s rest = rw (read_literal-escape_all s rest) refl

read_value-numeral :
    (c : ℕ) (s : List ℕ)
    → is_numeral c ≡ true
    → (do z ← integer_of (numeral (c ∷ s)).0; some (number z, (numeral (c ∷ s)).1))
      ≡ read_value (c ∷ s)
unfolding read_value
read_value-numeral c s h =
    let (quote, yes_sign, no_sign) = no_other c s h in rw (quote, yes_sign, no_sign) refl

read_value-number :
    (z : ℤ) (rest : List ℕ)
    → EndsNumeral rest
    → read_value (show_ℤ z ++ rest) ≡ some (number z, rest)
read_value-number z rest h =
    let (c, s, e, begins, all) = show_ℤ_shape z in
    ap (λ t. read_value (t ++ rest)) e
    ∙ sym (read_value-numeral c (s ++ rest) begins)
    ∙ ap (λ (u : List ℕ × List ℕ). do w ← integer_of u.0; some (number w, u.1))
        (numeral-append (c ∷ s) rest (subst (All (λ d. is_numeral d ≡ true)) e all) h)
    ∙ ap (λ t. integer_of t >>= (λ w. some (number w, rest))) (sym e)
    ∙ ap (λ o. o >>= (λ w. some (number w, rest))) (integer_of-show_ℤ z)

read_value-value_text :
    (value : Json) (rest : List ℕ)
    → EndsNumeral rest
    → read_value (value_text value rest) ≡ some (value, rest)
unfolding value_text
read_value-value_text (text s) rest h = read_value-text s rest
read_value-value_text (truth true) rest h = unfold read_value str_starts in refl
read_value-value_text (truth false) rest h = unfold read_value str_starts in refl
read_value-value_text (number z) rest h = read_value-number z rest h

read_member-member_text :
    (member : List ℕ × Json) (rest : List ℕ)
    → EndsNumeral rest
    → read_member (member_text member rest) ≡ some (member, rest)
unfolding read_member member_text expect
read_member-member_text (key, value) rest h =
    rw
      (
        read_literal-escape_all key (b':' ∷ value_text value rest),
        read_value-value_text value rest h,
      )
      refl

read_members-members_text :
    (fuel : ℕ) (member : List ℕ × Json) (members : Members)
    → length members < fuel
    → read_members fuel (members_text member members) ≡ some (member ∷ members)
unfolding read_members members_text behind
read_members-members_text zero member members h = absurd (omega arith)
read_members-members_text (suc fuel) member [] h =
    rw (read_member-member_text member (b'}' ∷ []) (unfold is_numeral is_digit in refl)) refl
read_members-members_text (suc fuel) member (next ∷ members) h =
    rw
      (
        read_member-member_text member (b',' ∷ members_text next members)
            (unfold is_numeral is_digit in refl),
        read_members-members_text fuel next members (omega arith),
      )
      refl

abbrev value_size : Json → ℕ
value_size (number z) = length (show_ℤ z)
value_size (text s) = length (escape_all s) + 2
value_size (truth true) = 4
value_size (truth false) = 5

-- The bytes of the members, a comma or a brace behind each of them.
abbrev pub members_size : List ℕ × Json → Members → ℕ
members_size (key, value) [] = length (escape_all key) + 4 + value_size value
members_size (key, value) (next ∷ members) =
    length (escape_all key) + 4 + value_size value + members_size next members

length-value_text :
    (value : Json) (rest : List ℕ) → length (value_text value rest) ≡ value_size value + length rest
unfolding value_text
length-value_text (number z) rest = length-append (show_ℤ z) rest
length-value_text (text s) rest = omega (arith, length-append (escape_all s) (b'"' ∷ rest))
length-value_text (truth true) rest = omega arith
length-value_text (truth false) rest = omega arith

length-member_text :
    (key rest : List ℕ) (value : Json)
    → length (member_text (key, value) rest)
      ≡ length (escape_all key) + 3 + value_size value + length rest
unfolding member_text
length-member_text key rest value = omega (
  arith,
  length-append (escape_all key) (b'"' ∷ b':' ∷ value_text value rest),
  length-value_text value rest,
)

length-members_text :
    (member : List ℕ × Json) (members : Members)
    → length (members_text member members) ≡ members_size member members
unfolding members_text
length-members_text (key, value) [] = omega (arith, length-member_text key (b'}' ∷ []) value)
length-members_text (key, value) (next ∷ members) = omega (
  arith,
  length-member_text key (b',' ∷ members_text next members) value,
  length-members_text next members,
)

pub length-object_text :
    (member : List ℕ × Json) (members : Members)
    → length (object_text member members) ≡ suc (members_size member members)
unfolding object_text
length-object_text member members = ap suc (length-members_text member members)

members_size-gt :
    (member : List ℕ × Json) (members : Members) → length members < members_size member members
members_size-gt member [] = omega arith
members_size-gt member (next ∷ members) = omega (arith, members_size-gt next members)

-- The text of an object that has members is read back as those members.
pub read_object-object_text :
    (member : List ℕ × Json) (members : Members)
    → read_object (object_text member members) ≡ some (member ∷ members)
unfolding read_object object_text expect
read_object-object_text member members =
    read_members-members_text (length (members_text member members)) member members
      (omega (arith, length-members_text member members, members_size-gt member members))
