-- ===== src/Protocol/Escape.antt =====
-- What `hsed_json_escape` leaves in its buffer.
use mathlib.Core.List.{append_assoc, append-nil}
use mathlib.Core.List.{Sublistᴰ}
use native.Mathlib.Omega.{arith}
use hsed.Base.{
  ℕ, ◌+◌, ◌*◌, ◌<◌, ◌≤◌, ◌≡◌, refl, ap, subst, ◌∙◌, ◌⊎◌, inl, inr, Option, some, List, [], ◌∷◌,
  ◌++◌, length, length-append, ltb, Bool-cases, All, lt→ltb, ltb→lt,
}
use hsed.Protocol.{store, print_control, escape_pair, escape_loop, escape_byte, json_escape, text}
use hsed.Protocol.Reading.{
  escape_of, escape_all, length-escape_of, read_string, read_string-escape_all,
}

store_in :
    (dstsize c : ℕ) (out : List ℕ)
    → length out < dstsize
    → store dstsize out c ≡ some (out ++ c ∷ [])
unfolding store
store_in dstsize c out h = ground arith

pair_in :
    (dstsize c : ℕ) (out : List ℕ)
    → length out + 2 < dstsize
    → escape_pair dstsize out c ≡ some (out ++ 92 ∷ c ∷ [])
pair_in dstsize c out h =
    unfold escape_pair in
    rw (lt→ltb (length out + 2) dstsize h, store_in dstsize 92 out (omega arith))
      (store_in dstsize c (out ++ 92 ∷ []) (omega (arith, length-append out (92 ∷ [])))
        ∙ ap some (append_assoc out (92 ∷ []) (c ∷ [])))

-- With the room that the loop asks for, a byte is escaped whole, or left out for want of six cells.
byte_outcome :
    (dstsize c : ℕ) (out : List ℕ)
    → length out + 2 < dstsize
    → ((escape_byte dstsize out c ≡ some (out ++ escape_of c))
        × (length out + length (escape_of c) < dstsize))
      ⊎ ((escape_byte dstsize out c ≡ some out)
          × (dstsize ≤ length out + 6)
          × (length (escape_of c) ≡ 6))
unfolding escape_byte print_control escape_of
byte_outcome dstsize c out room = ground (
  arith,
  store_in dstsize c out,
  pair_in dstsize b'"' out,
  pair_in dstsize 92 out,
  pair_in dstsize b'n' out,
  pair_in dstsize b'r' out,
  pair_in dstsize b't' out,
)

-- What the loop has stored when it ends: the escapes of some bytes of the source, in order.
abbrev Stores : ℕ → List ℕ → List ℕ → Option (List ℕ) → Type 0
Stores dstsize src out r =
    (kept : List ℕ) × Sublistᴰ kept src
    × (r ≡ some (out ++ escape_all kept))
    × (length (out ++ escape_all kept) < dstsize)

none_kept : (src : List ℕ) → Sublistᴰ [] src
none_kept [] = Sublistᴰ.slnil
none_kept (c ∷ src) = Sublistᴰ.cons (none_kept src)

stop : (dstsize : ℕ) (src out : List ℕ) → length out < dstsize → Stores dstsize src out (some out)
stop dstsize src out h =
    ([], none_kept src, unfold escape_all in rw append-nil, unfold escape_all in rw append-nil h)

escapes-cons :
    (out : List ℕ) (c : ℕ) (kept : List ℕ)
    → (out ++ escape_of c) ++ escape_all kept ≡ out ++ escape_all (c ∷ kept)
escapes-cons out c kept = unfold escape_all in append_assoc out (escape_of c) (escape_all kept)

escape_loop-Stores :
    (dstsize : ℕ) (src out : List ℕ)
    → length out < dstsize
    → Stores dstsize src out (escape_loop dstsize src out)
unfolding escape_loop
escape_loop-Stores dstsize [] out h = stop dstsize [] out h
escape_loop-Stores dstsize (c ∷ src) out h = elim (Bool-cases (ltb (length out + 2) dstsize)) [
  | inr full ↦ rw full (stop dstsize (c ∷ src) out h)
  | inl room ↦ elim (byte_outcome dstsize c out (ltb→lt (length out + 2) dstsize room)) [
    | inl (e, fits) ↦
        let (kept, sub, r, lt) =
          escape_loop-Stores dstsize src (out ++ escape_of c)
            (omega (arith, length-append out (escape_of c))) in
        let regroup = escapes-cons out c kept in
        rw (room, e)
          (
            c ∷ kept,
            Sublistᴰ.cons-cons refl sub,
            r ∙ ap some regroup,
            subst (λ t. length t < dstsize) regroup lt,
          )
    | inr (e, _, _) ↦
        let (kept, sub, r, lt) = escape_loop-Stores dstsize src out h in
        rw (room, e) (kept, Sublistᴰ.cons sub, r, lt)
  ]
]

pub json_escape_kept :
    (dstsize : ℕ) (src : List ℕ)
    → 0 < dstsize
    → (kept : List ℕ) × Sublistᴰ kept src
      × (json_escape dstsize src ≡ text (escape_all kept))
      × (length (escape_all kept) < dstsize)
unfolding json_escape
json_escape_kept dstsize src h =
    let (kept, sub, r, lt) = escape_loop-Stores dstsize src [] h in
    (kept, sub, ground (arith, r, lt→ltb (length (escape_all kept)) dstsize lt), lt)

-- Whatever the source, a buffer that is not empty gets a string that ends inside it, stores stay in
-- the buffer, and a JSON reader reads that string as some of the source's bytes, in their order.
pub json_escape_reads :
    (dstsize : ℕ) (src : List ℕ)
    → 0 < dstsize
    → (s kept : List ℕ) × (json_escape dstsize src ≡ text s)
      × (length s < dstsize)
      × (read_string s ≡ some kept)
      × Sublistᴰ kept src
json_escape_reads dstsize src h =
    let (kept, sub, e, lt) = json_escape_kept dstsize src h in
    (escape_all kept, kept, e, lt, read_string-escape_all kept, sub)

length-escape_all-cons :
    (c : ℕ) (src : List ℕ)
    → length (escape_all (c ∷ src)) ≡ length (escape_of c) + length (escape_all src)
length-escape_all-cons c src = unfold escape_all in length-append (escape_of c) (escape_all src)

-- The loop loses nothing where the escapes fit with a byte to spare.
escape_loop_whole :
    (dstsize : ℕ) (src out : List ℕ)
    → length out + length (escape_all src) + 1 < dstsize
    → escape_loop dstsize src out ≡ some (out ++ escape_all src)
unfolding escape_loop
escape_loop_whole dstsize [] out h = unfold escape_all in rw append-nil
escape_loop_whole dstsize (c ∷ src) out h =
    let sum = length-escape_all-cons c src in
    let least = length-escape_of c in
    let room : length out + 2 < dstsize = omega arith in
    rw (lt→ltb (length out + 2) dstsize room) (elim (byte_outcome dstsize c out room) [
      | inl (e, _) ↦ rw e (
          escape_loop_whole dstsize src (out ++ escape_of c)
            (omega (arith, length-append out (escape_of c)))
          ∙ ap some (escapes-cons out c src))
      | inr (_, tight, six) ↦ absurd (omega arith)
    ])

-- Bytes that have an escape of at most two bytes: all but the control bytes without a name.
abbrev pub IsShort : ℕ → Type 0
IsShort c = (32 ≤ c) ⊎ (c ≡ 9) ⊎ (c ≡ 10) ⊎ (c ≡ 13)

length-escape_of_short : (c : ℕ) → IsShort c → length (escape_of c) ≤ 2
unfolding escape_of
length-escape_of_short c h = ground arith

pub length-escape_all-le :
    (src : List ℕ) → All IsShort src → length (escape_all src) ≤ 2 * length src
length-escape_all-le [] h = unfold escape_all in omega arith
length-escape_all-le (c ∷ src) h = omega (
  arith,
  length-escape_all-cons c src,
  length-escape_of_short c h.0,
  length-escape_all-le src h.1,
)

pub json_escape-escapes :
    (n : ℕ) (src : List ℕ)
    → length src < n
    → All IsShort src
    → json_escape (n * 2) src ≡ text (escape_all src)
unfolding json_escape
json_escape-escapes n src h short =
    let le = length-escape_all-le src short in
    let r = escape_loop_whole (n * 2) src [] (omega arith) in
    ground (arith, r, lt→ltb (length (escape_all src)) (n * 2) (omega arith))

-- A string that fits a field of `n` bytes, and holds no control bytes but tab, newline and return,
-- is carried in full by a buffer of `2 * n` bytes, as the entry's buffers are: a JSON reader reads
-- back the source itself.
pub json_escape_whole :
    (n : ℕ) (src : List ℕ)
    → length src < n
    → All IsShort src
    → (s : List ℕ) × (json_escape (n * 2) src ≡ text s) × (read_string s ≡ some src)
json_escape_whole n src h short =
    (escape_all src, json_escape-escapes n src h short, read_string-escape_all src)
