-- ===== src/Libc.antt =====
-- What the daemon uses of the C library on strings and numbers. A C string is the list of its bytes
-- before the NUL; `long`, `long long` and `size_t` have 64 bits, `int`, `pid_t` and `uid_t` 32.
pub mod Numbers
pub mod Width
pub mod Strings
pub mod Words
pub mod Longs
use hsed.Base.{
  ℕ, zero, suc, ◌+◌, ◌-◌, ◌*◌, ◌%◌, ◌^◌, ℤ, pos, negsuc, ◌+ℤ◌, Bool, true, false, ◌&&◌, ◌||◌, List,
  [], ◌∷◌, map, Option, none, some, ltb, leb, ◌==◌, if◌then◌else◌,
}

-- `strcmp(s, t) == 0`.
unfoldable pub str_eq : List ℕ → List ℕ → Bool
str_eq [] [] = true
str_eq [] (d ∷ t) = false
str_eq (c ∷ s) [] = false
str_eq (c ∷ s) (d ∷ t) = c == d && str_eq s t

-- `strncmp(s, prefix, strlen(prefix)) == 0`.
unfoldable pub str_starts : List ℕ → List ℕ → Bool
str_starts s [] = true
str_starts [] (d ∷ t) = false
str_starts (c ∷ s) (d ∷ t) = c == d && str_starts s t

unfoldable pub is_digit : ℕ → Bool
is_digit c = leb b'0' c && leb c b'9'

unfoldable pub is_space : ℕ → Bool
is_space c = c == b' ' || leb 9 c && leb c 13

unfoldable pub skip_spaces : List ℕ → List ℕ
unfolding is_space
skip_spaces [] = []
skip_spaces (c ∷ s) = let rest = skip_spaces s in if is_space c then rest else c ∷ s

-- The value of the digits at the front, up to the first byte that is no digit of the base.
unfoldable pub digits_value : ℕ → ℕ → List ℕ → ℕ
unfolding is_digit
digits_value base acc [] = acc
digits_value base acc (c ∷ s) =
    let rest = digits_value base (acc * base + (c - 48)) s in
    if is_digit c && ltb (c - 48) base then rest else acc

-- A sign and a magnitude.
unfoldable pub signed_digits : ℕ → List ℕ → Bool × ℕ
unfolding digits_value
signed_digits base [] = (false, 0)
signed_digits base (c ∷ s) =
    if c == b'-'
    then (true, digits_value base 0 s)
    else if c == b'+'
    then (false, digits_value base 0 s)
    else (false, digits_value base 0 (c ∷ s))

abbrev pub long_max : ℕ
long_max = 2 ^ 63 - 1

saturate : Bool × ℕ → ℤ
saturate (false, n) = pos (if leb n long_max then n else long_max)
saturate (true, zero) = pos 0
saturate (true, suc n) = negsuc (if leb n long_max then n else long_max)

-- `strtol`, `strtoll` and, in base 10, `atol` and `atoll`.
unfoldable pub strtol : ℕ → List ℕ → ℤ
unfolding skip_spaces signed_digits saturate
strtol base s = saturate (signed_digits base (skip_spaces s))

-- An integer as the bits of a word.
unfoldable pub residue : ℕ → ℤ → ℕ
residue m (pos n) = n % m
residue m (negsuc n) = m - 1 - n % m

-- The cast to `int` or `pid_t`.
unfoldable pub to_i32 : ℤ → ℤ
unfolding residue
to_i32 a =
    if ltb (residue (2 ^ 32) a) (2 ^ 31)
    then pos (residue (2 ^ 32) a)
    else negsuc (2 ^ 32 - 1 - residue (2 ^ 32) a)

-- The bits of a word as a `long long`.
unfoldable pub to_i64 : ℤ → ℤ
unfolding residue
to_i64 a =
    if ltb (residue (2 ^ 64) a) (2 ^ 63)
    then pos (residue (2 ^ 64) a)
    else negsuc (2 ^ 64 - 1 - residue (2 ^ 64) a)

-- `a + b` of the type `long long`: it wraps around, as the machine's addition does.
unfoldable pub add_long : ℤ → ℤ → ℤ
unfolding to_i64 ◌+ℤ◌
add_long a b = to_i64 (a +ℤ b)

unsigned : Bool × ℕ → ℕ
unsigned (negative, n) =
    if leb (2 ^ 64) n then 2 ^ 64 - 1 else if negative then (2 ^ 64 - n) % 2 ^ 64 else n

-- `strtoul(s, NULL, 10)`, and its cast to `uid_t`.
unfoldable pub strtoul : List ℕ → ℕ
unfolding skip_spaces signed_digits unsigned
strtoul s = unsigned (signed_digits 10 (skip_spaces s))

unfoldable pub strtoul_uid : List ℕ → ℕ
strtoul_uid s = strtoul s % 2 ^ 32

-- `fgets` with room for `room` bytes and the NUL: the line it reads, and what is left of the file.
unfoldable pub fgets : ℕ → List ℕ → List ℕ × List ℕ
fgets zero s = ([], s)
fgets (suc room) [] = ([], [])
fgets (suc room) (c ∷ s) =
    let rest = fgets room s in if c == 10 then (c ∷ [], s) else (c ∷ rest.0, rest.1)

-- The bytes " \t\r\n" that separate words.
unfoldable pub is_delim : ℕ → Bool
is_delim c = c == b' ' || c == 9 || c == 13 || c == 10

unfoldable pub skip_delims : List ℕ → List ℕ
unfolding is_delim
skip_delims [] = []
skip_delims (c ∷ s) = let rest = skip_delims s in if is_delim c then rest else c ∷ s

-- The word at the front, and what comes behind the byte that ends it.
unfoldable pub split_word : List ℕ → List ℕ × List ℕ
unfolding is_delim
split_word [] = ([], [])
split_word (c ∷ s) = let rest = split_word s in if is_delim c then ([], s) else (c ∷ rest.0, rest.1)

word_of : List ℕ → Option (List ℕ) × List ℕ
word_of [] = (none, [])
word_of (c ∷ s) = (some (split_word (c ∷ s)).0, (split_word (c ∷ s)).1)

-- `strtok_r(_, " \t\r\n", &save)`: the next word, if there is one, and the new `save`.
unfoldable pub strtok : List ℕ → Option (List ℕ) × List ℕ
unfolding skip_delims split_word word_of
strtok s = word_of (skip_delims s)

unfoldable pub to_lower : ℕ → ℕ
to_lower c = if leb b'A' c && leb c b'Z' then c + 32 else c

-- `strcasecmp(s, t) == 0`.
unfoldable pub same_word : List ℕ → List ℕ → Bool
unfolding str_eq to_lower
same_word s t = str_eq (map to_lower s) (map to_lower t)

-- `memmem(s, …, t, …) != NULL`.
unfoldable pub contains : List ℕ → List ℕ → Bool
unfolding str_starts
contains [] t = str_starts [] t
contains (c ∷ s) t = str_starts (c ∷ s) t || contains s t
