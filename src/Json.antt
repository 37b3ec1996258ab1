-- ===== src/Json.antt =====
-- JSON text: src/http/json.c with include/json.h. `Json` has the tokens and the scanning of strings,
-- numbers and literals; `Json.Parse` the parser with its stack; `Json.Copy` the reading of a
-- string's text. `js` is the document, and `js + i` the bytes from `i` on. -1 in a token's `end` or
-- `parent` is `none`.
pub mod Parse
pub mod Lengths
pub mod Copy
pub mod Grammar
pub mod Lexical
pub mod Numbers
use gargantua.Common.{
  ℕ, zero, suc, ◌+◌, ◌-◌, ◌*◌, Bool, true, false, not, ◌&&◌, ◌||◌, Option, none, some, List, [],
  ◌∷◌, ◌++◌, Bytes, codes, within, contains, str_eq, length, take, drop, all, ltb, leb, ◌==◌,
  if◌then◌else◌, ◌>>=◌, ◌>>◌, guard,
}

abbrev pub max_depth : ℕ
max_depth = 128

abbrev pub max_object_keys : ℕ
max_object_keys = 256

abbrev pub max_key_bytes : ℕ
max_key_bytes = 128

pub data JsonType : Type 0 where
  undef obj arr str prim : JsonType

pub record JsonToken : Type 0 where
  pub type : JsonType
  pub start : ℕ
  pub end : Option ℕ
  pub parent : Option ℕ

pub is_space : ℕ → Bool
is_space c = c == b' ' || c == b'\t' || c == b'\r' || c == b'\n'

unfoldable pub hex_digit : ℕ → Option ℕ
hex_digit c =
    if within b'0' b'9' c
    then some (c - b'0')
    else if within b'a' b'f' c
    then some (c - b'a' + 10)
    else if within b'A' b'F' c
    then some (c - b'A' + 10)
    else none

-- The number that the first four bytes give.
unfoldable pub read_hex4 : Bytes → Option ℕ
read_hex4 (a ∷ b ∷ c ∷ d ∷ s) = do
  w ← hex_digit a
  x ← hex_digit b
  y ← hex_digit c
  z ← hex_digit d
  some (((w * 16 + x) * 16 + y) * 16 + z)
read_hex4 _ = none

abbrev pub is_continuation : ℕ → Bool
is_continuation c = within 0x80 0xBF c

-- The bytes behind `a` that one character takes, their number and the range of the first given.
unfoldable pub utf8_tail : ℕ → ℕ → ℕ → Bytes → Option ℕ
utf8_tail n min max [] = none
utf8_tail n min max (b ∷ s) =
    guard (leb n (length (b ∷ s)))
    >> guard (within min max b && all is_continuation (take (n - 1) s))
    >> some n

-- How many bytes behind `a` belong to its character.
unfoldable pub utf8_advance : ℕ → Bytes → Option ℕ
utf8_advance a s =
    if within 0xC2 0xDF a
    then utf8_tail 1 0x80 0xBF s
    else if within 0xE0 0xEF a
    then utf8_tail 2 (if a == 0xE0 then 0xA0 else 0x80) (if a == 0xED then 0x9F else 0xBF) s
    else if within 0xF0 0xF4 a
    then utf8_tail 3 (if a == 0xF0 then 0x90 else 0x80) (if a == 0xF4 then 0x8F else 0xBF) s
    else none

abbrev pub is_high_surrogate : ℕ → Bool
is_high_surrogate n = within 0xD800 0xDBFF n

abbrev pub is_low_surrogate : ℕ → Bool
is_low_surrogate n = within 0xDC00 0xDFFF n

-- The second half of a pair.
pub surrogate_follows : Bytes → Bool
surrogate_follows (a ∷ b ∷ s) =
    a == b'\\'
    && b == b'u'
    && elim (read_hex4 s) [ none ↦ false | some second ↦ is_low_surrogate second ]
surrogate_follows _ = false

-- How many bytes behind the backslash belong to the escape.
unfoldable pub escape_length : Bytes → Option ℕ
escape_length [] = none
escape_length (c ∷ s) =
    if contains (codes "\"\\/bfnrt") c then some 1 else if not (c == b'u') then none else (do
      first ← read_hex4 s
      if is_high_surrogate first
          then guard (surrogate_follows (drop 4 s)) >> some 11
          else if is_low_surrogate first
          then none
          else some 5)

-- How many bytes behind `c` belong to its character or escape.
unfoldable pub char_length : ℕ → Bytes → Option ℕ
char_length c s =
    if c == b'\\'
    then escape_length s
    else if ltb c 0x20
    then none
    else if leb 0x80 c
    then utf8_advance c s
    else some 0

-- The offset of the closing quote. Each round takes a byte at least.
unfoldable pub string_length : ℕ → Bytes → Option ℕ
string_length zero s = none
string_length (suc rounds) [] = none
string_length (suc rounds) (c ∷ s) =
    if c == b'"'
    then some 0
    else (do n ← char_length c s; m ← string_length rounds (drop n s); some (1 + n + m))

pub is_delimiter : Bytes → Bool
is_delimiter [] = true
is_delimiter (c ∷ s) = is_space c || c == b',' || c == b']' || c == b'}'

abbrev pub is_number_digit : ℕ → Bool
is_number_digit c = within b'0' b'9' c

pub digits_length : Bytes → ℕ
digits_length [] = 0
digits_length (c ∷ s) = if is_number_digit c then 1 + digits_length s else 0

pub sign_length : Bytes → ℕ
sign_length [] = 0
sign_length (c ∷ s) = if c == b'-' then 1 else 0

pub integer_length : Bytes → Option ℕ
integer_length [] = none
integer_length (c ∷ s) =
    if c == b'0'
    then guard (digits_length s == 0) >> some 1
    else if within b'1' b'9' c
    then some (1 + digits_length s)
    else none

-- A digit at least, behind the `before` bytes.
pub some_digits : ℕ → Bytes → Option ℕ
some_digits before s = guard (not (digits_length s == 0)) >> some (before + digits_length s)

pub fraction_length : Bytes → Option ℕ
fraction_length [] = some 0
fraction_length (c ∷ s) = if c == b'.' then some_digits 1 s else some 0

pub exponent_sign : Bytes → ℕ
exponent_sign [] = 0
exponent_sign (c ∷ s) = if c == b'+' || c == b'-' then 1 else 0

pub exponent_length : Bytes → Option ℕ
exponent_length [] = some 0
exponent_length (c ∷ s) =
    if c == b'e' || c == b'E'
    then some_digits (1 + exponent_sign s) (drop (exponent_sign s) s)
    else some 0

pub scan_number : Bytes → Option ℕ
scan_number s = do
  let a = sign_length s
  b ← integer_length (drop a s)
  c ← fraction_length (drop (a + b) s)
  d ← exponent_length (drop (a + b + c) s)
  guard (is_delimiter (drop (a + b + c + d) s))
  some (a + b + c + d)

-- A literal, or else a number.
pub literal_length : Bytes → Option ℕ
literal_length s =
    if str_eq (take 4 s) (codes "true")
    then some 4
    else if str_eq (take 5 s) (codes "false")
    then some 5
    else if str_eq (take 4 s) (codes "null")
    then some 4
    else scan_number s

pub primitive_length : Bytes → Option ℕ
primitive_length s = do n ← literal_length s; guard (is_delimiter (drop n s)); some n
