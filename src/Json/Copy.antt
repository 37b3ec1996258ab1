-- ===== src/Json/Copy.antt =====
-- The text of a string token: `utf8_encode` and `json_copy_str` of src/http/json.c.
use Prim.Native.Nat.{bit_or}
use gargantua.Common.{
  ℕ, zero, suc, ◌+◌, ◌-◌, ◌*◌, ◌/◌, ◌%◌, ◌^◌, Bool, true, false, not, ◌&&◌, ◌||◌, Option, none,
  some, [], ◌∷◌, ◌++◌, Bytes, length, take, drop, leb, ◌==◌, if◌then◌else◌, ◌>>=◌, ◌>>◌, guard,
}
use gargantua.Json.{JsonType, str, JsonToken, read_hex4, is_high_surrogate}

-- The bytes written for the code point, none where `cap` is too small.
unfoldable pub utf8_encode : ℕ → ℕ → Bytes
utf8_encode cp cap =
    if leb cp 0x7F && leb 1 cap
    then cp ∷ []
    else if leb cp 0x7FF && leb 2 cap
    then bit_or 0xC0 (cp / 64) ∷ bit_or 0x80 (cp % 64) ∷ []
    else if leb cp 0xFFFF && leb 3 cap
    then bit_or 0xE0 (cp / 4096) ∷ bit_or 0x80 (cp / 64 % 64) ∷ bit_or 0x80 (cp % 64) ∷ []
    else if leb cp 0x10FFFF && leb 4 cap
    then bit_or 0xF0 (cp / 262144)
      ∷ bit_or 0x80 (cp / 4096 % 64)
      ∷ bit_or 0x80 (cp / 64 % 64)
      ∷ bit_or 0x80 (cp % 64)
      ∷ []
    else []

-- `unsigned` arithmetic.
abbrev pub unsigned : ℕ → ℕ
unsigned n = n % 2 ^ 32

-- Another `\u` and four bytes.
unfoldable pub pair_follows : Bytes → Bool
pair_follows (a ∷ b ∷ c ∷ d ∷ e ∷ f ∷ t) = a == b'\\' && b == b'u'
pair_follows _ = false

-- The code point of an escape, with how many bytes behind the `u` it takes; `s` is what follows the
-- `u`.
unfoldable pub escaped_point : Bytes → Option (ℕ × ℕ)
escaped_point s = do
  first ← read_hex4 s
  let r = drop 4 s
  if is_high_surrogate first && pair_follows r
      then (do
        second ← read_hex4 (drop 2 r)
        some (unsigned (0x10000 + (first - 0xD800) * 1024 + (2 ^ 32 + second - 0xDC00)), 10))
      else some (first, 4)

-- The byte of a short escape.
unfoldable pub short_escape : ℕ → Option ℕ
short_escape c =
    if c == b'b'
    then some 8
    else if c == b'f'
    then some 12
    else if c == b'n'
    then some 10
    else if c == b'r'
    then some 13
    else if c == b't'
    then some 9
    else if c == b'"' || c == b'\\' || c == b'/'
    then some c
    else none

-- The bytes of the escape in front of `s`, where `room` are free, and what is left; `none` ends the
-- loop.
unfoldable pub escaped_bytes : ℕ → Bytes → Option (Bytes × Bytes)
escaped_bytes room [] = none
escaped_bytes room (c ∷ s) = elim (short_escape c) [
  | some b ↦ some (b ∷ [], s)
  | none ↦ do guard (c == b'u'); (cp, n) ← escaped_point s; some (utf8_encode cp room, drop n s)
]

-- `room` is `outsz - o - 1`, and `is_str` whether the token is a string.
unfoldable pub copy_loop : ℕ → Bool → ℕ → Bytes → Bytes
copy_loop zero is_str room s = []
copy_loop (suc rounds) is_str room [] = []
copy_loop (suc rounds) is_str room (c ∷ s) =
    let plain = c ∷ copy_loop rounds is_str (room - 1) s in
    let escaped : Bytes = elim (escaped_bytes room s) [
      | none ↦ []
      | some (bytes, rest) ↦ bytes ++ copy_loop rounds is_str (room - length bytes) rest
    ] in
    if room == 0 then [] else if not (is_str && c == b'\\') then plain else escaped

abbrev pub is_string : JsonType → Bool
is_string str = true
is_string _ = false

-- The text written in front of the NUL. A token that is not closed, or ends before its start, has
-- the empty text.
unfoldable pub json_copy_str : Bytes → JsonToken → ℕ → Bytes
json_copy_str js t zero = []
json_copy_str js t (suc room) = elim t.end [
  | none ↦ []
  | some end ↦
      copy_loop (end - t.start) (is_string t.type) room (take (end - t.start) (drop t.start js))
]

-- What C reads of an array: up to the first NUL.
unfoldable pub c_string : Bytes → Bytes
c_string [] = []
c_string (c ∷ s) = if c == 0 then [] else c ∷ c_string s

-- The text of a token copied into an array of `outsz` bytes, as a C string.
unfoldable pub copied_string : Bytes → JsonToken → ℕ → Bytes
copied_string js t outsz = c_string (json_copy_str js t outsz)
