-- ===== src/Paths.antt =====
-- The path of a request: `split_path` of src/server/server_http.c and `url_decode` of
-- src/runtime/runtime_error.c. A string is the list of its bytes, up to the NUL.
pub mod Decode
pub mod Safe
mod Tests
use gargantua.Common.{
  ℕ, zero, suc, ◌+◌, ◌-◌, ◌*◌, Bool, true, false, not, ◌&&◌, ◌||◌, Option, none, some, List, [],
  ◌∷◌, ◌++◌, Bytes, codes, within, contains, str_eq, length, drop, ltb, leb, ◌==◌, if◌then◌else◌,
  ◌>>=◌, ◌>>◌, guard,
}

-- `RUNTIME_MAX_TEXT`
abbrev pub max_text : ℕ
max_text = 1024 * 1024

pub hex_digit_value : ℕ → Option ℕ
hex_digit_value c =
    if within b'0' b'9' c
    then some (c - b'0')
    else if within b'a' b'f' c
    then some (c - b'a' + 10)
    else if within b'A' b'F' c
    then some (c - b'A' + 10)
    else none

-- The byte behind a `%`, if it is one that may stand in a text.
pub decoded_byte : Bytes → Option ℕ
decoded_byte (a ∷ b ∷ s) = do
  hi ← hex_digit_value a
  lo ← hex_digit_value b
  guard (not (ltb (hi * 16 + lo) 0x20 || hi * 16 + lo == 0x7f))
  some (hi * 16 + lo)
decoded_byte _ = none

-- One round at the byte `c` in front of `s`: the byte written, and how many more are read.
pub decode_round : ℕ → Bytes → Option (ℕ × ℕ)
decode_round c s = if c == b'%' then (do b ← decoded_byte s; some (b, 2)) else some (c, 0)

-- The loop with `read` bytes read. Each round reads a byte at least, so that `rounds` does not run
-- out; the code's own limit is `max_text`.
pub decode_loop : ℕ → ℕ → Bytes → Option Bytes
decode_loop zero read s = none
decode_loop (suc rounds) read [] = guard (not (read == max_text)) >> some []
decode_loop (suc rounds) read (c ∷ s) =
    if leb max_text read then guard (not (read == max_text)) >> some [] else (do
      (b, n) ← decode_round c s
      t ← decode_loop rounds (read + 1 + n) (drop n s)
      some (b ∷ t))

pub url_decode : Bytes → Option Bytes
url_decode s = decode_loop (suc (length s)) 0 s

-- The path in front of the first `?`, and the query behind it.
pub split_query : Bytes → Bytes × Option Bytes
split_query [] = ([], none)
split_query (c ∷ s) = if c == b'?' then ([], some s) else (let (p, q) = split_query s in (c ∷ p, q))

-- `%2f` and `%5c`, the letter in either case.
pub encoded_slash_here : Bytes → Bool
encoded_slash_here (c ∷ a ∷ b ∷ s) =
    c == b'%' && (a == b'2' && (b == b'f' || b == b'F') || a == b'5' && (b == b'c' || b == b'C'))
encoded_slash_here _ = false

pub has_encoded_slash : Bytes → Bool
has_encoded_slash [] = false
has_encoded_slash (c ∷ s) = encoded_slash_here (c ∷ s) || has_encoded_slash s

-- The segment up to the next slash, and what is behind the slash.
unfoldable pub next_part : Bytes → Bytes × Option Bytes
next_part [] = ([], none)
next_part (c ∷ s) =
    if c == b'/' then ([], some s) else (let (part, rest) = next_part s in (c ∷ part, rest))

pub bad_part : Bytes → Bool
bad_part part = length part == 0 || str_eq part (codes ".") || str_eq part (codes "..")

-- The loop over the segments, one in each round; `true` is the result 0.
pub parts_loop : ℕ → Bytes → Bool
parts_loop zero s = false
parts_loop (suc rounds) s =
    let (part, rest) = next_part s in
    not (bad_part part)
    && elim rest [ none ↦ true | some r ↦ not (length r == 0) && parts_loop rounds r ]

-- The checks of the decoded path.
pub path_is_clean : Bytes → Bool
path_is_clean [] = false
path_is_clean (c ∷ s) =
    not (contains (c ∷ s) b'\\') && c == b'/' && (length s == 0 || parts_loop (length s) s)

-- The decoded path and the query.
pub split_path : Bytes → Option (Bytes × Option Bytes)
split_path path = do
  let (p, query) = split_query path
  guard (not (contains p b'\\'))
  guard (not (has_encoded_slash p))
  t ← url_decode p
  guard (path_is_clean t)
  some (t, query)
