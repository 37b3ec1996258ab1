-- ===== src/Http.antt =====
-- The HTTP/1 request parser of src/http/http.c, with the types of include/http.h.
-- A cursor `const char **p` below `end` is the list of the bytes not yet read; a header's
-- pointer-and-length pairs are the bytes they span. A function that returns -1 returns `none`.
pub mod Parse
pub mod Reads
pub mod Lines
pub mod Accept
pub mod RoundTrip
pub mod Render
pub mod Numbers
pub mod RequestLine
pub mod Inversion
pub mod HeadEnd
pub mod Framing
mod Tests
use mathlib.Core.List.{reverse}
use gargantua.Common.{
  ℕ, ◌+◌, ◌-◌, ◌*◌, ◌/◌, ◌^◌, Bool, false, not, ◌&&◌, ◌||◌, Option, none, some, List, [], ◌∷◌,
  Bytes, codes, within, contains, strcase_eq, ltb, leb, ◌==◌, if◌then◌else◌, length, ◌>>=◌, ◌>>◌,
  guard,
}

abbrev pub max_headers : ℕ
max_headers = 64

abbrev pub max_method : ℕ
max_method = 16

abbrev pub max_path : ℕ
max_path = 512

abbrev pub max_header_bytes : ℕ
max_header_bytes = 32 * 1024

abbrev pub long_max : ℕ
long_max = 2 ^ 63 - 1

abbrev pub size_max : ℕ
size_max = 2 ^ 64 - 1

pub record HttpHeader : Type 0 where
  pub name : Bytes
  pub value : Bytes

-- `content_length` is -1 (here `none`) until a Content-Length header is read. `body` is the text
-- from the body's first byte to the end of the buffer; the body itself is its first `body_len`.
pub record HttpRequest : Type 0 where
  pub method : Bytes
  pub path : Bytes
  pub minor_version : ℕ
  pub headers : List HttpHeader
  pub body : Bytes
  pub body_len : ℕ
  pub content_length : Option ℕ
  pub header_len : ℕ
  pub message_len : ℕ

-- `memset(req, 0, …)` and `content_length = -1`.
abbrev pub empty_request : HttpRequest
empty_request = record {
  method = [];
  path = [];
  minor_version = 0;
  headers = [];
  body = [];
  body_len = 0;
  content_length = none;
  header_len = 0;
  message_len = 0;
}

-- The request is what `*req` holds afterwards; the callers never read it after an error.
pub data HttpParseResult : Type 0 where
  parsed : HttpRequest → HttpParseResult
  need_more : HttpRequest → HttpParseResult
  error : HttpParseResult

abbrev pub token_symbols : Bytes
token_symbols = codes "!#$%&'*+-.^_`|~"

-- `strchr` also finds the NUL that ends the set.
pub is_token_char : ℕ → Bool
unfolding contains
is_token_char c =
    (within b'0' b'9' c || within b'A' b'Z' c || within b'a' b'z' c)
    || (contains token_symbols c || c == 0)

pub expect_crlf : Bytes → Option Bytes
expect_crlf [] = none
expect_crlf (a ∷ []) = none
expect_crlf (a ∷ b ∷ p) = if a == b'\r' && b == b'\n' then some p else none

-- The loop of `read_token`, after `n` bytes: what is written from there on, and the rest.
pub token_loop : ℕ → ℕ → Bytes → Option (Bytes × Bytes)
token_loop cap n [] = some ([], [])
token_loop cap n (c ∷ p) =
    let more =
      (if leb cap (n + 1)
        then none
        else do (out, rest) ← token_loop cap (n + 1) p; some (c ∷ out, rest)) in
    if is_token_char c then more else some ([], c ∷ p)

pub read_token : ℕ → Bytes → Option (Bytes × Bytes)
read_token cap p = do
  (out, rest) ← token_loop cap 0 p
  guard (not (length out == 0))
  some (out, rest)

abbrev pub is_path_byte : ℕ → Bool
is_path_byte c = not (leb c 0x20 || c == 0x7f || c == b'#')

-- The loop over the path, after `n` bytes.
pub path_loop : ℕ → Bytes → Option (Bytes × Bytes)
path_loop n [] = some ([], [])
path_loop n (c ∷ p) =
    let more =
      (if not (is_path_byte c)
        then none
        else if leb max_path (n + 1)
        then none
        else do (path, rest) ← path_loop (n + 1) p; some (c ∷ path, rest)) in
    if c == b' ' then some ([], c ∷ p) else more

pub is_path_start : Bytes → Bool
is_path_start [] = false
is_path_start (c ∷ []) = c == b'/' || c == b'*'
is_path_start (c ∷ _) = c == b'/'

-- One byte that has to be there.
pub expect_byte : ℕ → Bytes → Option Bytes
expect_byte b [] = none
expect_byte b (c ∷ p) = if c == b then some p else none

pub expect_bytes : Bytes → Bytes → Option Bytes
unfolding expect_byte
expect_bytes [] p = some p
expect_bytes (b ∷ bs) p = do q ← expect_byte b p; expect_bytes bs q

-- `0` or `1`, behind "HTTP/1."
pub read_version : Bytes → Option (ℕ × Bytes)
read_version [] = none
read_version (c ∷ p) = if c == b'0' || c == b'1' then some (c - b'0', p) else none

pub parse_request_line : HttpRequest → Bytes → Option (HttpRequest × Bytes)
unfolding expect_byte expect_bytes expect_crlf read_version is_path_start
parse_request_line req p = do
  (method, p1) ← read_token max_method p
  p2 ← expect_byte b' ' p1
  (path, p3) ← path_loop 0 p2
  p4 ← expect_byte b' ' p3
  guard (is_path_start path)
  p5 ← expect_bytes (codes "HTTP/1.") p4
  (minor, p6) ← read_version p5
  p7 ← expect_crlf p6
  some (record req { method = method; path = path; minor_version = minor }, p7)

abbrev pub is_digit : ℕ → Bool
is_digit c = within b'0' b'9' c

-- The loop of `parse_content_length`, from the value of the digits read so far.
pub content_length_loop : ℕ → Bytes → Option ℕ
content_length_loop num [] = some num
content_length_loop num (c ∷ cs) =
    let digit = c - b'0' in
    let rest = content_length_loop (num * 10 + digit) cs in
    if not (is_digit c) then none else if ltb ((long_max - digit) / 10) num then none else rest

pub parse_content_length : Bytes → Option ℕ
unfolding content_length_loop
parse_content_length [] = none
parse_content_length (c ∷ cs) = content_length_loop 0 (c ∷ cs)

abbrev pub header_name_is : HttpHeader → Bytes → Bool
header_name_is h name = strcase_eq h.name name

abbrev pub is_blank : ℕ → Bool
is_blank c = c == b' ' || c == b'\t'

unfoldable pub skip_blanks : Bytes → Bytes
skip_blanks [] = []
skip_blanks (c ∷ p) = if is_blank c then skip_blanks p else c ∷ p

-- The loop of `parse_header_name` up to the colon or the end.
pub name_loop : Bytes → Option (Bytes × Bytes)
name_loop [] = some ([], [])
name_loop (c ∷ p) =
    let more = (do (name, rest) ← name_loop p; some (c ∷ name, rest)) in
    if c == b':' then some ([], c ∷ p) else if is_token_char c then more else none

pub parse_header_name : Bytes → Option (Bytes × Bytes)
unfolding expect_byte
parse_header_name p = do
  (name, rest) ← name_loop p
  guard (not (length name == 0))
  q ← expect_byte b':' rest
  some (name, skip_blanks q)

abbrev pub is_value_byte : ℕ → Bool
is_value_byte c = not ((ltb c 0x20 && not (c == b'\t')) || c == 0x7f)

-- The loop of `parse_header_value` up to the line's end.
pub value_loop : Bytes → Option (Bytes × Bytes)
value_loop [] = some ([], [])
value_loop (c ∷ p) =
    let more = (do (value, rest) ← value_loop p; some (c ∷ value, rest)) in
    if c == b'\r' || c == b'\n' then some ([], c ∷ p) else if is_value_byte c then more else none

-- `value_len` goes back over the blanks at the end.
unfoldable pub trim_end : Bytes → Bytes
unfolding skip_blanks
trim_end v = reverse (skip_blanks (reverse v))

pub parse_header_value : Bytes → Option (Bytes × Bytes)
unfolding trim_end
parse_header_value p = do (value, rest) ← value_loop p; some (trim_end value, rest)
