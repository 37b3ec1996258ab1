-- ===== src/Http/Parse.antt =====
-- `parse_headers`, `header_end`, `http_parse_request` and `http_find_header` of src/http/http.c.
use gargantua.Common.{
  ℕ, zero, suc, ◌+◌, ◌-◌, Bool, true, false, not, ◌&&◌, ◌||◌, Option, none, some, List, [], ◌∷◌,
  ◌++◌, Bytes, codes, ltb, leb, ◌==◌, if◌then◌else◌, length, ◌>>=◌, ◌>>◌, guard,
}
use gargantua.Http.{
  HttpHeader, HttpRequest, HttpParseResult, parsed, need_more, error, empty_request, max_headers,
  max_header_bytes, size_max, header_name_is, is_blank, parse_content_length, parse_header_name,
  parse_header_value, parse_request_line, expect_crlf,
}

pub record HeaderCounts : Type 0 where
  pub host : ℕ
  pub content_length : ℕ
  pub transfer_encoding : ℕ
  pub authorization : ℕ
  pub content_type : ℕ
  pub expect : ℕ

abbrev pub no_headers : HeaderCounts
no_headers = record {
  host = 0;
  content_length = 0;
  transfer_encoding = 0;
  authorization = 0;
  content_type = 0;
  expect = 0;
}

-- No blank and no comma.
unfoldable pub host_bytes_valid : Bytes → Bool
host_bytes_valid [] = true
host_bytes_valid (c ∷ cs) = not (is_blank c || c == b',') && host_bytes_valid cs

unfoldable pub host_value_valid : Bytes → Bool
unfolding host_bytes_valid
host_value_valid [] = false
host_value_valid (c ∷ cs) = host_bytes_valid (c ∷ cs)

-- The counts and the request's `content_length` after one header, `none` where it is refused.
unfoldable pub count_known_header :
    HttpHeader → HeaderCounts → Option ℕ → Option (HeaderCounts × Option ℕ)
count_known_header h seen content_length =
    if header_name_is h (codes "Host")
    then (do
      guard (not (ltb 1 (seen.host + 1)) && host_value_valid h.value)
      some (record seen { host = seen.host + 1 }, content_length))
    else if header_name_is h (codes "Content-Length")
    then (do
      guard (not (ltb 1 (seen.content_length + 1)))
      n ← parse_content_length h.value
      some (record seen { content_length = seen.content_length + 1 }, some n))
    else if header_name_is h (codes "Transfer-Encoding")
    then some (record seen { transfer_encoding = seen.transfer_encoding + 1 }, content_length)
    else if header_name_is h (codes "Authorization")
    then (do
      guard (not (ltb 1 (seen.authorization + 1)))
      some (record seen { authorization = seen.authorization + 1 }, content_length))
    else if header_name_is h (codes "Content-Type")
    then (do
      guard (not (ltb 1 (seen.content_type + 1)))
      some (record seen { content_type = seen.content_type + 1 }, content_length))
    else if header_name_is h (codes "Expect")
    then (do
      guard (not (ltb 1 (seen.expect + 1)))
      some (record seen { expect = seen.expect + 1 }, content_length))
    else some (seen, content_length)

-- What `parse_headers` checks behind the empty line.
unfoldable pub headers_complete : HttpRequest → HeaderCounts → Bool
headers_complete req seen =
    not (req.minor_version == 1 && not (seen.host == 1))
    && (seen.transfer_encoding == 0 && leb seen.content_length 1)

abbrev pub blank_line_next : Bytes → Bool
blank_line_next (a ∷ b ∷ _) = a == b'\r' && b == b'\n'
blank_line_next _ = false

-- One `name: value` line.
unfoldable pub parse_header_line : Bytes → Option (HttpHeader × Bytes)
parse_header_line p = do
  (name, p1) ← parse_header_name p
  (value, p2) ← parse_header_value p1
  p3 ← expect_crlf p2
  some (record { name = name; value = value }, p3)

-- The loop of `parse_headers`. Each round stores a header, so `max_headers + 1` rounds are enough.
unfoldable pub headers_loop : ℕ → HttpRequest → HeaderCounts → Bytes → Option (HttpRequest × Bytes)
headers_loop zero req seen p = none
headers_loop (suc fuel) req seen [] = none
headers_loop (suc fuel) req seen (c ∷ p) =
    let finish = (do
      rest ← expect_crlf (c ∷ p)
      guard (headers_complete req seen)
      some (req, rest)) in
    let next = (do
      (h, rest) ← parse_header_line (c ∷ p)
      (seen', content_length) ← count_known_header h seen req.content_length
      headers_loop fuel
          (record req { headers = req.headers ++ (h ∷ []); content_length = content_length }) seen'
          rest) in
    if blank_line_next (c ∷ p)
    then finish
    else if leb max_headers (length req.headers)
    then none
    else next

unfoldable pub parse_headers : HttpRequest → Bytes → Option (HttpRequest × Bytes)
unfolding headers_loop
parse_headers req p = headers_loop (max_headers + 1) req no_headers p

-- The four bytes CR LF CR LF stand here.
abbrev pub ends_head : Bytes → Bool
ends_head (a ∷ b ∷ p) = (a == b'\r' && b == b'\n') && blank_line_next p
ends_head _ = false

-- The search from offset `i` on.
unfoldable pub header_end_from : ℕ → Bytes → Option ℕ
header_end_from i [] = none
header_end_from i (c ∷ p) = if ends_head (c ∷ p) then some (i + 4) else header_end_from (i + 1) p

unfoldable pub header_end : Bytes → Option ℕ
unfolding header_end_from
header_end buf = header_end_from 0 buf

-- `content_length >= 0 ? content_length : 0`
abbrev pub length_or_zero : Option ℕ → ℕ
length_or_zero none = 0
length_or_zero (some n) = n

-- The part of `http_parse_request` behind the headers, with the rest of the buffer.
unfoldable pub frame_body : Bytes → HttpRequest → Bytes → HttpParseResult
frame_body buf req p =
    let header_len = length buf - length p in
    let body_len = length_or_zero req.content_length in
    let framed = record req { header_len = header_len; body = p; body_len = body_len } in
    if ltb size_max body_len
    then error
    else if ltb (length p) body_len
    then need_more framed
    else parsed (record framed { message_len = header_len + body_len })

unfoldable pub http_parse_request : Bytes → HttpParseResult
unfolding parse_headers header_end frame_body
http_parse_request buf =
    let message = (do
      (req, p) ← parse_request_line empty_request buf
      (req', p') ← parse_headers req p
      some (frame_body buf req' p')) in
    if length buf == 0 then need_more empty_request else elim (header_end buf) [
      | none ↦ if ltb max_header_bytes (length buf) then error else need_more empty_request
      | some headers ↦
          if ltb max_header_bytes headers
          then error
          else elim message [ none ↦ error | some result ↦ result ]
    ]

-- `http_find_header`, on the request's headers in order.
unfoldable pub http_find_header : List HttpHeader → Bytes → Option Bytes
http_find_header [] name = none
http_find_header (h ∷ hs) name =
    if header_name_is h name then some h.value else http_find_header hs name
