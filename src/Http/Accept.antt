-- ===== src/Http/Accept.antt =====
-- The header loop on the headers that a client writes.
use gargantua.Common.{
  ℕ, zero, suc, ◌+◌, ◌≤◌, ◌<◌, true, false, Option, none, some, List, [], ◌∷◌, ◌++◌, ◌≡◌, ◌≢◌, inl,
  inr, sym, ◌∙◌, arith, Bytes, codes, ◌==◌, length, all, contains, All, ◌>>=◌, append_assoc,
  append-nil, lt→leb-false, Option-cases, length-append,
}
use gargantua.Http.{
  HttpHeader, HttpRequest, max_headers, header_name_is, is_token_char, parse_content_length,
  parse_header_name, name_loop, expect_crlf,
}
use gargantua.Http.Parse.{
  HeaderCounts, blank_line_next, host_value_valid, parse_header_line, count_known_header,
  headers_complete, headers_loop, http_find_header,
}
use gargantua.Http.Inversion.{add_header}
use gargantua.Http.Framing.{occurrences, Tracks, Tracks-step}
use gargantua.Http.Render.{render_header, render_headers, IsPlain, parse_header_line-render}

-- The values that the parser checks.
pub record ValueIsValid (h : HttpHeader) : Type 0 where
  pub host : header_name_is h (codes "Host") ≡ true → host_value_valid h.value ≡ true
  pub number :
      header_name_is h (codes "Content-Length") ≡ true → parse_content_length h.value ≢ none

-- No header that may stand once stands twice, with those that `seen` counts.
pub record AtMostOnce (seen : HeaderCounts) (hs : List HttpHeader) : Type 0 where
  pub host : seen.host + occurrences (codes "Host") hs ≤ 1
  pub content_length : seen.content_length + occurrences (codes "Content-Length") hs ≤ 1
  pub authorization : seen.authorization + occurrences (codes "Authorization") hs ≤ 1
  pub content_type : seen.content_type + occurrences (codes "Content-Type") hs ≤ 1
  pub expect : seen.expect + occurrences (codes "Expect") hs ≤ 1

module _ (h : HttpHeader) (hs : List HttpHeader) (seen : HeaderCounts) (cl : Option ℕ)
    (once : AtMostOnce seen (h ∷ hs)) where
  count_known_header-ne-none : ValueIsValid h → count_known_header h seen cl ≢ none
  unfolding count_known_header
  count_known_header-ne-none v = ground (arith, v.host, v.number)

  AtMostOnce-next :
      {seen' : HeaderCounts} {cl' : Option ℕ}
      → count_known_header h seen cl ≡ some (seen', cl')
      → AtMostOnce seen' hs
  unfolding count_known_header
  AtMostOnce-next e = record {
    host = ground (arith, once.host);
    content_length = ground (arith, once.content_length);
    authorization = ground (arith, once.authorization);
    content_type = ground (arith, once.content_type);
    expect = ground (arith, once.expect);
  }

headers_loop_header :
    (fuel : ℕ) (req : HttpRequest) (seen : HeaderCounts) (p q : Bytes) (h : HttpHeader)
    {seen' : HeaderCounts} {cl : Option ℕ}
    → blank_line_next p ≡ false
    → length req.headers < max_headers
    → parse_header_line p ≡ some (h, q)
    → count_known_header h seen req.content_length ≡ some (seen', cl)
    → headers_loop (suc fuel) req seen p ≡ headers_loop fuel (add_header req h cl) seen' q
unfolding headers_loop parse_header_line parse_header_name name_loop
headers_loop_header fuel req seen [] q h more room line counted = cc
headers_loop_header fuel req seen (c ∷ p) q h more room line counted =
    rw (more, lt→leb-false max_headers (length req.headers) room, line, counted)

headers_loop_end :
    (fuel : ℕ) (req : HttpRequest) (seen : HeaderCounts) (rest : Bytes)
    → headers_complete req seen ≡ true
    → headers_loop (suc fuel) req seen (b'\r' ∷ b'\n' ∷ rest) ≡ some (req, rest)
unfolding headers_loop expect_crlf
headers_loop_end fuel req seen rest complete = rw complete

token-ne-cr : (c : ℕ) → is_token_char c ≡ true → (c == b'\r') ≡ false
unfolding is_token_char contains
token-ne-cr c h = ground arith

blank_line_next-header :
    (h : HttpHeader) (rest : Bytes) → IsPlain h → blank_line_next (render_header h rest) ≡ false
blank_line_next-header h rest l = go h.name l.name_some l.name_bytes
  where
    go :
        (name : Bytes)
        → 0 < length name
        → all is_token_char name ≡ true
        → blank_line_next (render_header (record h { name = name }) rest) ≡ false
    go [] s ok = absurd (omega arith)
    go (c ∷ []) s ok = ground (arith, token-ne-cr c)
    go (c ∷ d ∷ name) s ok = ground (arith, token-ne-cr c)

-- The headers of a whole request: those read so far and those to come.
pub record HeadersAreSendable (req : HttpRequest) (seen : HeaderCounts) (hs : List HttpHeader)
    : Type 0 where
  pub plain : All IsPlain hs
  pub values : All ValueIsValid hs
  pub once : AtMostOnce seen hs
  pub room : length req.headers + length hs ≤ max_headers
  pub tracks : Tracks req.headers seen req.content_length
  pub no_encoding : occurrences (codes "Transfer-Encoding") (req.headers ++ hs) ≡ 0
  pub one_host : req.minor_version ≡ 1 → occurrences (codes "Host") (req.headers ++ hs) ≡ 1

HeadersAreSendable-next :
    (req : HttpRequest) (seen seen' : HeaderCounts) (h : HttpHeader) (hs : List HttpHeader)
    (cl : Option ℕ)
    → HeadersAreSendable req seen (h ∷ hs)
    → count_known_header h seen req.content_length ≡ some (seen', cl)
    → HeadersAreSendable (add_header req h cl) seen' hs
HeadersAreSendable-next req seen seen' h hs cl s e = record {
  plain = s.plain.1;
  values = s.values.1;
  once = AtMostOnce-next h hs seen req.content_length s.once e;
  room = omega (arith, s.room, length-append req.headers (h ∷ []));
  tracks = Tracks-step req.headers h seen seen' req.content_length cl e s.tracks;
  no_encoding = rw (append_assoc req.headers (h ∷ []) hs) s.no_encoding;
  one_host = λ one. rw (append_assoc req.headers (h ∷ []) hs) (s.one_host one);
}

HeadersAreSendable-complete :
    (req : HttpRequest) (seen : HeaderCounts)
    → HeadersAreSendable req seen []
    → headers_complete req seen ≡ true
unfolding headers_complete
HeadersAreSendable-complete req seen s =
    let encodings : seen.transfer_encoding ≡ 0 =
      s.tracks.encodings ∙ rw append-nil at s.no_encoding in
    let host : req.minor_version ≡ 1 → seen.host ≡ 1 =
      λ one. s.tracks.host ∙ (rw append-nil at (s.one_host one)) in
    let lengths : seen.content_length ≤ 1 = omega (arith, s.once.content_length) in ground arith

-- The request once the headers `hs` are read.
abbrev pub with_headers : HttpRequest → List HttpHeader → HttpRequest
with_headers req hs = record req {
  headers = hs;
  content_length = http_find_header hs (codes "Content-Length") >>= parse_content_length;
}

with_headers_same :
    (req : HttpRequest)
    → req.content_length
      ≡ (http_find_header req.headers (codes "Content-Length") >>= parse_content_length)
    → with_headers req req.headers ≡ req
with_headers_same req e = λ i. record req { content_length = sym e i }

pub headers_loop-render :
    (hs : List HttpHeader) (fuel : ℕ) (req : HttpRequest) (seen : HeaderCounts) (rest : Bytes)
    → length hs < fuel
    → HeadersAreSendable req seen hs
    → headers_loop fuel req seen (render_headers hs rest)
      ≡ some (with_headers req (req.headers ++ hs), rest)
headers_loop-render hs zero req seen rest f s = absurd (omega arith)
headers_loop-render [] (suc fuel) req seen rest f s =
    rw (append-nil req.headers, with_headers_same req s.tracks.length_is)
      (headers_loop_end fuel req seen rest (HeadersAreSendable-complete req seen s))
headers_loop-render (h ∷ hs) (suc fuel) req seen rest f s =
    elim (Option-cases (count_known_header h seen req.content_length)) [
      | inl refused ↦
          absurd (count_known_header-ne-none h hs seen req.content_length s.once s.values.0 refused)
      | inr ((seen', cl), counted) ↦
          headers_loop_header fuel req seen _ _ h (blank_line_next-header h _ s.plain.0)
            (omega (arith, s.room)) (parse_header_line-render h _ s.plain.0) counted
          ∙ headers_loop-render hs fuel (add_header req h cl) seen' rest (omega arith)
              (HeadersAreSendable-next req seen seen' h hs cl s counted)
          ∙ rw (append_assoc req.headers (h ∷ []) hs)
    ]
