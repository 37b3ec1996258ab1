-- ===== src/Http/RoundTrip.antt =====
-- A request that a client writes is read back as it was, with whatever follows it in the buffer.
use gargantua.Common.{
  ◌+◌, ◌-◌, ◌≤◌, some, List, [], ◌∷◌, ◌++◌, ◌≡◌, ◌∙◌, arith, Bytes, codes, length, All, ◌>>=◌,
  length-append, le→ltb-false,
}
use gargantua.Http.{
  HttpHeader, HttpRequest, parsed, empty_request, max_headers, max_header_bytes, size_max,
  parse_content_length,
}
use gargantua.Http.Parse.{
  no_headers, parse_headers, frame_body, http_parse_request, http_find_header, length_or_zero,
}
use gargantua.Http.HeadEnd.{http_parse_request-frame_body}
use gargantua.Http.Framing.{occurrences, Tracks-nil}
use gargantua.Http.Accept.{
  ValueIsValid, AtMostOnce, HeadersAreSendable, with_headers, headers_loop-render,
}
use gargantua.Http.Render.{
  Message, render_line, render_headers, render, IsPlain, LineIsSendable, parse_request_line-render,
}

-- Which requests a client may send: the request line, each header's name and value, and how often
-- the headers that fix the framing stand there.
pub record IsSendable (m : Message) : Type 0 where
  pub line : LineIsSendable m
  pub plain : All IsPlain m.headers
  pub values : All ValueIsValid m.headers
  pub once : AtMostOnce no_headers m.headers
  pub header_count : length m.headers ≤ max_headers
  pub no_encoding : occurrences (codes "Transfer-Encoding") m.headers ≡ 0
  pub one_host : m.minor_version ≡ 1 → occurrences (codes "Host") m.headers ≡ 1
  pub body_declared :
      length_or_zero (http_find_header m.headers (codes "Content-Length") >>= parse_content_length)
      ≡ length m.body
  pub body_fits : length m.body ≤ size_max
  pub head_fits : length (render_line m (render_headers m.headers [])) ≤ max_header_bytes

-- The request that stands for a message in front of `rest`.
abbrev pub received : Message → Bytes → HttpRequest
received m rest =
    let head = length (render m rest) - length (m.body ++ rest) in
    record {
      method = m.method;
      path = m.path;
      minor_version = m.minor_version;
      headers = m.headers;
      body = m.body ++ rest;
      body_len = length m.body;
      content_length = http_find_header m.headers (codes "Content-Length") >>= parse_content_length;
      header_len = head;
      message_len = head + length m.body;
    }

-- What follows a head does not change the head's length.
render_headers-length :
    (hs : List HttpHeader) (rest : Bytes)
    → length (render_headers hs rest) ≡ length (render_headers hs []) + length rest
render_headers-length [] rest = omega arith
render_headers-length (h ∷ hs) rest = omega (
  arith,
  render_headers-length hs rest,
  length-append h.name (b':' ∷ b' ' ∷ (h.value ++ (b'\r' ∷ b'\n' ∷ render_headers hs rest))),
  length-append h.name (b':' ∷ b' ' ∷ (h.value ++ (b'\r' ∷ b'\n' ∷ render_headers hs []))),
  length-append h.value (b'\r' ∷ b'\n' ∷ render_headers hs rest),
  length-append h.value (b'\r' ∷ b'\n' ∷ render_headers hs []),
)

render_line-length :
    (m : Message) (rest : Bytes)
    → length (render_line m rest) ≡ length (render_line m []) + length rest
render_line-length m rest = omega (
  arith,
  length-append m.method (
      b' '
      ∷ (m.path
          ++ (b' ' ∷ (codes "HTTP/1." ++ ((b'0' + m.minor_version) ∷ b'\r' ∷ b'\n' ∷ rest))))),
  length-append m.method (
      b' '
      ∷ (m.path ++ (b' ' ∷ (codes "HTTP/1." ++ ((b'0' + m.minor_version) ∷ b'\r' ∷ b'\n' ∷ []))))),
  length-append m.path
      (b' ' ∷ (codes "HTTP/1." ++ ((b'0' + m.minor_version) ∷ b'\r' ∷ b'\n' ∷ rest))),
  length-append m.path
      (b' ' ∷ (codes "HTTP/1." ++ ((b'0' + m.minor_version) ∷ b'\r' ∷ b'\n' ∷ []))),
)

-- The length of the head is that of the head alone.
head-length :
    (m : Message) (rest : Bytes)
    → length (render m rest) - length (m.body ++ rest)
      ≡ length (render_line m (render_headers m.headers []))
head-length m rest = omega (
  arith,
  render_line-length m (render_headers m.headers (m.body ++ rest)),
  render_line-length m (render_headers m.headers []),
  render_headers-length m.headers (m.body ++ rest),
)

-- The request line's fields in an otherwise empty request.
abbrev with_line : Message → HttpRequest
with_line m = record empty_request {
  method = m.method;
  path = m.path;
  minor_version = m.minor_version;
}

with_line-HeadersAreSendable :
    (m : Message) → IsSendable m → HeadersAreSendable (with_line m) no_headers m.headers
with_line-HeadersAreSendable m s = record {
  plain = s.plain;
  values = s.values;
  once = s.once;
  room = omega (arith, s.header_count);
  tracks = Tracks-nil;
  no_encoding = s.no_encoding;
  one_host = s.one_host;
}

parse_headers-render :
    (m : Message) (rest : Bytes)
    → IsSendable m
    → parse_headers (with_line m) (render_headers m.headers rest)
      ≡ some (with_headers (with_line m) m.headers, rest)
unfolding parse_headers
parse_headers-render m rest s =
    headers_loop-render m.headers (max_headers + 1) (with_line m) no_headers rest
      (omega (arith, s.header_count)) (with_line-HeadersAreSendable m s)

frame_body-received :
    (m : Message) (rest : Bytes)
    → IsSendable m
    → frame_body (render m rest) (with_headers (with_line m) m.headers) (m.body ++ rest)
      ≡ parsed (received m rest)
unfolding frame_body
frame_body-received m rest s = rw (
  s.body_declared,
  le→ltb-false size_max (length m.body) s.body_fits,
  le→ltb-false (length (m.body ++ rest)) (length m.body) (omega (arith, length-append m.body rest)),
)

-- A request that a client may send, written out in front of any further bytes, parses to that
-- request: its method, path, version, headers and body length, with the body at its place.
pub parse-render :
    (m : Message) (rest : Bytes)
    → IsSendable m
    → http_parse_request (render m rest) ≡ parsed (received m rest)
parse-render m rest s =
    http_parse_request-frame_body (render m rest)
      (parse_request_line-render empty_request m (render_headers m.headers (m.body ++ rest)) s.line)
      (parse_headers-render m (m.body ++ rest) s) (rw (head-length m rest) s.head_fits)
    ∙ frame_body-received m rest s
