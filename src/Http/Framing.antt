-- ===== src/Http/Framing.antt =====
-- No two readings of one request: which headers an accepted request can hold, and that the body's
-- length is the one that its only Content-Length header states.
use gargantua.Common.{
  strcase_eq_common, ℕ, zero, suc, ◌+◌, ◌≤◌, true, false, Option, none, some, List, [], ◌∷◌, ◌++◌,
  ◌≡◌, ◌≢◌, inl, inr, refl, sym, ap, ◌∙◌, arith, Bytes, codes, ltb, if◌then◌else◌, length, ◌>>=◌,
  Bool-cases, strcase_eq, length-append,
}
use gargantua.Http.{
  HttpHeader, HttpRequest, parsed, empty_request, header_name_is, parse_content_length,
  parse_request_line, max_headers,
}
use gargantua.Http.Parse.{
  HeaderCounts, no_headers, count_known_header, headers_complete, headers_loop, parse_headers,
  http_parse_request, http_find_header,
}
use gargantua.Http.RequestLine.{parse_request_line-LineParts}
use mathlib.Core.Path.{subst}
use gargantua.Http.HeadEnd.{framed, frame_body-eq-parsed}
use gargantua.Http.Inversion.{finished, header, headers_loop-Round, add_header, parsed-Accepted}

-- How many of the headers have this name, whatever the letters' case.
abbrev pub occurrences : Bytes → List HttpHeader → ℕ
occurrences name [] = 0
occurrences name (h ∷ hs) = (if header_name_is h name then 1 else 0) + occurrences name hs

occurrences_concat :
    (name : Bytes) (hs : List HttpHeader) (h : HttpHeader)
    → occurrences name (hs ++ (h ∷ []))
      ≡ occurrences name hs + (if header_name_is h name then 1 else 0)
occurrences_concat name [] h = omega arith
occurrences_concat name (x ∷ hs) h = omega (arith, occurrences_concat name hs h)

find_concat :
    (name : Bytes) (hs : List HttpHeader) (h : HttpHeader)
    → http_find_header (hs ++ (h ∷ [])) name ≡ (
        if ltb 0 (occurrences name hs)
        then http_find_header hs name
        else if header_name_is h name
        then some h.value
        else none)
unfolding http_find_header
find_concat name [] h = refl
find_concat name (x ∷ hs) h = ground (arith, find_concat name hs h)

differs :
    (h : HttpHeader) (a b : Bytes)
    → strcase_eq a b ≡ false
    → header_name_is h a ≡ true
    → header_name_is h b ≡ false
differs h a b d e = elim (Bool-cases (header_name_is h b)) [
  | inl both ↦ absurd (cc (strcase_eq_common h.name a b e both, d))
  | inr other ↦ other
]

-- The counters and the length after the headers `hs`.
pub record Tracks (hs : List HttpHeader) (seen : HeaderCounts) (content_length : Option ℕ)
    : Type 0 where
  pub host : seen.host ≡ occurrences (codes "Host") hs
  pub lengths : seen.content_length ≡ occurrences (codes "Content-Length") hs
  pub encodings : seen.transfer_encoding ≡ occurrences (codes "Transfer-Encoding") hs
  pub length_is :
      content_length ≡ (http_find_header hs (codes "Content-Length") >>= parse_content_length)
  pub length_known : content_length ≡ none → seen.content_length ≡ 0

module _ (h : HttpHeader) (seen : HeaderCounts) (cl : Option ℕ) {seen' : HeaderCounts}
    {cl' : Option ℕ} (e : count_known_header h seen cl ≡ some (seen', cl')) where
  host_count : seen'.host ≡ seen.host + (if header_name_is h (codes "Host") then 1 else 0)
  unfolding count_known_header
  host_count = ground arith

  not_host :
      header_name_is h (codes "Content-Length") ≡ true → header_name_is h (codes "Host") ≡ false
  unfolding strcase_eq
  not_host = differs h (codes "Content-Length") (codes "Host") refl

  length_count :
      seen'.content_length
      ≡ seen.content_length + (if header_name_is h (codes "Content-Length") then 1 else 0)
  unfolding count_known_header
  length_count = ground (arith, not_host)

  length_new :
      header_name_is h (codes "Content-Length") ≡ true
      → (cl' ≡ parse_content_length h.value) × (cl' ≢ none) × (seen.content_length ≡ 0)
  unfolding count_known_header
  length_new is = ground (arith, not_host is)

  length_old : header_name_is h (codes "Content-Length") ≡ false → cl' ≡ cl
  unfolding count_known_header
  length_old is = ground arith

  encoding_count :
      header_name_is h (codes "Transfer-Encoding") ≡ true
      → seen'.transfer_encoding ≡ seen.transfer_encoding + 1
  unfolding count_known_header strcase_eq
  encoding_count is = ground (
    arith,
    differs h (codes "Transfer-Encoding") (codes "Host") refl is,
    differs h (codes "Transfer-Encoding") (codes "Content-Length") refl is,
  )

  encoding_same :
      header_name_is h (codes "Transfer-Encoding") ≡ false
      → seen'.transfer_encoding ≡ seen.transfer_encoding
  unfolding count_known_header
  encoding_same is = ground arith

find-none :
    (name : Bytes) (hs : List HttpHeader)
    → occurrences name hs ≡ 0
    → http_find_header hs name ≡ none
unfolding http_find_header
find-none name [] z = refl
find-none name (h ∷ hs) z = ground (arith, find-none name hs)

find_new :
    (name : Bytes) (hs : List HttpHeader) (h : HttpHeader)
    → occurrences name hs ≡ 0
    → header_name_is h name ≡ true
    → http_find_header (hs ++ (h ∷ [])) name ≡ some h.value
find_new name hs h z is = ground (arith, find_concat name hs h)

find_old :
    (name : Bytes) (hs : List HttpHeader) (h : HttpHeader)
    → header_name_is h name ≡ false
    → http_find_header (hs ++ (h ∷ [])) name ≡ http_find_header hs name
find_old name hs h other = ground (arith, find_concat name hs h, find-none name hs)

abbrev length_name : Bytes
length_name = codes "Content-Length"

pub Tracks-nil : Tracks [] no_headers none
unfolding http_find_header
Tracks-nil = record {
  host = refl;
  lengths = refl;
  encodings = refl;
  length_is = refl;
  length_known = λ _. refl;
}

pub Tracks-step :
    (hs : List HttpHeader) (h : HttpHeader) (seen seen' : HeaderCounts) (cl cl' : Option ℕ)
    → count_known_header h seen cl ≡ some (seen', cl')
    → Tracks hs seen cl
    → Tracks (hs ++ (h ∷ [])) seen' cl'
Tracks-step hs h seen seen' cl cl' e t = record {
  host = omega (arith, host_count h seen cl e, t.host, occurrences_concat (codes "Host") hs h);
  lengths = omega (arith, length_count h seen cl e, t.lengths, occurrences_concat length_name hs h);
  encodings = elim (Bool-cases (header_name_is h (codes "Transfer-Encoding"))) [
    | inl is ↦ ground (
      arith,
      encoding_count h seen cl e is,
      t.encodings,
      occurrences_concat (codes "Transfer-Encoding") hs h,
    )
    | inr other ↦ ground (
      arith,
      encoding_same h seen cl e other,
      t.encodings,
      occurrences_concat (codes "Transfer-Encoding") hs h,
    )
  ];
  length_is = elim (Bool-cases (header_name_is h length_name)) [
    | inl is ↦
        let (new, _, first) = length_new h seen cl e is in
        new
        ∙ sym (
            ap (λ o. o >>= parse_content_length)
              (find_new length_name hs h (sym t.lengths ∙ first) is))
    | inr other ↦
        length_old h seen cl e other
        ∙ t.length_is
        ∙ sym (ap (λ o. o >>= parse_content_length) (find_old length_name hs h other))
  ];
  length_known = elim (Bool-cases (header_name_is h length_name)) [
    | inl is ↦ λ n. absurd ((length_new h seen cl e is).1 n)
    | inr other ↦
        λ n. ground (arith, length_old h seen cl e other, t.length_known, length_count h seen cl e)
  ];
}

-- The request and the counters at the end of the loop.
record Ended (req : HttpRequest) : Type 0 where
  seen : HeaderCounts
  tracks : Tracks req.headers seen req.content_length
  complete : headers_complete req seen ≡ true
  fit : length req.headers ≤ max_headers

headers_loop-Ended :
    (fuel : ℕ) (req : HttpRequest) (seen : HeaderCounts) (p : Bytes) {req' : HttpRequest}
    {rest : Bytes}
    → headers_loop fuel req seen p ≡ some (req', rest)
    → length req.headers ≤ max_headers
    → Tracks req.headers seen req.content_length
    → Ended req'
unfolding headers_loop
headers_loop-Ended zero req seen p h fit t = cc
headers_loop-Ended (suc fuel) req seen p h fit t = elim (headers_loop-Round fuel req seen p h) [
  | finished _ complete same ↦
      subst Ended (sym same) (record { seen = seen; tracks = t; complete = complete; fit = fit })
  | header hd q seen' cl _ room _ counted next ↦
      headers_loop-Ended fuel (add_header req hd cl) seen' q next
        (omega (arith, length-append req.headers (hd ∷ [])))
        (Tracks-step req.headers hd seen seen' req.content_length cl counted t)
]

-- The framing of a request can be read in one way only.
pub record IsUnambiguous (req : HttpRequest) : Type 0 where
  pub no_encoding : occurrences (codes "Transfer-Encoding") req.headers ≡ 0
  pub one_length : occurrences (codes "Content-Length") req.headers ≤ 1
  pub one_host : req.minor_version ≡ 1 → occurrences (codes "Host") req.headers ≡ 1
  pub length_is :
      req.content_length
      ≡ (http_find_header req.headers (codes "Content-Length") >>= parse_content_length)
  pub length_absent :
      req.content_length ≡ none → occurrences (codes "Content-Length") req.headers ≡ 0
  pub headers_fit : length req.headers ≤ max_headers

Ended-IsUnambiguous : (req : HttpRequest) → Ended req → IsUnambiguous req
unfolding headers_complete
Ended-IsUnambiguous req d = record {
  no_encoding = ground (arith, d.complete, t.encodings);
  one_length = ground (arith, d.complete, t.lengths);
  one_host = λ one. ground (arith, d.complete, t.host);
  length_is = t.length_is;
  length_absent = λ n. ground (arith, t.lengths, t.length_known n);
  headers_fit = d.fit;
}
  where
    open d use {tracks as t}

parse_headers-IsUnambiguous :
    (req : HttpRequest) (p : Bytes) {req' : HttpRequest} {rest : Bytes}
    → parse_headers req p ≡ some (req', rest)
    → req.headers ≡ []
    → req.content_length ≡ none
    → IsUnambiguous req'
unfolding parse_headers
parse_headers-IsUnambiguous req p {req'} h fresh unset = Ended-IsUnambiguous req' (
    headers_loop-Ended (max_headers + 1) req no_headers p h (rw fresh (omega arith))
      (rw (fresh, unset) Tracks-nil))

-- The request line leaves the headers and the length alone.
parse_request_line-fresh :
    (p : Bytes) {req : HttpRequest} {rest : Bytes}
    → parse_request_line empty_request p ≡ some (req, rest)
    → (req.headers ≡ []) × (req.content_length ≡ none)
parse_request_line-fresh p h =
    let l = parse_request_line-LineParts empty_request p h in
    (
      ap (λ (r : HttpRequest). r.headers) (sym l.same),
      ap (λ (r : HttpRequest). r.content_length) (sym l.same),
    )

IsUnambiguous-framed :
    (buf : Bytes) (req : HttpRequest) (rest : Bytes)
    → IsUnambiguous req
    → IsUnambiguous (framed buf req rest)
IsUnambiguous-framed buf req rest u = record {
  no_encoding = u.no_encoding;
  one_length = u.one_length;
  one_host = u.one_host;
  length_is = u.length_is;
  length_absent = u.length_absent;
  headers_fit = u.headers_fit;
}

-- When a buffer parses to a request, the request has no Transfer-Encoding header, at most one
-- Content-Length and at most 64 headers; exactly one Host if the version is 1.1; and its
-- `content_length` is the value of the Content-Length header, absent only if that header is.
pub parsed-IsUnambiguous :
    (buf : Bytes) {r : HttpRequest} → http_parse_request buf ≡ parsed r → IsUnambiguous r
parsed-IsUnambiguous buf {r} h =
    let a = parsed-Accepted buf h in
    let (fresh, unset) = parse_request_line-fresh buf a.read_line in
    let u = parse_headers-IsUnambiguous a.line a.behind_line a.read_head fresh unset in
    let (_, is) = frame_body-eq-parsed buf a.req a.behind_head (sym a.result_is) in
    subst IsUnambiguous is (IsUnambiguous-framed buf a.req a.behind_head u)
