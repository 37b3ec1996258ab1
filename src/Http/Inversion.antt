-- ===== src/Http/Inversion.antt =====
-- What a successful round of `parse_headers`, and a successful `http_parse_request`, went through.
use gargantua.Common.{
  ℕ, suc, ◌≤◌, ◌<◌, Bool, true, false, Option, some, [], ◌∷◌, ◌++◌, ◌≡◌, inl, inr, sym, ◌∙◌, arith,
  Bytes, ltb, leb, ◌==◌, if◌then◌else◌, length, ◌>>=◌, >>=-eq-some, guard-eq-some, Bool-cases,
  Option-cases, le_of_ltb-false,
}
use gargantua.Http.{
  HttpHeader, HttpRequest, HttpParseResult, parsed, need_more, error, empty_request, expect_crlf,
  parse_request_line, max_header_bytes, max_headers,
}
use gargantua.Http.Parse.{
  HeaderCounts, blank_line_next, parse_header_line, count_known_header, headers_complete,
  headers_loop, parse_headers, header_end, frame_body, http_parse_request,
}

abbrev pub add_header : HttpRequest → HttpHeader → Option ℕ → HttpRequest
add_header req h content_length = record req {
  headers = req.headers ++ (h ∷ []);
  content_length = content_length;
}

-- One round that succeeds either ends the block or reads one header and goes on.
pub data Round (fuel : ℕ) (req : HttpRequest) (seen : HeaderCounts) (p : Bytes) (req' : HttpRequest)
    (rest : Bytes) : Type 0 where
  finished :
      expect_crlf p ≡ some rest
      → headers_complete req seen ≡ true
      → req' ≡ req
      → Round fuel req seen p req' rest
  header :
      (h : HttpHeader) (q : Bytes) (seen' : HeaderCounts) (content_length : Option ℕ)
      → blank_line_next p ≡ false
      → length req.headers < max_headers
      → parse_header_line p ≡ some (h, q)
      → count_known_header h seen req.content_length ≡ some (seen', content_length)
      → headers_loop fuel (add_header req h content_length) seen' q ≡ some (req', rest)
      → Round fuel req seen p req' rest

pub headers_loop-Round :
    (fuel : ℕ) (req : HttpRequest) (seen : HeaderCounts) (p : Bytes) {req' : HttpRequest}
    {rest : Bytes}
    → headers_loop (suc fuel) req seen p ≡ some (req', rest)
    → Round fuel req seen p req' rest
unfolding headers_loop
headers_loop-Round fuel req seen [] h = cc
headers_loop-Round fuel req seen (c ∷ p) {req'} {rest} h =
    elim (Bool-cases (blank_line_next (c ∷ p))) [
      | inl blank ↦
          let (q, e, h') = >>=-eq-some (expect_crlf (c ∷ p)) _ (rw blank at h) in
          let (complete, same) = guard-eq-some (headers_complete req seen) _ h' in
          finished (e ∙ cc) complete (cc)
      | inr more ↦ elim (Bool-cases (leb max_headers (length req.headers))) [
        | inl full ↦ absurd (cc (rw (more, full) at h))
        | inr room ↦
            let h1 = rw (more, room) at h in
            let ((hd, q), e, h2) = >>=-eq-some (parse_header_line (c ∷ p)) _ h1 in
            let ((seen', content_length), e', h3) =
              >>=-eq-some (count_known_header hd seen req.content_length) _ h2 in
            header hd q seen' content_length more (ground arith) e e' h3
      ]
    ]

-- The steps of an accepted request.
pub record Accepted (buf : Bytes) (result : HttpParseResult) : Type 0 where
  pub headers : ℕ
  pub found : header_end buf ≡ some headers
  pub head_fits : headers ≤ max_header_bytes
  pub line : HttpRequest
  pub behind_line : Bytes
  pub read_line : parse_request_line empty_request buf ≡ some (line, behind_line)
  pub req : HttpRequest
  pub behind_head : Bytes
  pub read_head : parse_headers line behind_line ≡ some (req, behind_head)
  pub result_is : result ≡ frame_body buf req behind_head

abbrev Message : Type 0
Message = HttpRequest × Bytes

-- The chain of the request line and the headers, as `http_parse_request` has it.
abbrev read_message : Bytes → Option HttpParseResult
read_message buf = do
  (req, p) ← parse_request_line empty_request buf
  (req', p') ← parse_headers req p
  some (frame_body buf req' p')

pub suc_ne_zero : (n : ℕ) → (suc n == 0) ≡ false
suc_ne_zero n = ground arith

pub parsed-Accepted :
    (buf : Bytes) {r : HttpRequest} → http_parse_request buf ≡ parsed r → Accepted buf (parsed r)
unfolding http_parse_request
parsed-Accepted [] h = cc
parsed-Accepted (c ∷ cs) {r} h' =
    let h = rw (suc_ne_zero (length cs)) at h' in
    elim (Option-cases (header_end (c ∷ cs))) [
      | inl missing ↦ absurd (by_length (ltb max_header_bytes (length (c ∷ cs))) (rw missing at h))
      | inr (headers, found) ↦ elim (Bool-cases (ltb max_header_bytes headers)) [
        | inl long ↦ absurd (cc (rw (found, long) at h))
        | inr fits ↦ elim (Option-cases (read_message (c ∷ cs))) [
          | inl failed ↦ absurd (cc (rw (found, fits, failed) at h))
          | inr (result, e) ↦
              let ((line, p), e1, e2) =
                >>=-eq-some (parse_request_line empty_request (c ∷ cs)) _ e in
              let ((req, q), e3, e4) = >>=-eq-some (parse_headers line p) _ e2 in
              record {
                headers = headers;
                found = found;
                head_fits = le_of_ltb-false max_header_bytes headers fits;
                line = line;
                behind_line = p;
                read_line = e1;
                req = req;
                behind_head = q;
                read_head = e3;
                result_is = sym (rw (found, fits, e) at h) ∙ cc (e4);
              }
        ]
      ]
    ]
  where
    by_length : (b : Bool) → (if b then error else need_more empty_request) ≡ parsed r → ⊥
    by_length true e = cc
    by_length false e = cc
