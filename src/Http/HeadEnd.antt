-- ===== src/Http/HeadEnd.antt =====
-- The head that the parser consumes is the one `header_end` found: it ends behind the first empty
-- line of the buffer, neither earlier nor later.
use gargantua.Common.{
  ℕ, zero, suc, ◌+◌, ◌-◌, ◌≤◌, false, Option, some, [], ◌∷◌, ◌++◌, append_assoc, ◌≡◌, inl, inr,
  refl, sym, ap, ◌∙◌, arith, Bytes, ltb, length, drop, All, Bool-cases, length-append, drop-length,
  le_of_ltb-false, some_inj, le→ltb-false,
}
use gargantua.Http.{
  HttpRequest, HttpParseResult, parsed, empty_request, expect_crlf, parse_request_line,
  max_header_bytes, max_headers, size_max,
}
use gargantua.Http.Parse.{
  HeaderCounts, no_headers, blank_line_next, parse_header_line, headers_loop, parse_headers,
  header_end_from, header_end, frame_body, http_parse_request, length_or_zero,
}
use gargantua.Http.Reads.{NotCr, Line, Leaves}
use mathlib.Core.Path.{subst}
use native.Mathlib.Nat.{zero-add}
use gargantua.Http.Inversion.{
  finished, header, headers_loop-Round, add_header, Accepted, parsed-Accepted, suc_ne_zero,
}
use gargantua.Http.Lines.{parse_request_line-Line, parse_header_line-Line}

header_end_from-append :
    (i : ℕ) (xs p : Bytes)
    → All NotCr xs
    → header_end_from i (xs ++ p) ≡ header_end_from (i + length xs) p
unfolding header_end_from
header_end_from-append i [] p n = ap (λ k. header_end_from k p) (omega arith)
header_end_from-append i (x ∷ xs) p (n, ns) =
    step (xs ++ p)
    ∙ header_end_from-append (i + 1) xs p ns
    ∙ ap (λ k. header_end_from k p) (omega arith)
  where
    step : (q : Bytes) → header_end_from i (x ∷ q) ≡ header_end_from (i + 1) q
    step [] = refl
    step (y ∷ q) = ground arith

header_end_from_line :
    (i : ℕ) (p : Bytes)
    → blank_line_next p ≡ false
    → header_end_from i (b'\r' ∷ b'\n' ∷ p) ≡ header_end_from (i + 2) p
unfolding header_end_from
header_end_from_line i [] h = refl
header_end_from_line i (c ∷ p) h = rw h (ap (λ k. header_end_from k (c ∷ p)) (two i))
  where
    two : (i : ℕ) → i + 1 + 1 ≡ i + 2
    two i = omega arith

header_end_from_blank :
    (i : ℕ) (p rest : Bytes)
    → expect_crlf p ≡ some rest
    → (header_end_from i (b'\r' ∷ b'\n' ∷ p) ≡ some (i + 4)) × (p ≡ b'\r' ∷ b'\n' ∷ rest)
unfolding header_end_from expect_crlf
header_end_from_blank i [] rest h = cc
header_end_from_blank i (a ∷ []) rest h = cc
header_end_from_blank i (a ∷ b ∷ p) rest h = ground arith

-- The header block at the front of `p`, where `p` stands behind a line end at offset `i`.
record Block (i : ℕ) (p rest : Bytes) : Type 0 where
  used : Bytes
  splits : p ≡ used ++ rest
  ends : header_end_from i (b'\r' ∷ b'\n' ∷ p) ≡ some (i + 2 + length used)

Block-line :
    (i : ℕ) (p q rest : Bytes) (l : Line p q)
    → blank_line_next p ≡ false
    → Block (i + 2 + length l.used) q rest
    → Block i p rest
Block-line i p q rest l h b = record {
  used = l.used ++ (b'\r' ∷ b'\n' ∷ b.used);
  splits =
      l.splits
      ∙ ap (λ t. l.used ++ (b'\r' ∷ b'\n' ∷ t)) b.splits
      ∙ sym (append_assoc l.used _ rest);
  ends =
      header_end_from_line i p h
      ∙ ap (header_end_from (i + 2)) l.splits
      ∙ header_end_from-append (i + 2) l.used _ l.not_cr
      ∙ b.ends
      ∙ ap some (omega (arith, length-append l.used (b'\r' ∷ b'\n' ∷ b.used)));
}

Leaves-eq-some :
    {A : Type 0} (R : Bytes → Bytes → Type 0) (p rest : Bytes) (a : A) (m : Option (A × Bytes))
    → Leaves R p m
    → m ≡ some (a, rest)
    → R p rest
Leaves-eq-some R p rest a m h e = subst (Leaves R p) e h

headers_loop-Block :
    (fuel i : ℕ) (req : HttpRequest) (seen : HeaderCounts) (p : Bytes) {req' : HttpRequest}
    {rest : Bytes}
    → headers_loop fuel req seen p ≡ some (req', rest)
    → Block i p rest
unfolding headers_loop
headers_loop-Block zero i req seen p h = cc
headers_loop-Block (suc fuel) i req seen p {rest = rest} h =
    elim (headers_loop-Round fuel req seen p h) [
      | finished e _ _ ↦
          let (found, splits) = header_end_from_blank i p rest e in
          record {
            used = b'\r' ∷ b'\n' ∷ [];
            splits = splits;
            ends = found ∙ ap some (omega arith);
          }
      | header hd q seen' content_length more _ e _ next ↦
          let l = Leaves-eq-some Line p q hd (parse_header_line p) (parse_header_line-Line p) e in
          Block-line i p q rest l more (
            headers_loop-Block fuel (i + 2 + length l.used) (add_header req hd content_length) seen'
              q next)
    ]

-- What a parsed request says of the buffer that it was parsed from.
pub record IsFramed (buf : Bytes) (req : HttpRequest) : Type 0 where
  pub head_end : header_end buf ≡ some req.header_len
  pub head_fits : req.header_len ≤ max_header_bytes
  pub body_is : req.body ≡ drop req.header_len buf
  pub body_in : req.body_len ≤ length req.body
  pub body_len_is : req.body_len ≡ length_or_zero req.content_length
  pub message_is : req.message_len ≡ req.header_len + req.body_len
  pub message_in : req.message_len ≤ length buf

-- The head ends where `header_end` says, given where the parser stopped.
pub record HeadSplit (buf rest : Bytes) : Type 0 where
  pub head : Bytes
  pub splits : buf ≡ head ++ rest
  pub ends : header_end buf ≡ some (length head)

Line-Block-HeadSplit :
    (buf p rest : Bytes) (l : Line buf p) → Block (length l.used) p rest → HeadSplit buf rest
unfolding header_end
Line-Block-HeadSplit buf p rest l b = record {
  head = l.used ++ (b'\r' ∷ b'\n' ∷ b.used);
  splits =
      l.splits
      ∙ ap (λ t. l.used ++ (b'\r' ∷ b'\n' ∷ t)) b.splits
      ∙ sym (append_assoc l.used _ rest);
  ends =
      ap (header_end_from 0) l.splits
      ∙ header_end_from-append 0 l.used _ l.not_cr
      ∙ ap (λ k. header_end_from k (b'\r' ∷ b'\n' ∷ p)) (zero-add (length l.used))
      ∙ b.ends
      ∙ ap some (omega (arith, length-append l.used (b'\r' ∷ b'\n' ∷ b.used)));
}

Accepted-HeadSplit :
    {buf : Bytes} {result : HttpParseResult} (a : Accepted buf result) → HeadSplit buf a.behind_head
unfolding parse_headers
Accepted-HeadSplit {buf} a =
    let l =
      Leaves-eq-some Line buf a.behind_line a.line (parse_request_line empty_request buf)
        (parse_request_line-Line empty_request buf) a.read_line in
    Line-Block-HeadSplit buf a.behind_line a.behind_head l (
      headers_loop-Block (max_headers + 1) (length l.used) a.line no_headers a.behind_line
        a.read_head)

-- The request that `frame_body` hands out.
abbrev pub framed : Bytes → HttpRequest → Bytes → HttpRequest
framed buf req rest = record req {
  header_len = length buf - length rest;
  body = rest;
  body_len = length_or_zero req.content_length;
  message_len = (length buf - length rest) + length_or_zero req.content_length;
}

parsed-injective : {r s : HttpRequest} → parsed r ≡ parsed s → r ≡ s
parsed-injective h = cc

pub frame_body-eq-parsed :
    (buf : Bytes) (req : HttpRequest) (rest : Bytes) {r : HttpRequest}
    → frame_body buf req rest ≡ parsed r
    → (length_or_zero req.content_length ≤ length rest) × (framed buf req rest ≡ r)
unfolding frame_body
frame_body-eq-parsed buf req rest h =
    elim (Bool-cases (ltb size_max (length_or_zero req.content_length))) [
      | inl large ↦ absurd (cc (rw large at h))
      | inr small ↦ elim (Bool-cases (ltb (length rest) (length_or_zero req.content_length))) [
        | inl short ↦ absurd (cc (rw (small, short) at h))
        | inr whole ↦ (le_of_ltb-false _ _ whole, parsed-injective (rw (small, whole) at h))
      ]
    ]

frame_body-IsFramed :
    (buf : Bytes) (req : HttpRequest) (rest : Bytes) {r : HttpRequest}
    → frame_body buf req rest ≡ parsed r
    → (s : HeadSplit buf rest) → length s.head ≤ max_header_bytes
    → IsFramed buf r
frame_body-IsFramed buf req rest h s fits =
    let (body_in, same) = frame_body-eq-parsed buf req rest h in
    let total : length buf ≡ length s.head + length rest =
      ap length s.splits ∙ length-append s.head rest in
    let head_len : length s.head ≡ length buf - length rest = omega arith in
    subst (IsFramed buf) same (record {
      head_end = s.ends ∙ ap some head_len;
      head_fits = omega arith;
      body_is =
          sym (drop-length s.head rest)
          ∙ ap (drop (length s.head)) (sym s.splits)
          ∙ ap (λ k. drop k buf) head_len;
      body_in = body_in;
      body_len_is = refl;
      message_is = refl;
      message_in = omega arith;
    })

-- When a buffer parses to a request, the head's length is the offset behind the first empty line of
-- the buffer, which is at most 32768; the body is what follows; its length is that of
-- Content-Length, 0 without one; and the whole message lies inside the buffer.
pub parsed-IsFramed :
    (buf : Bytes) {r : HttpRequest} → http_parse_request buf ≡ parsed r → IsFramed buf r
parsed-IsFramed buf {r} h =
    let a = parsed-Accepted buf h in
    let s = Accepted-HeadSplit a in
    let same : length s.head ≡ a.headers = some_inj (sym s.ends ∙ a.found) in
    frame_body-IsFramed buf a.req a.behind_head (sym a.result_is) s (rw same a.head_fits)

-- A line and headers that parse, with a head that is short enough, leave only the body's length to
-- be looked at.
pub http_parse_request-frame_body :
    (buf : Bytes) {line req : HttpRequest} {p rest : Bytes}
    → parse_request_line empty_request buf ≡ some (line, p)
    → parse_headers line p ≡ some (req, rest)
    → length buf - length rest ≤ max_header_bytes
    → http_parse_request buf ≡ frame_body buf req rest
unfolding http_parse_request parse_headers
http_parse_request-frame_body [] {line} {p = p} h k fits =
    let l = Leaves-eq-some Line [] p line _ (parse_request_line-Line empty_request []) h in
    absurd (omega (arith, ap length l.splits, length-append l.used (b'\r' ∷ b'\n' ∷ p)))
http_parse_request-frame_body (c ∷ cs) {line} {p = p} {rest = rest} h k fits =
    let l =
      Leaves-eq-some Line (c ∷ cs) p line _ (parse_request_line-Line empty_request (c ∷ cs)) h in
    let s =
      Line-Block-HeadSplit (c ∷ cs) p rest l
        (headers_loop-Block (max_headers + 1) (length l.used) line no_headers p k) in
    let total : length (c ∷ cs) ≡ length s.head + length rest =
      ap length s.splits ∙ length-append s.head rest in
    rw (
      suc_ne_zero (length cs),
      s.ends,
      le→ltb-false max_header_bytes (length s.head) (omega arith),
      h,
      k,
    )
