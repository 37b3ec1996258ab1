-- ===== src/Response/Wire.antt =====
-- `response_write` against the text that the headers stand for.
use gargantua.Common.{
  contains, ℕ, ◌+◌, ◌-◌, ◌*◌, ◌≤◌, ◌<◌, Bool, true, not, ◌&&◌, none, some, List, [], ◌∷◌, ◌++◌,
  Bytes, codes, append-nil, append_assoc, length-append, strcase_eq, ltb, leb, ◌==◌, if◌then◌else◌,
  length, all, All, ◌≡◌, inl, inr, refl, arith, Bool-cases,
}
use gargantua.Response.{
  ResponseHeader, Response, wire_cap, response_token, response_value, header_line, write_loop,
  response_write, is_value_byte, is_token_byte,
}
use gargantua.Response.Safe.{HeaderIsSafe, IsSafe}

-- A redirect is not sent with an error.
abbrev pub is_sent : ℕ → ResponseHeader → Bool
is_sent status h = not (leb 400 status && strcase_eq h.name (codes "Location"))

-- The lines of the headers that are sent.
abbrev pub lines : ℕ → List ResponseHeader → Bytes
lines status [] = []
lines status (h ∷ hs) =
    if is_sent status h then header_line h ++ lines status hs else lines status hs

header_line-length :
    (h : ResponseHeader) → length (header_line h) ≡ length h.name + length h.value + 4
header_line-length h = omega (
  arith,
  length-append h.name (codes ": " ++ (h.value ++ codes "\r\n")),
  length-append h.value (codes "\r\n"),
)

write_loop-lines :
    (size status : ℕ) (hs : List ResponseHeader) (out : Bytes)
    → length out < size
    → write_loop size status hs out ≡ (
        if ltb (length out + length (lines status hs)) size
        then some (out ++ lines status hs)
        else none)
unfolding write_loop
write_loop-lines size status [] out fits = ground (arith, append-nil out)
write_loop-lines size status (h ∷ hs) out fits = elim (Bool-cases (is_sent status h)) [
  | inr skipped ↦ ground (arith, write_loop-lines size status hs out fits)
  | inl sent ↦ elim (Bool-cases (leb (size - length out) (length (header_line h)))) [
    | inl full ↦ ground (arith, length-append (header_line h) (lines status hs))
    | inr room ↦ ground (
      arith,
      write_loop-lines size status hs (out ++ header_line h),
      append_assoc out (header_line h) (lines status hs),
      length-append out (header_line h),
      length-append (header_line h) (lines status hs),
    )
  ]
]

lines-length :
    (status : ℕ) (hs : List ResponseHeader)
    → All HeaderIsSafe hs
    → length (lines status hs) ≤ length hs * 1090
lines-length status [] a = omega arith
lines-length status (h ∷ hs) a = ground (
  arith,
  a.0.name_fits,
  a.0.value_fits,
  header_line-length h,
  length-append (header_line h) (lines status hs),
  lines-length status hs a.1,
)

-- Into a buffer of `size` bytes, `response_write` prints the line of each header in turn, but
-- Location for a status of 400 or more; it fails exactly when the text and a NUL do not fit.
pub response_write-lines :
    (size status : ℕ) (r : Response)
    → response_write size status r
      ≡ (if ltb (length (lines status r.headers)) size then some (lines status r.headers) else none)
unfolding response_write
response_write-lines size status r = elim (Bool-cases (size == 0)) [
  | inl empty ↦ ground arith
  | inr positive ↦ ground (arith, write_loop-lines size status r.headers [])
]

-- With the size that the header file gives for the wire, the headers of a safe response always fit.
pub response_write_fits :
    (status : ℕ) (r : Response)
    → IsSafe r
    → response_write wire_cap status r ≡ some (lines status r.headers)
response_write_fits status r s = ground (
  arith,
  response_write-lines wire_cap status r,
  lines-length status r.headers s.headers_safe,
  s.count,
)

-- How often a byte stands in a text.
abbrev pub count : ℕ → Bytes → ℕ
count b [] = 0
count b (c ∷ cs) = (if c == b then 1 else 0) + count b cs

abbrev pub sent_count : ℕ → List ResponseHeader → ℕ
sent_count status [] = 0
sent_count status (h ∷ hs) = (if is_sent status h then 1 else 0) + sent_count status hs

count-append : (b : ℕ) (xs ys : Bytes) → count b (xs ++ ys) ≡ count b xs + count b ys
count-append b [] ys = omega arith
count-append b (x ∷ xs) ys = omega (arith, count-append b xs ys)

value_newlines : (v : Bytes) → all is_value_byte v ≡ true → count b'\n' v ≡ 0
value_newlines [] h = refl
value_newlines (c ∷ v) h = ground (arith, value_newlines v)

token_newlines : (t : Bytes) → all is_token_byte t ≡ true → count b'\n' t ≡ 0
unfolding contains
token_newlines [] h = refl
token_newlines (c ∷ t) h = ground (arith, token_newlines t)

name_newlines : (t : Bytes) → response_token t ≡ true → count b'\n' t ≡ 0
unfolding response_token
name_newlines [] h = refl
name_newlines (c ∷ t) h = token_newlines (c ∷ t) h

header_line_newlines : (h : ResponseHeader) → HeaderIsSafe h → count b'\n' (header_line h) ≡ 1
unfolding response_value
header_line_newlines h s = ground (
  arith,
  count-append b'\n' h.name (codes ": " ++ (h.value ++ codes "\r\n")),
  count-append b'\n' h.value (codes "\r\n"),
  name_newlines h.name s.token,
  value_newlines h.value s.value,
)

-- No response splitting: the text written for a safe response has as many line ends as headers are
-- sent, whatever their names and values.
pub response_write_newlines :
    (size status : ℕ) (r : Response) {out : Bytes}
    → IsSafe r
    → response_write size status r ≡ some out
    → count b'\n' out ≡ sent_count status r.headers
response_write_newlines size status r {out} s h =
    ground (arith, response_write-lines size status r, newlines r.headers s.headers_safe)
  where
    newlines :
        (hs : List ResponseHeader)
        → All HeaderIsSafe hs
        → count b'\n' (lines status hs) ≡ sent_count status hs
    newlines [] a = refl
    newlines (h ∷ hs) a = ground (
      arith,
      newlines hs a.1,
      header_line_newlines h a.0,
      count-append b'\n' (header_line h) (lines status hs),
    )
