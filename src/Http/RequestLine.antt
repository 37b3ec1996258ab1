-- ===== src/Http/RequestLine.antt =====
-- What an accepted request line holds: `parse_request_line` of src/http/http.c.
use gargantua.Common.{
  ℕ, zero, suc, ◌+◌, ◌≤◌, ◌<◌, Bool, true, Option, none, some, [], ◌∷◌, ◌≡◌, ◌≢◌, ==_iff, contains,
  All, ◌⊎◌, inl, inr, refl, sym, ap, arith, Bytes, codes, leb, ◌==◌, length, all, ◌>>=◌,
  >>=-eq-some, guard-eq-some, Bool-cases, some_inj, lt_of_leb-false,
}
use gargantua.Http.Parse.{HeaderCounts, no_headers, headers_loop, parse_headers, http_parse_request}
use gargantua.Http.Inversion.{finished, header, headers_loop-Round, add_header, parsed-Accepted}
use gargantua.Http.HeadEnd.{framed, frame_body-eq-parsed}
use mathlib.Core.Path.{subst}
use gargantua.Http.{
  HttpRequest, max_method, max_path, is_token_char, token_loop, read_token, is_path_byte, path_loop,
  is_path_start, expect_byte, expect_bytes, read_version, expect_crlf, parse_request_line,
  empty_request, max_headers, parsed,
}

-- The pieces of a request line, and the fields that they become.
pub record LineParts (base : HttpRequest) (p : Bytes) (req : HttpRequest) (rest : Bytes)
    : Type 0 where
  pub method : Bytes
  pub behind_method : Bytes
  pub read_method : read_token max_method p ≡ some (method, behind_method)
  pub path_text : Bytes
  pub path : Bytes
  pub behind_path : Bytes
  pub read_path : path_loop 0 path_text ≡ some (path, behind_path)
  pub starts : is_path_start path ≡ true
  pub version_text : Bytes
  pub minor : ℕ
  pub behind_version : Bytes
  pub version : read_version version_text ≡ some (minor, behind_version)
  pub same : record base { method = method; path = path; minor_version = minor } ≡ req

pub parse_request_line-LineParts :
    (base : HttpRequest) (p : Bytes) {req : HttpRequest} {rest : Bytes}
    → parse_request_line base p ≡ some (req, rest)
    → LineParts base p req rest
unfolding parse_request_line
parse_request_line-LineParts base p h =
    let ((method, p1), e1, h1) = >>=-eq-some (read_token max_method p) _ h in
    let (p2, e2, h2) = >>=-eq-some (expect_byte b' ' p1) _ h1 in
    let ((path, p3), e3, h3) = >>=-eq-some (path_loop 0 p2) _ h2 in
    let (p4, e4, h4) = >>=-eq-some (expect_byte b' ' p3) _ h3 in
    let (start, h5) = guard-eq-some (is_path_start path) _ h4 in
    let (p5, e5, h6) = >>=-eq-some (expect_bytes (codes "HTTP/1.") p4) _ h5 in
    let ((minor, p6), e6, h7) = >>=-eq-some (read_version p5) _ h6 in
    let (p7, e7, h8) = >>=-eq-some (expect_crlf p6) _ h7 in
    record {
      method = method;
      behind_method = p1;
      read_method = e1;
      path_text = p2;
      path = path;
      behind_path = p3;
      read_path = e3;
      starts = start;
      version_text = p5;
      minor = minor;
      behind_version = p6;
      version = e6;
      same = ap (λ (t : HttpRequest × Bytes). t.0) (some_inj h8);
    }

-- What a loop writes, where it succeeds: bytes that pass `ok`, and below `cap` if there are any.
abbrev Written : (ℕ → Bool) → ℕ → ℕ → Option (Bytes × Bytes) → Type 0
Written ok cap n none = Unit
Written ok cap n (some (out, rest)) =
    (all ok out ≡ true) × ((length out ≡ 0) ⊎ (n + length out < cap))

Written-more :
    (ok : ℕ → Bool) (cap n c : ℕ) (m : Option (Bytes × Bytes))
    → ok c ≡ true
    → n + 1 < cap
    → Written ok cap (n + 1) m
    → Written ok cap n (do (out, rest) ← m; some (c ∷ out, rest))
Written-more ok cap n c none t h w = tt
Written-more ok cap n c (some (out, rest)) t h (good, inl z) = (ground arith, inr (omega arith))
Written-more ok cap n c (some (out, rest)) t h (good, inr b) = (ground arith, inr (omega arith))

token_loop-Written : (cap n : ℕ) (p : Bytes) → Written is_token_char cap n (token_loop cap n p)
unfolding token_loop
token_loop-Written cap n [] = (refl, inl refl)
token_loop-Written cap n (c ∷ p) = elim (Bool-cases (is_token_char c)) [
  | inr other ↦ rw other (refl, inl refl)
  | inl token ↦ elim (Bool-cases (leb cap (n + 1))) [
    | inl full ↦ rw (token, full) tt
    | inr room ↦
        rw (token, room)
          (Written-more is_token_char cap n c _ token (lt_of_leb-false cap (n + 1) room)
            (token_loop-Written cap (n + 1) p))
  ]
]

path_loop-Written : (n : ℕ) (p : Bytes) → Written is_path_byte max_path n (path_loop n p)
unfolding path_loop
path_loop-Written n [] = (refl, inl refl)
path_loop-Written n (c ∷ p) = elim (Bool-cases (c == b' ')) [
  | inl blank ↦ rw blank (refl, inl refl)
  | inr more ↦ elim (Bool-cases (is_path_byte c)) [
    | inr bad ↦ rw (more, bad) tt
    | inl good ↦ elim (Bool-cases (leb max_path (n + 1))) [
      | inl full ↦ rw (more, good, full) tt
      | inr room ↦
          rw (more, good, room)
            (Written-more is_path_byte max_path n c _ good (lt_of_leb-false max_path (n + 1) room)
              (path_loop-Written (n + 1) p))
    ]
  ]
]

-- The fields of an accepted request line are inside their arrays and hold only permitted bytes.
record LineIsValid (req : HttpRequest) : Type 0 where
  pub method_some : 0 < length req.method
  pub method_fits : length req.method < max_method
  pub method_bytes : all is_token_char req.method ≡ true
  pub path_some : 0 < length req.path
  pub path_fits : length req.path < max_path
  pub path_bytes : all is_path_byte req.path ≡ true
  pub path_starts : is_path_start req.path ≡ true
  pub version_known : req.minor_version ≤ 1

read_token-Written :
    (cap : ℕ) (p : Bytes) {out rest : Bytes}
    → read_token cap p ≡ some (out, rest)
    → (0 < length out) × (length out < cap) × (all is_token_char out ≡ true)
unfolding read_token
read_token-Written cap p h = ground (arith, token_loop-Written cap 0 p)

read_version-le :
    (p : Bytes) {minor : ℕ} {rest : Bytes} → read_version p ≡ some (minor, rest) → minor ≤ 1
unfolding read_version
read_version-le [] h = cc
read_version-le (c ∷ p) h = ground arith

path-Written :
    (p : Bytes) {path rest : Bytes}
    → path_loop 0 p ≡ some (path, rest)
    → is_path_start path ≡ true
    → (0 < length path) × (length path < max_path) × (all is_path_byte path ≡ true)
unfolding is_path_start
path-Written p {path} {rest} h s =
    go path (subst (Written is_path_byte max_path 0) h (path_loop-Written 0 p)) s
  where
    go :
        (path : Bytes)
        → Written is_path_byte max_path 0 (some (path, rest))
        → is_path_start path ≡ true
        → (0 < length path) × (length path < max_path) × (all is_path_byte path ≡ true)
    go [] w s = cc
    go (c ∷ path) (ok, w) s = (omega arith, omega arith, ok)

LineParts-IsValid :
    {base : HttpRequest} {p : Bytes} {req : HttpRequest} {rest : Bytes}
    → LineParts base p req rest
    → LineIsValid req
LineParts-IsValid {p = p} l =
    let (m1, m2, m3) = read_token-Written max_method p l.read_method in
    let (p1, p2, p3) = path-Written l.path_text l.read_path l.starts in
    subst LineIsValid l.same (record {
      method_some = m1;
      method_fits = m2;
      method_bytes = m3;
      path_some = p1;
      path_fits = p2;
      path_bytes = p3;
      path_starts = l.starts;
      version_known = read_version-le l.version_text l.version;
    })

abbrev SameLine : HttpRequest → HttpRequest → Type 0
SameLine a b = (a.method ≡ b.method) × (a.path ≡ b.path) × (a.minor_version ≡ b.minor_version)

LineIsValid-SameLine : {a b : HttpRequest} → SameLine a b → LineIsValid a → LineIsValid b
LineIsValid-SameLine (m, p, v) l = record {
  method_some = rw (← m) l.method_some;
  method_fits = rw (← m) l.method_fits;
  method_bytes = rw (← m) l.method_bytes;
  path_some = rw (← p) l.path_some;
  path_fits = rw (← p) l.path_fits;
  path_bytes = rw (← p) l.path_bytes;
  path_starts = rw (← p) l.path_starts;
  version_known = rw (← v) l.version_known;
}

headers_loop-SameLine :
    (fuel : ℕ) (req : HttpRequest) (seen : HeaderCounts) (p : Bytes) {req' : HttpRequest}
    {rest : Bytes}
    → headers_loop fuel req seen p ≡ some (req', rest)
    → SameLine req req'
unfolding headers_loop
headers_loop-SameLine zero req seen p h = cc
headers_loop-SameLine (suc fuel) req seen p h = elim (headers_loop-Round fuel req seen p h) [
  | finished _ _ same ↦ subst (SameLine req) (sym same) (refl, refl, refl)
  | header hd q seen' cl _ _ _ _ next ↦
      headers_loop-SameLine fuel (add_header req hd cl) seen' q next
]

-- A token byte, or NUL.
abbrev pub IsTokenOrNul : ℕ → Type 0
IsTokenOrNul c =
    ((b'0' ≤ c) × (c ≤ b'9'))
    ⊎ ((b'A' ≤ c) × (c ≤ b'Z'))
    ⊎ ((b'a' ≤ c) × (c ≤ b'z'))
    ⊎ (contains (codes "!#$%&'*+-.^_`|~") c ≡ true)
    ⊎ (c ≡ 0)

abbrev pub IsPathByte : ℕ → Type 0
IsPathByte c = (0x20 < c) × (c ≢ 0x7f) × (c ≢ b'#')

pub record IsRequestLine (req : HttpRequest) : Type 0 where
  pub method_some : 0 < length req.method
  pub method_fits : length req.method < 16
  pub method_bytes : All IsTokenOrNul req.method
  pub path_some : 0 < length req.path
  pub path_fits : length req.path < 512
  pub path_bytes : All IsPathByte req.path
  pub path_starts : (req.path ≡ codes "*") ⊎ ((rest : Bytes) × (req.path ≡ b'/' ∷ rest))
  pub version_known : req.minor_version ≤ 1

is_token_char-IsTokenOrNul : (c : ℕ) → is_token_char c ≡ true → IsTokenOrNul c
unfolding is_token_char
is_token_char-IsTokenOrNul c h = ground (arith, h)

all-All :
    (p : ℕ → Bool) (P : ℕ → Type 0) (s : Bytes)
    → ((c : ℕ) → p c ≡ true → P c)
    → all p s ≡ true
    → All P s
all-All p P [] f h = tt
all-All p P (c ∷ s) f h = (f c (ground (arith, h)), all-All p P s f (ground (arith, h)))

is_path_start-starts :
    (path : Bytes)
    → is_path_start path ≡ true
    → (path ≡ codes "*") ⊎ ((rest : Bytes) × (path ≡ b'/' ∷ rest))
unfolding is_path_start
is_path_start-starts [] h = absurd cc
is_path_start-starts (c ∷ []) h = elim (Bool-cases (c == b'/')) [
  | inl slash ↦ inr ([], ap (λ d. d ∷ []) ((==_iff c b'/').0 slash))
  | inr other ↦ inl (ap (λ d. d ∷ []) (ground (arith, h, other)))
]
is_path_start-starts (c ∷ d ∷ s) h = inr (d ∷ s, ap (λ e. e ∷ d ∷ s) ((==_iff c b'/').0 h))

LineIsValid-IsRequestLine : {req : HttpRequest} → LineIsValid req → IsRequestLine req
LineIsValid-IsRequestLine {req} l = record {
  method_some = l.method_some;
  method_fits = l.method_fits;
  method_bytes =
      all-All is_token_char IsTokenOrNul req.method is_token_char-IsTokenOrNul l.method_bytes;
  path_some = l.path_some;
  path_fits = l.path_fits;
  path_bytes =
      all-All is_path_byte IsPathByte req.path
        (λ c h. (ground (arith, h), ground (arith, h), ground (arith, h))) l.path_bytes;
  path_starts = is_path_start-starts req.path l.path_starts;
  version_known = l.version_known;
}

-- When a buffer parses to a request, the method has 1 to 15 bytes, each a token byte of RFC 9110 or NUL (which
-- `is_token_char` lets through too), the path has 1 to 511 bytes that are over 0x20 and neither DEL nor `#`, the
-- path is `*` or begins with `/`, and the version is 0 or 1.
pub parsed-IsRequestLine :
    (buf : Bytes) {r : HttpRequest} → http_parse_request buf ≡ parsed r → IsRequestLine r
unfolding parse_headers
parsed-IsRequestLine buf {r} h =
    let a = parsed-Accepted buf h in
    let l = LineParts-IsValid (parse_request_line-LineParts empty_request buf a.read_line) in
    let same =
      headers_loop-SameLine (max_headers + 1) a.line no_headers a.behind_line a.read_head in
    let (_, is) = frame_body-eq-parsed buf a.req a.behind_head (sym a.result_is) in
    LineIsValid-IsRequestLine
      (subst LineIsValid is (LineIsValid-SameLine {b = framed buf a.req a.behind_head} same l))
