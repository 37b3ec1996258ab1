-- ===== src/Response.antt =====
-- The response headers of src/http/response.c, with the limits of include/response.h. The
-- variables of a thread (`headers`, `header_count`, `status_override`) are one record, which each
-- function takes and returns; a NULL argument is not modelled. Texts are C strings.
pub mod Wire
pub mod Safe
mod Tests
use gargantua.Common.{
  ℕ, zero, suc, ◌+◌, ◌-◌, ◌*◌, Bool, true, false, not, ◌&&◌, ◌||◌, Option, none, some, List, [],
  ◌∷◌, ◌++◌, Bytes, codes, within, contains, strcase_eq, strcase_starts, ltb, leb, ◌==◌,
  if◌then◌else◌, length, all,
}

abbrev pub max_headers : ℕ
max_headers = 16

abbrev pub name_cap : ℕ
name_cap = 64

abbrev pub value_cap : ℕ
value_cap = 1024

abbrev pub wire_cap : ℕ
wire_cap = max_headers * (name_cap + value_cap + 4)

pub record ResponseHeader : Type 0 where
  pub name : Bytes
  pub value : Bytes

-- `header_count` is the list's length.
pub record Response : Type 0 where
  pub headers : List ResponseHeader
  pub status_override : ℕ

abbrev pub is_token_byte : ℕ → Bool
is_token_byte c =
    within b'a' b'z' c
    || within b'A' b'Z' c
    || within b'0' b'9' c
    || contains (codes "!#$%&'*+-.^_`|~") c

pub response_token : Bytes → Bool
response_token [] = false
response_token (c ∷ cs) = all is_token_byte (c ∷ cs)

abbrev pub is_value_byte : ℕ → Bool
is_value_byte c = not (c == 127 || (ltb c 32 && not (c == b'\t')))

unfoldable pub response_value : Bytes → Bool
response_value text = all is_value_byte text

abbrev pub reserved_names : List Bytes
reserved_names =
    codes "Content-Length"
    ∷ codes "Transfer-Encoding"
    ∷ codes "Connection"
    ∷ codes "Trailer"
    ∷ codes "TE"
    ∷ codes "Upgrade"
    ∷ codes "Keep-Alive"
    ∷ codes "Content-Type"
    ∷ codes "Allow"
    ∷ codes "Vary"
    ∷ codes "X-Content-Type-Options"
    ∷ codes "Referrer-Policy"
    ∷ codes "Content-Security-Policy"
    ∷ codes "Strict-Transport-Security"
    ∷ codes "X-Frame-Options"
    ∷ codes "X-XSS-Protection"
    ∷ codes "Content-Security-Policy-Report-Only"
    ∷ codes "Permissions-Policy"
    ∷ codes "Cross-Origin-Resource-Policy"
    ∷ codes "Cross-Origin-Opener-Policy"
    ∷ codes "Cross-Origin-Embedder-Policy"
    ∷ codes "Proxy-Authenticate"
    ∷ codes "Proxy-Authorization"
    ∷ []

pub is_among : Bytes → List Bytes → Bool
is_among name [] = false
is_among name (n ∷ ns) = strcase_eq name n || is_among name ns

pub is_reserved_header : Bytes → Bool
is_reserved_header name =
    strcase_starts (codes "Access-Control-") name || is_among name reserved_names

-- Where the name stands among the headers, or the place behind the last.
pub index_of : Bytes → List ResponseHeader → ℕ
index_of name [] = 0
index_of name (h ∷ hs) = let i = index_of name hs in if strcase_eq h.name name then 0 else i + 1

-- The write at an index: over the header there, or behind the last.
pub put : List ResponseHeader → ℕ → ResponseHeader → List ResponseHeader
put [] i h = h ∷ []
put (x ∷ xs) zero h = h ∷ xs
put (x ∷ xs) (suc i) h = x ∷ put xs i h

pub accepts : Bytes → Bytes → Bool
accepts name value = not (
    leb name_cap (length name)
    || leb value_cap (length value)
    || not (response_token name)
    || not (response_value value)
    || is_reserved_header name)

-- 0 is `true`, -1 is `false`.
pub response_header : Bytes → Bytes → Response → Bool × Response
response_header name value r =
    let index = index_of name r.headers in
    if not (accepts name value)
    then (false, r)
    else if index == max_headers
    then (false, r)
    else (true, record r { headers = put r.headers index (record { name = name; value = value }) })

pub response_location : Bytes → Response → Bool × Response
response_location value = response_header (codes "Location") value

pub response_status : ℕ → Response → Bool × Response
response_status code r =
    if ltb code 200 || ltb 599 code then (false, r) else (true, record r { status_override = code })

pub response_reset : Response → Response
response_reset r = record { headers = []; status_override = 0 }

pub response_status_get : ℕ → Response → ℕ
response_status_get fallback r =
    if not (r.status_override == 0) then r.status_override else fallback

-- What `snprintf` prints for one header.
abbrev pub header_line : ResponseHeader → Bytes
header_line h = h.name ++ (codes ": " ++ (h.value ++ codes "\r\n"))

-- The loop of `response_write`: the text so far, in a buffer of `size` bytes.
pub write_loop : ℕ → ℕ → List ResponseHeader → Bytes → Option Bytes
write_loop size status [] out = some out
write_loop size status (h ∷ hs) out =
    let skipped = write_loop size status hs out in
    let next = write_loop size status hs (out ++ header_line h) in
    if leb 400 status && strcase_eq h.name (codes "Location")
    then skipped
    else if leb (size - length out) (length (header_line h))
    then none
    else next

pub response_write : ℕ → ℕ → Response → Option Bytes
response_write size status r = if size == 0 then none else write_loop size status r.headers []
