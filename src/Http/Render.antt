-- ===== src/Http/Render.antt =====
-- Requests as a client writes them, and the parser on each piece of one.
use mathlib.Core.List.{reverse, reverse-reverse}
use gargantua.Common.{
  ℕ, ◌+◌, ◌≤◌, ◌<◌, Bool, true, false, some, List, [], ◌∷◌, ◌++◌, ◌≡◌, refl, ap, ◌∙◌, arith, Bytes,
  codes, ◌==◌, length, all, contains,
}
use gargantua.Http.{
  HttpHeader, HttpRequest, max_method, max_path, is_token_char, token_loop, read_token,
  is_path_byte, path_loop, is_path_start, read_version, expect_crlf, parse_request_line, is_blank,
  skip_blanks, name_loop, parse_header_name, is_value_byte, value_loop, trim_end,
  parse_header_value,
}
use gargantua.Http.Parse.{parse_header_line}

pub record Message : Type 0 where
  pub method : Bytes
  pub path : Bytes
  pub minor_version : ℕ
  pub headers : List HttpHeader
  pub body : Bytes

-- Each piece stands in front of what follows it.
abbrev pub render_line : Message → Bytes → Bytes
render_line m rest =
    m.method
    ++ (b' '
        ∷ (m.path
            ++ (b' ' ∷ (codes "HTTP/1." ++ ((b'0' + m.minor_version) ∷ b'\r' ∷ b'\n' ∷ rest)))))

abbrev pub render_header : HttpHeader → Bytes → Bytes
render_header h rest = h.name ++ (b':' ∷ b' ' ∷ (h.value ++ (b'\r' ∷ b'\n' ∷ rest)))

abbrev pub render_headers : List HttpHeader → Bytes → Bytes
render_headers [] rest = b'\r' ∷ b'\n' ∷ rest
render_headers (h ∷ hs) rest = render_header h (render_headers hs rest)

abbrev pub render : Message → Bytes → Bytes
render m rest = render_line m (render_headers m.headers (m.body ++ rest))

abbrev pub starts_blank : Bytes → Bool
starts_blank [] = false
starts_blank (c ∷ _) = is_blank c

-- A header whose name and value the wire format can carry as they are.
pub record IsPlain (h : HttpHeader) : Type 0 where
  pub name_some : 0 < length h.name
  pub name_bytes : all is_token_char h.name ≡ true
  pub value_bytes : all is_value_byte h.value ≡ true
  pub trimmed_start : starts_blank h.value ≡ false
  pub trimmed_end : starts_blank (reverse h.value) ≡ false

token_loop_text :
    (cap n : ℕ) (t p : Bytes) (c : ℕ)
    → all is_token_char t ≡ true
    → n + length t < cap
    → is_token_char c ≡ false
    → token_loop cap n (t ++ (c ∷ p)) ≡ some (t, c ∷ p)
unfolding token_loop
token_loop_text cap n [] p c ok fits stop = rw stop
token_loop_text cap n (x ∷ t) p c ok fits stop = ground (arith, token_loop_text cap (n + 1) t p c)

path_loop_text :
    (n : ℕ) (t p : Bytes)
    → all is_path_byte t ≡ true
    → n + length t < max_path
    → path_loop n (t ++ (b' ' ∷ p)) ≡ some (t, b' ' ∷ p)
unfolding path_loop
path_loop_text n [] p ok fits = refl
path_loop_text n (x ∷ t) p ok fits = ground (arith, path_loop_text (n + 1) t p)

token-ne-colon : (c : ℕ) → is_token_char c ≡ true → (c == b':') ≡ false
unfolding is_token_char contains
token-ne-colon c h = ground arith

name_loop_text :
    (t p : Bytes) → all is_token_char t ≡ true → name_loop (t ++ (b':' ∷ p)) ≡ some (t, b':' ∷ p)
unfolding name_loop
name_loop_text [] p ok = refl
name_loop_text (x ∷ t) p ok = ground (arith, name_loop_text t p, token-ne-colon x)

value_loop_text :
    (t p : Bytes) → all is_value_byte t ≡ true → value_loop (t ++ (b'\r' ∷ p)) ≡ some (t, b'\r' ∷ p)
unfolding value_loop
value_loop_text [] p ok = refl
value_loop_text (x ∷ t) p ok = ground (arith, value_loop_text t p)

not_blank_token : is_token_char b' ' ≡ false
unfolding is_token_char contains
not_blank_token = refl

nonempty_test : (t : Bytes) → 0 < length t → (length t == 0) ≡ false
nonempty_test t h = ground arith

read_token_text :
    (cap : ℕ) (t p : Bytes)
    → 0 < length t
    → length t < cap
    → all is_token_char t ≡ true
    → read_token cap (t ++ (b' ' ∷ p)) ≡ some (t, b' ' ∷ p)
unfolding read_token
read_token_text cap t p some_byte fits ok =
    rw (token_loop_text cap 0 t p b' ' ok (omega arith) not_blank_token, nonempty_test t some_byte)

-- What the parser accepts as a request line.
pub record LineIsSendable (m : Message) : Type 0 where
  pub method_some : 0 < length m.method
  pub method_fits : length m.method < max_method
  pub method_bytes : all is_token_char m.method ≡ true
  pub path_fits : length m.path < max_path
  pub path_bytes : all is_path_byte m.path ≡ true
  pub path_starts : is_path_start m.path ≡ true
  pub version_known : m.minor_version ≤ 1

digit_version : (n : ℕ) (p : Bytes) → n ≤ 1 → read_version ((b'0' + n) ∷ p) ≡ some (n, p)
unfolding read_version
digit_version n p h = ground arith

pub parse_request_line-render :
    (base : HttpRequest) (m : Message) (rest : Bytes)
    → LineIsSendable m
    → parse_request_line base (render_line m rest)
      ≡ some
          (record base { method = m.method; path = m.path; minor_version = m.minor_version }, rest)
unfolding parse_request_line
parse_request_line-render base m rest l = rw (
  read_token_text max_method m.method _ l.method_some l.method_fits l.method_bytes,
  path_loop_text 0 m.path _ l.path_bytes (omega (arith, l.path_fits)),
  l.path_starts,
  digit_version m.minor_version _ l.version_known,
)

skip_blanks_text :
    (v p : Bytes) → starts_blank v ≡ false → skip_blanks (v ++ (b'\r' ∷ p)) ≡ v ++ (b'\r' ∷ p)
unfolding skip_blanks
skip_blanks_text [] p h = refl
skip_blanks_text (c ∷ v) p h = rw h

skip_blanks_same : (v : Bytes) → starts_blank v ≡ false → skip_blanks v ≡ v
unfolding skip_blanks
skip_blanks_same [] h = refl
skip_blanks_same (c ∷ v) h = rw h

trim_end_same : (v : Bytes) → starts_blank (reverse v) ≡ false → trim_end v ≡ v
unfolding trim_end
trim_end_same v h = ap reverse (skip_blanks_same (reverse v) h) ∙ reverse-reverse v

skip_blanks_space : (p : Bytes) → skip_blanks (b' ' ∷ p) ≡ skip_blanks p
unfolding skip_blanks
skip_blanks_space p = refl

parse_header_name-render :
    (h : HttpHeader) (rest : Bytes)
    → IsPlain h
    → parse_header_name (render_header h rest) ≡ some (h.name, h.value ++ (b'\r' ∷ b'\n' ∷ rest))
unfolding parse_header_name
parse_header_name-render h rest l = rw (
  name_loop_text h.name _ l.name_bytes,
  nonempty_test h.name l.name_some,
  skip_blanks_space (h.value ++ (b'\r' ∷ b'\n' ∷ rest)),
  skip_blanks_text h.value (b'\n' ∷ rest) l.trimmed_start,
)

pub parse_header_line-render :
    (h : HttpHeader) (rest : Bytes)
    → IsPlain h
    → parse_header_line (render_header h rest) ≡ some (h, rest)
unfolding parse_header_line parse_header_value expect_crlf
parse_header_line-render h rest l = rw (
  parse_header_name-render h rest l,
  value_loop_text h.value (b'\n' ∷ rest) l.value_bytes,
  trim_end_same h.value l.trimmed_end,
)
