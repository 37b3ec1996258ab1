-- ===== src/Http/Lines.antt =====
-- Each piece of the parser reads bytes that are no carriage return, so that a request line and a
-- header line each end at the first line end of their input.
use gargantua.Common.{
  ℕ, ◌+◌, true, not, ◌&&◌, ◌||◌, Option, none, some, [], ◌∷◌, ◌≡◌, inl, inr, arith, Bytes, codes,
  contains, leb, ◌==◌, length, All, ◌>>=◌, Bool-cases,
}
use gargantua.Http.{
  HttpRequest, is_token_char, token_loop, read_token, max_method, is_path_byte, path_loop,
  is_path_start, max_path, expect_byte, expect_bytes, read_version, expect_crlf, parse_request_line,
  is_blank, skip_blanks, name_loop, parse_header_name, value_loop, parse_header_value,
  is_value_byte,
}
use gargantua.Http.Parse.{parse_header_line}
use gargantua.Http.Reads.{
  NotCr, Reads, Reads-refl, Reads-cons, Reads-trans, Line, Reads-Line, Leaves, LeavesRest,
  Leaves-bind, Leaves-guard, Leaves-if, Leaves-rest,
}

-- One more byte in front of a loop's output.
pub Leaves-more :
    (p : Bytes) (c : ℕ) (m : Option (Bytes × Bytes))
    → NotCr c
    → Leaves Reads p m
    → Leaves Reads (c ∷ p) (do (out, rest) ← m; some (c ∷ out, rest))
Leaves-more p c none n h = tt
Leaves-more p c (some (out, rest)) n h = Reads-cons c n h

token-NotCr : (c : ℕ) → is_token_char c ≡ true → NotCr c
unfolding is_token_char contains
token-NotCr c h = ground arith

pub token_loop-Reads : (cap n : ℕ) (p : Bytes) → Leaves Reads p (token_loop cap n p)
unfolding token_loop
token_loop-Reads cap n [] = Reads-refl []
token_loop-Reads cap n (c ∷ p) =
    Leaves-if Reads (c ∷ p) (is_token_char c) _ _
      (λ t.
        Leaves-if Reads (c ∷ p) (leb cap (n + 1)) _ _ (λ _. tt)
          (λ _. Leaves-more p c _ (token-NotCr c t) (token_loop-Reads cap (n + 1) p)))
      (λ _. Reads-refl (c ∷ p))

abbrev reads_extend : (p q rest : Bytes) → Reads p q → Reads q rest → Reads p rest
reads_extend p q rest = Reads-trans

abbrev line_extend : (p q rest : Bytes) → Reads p q → Line q rest → Line p rest
line_extend p q rest = Reads-Line

read_token-Reads : (cap : ℕ) (p : Bytes) → Leaves Reads p (read_token cap p)
unfolding read_token
read_token-Reads cap p =
    Leaves-bind Reads reads_extend p (token_loop cap 0 p) _ (token_loop-Reads cap 0 p)
      λ out q. Leaves-guard Reads q (not (length out == 0)) (some (out, q)) (Reads-refl q)

path_loop-Reads : (n : ℕ) (p : Bytes) → Leaves Reads p (path_loop n p)
unfolding path_loop
path_loop-Reads n [] = Reads-refl []
path_loop-Reads n (c ∷ p) =
    Leaves-if Reads (c ∷ p) (c == b' ') _ _ (λ _. Reads-refl (c ∷ p))
      λ _.
        Leaves-if Reads (c ∷ p) (not (is_path_byte c)) _ _ (λ _. tt)
          λ ok.
            Leaves-if Reads (c ∷ p) (leb max_path (n + 1)) _ _ (λ _. tt)
              λ _. Leaves-more p c _ (ground arith) (path_loop-Reads (n + 1) p)

expect_byte-Reads : (b : ℕ) (p : Bytes) → NotCr b → LeavesRest Reads p (expect_byte b p)
unfolding expect_byte
expect_byte-Reads b [] n = tt
expect_byte-Reads b (c ∷ p) n = elim (Bool-cases (c == b)) [
  | inl e ↦ rw e (Reads-cons c (ground arith) (Reads-refl p))
  | inr e ↦ rw e tt
]

LeavesRest-extend :
    {p q : Bytes} → Reads p q → (m : Option Bytes) → LeavesRest Reads q m → LeavesRest Reads p m
LeavesRest-extend r none h = tt
LeavesRest-extend r (some rest) h = Reads-trans r h

LeavesRest-bind :
    (p : Bytes) (m : Option Bytes) (k : Bytes → Option Bytes)
    → LeavesRest Reads p m
    → ((q : Bytes) → LeavesRest Reads q (k q))
    → LeavesRest Reads p (m >>= k)
LeavesRest-bind p none k h f = tt
LeavesRest-bind p (some q) k h f = LeavesRest-extend h (k q) (f q)

expect_bytes-Reads : (bs p : Bytes) → All NotCr bs → LeavesRest Reads p (expect_bytes bs p)
unfolding expect_bytes
expect_bytes-Reads [] p n = Reads-refl p
expect_bytes-Reads (b ∷ bs) p n =
    LeavesRest-bind p (expect_byte b p) (expect_bytes bs) (expect_byte-Reads b p n.0)
      (λ q. expect_bytes-Reads bs q n.1)

read_version-Reads : (p : Bytes) → Leaves Reads p (read_version p)
unfolding read_version
read_version-Reads [] = tt
read_version-Reads (c ∷ p) =
    Leaves-if Reads (c ∷ p) (c == b'0' || c == b'1') _ _
      (λ ok. Reads-cons c (ground arith) (Reads-refl p)) (λ _. tt)

-- `expect_crlf` ends the line.
expect_crlf-Line :
    {B : Type 0} (p : Bytes) (k : B) → Leaves Line p (do q ← expect_crlf p; some (k, q))
unfolding expect_crlf
expect_crlf-Line [] k = tt
expect_crlf-Line (a ∷ []) k = tt
expect_crlf-Line (a ∷ b ∷ p) k = elim (Bool-cases (a == b'\r' && b == b'\n')) [
  | inl e ↦ rw e (record { used = []; not_cr = tt; splits = ground arith })
  | inr e ↦ rw e tt
]

-- A request line that parses is the first line of the input, and the parser stands behind it.
pub parse_request_line-Line :
    (req : HttpRequest) (p : Bytes) → Leaves Line p (parse_request_line req p)
unfolding parse_request_line
parse_request_line-Line req p =
    Leaves-bind Line line_extend p _ _ (read_token-Reads max_method p) λ method p1.
      Leaves-rest Line line_extend p1 _ _ (expect_byte-Reads b' ' p1 (omega arith)) λ p2.
        Leaves-bind Line line_extend p2 _ _ (path_loop-Reads 0 p2) λ path p3.
          Leaves-rest Line line_extend p3 _ _ (expect_byte-Reads b' ' p3 (omega arith)) λ p4.
            Leaves-guard Line p4 (is_path_start path) _ (
              Leaves-rest Line line_extend p4 _ _
                (expect_bytes-Reads (codes "HTTP/1.") p4 (omega arith))
                λ p5.
                  Leaves-bind Line line_extend p5 _ _ (read_version-Reads p5)
                    λ minor p6. expect_crlf-Line p6 _)

name_loop-Reads : (p : Bytes) → Leaves Reads p (name_loop p)
unfolding name_loop
name_loop-Reads [] = Reads-refl []
name_loop-Reads (c ∷ p) =
    Leaves-if Reads (c ∷ p) (c == b':') _ _ (λ _. Reads-refl (c ∷ p))
      λ _.
        Leaves-if Reads (c ∷ p) (is_token_char c) _ _
          (λ t. Leaves-more p c _ (token-NotCr c t) (name_loop-Reads p)) (λ _. tt)

skip_blanks-Reads : (p : Bytes) → Reads p (skip_blanks p)
unfolding skip_blanks
skip_blanks-Reads [] = Reads-refl []
skip_blanks-Reads (c ∷ p) = elim (Bool-cases (is_blank c)) [
  | inl e ↦ rw e (Reads-cons c (ground arith) (skip_blanks-Reads p))
  | inr e ↦ rw e (Reads-refl (c ∷ p))
]

parse_header_name-Reads : (p : Bytes) → Leaves Reads p (parse_header_name p)
unfolding parse_header_name
parse_header_name-Reads p = Leaves-bind Reads reads_extend p _ _ (name_loop-Reads p) λ name q.
    Leaves-guard Reads q _ _ (
      Leaves-rest Reads reads_extend q _ _ (expect_byte-Reads b':' q (omega arith))
        λ r. skip_blanks-Reads r)

value_loop-Reads : (p : Bytes) → Leaves Reads p (value_loop p)
unfolding value_loop
value_loop-Reads [] = Reads-refl []
value_loop-Reads (c ∷ p) =
    Leaves-if Reads (c ∷ p) (c == b'\r' || c == b'\n') _ _ (λ _. Reads-refl (c ∷ p))
      λ other.
        Leaves-if Reads (c ∷ p) (is_value_byte c) _ _
          (λ _. Leaves-more p c _ (ground arith) (value_loop-Reads p)) (λ _. tt)

parse_header_value-Reads : (p : Bytes) → Leaves Reads p (parse_header_value p)
unfolding parse_header_value
parse_header_value-Reads p =
    Leaves-bind Reads reads_extend p _ _ (value_loop-Reads p) λ value q. Reads-refl q

-- A header line that parses is the first line of the input.
pub parse_header_line-Line : (p : Bytes) → Leaves Line p (parse_header_line p)
unfolding parse_header_line
parse_header_line-Line p = Leaves-bind Line line_extend p _ _ (parse_header_name-Reads p) λ name p1.
    Leaves-bind Line line_extend p1 _ _ (parse_header_value-Reads p1)
      λ value p2. expect_crlf-Line p2 _
